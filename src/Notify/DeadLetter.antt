-- ===== src/Notify/DeadLetter.antt =====
-- The dead letters, `failed_notifications` of backend/app/db/postgres.py. A payload is its JSON
-- text. Times and the backoff base are milliseconds.
pub mod Budget
use transaction_monitoring_s.Prelude.{
  ℕ, ◌+◌, ◌-◌, ◌*◌, ◌^◌, min, String, Bool, true, false, Option, none, some, List, [], ◌∷◌, leb,
  ltb, ◌&&◌, not, keep, if◌then◌else◌, take,
}
use transaction_monitoring_s.Notify.Ledger.{Key, key_eq, band_rank}

pub record Failed : Type 0 where
  pub key : Key
  pub band : String
  pub rank : ℕ
  pub group : Option String
  pub payload : String
  pub attempts : ℕ
  pub abandoned : Bool
  pub first_failed_at : ℕ
  pub last_attempt_at : ℕ

unfoldable pub find : Key → List Failed → Option Failed
find k [] = none
find k (f ∷ fs) = if key_eq f.key k then some f else find k fs

-- `UPDATE … WHERE network = $1 AND tx_hash = $2 AND source = $3`
unfoldable pub update : Key → (Failed → Failed) → List Failed → List Failed
update k g [] = []
update k g (f ∷ fs) = (if key_eq f.key k then g f else f) ∷ update k g fs

-- The `DO UPDATE … WHERE band_rank < EXCLUDED.band_rank` of a conflict. `attempts` and the times
-- are not among the columns that it sets.
unfoldable pub escalate : String → ℕ → String → Option String → Failed → Failed
escalate band rank payload group f =
    if ltb f.rank rank
    then record f { band = band; rank = rank; group = group; payload = payload; abandoned = false }
    else f

-- The row of an `INSERT`, with the defaults of the table.
abbrev pub first_failure : ℕ → Key → String → ℕ → String → Option String → Failed
first_failure now k band rank payload group = record {
  key = k;
  band = band;
  rank = rank;
  group = group;
  payload = payload;
  attempts = 1;
  abandoned = false;
  first_failed_at = now;
  last_attempt_at = now;
}

-- The upsert at a known rank, on the row that is there.
abbrev pub file :
    ℕ → Key → String → String → Option String → ℕ → Option Failed → List Failed → List Failed
file now k band payload group r none fs = first_failure now k band r payload group ∷ fs
file now k band payload group r (some f) fs = update k (escalate band r payload group) fs

unfoldable pub record_failed_notification :
    ℕ → Key → String → String → Option String → List Failed → List Failed
record_failed_notification now k band payload group fs = elim (band_rank band) [
  | none ↦ fs
  | some r ↦ file now k band payload group r (find k fs) fs
]

-- `last_attempt_at + base * 2 ^ LEAST(attempts - 1, 6) <= now`, for a row that is not abandoned.
unfoldable pub is_due : ℕ → ℕ → Failed → Bool
is_due base_backoff now f =
    not f.abandoned && leb (f.last_attempt_at + base_backoff * 2 ^ min (f.attempts - 1) 6) now

-- `ORDER BY first_failed_at`
unfoldable pub insert_by_age : Failed → List Failed → List Failed
insert_by_age f [] = f ∷ []
insert_by_age f (g ∷ gs) =
    if leb f.first_failed_at g.first_failed_at then f ∷ g ∷ gs else g ∷ insert_by_age f gs

unfoldable pub by_age : List Failed → List Failed
by_age [] = []
by_age (f ∷ fs) = insert_by_age f (by_age fs)

unfoldable pub due_failed_notifications : ℕ → ℕ → ℕ → List Failed → List Failed
due_failed_notifications base_backoff limit now fs =
    take limit (by_age (keep (is_due base_backoff now) fs))

unfoldable pub mark_failed_attempt : ℕ → Key → Bool → List Failed → List Failed
unfolding update
mark_failed_attempt now k abandoned =
    update k
      (λ f. record f { attempts = f.attempts + 1; last_attempt_at = now; abandoned = abandoned })

unfoldable pub delete_failed_notification : Key → List Failed → List Failed
delete_failed_notification k = keep (λ f. not (key_eq f.key k))

unfoldable pub prune_failed_notifications : ℕ → ℕ → List Failed → List Failed
prune_failed_notifications now older_than_days =
    keep (λ f. not (f.abandoned && ltb (f.last_attempt_at + older_than_days * 86_400_000) now))

-- `_count_failed_attempt` of backend/app/tasks/notifications.py, on the row that the sweep read.
unfoldable pub count_failed_attempt : ℕ → ℕ → Failed → List Failed → List Failed
unfolding mark_failed_attempt
count_failed_attempt max_attempts now row =
    mark_failed_attempt now row.key (leb max_attempts (row.attempts + 1))
