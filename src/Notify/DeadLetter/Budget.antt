-- ===== src/Notify/DeadLetter/Budget.antt =====
-- The attempt budget of a dead letter.
use native.Mathlib.Nat.{le_refl, pow-suc}
use transaction_monitoring_s.Prelude.{
  ℕ, zero, suc, ◌+◌, ◌-◌, ◌*◌, ◌^◌, ◌≤◌, ◌<◌, min, ◌≡◌, refl, String, true, false, Option, none,
  some, List, [], ◌∷◌, arith, leb, Bool-cases, inl, inr, All, length, take, keep, leb→le, ◌∙◌,
}
use transaction_monitoring_s.Notify.Ledger.{Key, band_rank}
use transaction_monitoring_s.Notify.Ledger.Claims.{key_eq_refl}
use transaction_monitoring_s.Notify.DeadLetter.{
  Failed, find, update, escalate, record_failed_notification, is_due, count_failed_attempt,
  due_failed_notifications, first_failure, file, by_age, insert_by_age,
}

-- An update that keeps the key.
find-update :
    (k : Key) (g : Failed → Failed) (fs : List Failed) {f : Failed}
    → ((x : Failed) → (g x).key ≡ x.key)
    → find k fs ≡ some f
    → find k (update k g fs) ≡ some (g f)
unfolding find update
find-update k g [] keeps h = cc
find-update k g (x ∷ fs) {f} keeps h = ground (arith, find-update k g fs {f = f} keeps, keeps x)

escalate-key :
    (band : String) (r : ℕ) (payload : String) (group : Option String) (f : Failed)
    → (escalate band r payload group f).key ≡ f.key
unfolding escalate
escalate-key band r payload group f = ground arith

escalate-rank :
    (band : String) (r : ℕ) (payload : String) (group : Option String) (f : Failed)
    → r ≤ (escalate band r payload group f).rank
unfolding escalate
escalate-rank band r payload group f = ground arith

record-known :
    (now : ℕ) (k : Key) (band payload : String) (group : Option String) (fs : List Failed) {r : ℕ}
    → band_rank band ≡ some r
    → record_failed_notification now k band payload group fs
      ≡ file now k band payload group r (find k fs) fs
unfolding record_failed_notification
record-known now k band payload group fs h = ground arith

find-file :
    (now : ℕ) (k : Key) (band payload : String) (group : Option String) (r : ℕ) (o : Option Failed)
    (fs : List Failed)
    → find k fs ≡ o
    → (f : Failed) × (find k (file now k band payload group r o fs) ≡ some f) × (r ≤ f.rank)
find-file now k band payload group r none fs e =
    (first_failure now k band r payload group, unfold find in rw key_eq_refl, le_refl r)
find-file now k band payload group r (some f) fs e = (
  escalate band r payload group f,
  find-update k (escalate band r payload group) fs (escalate-key band r payload group) e,
  escalate-rank band r payload group f,
)

-- After an alert of a known band is dead-lettered its key has a row, at least at that band.
pub find-record_failed :
    (now : ℕ) (k : Key) (band payload : String) (group : Option String) (fs : List Failed) {r : ℕ}
    → band_rank band ≡ some r
    → (f : Failed) × (find k (record_failed_notification now k band payload group fs) ≡ some f)
      × (r ≤ f.rank)
find-record_failed now k band payload group fs {r} h =
    rw (record-known now k band payload group fs h)
      (find-file now k band payload group r (find k fs) fs refl)

pow-pos : (n : ℕ) → 1 ≤ 2 ^ n
pow-pos zero = omega arith
pow-pos (suc n) = omega (arith, pow-suc 2 n, pow-pos n)

le-backoff : (base n : ℕ) → base ≤ base * 2 ^ n
le-backoff base n = let p = pow-pos n in grind arith

not-due :
    (base now t : ℕ) (f : Failed)
    → f.last_attempt_at ≡ now
    → t < now + base
    → is_due base t f ≡ false
unfolding is_due
not-due base now t f e h = ground (arith, le-backoff base (min (f.attempts - 1) 6))

-- A failed attempt is counted and timed on the row of its key, retires the row exactly when the
-- count reaches the budget, and until one backoff base later the row is not due: no row can crowd
-- the others out of the sweep.
pub count_failed_attempt_lem :
    (max_attempts base now t : ℕ) (f : Failed) (fs : List Failed)
    → find f.key fs ≡ some f
    → t < now + base
    → (g : Failed) × (find f.key (count_failed_attempt max_attempts now f fs) ≡ some g)
      × (g.attempts ≡ f.attempts + 1)
      × (g.abandoned ≡ leb max_attempts (f.attempts + 1))
      × (is_due base t g ≡ false)
unfolding count_failed_attempt
count_failed_attempt_lem max_attempts base now t f fs e h =
    let g = record f {
      attempts = f.attempts + 1;
      last_attempt_at = now;
      abandoned = leb max_attempts (f.attempts + 1);
    } in
    (
      g,
      find-update f.key
          (λ x. record x {
            attempts = x.attempts + 1;
            last_attempt_at = now;
            abandoned = leb max_attempts (f.attempts + 1);
          })
          fs (λ x. refl) e,
      refl,
      refl,
      not-due base now t g refl h,
    )

escalate_lem :
    (band : String) (r : ℕ) (payload : String) (group : Option String) (f : Failed)
    → f.rank < r
    → escalate band r payload group f
      ≡ record f { band = band; rank = r; group = group; payload = payload; abandoned = false }
unfolding escalate
escalate_lem band r payload group f h = ground arith

-- An escalation, to a known higher band, of a row whose attempts are used up or one short of it
-- revives the row with the old count of attempts, so that its next failed attempt retires it
-- again.
pub escalation_budget :
    (max_attempts now later : ℕ) (band payload : String) (group : Option String) (f : Failed)
    (fs : List Failed) {r : ℕ}
    → band_rank band ≡ some r
    → f.rank < r
    → find f.key fs ≡ some f
    → max_attempts ≤ f.attempts + 1
    → (g : Failed) × (find f.key (record_failed_notification now f.key band payload group fs)
        ≡ some g)
      × (g.attempts ≡ f.attempts)
      × (g.abandoned ≡ false)
      × ((h : Failed) × (find f.key (
              count_failed_attempt max_attempts later g
                (record_failed_notification now f.key band payload group fs))
            ≡ some h)
          × (h.abandoned ≡ true))
escalation_budget max_attempts now later band payload group f fs {r} known higher there spent =
    let g = record f {
      band = band;
      rank = r;
      group = group;
      payload = payload;
      abandoned = false;
    } in
    let e : find f.key (record_failed_notification now f.key band payload group fs) ≡ some g =
      rw (record-known now f.key band payload group fs known, there)
        (find-update f.key (escalate band r payload group) fs (escalate-key band r payload group)
            there
          ∙ rw (escalate_lem band r payload group f higher)) in
    let (h, at, n, gone, d) =
      count_failed_attempt_lem max_attempts 1 later later g
        (record_failed_notification now f.key band payload group fs) e (omega arith) in
    (g, e, refl, refl, (h, at, rw gone (ground arith)))

-- Oldest first.
abbrev pub IsByAge : List Failed → Type 0
IsByAge [] = Unit
IsByAge (f ∷ fs) = All (λ g. f.first_failed_at ≤ g.first_failed_at) fs × IsByAge fs

abbrev pub IsDue : ℕ → ℕ → List Failed → Type 0
IsDue base now = All (λ f. is_due base now f ≡ true)

All-insert_by_age :
    (P : Failed → Type 0) (f : Failed) (fs : List Failed)
    → P f
    → All P fs
    → All P (insert_by_age f fs)
unfolding insert_by_age
All-insert_by_age P f [] h hs = (h, tt)
All-insert_by_age P f (g ∷ gs) h hs = elim (Bool-cases (leb f.first_failed_at g.first_failed_at)) [
  | inl le ↦ rw le (h, hs)
  | inr gt ↦ rw gt (hs.0, All-insert_by_age P f gs h hs.1)
]

All-le :
    (a b : ℕ) (gs : List Failed)
    → a ≤ b
    → All (λ g. b ≤ g.first_failed_at) gs
    → All (λ g. a ≤ g.first_failed_at) gs
All-le a b [] h hs = tt
All-le a b (g ∷ gs) h hs = (omega arith, All-le a b gs h hs.1)

insert_by_age-IsByAge : (f : Failed) (fs : List Failed) → IsByAge fs → IsByAge (insert_by_age f fs)
unfolding insert_by_age
insert_by_age-IsByAge f [] s = (tt, tt)
insert_by_age-IsByAge f (g ∷ gs) s = elim (Bool-cases (leb f.first_failed_at g.first_failed_at)) [
  | inl le ↦
      let h = leb→le f.first_failed_at g.first_failed_at le in
      rw le ((h, All-le f.first_failed_at g.first_failed_at gs h s.0), s)
  | inr gt ↦ rw gt (
    All-insert_by_age (λ x. g.first_failed_at ≤ x.first_failed_at) f gs (ground arith) s.0,
    insert_by_age-IsByAge f gs s.1,
  )
]

by_age_lem :
    (base now : ℕ) (fs : List Failed)
    → IsDue base now fs
    → IsByAge (by_age fs) × IsDue base now (by_age fs)
unfolding by_age
by_age_lem base now [] h = (tt, tt)
by_age_lem base now (f ∷ fs) h =
    let (s, d) = by_age_lem base now fs h.1 in
    (
      insert_by_age-IsByAge f (by_age fs) s,
      All-insert_by_age (λ x. is_due base now x ≡ true) f (by_age fs) h.0 d,
    )

keep-IsDue : (base now : ℕ) (fs : List Failed) → IsDue base now (keep (is_due base now) fs)
keep-IsDue base now [] = tt
keep-IsDue base now (f ∷ fs) = ground (arith, keep-IsDue base now fs)

All-take : (P : Failed → Type 0) (n : ℕ) (fs : List Failed) → All P fs → All P (take n fs)
All-take P zero fs h = tt
All-take P (suc n) [] h = tt
All-take P (suc n) (f ∷ fs) h = (h.0, All-take P n fs h.1)

take_lem : (n : ℕ) (fs : List Failed) → IsByAge fs → IsByAge (take n fs) × (length (take n fs) ≤ n)
take_lem zero fs s = (tt, omega arith)
take_lem (suc n) [] s = (tt, omega arith)
take_lem (suc n) (f ∷ fs) s =
    let (t, l) = take_lem n fs s.1 in
    ((All-take (λ g. f.first_failed_at ≤ g.first_failed_at) n fs s.0, t), omega arith)

-- The sweep reads at most `limit` rows, all due and none abandoned, oldest first.
due_failed_notifications_lem :
    (base limit now : ℕ) (fs : List Failed)
    → IsByAge (due_failed_notifications base limit now fs)
      × IsDue base now (due_failed_notifications base limit now fs)
      × (length (due_failed_notifications base limit now fs) ≤ limit)
unfolding due_failed_notifications
due_failed_notifications_lem base limit now fs =
    let (s, d) = by_age_lem base now (keep (is_due base now) fs) (keep-IsDue base now fs) in
    let (t, l) = take_lem limit (by_age (keep (is_due base now) fs)) s in
    (t, All-take (λ f. is_due base now f ≡ true) limit (by_age (keep (is_due base now) fs)) d, l)
