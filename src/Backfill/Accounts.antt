-- ===== src/Backfill/Accounts.antt =====
-- The accounts of a run of `backfill_address`, backend/app/ingestion/address_backfill.py.
use transaction_monitoring_s.Prelude.{
  ℕ, ◌+◌, String, ◌≡◌, refl, Bool, true, List, [], ◌∷◌, ◌++◌, mem, length, All, arith, Bool-cases,
  inl, inr, sym, ◌∙◌, ap,
}
use mathlib.Core.List.{append-nil}
use transaction_monitoring_s.Backfill.{
  Session, Env, Walk, Step, ok, failed, hashes, latest_slot, BackfillResult, Kupo, Backfilled,
  returned, raised, fresh_walk, summary, backfill_address,
}
use transaction_monitoring_s.KupoClient.{TxPoint}
use transaction_monitoring_s.Backfill.Missing.{Unique, missing}
use transaction_monitoring_s.Backfill.Taken.{Inv}
use transaction_monitoring_s.Backfill.Settled.{Settled, sessions-Settled}

all_missing : (needed : List String) → missing needed [] ≡ needed
all_missing [] = refl
all_missing (x ∷ needed) = ap (λ (xs : List String). x ∷ xs) (all_missing needed)

hashes-Unique : (points : List TxPoint) → Unique (hashes points)
unfolding hashes
hashes-Unique [] = tt
hashes-Unique (p ∷ points) = elim (Bool-cases (mem p.tx_hash (hashes points))) [
  | inl e ↦ rw e (hashes-Unique points)
  | inr e ↦ rw e (e, hashes-Unique points)
]

fresh-Inv :
    (points : List TxPoint) (stores : Walk)
    → Inv (hashes points) stores.transactions (hashes-Unique points) [] (fresh_walk [] stores)
fresh-Inv points stores = record {
  once = tt;
  wanted = tt;
  rows = refl;
  counted = omega arith;
  balanced = omega (arith, ap length (all_missing (hashes points)));
}

-- What a result says of the stores: `seen` are the hashes that the run inserted.
pub record Accounts (needed old : List String) (r : BackfillResult) (w : Walk) : Type 0 where
  pub rows : w.transactions ≡ old ++ w.seen
  pub once : Unique w.seen
  pub wanted : All (λ h. mem h needed ≡ true) w.seen
  pub missing_rest : r.missing_tx_hashes ≡ missing needed w.seen
  pub ingested : r.txs_ingested ≡ length w.seen
  pub requested : r.requested_txs ≡ length needed
  pub balanced : r.txs_ingested + length r.missing_tx_hashes ≡ r.requested_txs

-- The accounts of an answer, if there is one.
abbrev AccountsOf : List String → List String → Backfilled → Type 0
AccountsOf needed old (returned r w) = Accounts needed old r w
AccountsOf needed old (raised w) = Unit

summary-Accounts :
    (env : Env) (points : List TxPoint) (kupo : Kupo) (timed : Bool) (stores : Walk) (s : Step)
    → Settled (hashes points) stores.transactions (hashes-Unique points) env s
    → AccountsOf (hashes points) stores.transactions (summary (hashes points) kupo timed s)
summary-Accounts env points kupo timed stores (failed u) v = tt
summary-Accounts env points kupo timed stores (ok u) v = record {
  rows = sym (append-nil u.transactions) ∙ v.rows;
  once = v.once;
  wanted = v.wanted;
  missing_rest = refl;
  ingested = omega (arith, v.counted);
  requested = refl;
  balanced = omega (arith, v.counted, v.balanced);
}

run-Accounts :
    (env : Env) (points : List TxPoint) (kupo : Kupo) (session : ℕ → Session) (stores : Walk)
    → AccountsOf
        (hashes points)
        stores.transactions
        (backfill_address env points kupo session stores)
unfolding backfill_address hashes
run-Accounts env [] kupo session stores = record {
  rows = sym (append-nil stores.transactions);
  once = tt;
  wanted = tt;
  missing_rest = refl;
  ingested = refl;
  requested = refl;
  balanced = omega arith;
}
run-Accounts env (p ∷ points) kupo session stores =
    summary-Accounts env (p ∷ points) kupo (session 0).has_slot_times stores _ (
      sessions-Settled (hashes (p ∷ points)) stores.transactions (hashes-Unique (p ∷ points)) env
        (latest_slot (p ∷ points)) 1 0 session (fresh_walk [] stores)
        (fresh-Inv (p ∷ points) stores))

-- A run that returns, whatever the node's socket sent, and with whatever blocks again after a
-- reconnect: it has inserted, after the rows that were there, targets of Kupo only, each one once;
-- the missing are the targets that it has not inserted, and the numbers of both add up to the
-- number requested.
pub backfill_address-Accounts :
    (env : Env) (points : List TxPoint) (kupo : Kupo) (session : ℕ → Session) (stores : Walk)
    (r : BackfillResult) (w : Walk)
    → backfill_address env points kupo session stores ≡ returned r w
    → Accounts (hashes points) stores.transactions r w
backfill_address-Accounts env points kupo session stores r w e =
    rw e at (run-Accounts env points kupo session stores)
