-- ===== src/Mempool/Monitor/Pairs.antt =====
-- The rows of one pair of transactions in the collision table, and what one displacement adds to
-- them: `record_displacements` of backend/app/ingestion/mempool_monitor.py.
use transaction_monitoring_s.Prelude.{
  ℕ, String, Bool, Option, none, some, List, [], ◌∷◌, ◌++◌, ◌≡◌, refl, ◌∙◌, ap, keep, map, str_eq,
  ◌&&◌, if◌then◌else◌, arith, eq_iff,
}
use mathlib.Core.List.{append-nil}
use transaction_monitoring_s.ChainSync.{BlockTx}
use transaction_monitoring_s.Mempool.Pending.{Ref, Entry}
use transaction_monitoring_s.Mempool.Collisions.{
  Collision, both_pending, insert_mempool_collision, update_collision_outcome, settle_outcome,
}
use transaction_monitoring_s.Mempool.Monitor.{
  Env, displacement, record_displacement, displace_entry,
}

abbrev pub is_pair : String → String → Collision → Bool
is_pair a b row = str_eq row.tx_a a && str_eq row.tx_b b

abbrev pub unsettled : Collision → Collision
unsettled row = record row { outcome = both_pending }

-- The rows of a pair of transactions, their outcomes aside.
abbrev pub pair_rows : String → String → List Collision → List Collision
pair_rows a b rows = map unsettled (keep (is_pair a b) rows)

-- The row that a pending transaction gets for what it shares, if it has an entry.
abbrev pub row_for : Env → ℕ → BlockTx → String → Option Entry → Option (List Ref) → List Collision
row_for env now tx a none shared = []
row_for env now tx a (some e) none = []
row_for env now tx a (some e) (some []) = []
row_for env now tx a (some e) (some (r ∷ shared)) =
    displacement env.network now tx a e (r ∷ shared) ∷ []

pair_rows-append :
    (a b : String) (xs ys : List Collision)
    → pair_rows a b (xs ++ ys) ≡ pair_rows a b xs ++ pair_rows a b ys
pair_rows-append a b [] ys = refl
pair_rows-append a b (x ∷ xs) ys = ground (arith, pair_rows-append a b xs ys)

is_pair-settle_outcome :
    (a b tx network : String) (row : Collision)
    → is_pair a b (settle_outcome tx network row) ≡ is_pair a b row
unfolding settle_outcome
is_pair-settle_outcome a b tx network row = ground arith

unsettled-settle_outcome :
    (tx network : String) (row : Collision)
    → unsettled (settle_outcome tx network row) ≡ unsettled row
unfolding settle_outcome
unsettled-settle_outcome tx network row = ground arith

pair_rows-update_collision_outcome :
    (a b tx network : String) (rows : List Collision)
    → pair_rows a b (update_collision_outcome tx network rows) ≡ pair_rows a b rows
unfolding update_collision_outcome
pair_rows-update_collision_outcome a b tx network [] = refl
pair_rows-update_collision_outcome a b tx network (row ∷ rows) = ground (
  arith,
  is_pair-settle_outcome a b tx network row,
  unsettled-settle_outcome tx network row,
  pair_rows-update_collision_outcome a b tx network rows,
)

-- The row itself, if it is one of the pair and its insert succeeds.
abbrev pub inserted : Env → String → String → Collision → List Collision
inserted env a b row = if is_pair a b row && env.insert_up a b then unsettled row ∷ [] else []

pair_rows-record_displacement :
    (env : Env) (a b : String) (row : Collision) (rows : List Collision)
    → pair_rows a b (record_displacement env row rows) ≡ pair_rows a b rows ++ inserted env a b row
unfolding record_displacement insert_mempool_collision
pair_rows-record_displacement env a b row rows = ground (
  arith,
  pair_rows-append a b rows (unsettled row ∷ []),
  pair_rows-update_collision_outcome a b row.tx_b env.network (rows ++ unsettled row ∷ []),
  append-nil (pair_rows a b rows),
  eq_iff row.tx_a a,
  eq_iff row.tx_b b,
)

pub pair_rows-displace_entry :
    (env : Env) (now : ℕ) (a b id : String) (tx : BlockTx) (shared : List Ref) (o : Option Entry)
    (rows : List Collision)
    → pair_rows a b (displace_entry env now tx id shared o rows)
      ≡ pair_rows a b rows
        ++ (if str_eq id a && str_eq tx.id b && env.insert_up a b
            then row_for env now tx a o (some shared)
            else [])
unfolding displace_entry
pair_rows-displace_entry env now a b id tx shared none rows =
    ground (arith, append-nil (pair_rows a b rows))
pair_rows-displace_entry env now a b id tx [] (some e) rows =
    ground (arith, append-nil (pair_rows a b rows))
pair_rows-displace_entry env now a b id tx (r ∷ shared) (some e) rows =
    pair_rows-record_displacement env a b (displacement env.network now tx id e (r ∷ shared)) rows
    ∙ ap (pair_rows a b rows ++◌) (ground (arith, eq_iff id a))
