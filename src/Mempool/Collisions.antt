-- ===== src/Mempool/Collisions.antt =====
-- The `mempool_collisions` table of backend/app/db/postgres.py and the statements that write it.
-- The columns `id` and `created_at`, which defaults set, are left out.
use transaction_monitoring_s.Prelude.{
  ℕ, String, Bool, true, false, List, [], ◌∷◌, ◌++◌, map, str_eq, ◌&&◌, ◌||◌, if◌then◌else◌,
}
use transaction_monitoring_s.Prelude.Int.{ℤ}
use transaction_monitoring_s.Mempool.Pending.{Ref}

pub data CollisionOutcome : Type 0 where
  both_pending tx_a_confirmed tx_b_confirmed : CollisionOutcome

pub record Collision : Type 0 where
  pub tx_a : String
  pub tx_b : String
  pub network : String
  pub shared_inputs : List Ref
  pub shared_count : ℕ
  pub tx_a_seen_at : ℕ
  pub tx_b_seen_at : ℕ
  pub delta_ms : ℤ
  pub outcome : CollisionOutcome
  pub tx_a_fee : ℕ
  pub tx_b_fee : ℕ
  pub tx_a_first_input_addr : String
  pub tx_b_first_input_addr : String
  pub tx_a_ttl : ℕ
  pub tx_b_ttl : ℕ

-- `outcome TEXT DEFAULT 'BOTH_PENDING'`
unfoldable pub insert_mempool_collision : Collision → List Collision → List Collision
insert_mempool_collision row rows = rows ++ record row { outcome = both_pending } ∷ []

abbrev pub is_both_pending : CollisionOutcome → Bool
is_both_pending both_pending = true
is_both_pending _ = false

-- The row after the UPDATE.
unfoldable pub settle_outcome : String → String → Collision → Collision
settle_outcome tx network row =
    if str_eq row.network network
      && (str_eq row.tx_a tx || str_eq row.tx_b tx)
      && is_both_pending row.outcome
    then record row { outcome = if str_eq row.tx_a tx then tx_a_confirmed else tx_b_confirmed }
    else row

unfoldable pub update_collision_outcome : String → String → List Collision → List Collision
update_collision_outcome tx network rows = map (settle_outcome tx network) rows
