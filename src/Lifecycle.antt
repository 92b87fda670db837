-- ===== src/Lifecycle.antt =====
-- The `tx_lifecycle` table of backend/app/db/postgres.py: one row for each transaction, and the
-- SQL statements that move it between PENDING, CONFIRMED, ROLLED_BACK and DROPPED. Times are
-- milliseconds, as natural numbers; `now` is the statement's CURRENT_TIMESTAMP. The column
-- `created_at`, which a default sets and no statement reads, is left out.
pub mod Machine
pub mod Rollback
pub mod Replay
use transaction_monitoring_s.Prelude.{
  ℕ, ◌+◌, ◌*◌, String, Bool, true, false, Option, none, some, List, [], ◌∷◌, ltb, str_eq, ◌&&◌,
  if◌then◌else◌, is_some,
}
use transaction_monitoring_s.Prelude.Assoc.{Assoc, lookup, insert, map_rows, delete_rows}
use transaction_monitoring_s.Prelude.Int.{ℤ, sub_ℕ}

-- `LifecycleStatus`
pub data Status : Type 0 where
  pending confirmed rolled_back dropped : Status

pub record Row : Type 0 where
  pub network : String
  pub status : Status
  pub first_seen_at : Option ℕ
  pub confirmed_at : Option ℕ
  pub rolled_back_at : Option ℕ
  pub dropped_at : Option ℕ
  pub block_hash : Option String
  pub slot : Option ℕ
  pub height : Option ℕ
  pub latency_ms : Option ℤ
  pub updated_at : ℕ

-- Keyed by `tx_id`, the primary key.
abbrev pub Table : Type 0
Table = Assoc Row

-- `ON CONFLICT (tx_id) DO NOTHING`
unfoldable pub upsert_lifecycle_pending : ℕ → String → String → ℕ → Table → Table
upsert_lifecycle_pending now tx_id network first_seen_at t =
    if is_some (lookup tx_id t)
    then t
    else insert tx_id
        (record {
          network = network;
          status = pending;
          first_seen_at = some first_seen_at;
          confirmed_at = none;
          rolled_back_at = none;
          dropped_at = none;
          block_hash = none;
          slot = none;
          height = none;
          latency_ms = none;
          updated_at = now;
        })
        t

-- One confirmed transaction of a block.
pub record Confirmation : Type 0 where
  pub tx_id : String
  pub network : String
  pub confirmed_at : ℕ
  pub block_hash : String
  pub slot : ℕ
  pub height : ℕ

-- `EXTRACT(EPOCH FROM ($3 - first_seen_at)) * 1000`, or NULL
abbrev pub latency : ℕ → Option ℕ → Option ℤ
latency confirmed_at none = none
latency confirmed_at (some seen) = some (sub_ℕ confirmed_at seen)

-- The row after the upsert of a confirmation: inserted, or updated in place. The update leaves
-- `network`, `first_seen_at` and `dropped_at` as they are.
unfoldable pub confirm_row : ℕ → Confirmation → Option Row → Row
confirm_row now c none = record {
  network = c.network;
  status = confirmed;
  first_seen_at = none;
  confirmed_at = some c.confirmed_at;
  rolled_back_at = none;
  dropped_at = none;
  block_hash = some c.block_hash;
  slot = some c.slot;
  height = some c.height;
  latency_ms = none;
  updated_at = now;
}
confirm_row now c (some r) = record r {
  status = confirmed;
  confirmed_at = some c.confirmed_at;
  block_hash = some c.block_hash;
  slot = some c.slot;
  height = some c.height;
  rolled_back_at = none;
  latency_ms = latency c.confirmed_at r.first_seen_at;
  updated_at = now;
}

unfoldable pub upsert_lifecycle_confirmed : ℕ → Confirmation → Table → Table
unfolding confirm_row
upsert_lifecycle_confirmed now c t = insert c.tx_id (confirm_row now c (lookup c.tx_id t)) t

-- `executemany`: the same statement for each record, in order.
unfoldable pub batch_upsert_lifecycle_confirmed : ℕ → List Confirmation → Table → Table
batch_upsert_lifecycle_confirmed now [] t = t
batch_upsert_lifecycle_confirmed now (c ∷ cs) t =
    batch_upsert_lifecycle_confirmed now cs (upsert_lifecycle_confirmed now c t)

abbrev pub is_confirmed : Status → Bool
is_confirmed confirmed = true
is_confirmed _ = false

abbrev pub is_pending : Status → Bool
is_pending pending = true
is_pending _ = false

-- A comparison with NULL is not true.
abbrev pub after_slot : ℕ → Option ℕ → Bool
after_slot s none = false
after_slot s (some t) = ltb s t

unfoldable pub roll_back_row : ℕ → ℕ → String → Row → Row
roll_back_row now rollback_slot network r =
    if str_eq r.network network && after_slot rollback_slot r.slot && is_confirmed r.status
    then record r { status = rolled_back; rolled_back_at = some now; updated_at = now }
    else r

unfoldable pub mark_lifecycle_rolled_back : ℕ → ℕ → String → Table → Table
unfolding roll_back_row
mark_lifecycle_rolled_back now rollback_slot network =
    map_rows (roll_back_row now rollback_slot network)

-- `first_seen_at < NOW() - seconds`, written without the subtraction.
abbrev pub seen_before : ℕ → ℕ → Option ℕ → Bool
seen_before now age none = false
seen_before now age (some t) = ltb (t + age) now

unfoldable pub drop_row : ℕ → String → ℕ → Row → Row
drop_row now network older_than_seconds r =
    if str_eq r.network network
      && is_pending r.status
      && seen_before now (older_than_seconds * 1000) r.first_seen_at
    then record r { status = dropped; dropped_at = some now; updated_at = now }
    else r

unfoldable pub mark_dropped_pending_txs : ℕ → String → ℕ → Table → Table
unfolding drop_row
mark_dropped_pending_txs now network older_than_seconds =
    map_rows (drop_row now network older_than_seconds)

abbrev pub is_terminal : Status → Bool
is_terminal rolled_back = true
is_terminal dropped = true
is_terminal _ = false

abbrev pub is_expired : ℕ → String → ℕ → Row → Bool
is_expired now network older_than_days r =
    str_eq r.network network
    && is_terminal r.status
    && ltb (r.updated_at + older_than_days * 86_400_000) now

-- `DELETE FROM tx_lifecycle WHERE …`
unfoldable pub prune_terminal_lifecycle : ℕ → String → ℕ → Table → Table
prune_terminal_lifecycle now network older_than_days =
    delete_rows (is_expired now network older_than_days)
