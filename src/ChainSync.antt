-- ===== src/ChainSync.antt =====
-- The chain-sync client, `OgmiosClient` of backend/app/ingestion/ogmios_client.py, on one network:
-- the tables of PostgreSQL and ClickHouse that it writes and the part of its own state that it
-- keeps. The transactions' amounts, scripts and timestamps and the log lines are left out.
pub mod Insert
pub mod Forward
pub mod Backward
pub mod Health
pub mod Quarantine
use transaction_monitoring_s.Prelude.{
  ℕ, String, Bool, Option, List, any, str_eq, ◌&&◌, ◌==◌, if◌then◌else◌, some, none, true, false,
  ◌≡◌,
}
use transaction_monitoring_s.Lifecycle.{Table}

-- A row of `sync_checkpoint`, and a point of the chain.
pub record Point : Type 0 where
  pub slot : ℕ
  pub id : String

-- A row of ClickHouse's `transactions`. Rows that the engine will merge are kept apart.
pub record Stored : Type 0 where
  pub tx_hash : String
  pub slot : ℕ

-- `M` is the mempool monitor's state.
pub record World (M : Type 0) : Type 0 where
  pub lifecycle : Table
  pub sync_point : Option Point
  pub pending_score_repurges : List String
  pub transactions : List Stored
  pub tx_class_scores : List String
  pub clustering_rows : List String
  pub raw_files : List String
  pub parse_failed_files : List String
  pub tip_slot : Option ℕ
  pub last_processed_slot : Option ℕ
  pub last_block_at : Option ℕ
  pub mempool : M
  -- the hashes of each delayed repurge that is scheduled
  pub repurge_tasks : List (List String)
  -- the rollback points of the TX_ROLLED_BACK events, last first
  pub events : List Point

-- A handler returns, or an exception leaves it; what it wrote before stays written.
pub data Outcome (M : Type 0) : Type 0 where
  done : World M → Outcome M
  raised : World M → Outcome M

-- The part of a `TransactionInput` that the mempool monitor reads; an unresolved address is "".
pub record Input : Type 0 where
  pub tx_hash : String
  pub index : ℕ
  pub is_collateral : Bool
  pub is_reference : Bool
  pub address : String

-- A transaction of a block, which is an object, as Ogmios sends it; whether
-- `parse_ogmios_transaction` returns on it, and what it returns.
pub record BlockTx : Type 0 where
  pub id : String
  pub is_parsed : Bool
  pub has_raw_data : Bool
  pub script_valid : Bool
  pub inputs : List Input
  pub fee : Option ℕ

-- The calls of the mempool monitor, of which those that touch the database may raise.
pub record MempoolMonitor (M : Type 0) : Type 0 where
  pub record_displacements : List BlockTx → ℕ → M → Option M
  pub settle_confirmed : List BlockTx → ℕ → Point → M → Option M
  pub consume_enrichment : String → M → M
  pub clear_on_rollback : M → M

module _ {M : Type 0} where
  -- The statements after one that may raise.
  abbrev pub and_then : Outcome M → (World M → Outcome M) → Outcome M
  and_then (done w) f = f w
  and_then (raised w) f = raised w

-- The tip that a message names, if it does.
abbrev pub tip_of : Option ℕ → Option ℕ → Option ℕ
tip_of none old = old
tip_of (some s) old = some s

module _ {M : Type 0} where
  -- `save_sync_point`, which does not raise if the database answers.
  unfoldable pub save_sync_point : Bool → Point → World M → Outcome M
  save_sync_point is_up p w = if is_up then done (record w { sync_point = some p }) else raised w

module _ {M : Type 0} (D R : World M → Type 0) where
  -- What holds of the world after a statement, whether it returns or raises.
  abbrev pub Post : Outcome M → Type 0
  Post (done w) = D w
  Post (raised w) = R w

module _ {M : Type 0} (E D R R' : World M → Type 0) where
  pub and_then-Post :
      (f : World M → Outcome M) (o : Outcome M)
      → Post E R o
      → ((w : World M) → R w → R' w)
      → ((w : World M) → E w → Post D R' (f w))
      → Post D R' (and_then o f)
  and_then-Post f (done w) e r h = h w e
  and_then-Post f (raised w) e r h = r w e

module _ {M : Type 0} (R R' D : World M → Type 0) where
  pub Post-weaken : (o : Outcome M) → ((w : World M) → R w → R' w) → Post D R o → Post D R' o
  Post-weaken (done w) f h = h
  Post-weaken (raised w) f h = f w h

abbrev pub is_done : {M : Type 0} → Outcome M → Bool
is_done (done w) = true
is_done (raised w) = false

-- The world that a handler leaves behind.
abbrev pub final : {M : Type 0} → Outcome M → World M
final (done w) = w
final (raised w) = w

pub and_then-done :
    {M : Type 0} (f : World M → Outcome M) (o : Outcome M)
    → is_done o ≡ true
    → ((w : World M) → is_done (f w) ≡ true)
    → is_done (and_then o f) ≡ true
and_then-done f (done w) h k = k w
and_then-done f (raised w) h k = cc
