-- ===== src/ChainSync/Quarantine.antt =====
-- `_quarantine_undecodable_block` of backend/app/ingestion/ogmios_client.py, with `scan_block_header`
-- of backend/app/ingestion/ogmios_rpc.py and `record_quarantined_block` of backend/app/db/postgres.py.
-- What the patterns find and what `json.loads` makes of a text, or raises, are parameters.
pub mod Salvaged
use transaction_monitoring_s.Prelude.{
  ℕ, String, Bool, true, false, Option, none, some, List, [], ◌∷◌, str_eq, not, ◌||◌, if◌then◌else◌,
  length,
}
use transaction_monitoring_s.Prelude.Assoc.{Assoc, insert}
use transaction_monitoring_s.ChainSync.{
  Point, World, Outcome, done, raised, MempoolMonitor, BlockTx,
}
use transaction_monitoring_s.ChainSync.Forward.{Env, Block, handle_roll_forward}
use transaction_monitoring_s.Rpc.{Text, header_segment, recover_transactions}

-- A row of `quarantined_blocks`, less its diagnostics.
pub record QuarantinedBlock : Type 0 where
  pub slot : ℕ
  pub txs_recovered : ℕ
  pub txs_lost : ℕ

-- The table by the block's id, the BLOCK_QUARANTINED events, last first, and the handler's world.
pub record Quarantine (M : Type 0) : Type 0 where
  pub quarantined_blocks : Assoc QuarantinedBlock
  pub emitted : List Point
  pub outcome : Outcome M

-- The first group of each pattern of a text, as a number where the code reads one.
pub record Patterns : Type 0 where
  pub block_id : Text → Option String
  pub block_slot : Text → Option ℕ
  pub block_height : Text → Option ℕ

pub record Header : Type 0 where
  pub id : Option String
  pub slot : Option ℕ
  pub height : Option ℕ

abbrev pub height_or_0 : Option ℕ → ℕ
height_or_0 none = 0
height_or_0 (some h) = h

module _ (patterns : Patterns) where
  abbrev pub header_in : Option Text → Header
  header_in none = record { id = none; slot = none; height = none }
  header_in (some text) = record {
    id = patterns.block_id text;
    slot = patterns.block_slot text;
    height = patterns.block_height text;
  }

  unfoldable pub scan_block_header : Text → Header
  scan_block_header raw = header_in (header_segment raw)

module _ {M : Type 0} (monitor : MempoolMonitor M) (env : Env) (record_up : Bool) where
  -- The block of what was recovered goes the way of every block; it brings no tip.
  abbrev pub rebuilt : String → ℕ → ℕ → List BlockTx → Block
  rebuilt id slot height txs = record {
    id = id;
    slot = some slot;
    height = height;
    transactions = txs;
    tip_slot = none;
  }

  unfoldable pub salvage :
      String
      → ℕ
      → ℕ
      → List BlockTx × ℕ
      → Assoc QuarantinedBlock
      → List Point
      → World M
      → Quarantine M
  salvage id slot height (txs, lost) rows emitted w =
      if record_up
      then record {
        quarantined_blocks =
            insert id (record { slot = slot; txs_recovered = length txs; txs_lost = lost }) rows;
        emitted = record { slot = slot; id = id } ∷ emitted;
        outcome = handle_roll_forward monitor env (rebuilt id slot height txs) w;
      }
      else record { quarantined_blocks = rows; emitted = emitted; outcome = raised w }

  -- Without an id or a slot the handler raises before it writes anything.
  abbrev pub at_header :
      Option String
      → Option ℕ
      → ℕ
      → List BlockTx × ℕ
      → Assoc QuarantinedBlock
      → List Point
      → World M
      → Quarantine M
  at_header (some id) (some slot) height found rows emitted w =
      if str_eq id ""
      then record { quarantined_blocks = rows; emitted = emitted; outcome = raised w }
      else salvage id slot height found rows emitted w
  at_header id slot height found rows emitted w = record {
    quarantined_blocks = rows;
    emitted = emitted;
    outcome = raised w;
  }

  unfoldable pub quarantine_undecodable_block :
      Patterns
      → (Text → Option BlockTx)
      → Text
      → Assoc QuarantinedBlock
      → List Point
      → World M
      → Quarantine M
  quarantine_undecodable_block patterns loads raw rows emitted w =
      let header = scan_block_header patterns raw in
      at_header header.id header.slot (height_or_0 header.height) (recover_transactions loads raw)
        rows emitted w
