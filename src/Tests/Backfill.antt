-- ===== src/Tests/Backfill.antt =====
-- Three targets: one in the block before the socket closes, one after the reconnect, and one in no
-- block.
use transaction_monitoring_s.Prelude.{
  ℕ, String, ◌≡◌, refl, true, some, List, [], ◌∷◌, ◌==◌, if◌then◌else◌,
}
use transaction_monitoring_s.Backfill.{
  BlockTx, Message, forward, backward, found, Session, Env, Walk, Kupo, BackfillResult, returned,
  backfill_address, hashes, latest_slot, sessions, connect, walk, ingest_block_targets,
  take_targets, store_targets, insert_with_retry, insert_attempts,
}
use transaction_monitoring_s.KupoClient.{TxPoint}
use transaction_monitoring_s.Backfill.Accounts.{Accounts, backfill_address-Accounts}

abbrev env : Env
env = record {
  raw_store_enabled = true;
  raw_data_max_bytes = 9;
  max_retries = 2;
  resolves = λ slot. true;
  raw_up = λ slot. true;
  preserves = λ id. true;
  insert_answers = λ slot attempt. true;
}

abbrev point : String → ℕ → TxPoint
point h slot = record { tx_hash = h; slot = slot; header_hash = "f" }

abbrev points : List TxPoint
points = point "a" 10 ∷ point "b" 20 ∷ point "c" 30 ∷ []

abbrev tx : String → BlockTx
tx id = record { id = some id; is_parsed = true }

abbrev block : ℕ → List BlockTx → Message
block slot txs = forward (record { slot = some slot; transactions = txs })

abbrev session : ℕ → Session
session k = record {
  opens = true;
  has_slot_times = true;
  intersection = found;
  messages =
      block 10 (tx "x" ∷ tx "a" ∷ [])
      ∷ backward
      ∷ (if k == 0 then [] else block 20 (tx "b" ∷ []) ∷ block 31 [] ∷ []);
}

abbrev stores : Walk
stores = record {
  seen = [];
  blocks_scanned = 0;
  txs_ingested = 0;
  transactions = "old" ∷ [];
  raw_files = [];
  parse_failed_files = [];
}

abbrev kupo : Kupo
kupo = record { is_reliable = true; has_anchor = true }

abbrev result : BackfillResult
result = record {
  requested_txs = 3;
  blocks_scanned = 3;
  txs_ingested = 2;
  missing_tx_hashes = "c" ∷ [];
  degraded = [];
}

abbrev after : Walk
after = record {
  seen = "a" ∷ "b" ∷ [];
  blocks_scanned = 3;
  txs_ingested = 2;
  transactions = "old" ∷ "a" ∷ "b" ∷ [];
  raw_files = "b" ∷ "a" ∷ [];
  parse_failed_files = [];
}

backfills : backfill_address env points kupo session stores ≡ returned result after
unfolding backfill_address hashes latest_slot sessions connect walk ingest_block_targets
    take_targets store_targets insert_with_retry insert_attempts
backfills = refl

backfill_address-Accounts_example : Accounts (hashes points) ("old" ∷ []) result after
backfill_address-Accounts_example =
    backfill_address-Accounts env points kupo session stores result after backfills
