-- ===== src/ChainSync/Forward.antt =====
-- `_handle_roll_forward` of backend/app/ingestion/ogmios_client.py with `_parse_block_txs` and
-- `_write_raw_payloads`. Whether each call from outside succeeds while the block is handled is an
-- `Env`; `resolve_input_amounts`, which changes amounts only and whose errors are caught, is left
-- out.
pub mod Checkpoint
use transaction_monitoring_s.Prelude.{
  ℕ, String, Bool, true, false, Option, none, some, List, [], ◌∷◌, ◌++◌, map, keep, ltb, not, ◌&&◌,
  if◌then◌else◌,
}
use transaction_monitoring_s.Lifecycle.{Confirmation, batch_upsert_lifecycle_confirmed}
use transaction_monitoring_s.ChainSync.{
  Point, Stored, World, Outcome, done, raised, MempoolMonitor, and_then, save_sync_point, tip_of,
  BlockTx,
}
use transaction_monitoring_s.ChainSync.Insert.{Settings, Tried, insert_block_with_retry}

pub record Block : Type 0 where
  pub id : String
  pub slot : Option ℕ
  pub height : ℕ
  pub transactions : List BlockTx
  pub tip_slot : Option ℕ

pub record Env : Type 0 where
  pub network : String
  pub now : ℕ
  pub raw_store_enabled : Bool
  pub raw_data_max_bytes : ℕ
  pub insert_settings : Settings
  -- whether the raw store takes the payload of a hash
  pub raw_write : String → Bool
  -- which of the attempts ClickHouse takes
  pub insert_answers : ℕ → Bool
  pub lifecycle_up : Bool
  pub checkpoint_up : Bool

abbrev pub hashes : List BlockTx → List String
hashes = map (λ t. t.id)

-- The transactions that parse.
abbrev pub parsed : List BlockTx → List BlockTx
parsed = keep (λ t. t.is_parsed)

-- `_parse_block_txs`, as it changes the stores: the payloads that do not parse are preserved, under
-- their id.
unfoldable pub parse_block_txs : {M : Type 0} → Env → List BlockTx → World M → World M
parse_block_txs env txs w = record w {
  parse_failed_files =
      if env.raw_store_enabled
      then keep env.raw_write (hashes (keep (λ t. not t.is_parsed) txs)) ++ w.parse_failed_files
      else w.parse_failed_files;
}

abbrev pub is_empty {ℓ} : {A : Type ℓ} → List A → Bool
is_empty [] = true
is_empty (x ∷ xs) = false

-- `_write_raw_payloads`: `gather` starts every write, and raises if one fails.
unfoldable pub write_raw_payloads : {M : Type 0} → Env → List BlockTx → World M → Outcome M
write_raw_payloads env txs w =
    let payloads = hashes (keep (λ t. t.has_raw_data) txs) in
    let w' = record w { raw_files = keep env.raw_write payloads ++ w.raw_files } in
    if not env.raw_store_enabled
    then done w
    else if is_empty (keep (λ h. not (env.raw_write h)) payloads)
    then done w'
    else if ltb 0 env.raw_data_max_bytes
    then raised w'
    else done w'

-- One row for each transaction, at the block's slot.
abbrev pub rows : ℕ → List BlockTx → List Stored
rows s = map (λ t. record { tx_hash = t.id; slot = s })

unfoldable pub insert_transactions : {M : Type 0} → Env → ℕ → List BlockTx → World M → Outcome M
insert_transactions env s txs w =
    if (insert_block_with_retry env.insert_settings env.insert_answers).is_persisted
    then done (record w { transactions = rows s txs ++ w.transactions })
    else raised w

unfoldable pub confirm_lifecycle : {M : Type 0} → Env → Point → ℕ → List BlockTx → World M → World M
confirm_lifecycle env p height txs w =
    if env.lifecycle_up
    then record w {
      lifecycle =
          batch_upsert_lifecycle_confirmed env.now
            (map
              (λ t. record {
                tx_id = t.id;
                network = env.network;
                confirmed_at = env.now;
                block_hash = p.id;
                slot = p.slot;
                height = height;
              })
              txs)
            w.lifecycle;
    }
    else w

module _ {M : Type 0} (monitor : MempoolMonitor M) where
  abbrev pub set_mempool : World M → Option M → Outcome M
  set_mempool w none = raised w
  set_mempool w (some m) = done (record w { mempool = m })

  -- `record_displacements`, then `settle_confirmed`.
  unfoldable pub settle : Env → Point → List BlockTx → World M → Outcome M
  settle env p txs w =
      and_then (set_mempool w (monitor.record_displacements txs env.now w.mempool))
        (λ w'. set_mempool w' (monitor.settle_confirmed txs env.now p w'.mempool))

  unfoldable pub consume_all : List BlockTx → World M → World M
  consume_all [] w = w
  consume_all (t ∷ txs) w =
      consume_all txs (record w { mempool = monitor.consume_enrichment t.id w.mempool })

  -- The body of `if normalized_txs:`.
  unfoldable pub persist_block : Env → Point → ℕ → List BlockTx → World M → Outcome M
  persist_block env p height [] w = done w
  persist_block env p height (t ∷ txs) w = and_then (write_raw_payloads env (t ∷ txs) w) (λ w1.
      and_then (insert_transactions env p.slot (t ∷ txs) w1)
        (λ w2. settle env p (t ∷ txs) (confirm_lifecycle env p height (t ∷ txs) w2)))

  abbrev pub observe : Env → Block → ℕ → World M → World M
  observe env b s w = record w {
    tip_slot = tip_of b.tip_slot w.tip_slot;
    last_block_at = some env.now;
    last_processed_slot = some s;
  }

  -- A block that has a slot.
  unfoldable pub ingest_block : Env → Block → ℕ → World M → Outcome M
  ingest_block env b s w =
      let p : Point = record { slot = s; id = b.id } in
      let w1 = observe env b s w in
      if is_empty b.transactions
      then save_sync_point env.checkpoint_up p w1
      else and_then
          (persist_block env p b.height (parsed b.transactions)
            (parse_block_txs env b.transactions w1))
          (λ w2.
            and_then (save_sync_point env.checkpoint_up p w2)
              (λ w3. done (consume_all (parsed b.transactions) w3)))

  -- By the slot: a block without one is skipped if it has no transactions.
  unfoldable pub roll_forward_at : Env → Block → Option ℕ → World M → Outcome M
  roll_forward_at env b none w = if is_empty b.transactions then done w else raised w
  roll_forward_at env b (some s) w = ingest_block env b s w

  unfoldable pub handle_roll_forward : Env → Block → World M → Outcome M
  handle_roll_forward env b w = roll_forward_at env b b.slot w
