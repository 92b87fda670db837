-- ===== src/Tests/Mempool.antt =====
-- Two pending transactions that spend the same output, and a block that spends it.
use transaction_monitoring_s.Mempool.Monitor.Pairs.{pair_rows}
use transaction_monitoring_s.ChainSync.Insert.{insert_block_with_retry, insert_from}
use transaction_monitoring_s.Prelude.{
  map, keep, ℕ, ◌≡◌, refl, String, Bool, true, false, none, some, List, [], ◌∷◌, ◌++◌, map, any,
}
use transaction_monitoring_s.Prelude.Assoc.{lookup, insert, Distinct}
use transaction_monitoring_s.ChainSync.{BlockTx, World, Post, is_done, final}
use transaction_monitoring_s.ChainSync.Forward
use transaction_monitoring_s.ChainSync.Forward.{Block, hashes, parsed, handle_roll_forward}
use transaction_monitoring_s.ChainSync.Forward.Checkpoint.Redelivery.{redeliver, is_healthy}
use transaction_monitoring_s.Mempool.Pending.{
  Ref, Entry, PendingTxIndex, empty, track, sharing, share_all, share, add_refs, update, add_id,
  add_ref,
}
use transaction_monitoring_s.Mempool.Pending.Consistent.{IsConsistent, track-IsConsistent}
use transaction_monitoring_s.Mempool.Pending.Scan.{scan, sharing-scan}
use transaction_monitoring_s.Mempool.Monitor.{Monitor, Env, init, record_displacements, to_set}
use transaction_monitoring_s.Mempool.Monitor.Displaced.{all_rows_for, record_displacements-rows}
use transaction_monitoring_s.Mempool.Monitor.Valid.{
  Call, displacements, settled, received, serve_all, calls-IsConsistent,
}
use transaction_monitoring_s.Mempool.Loop.{
  Arrival, Next, undecodable, broken, transaction, mempool_loop,
}
use transaction_monitoring_s.Mempool.Loop.Undecodable.{
  uncounted, is_decodable, mempool_loop-undecodable,
}
use transaction_monitoring_s.Mempool.Client.{
  monitor, redeliver-monitor, Consumed, Cached, handle_roll_forward-Consumed,
}

abbrev output : ℕ → Ref
output n = record { tx_hash = "u"; index = n }

abbrev entry : Entry
entry = record {
  input_refs = output 0 ∷ output 1 ∷ [];
  first_seen_at = 1000;
  fee = 7;
  first_input_addr = "addr1";
  ttl = 90;
}

abbrev one_pending : PendingTxIndex
one_pending = track "p1" entry empty

empty-IsConsistent : IsConsistent empty
unfolding lookup
empty-IsConsistent = (λ r id. refl, λ r e. cc)

one_pending-IsConsistent : IsConsistent one_pending
unfolding lookup
one_pending-IsConsistent = track-IsConsistent "p1" entry empty (λ r h. cc) empty-IsConsistent

sharing-scan_example :
    lookup "p1" (sharing (output 1 ∷ output 2 ∷ []) one_pending)
    ≡ scan (output 1 ∷ output 2 ∷ []) (lookup "p1" one_pending.entries)
sharing-scan_example =
    sharing-scan (output 1 ∷ output 2 ∷ []) "p1" one_pending one_pending-IsConsistent
      (refl, (refl, tt))

shared_output : lookup "p1" (sharing (output 1 ∷ output 2 ∷ []) one_pending) ≡ some (output 1 ∷ [])
unfolding lookup sharing track share_all share add_refs update add_id insert add_ref
shared_output = refl

abbrev env : Env
env = record {
  network = "preprod";
  prune_every_n_txs = 100;
  pending_ttl_ms = 7200000;
  seen_txs_max = 2;
  insert_up = λ a b. true;
  outcome_up = λ b. true;
  lifecycle_up = λ id. true;
}

abbrev spender : String → BlockTx
spender id = record {
  id = id;
  is_parsed = true;
  has_raw_data = true;
  script_valid = true;
  inputs =
      record {
        tx_hash = "u";
        index = 1;
        is_collateral = false;
        is_reference = false;
        address = "addr2";
      }
      ∷ record {
        tx_hash = "u";
        index = 0;
        is_collateral = true;
        is_reference = false;
        address = "";
      }
      ∷ [];
  fee = some 9;
}

abbrev observing : Monitor String
observing = record init {
  pending = one_pending;
  pending_input_cache =
      ("p1", ((output 0, "addr1") ∷ [], 1005)) ∷ ("b1", ((output 1, "addr2") ∷ [], 1006)) ∷ [];
  seen_mempool_txs = "p1" ∷ "b1" ∷ "x" ∷ [];
}

record_displacements-rows_example :
    pair_rows "p1" "b1" (record_displacements env (spender "b1" ∷ []) 1500 observing).collisions
    ≡ pair_rows "p1" "b1" observing.collisions
      ++ all_rows_for env 1500
          (map (λ tx. tx.id) (spender "b1" ∷ []))
          observing.pending
          "p1"
          "b1"
          (spender "b1" ∷ [])
record_displacements-rows_example =
    record_displacements-rows env (spender "b1" ∷ []) 1500 observing "p1" "b1"
      one_pending-IsConsistent

observing-entries : Distinct observing.pending.entries
unfolding lookup track insert
observing-entries = (refl, tt)

observing-inputs : Distinct observing.pending_input_cache
unfolding lookup
observing-inputs = (refl, (refl, tt))

abbrev arrival : String → ℕ → Arrival String
arrival id now = record {
  tx = record {
    id = id;
    is_readable = true;
    inputs = record { ref = output 0; has_id = true; address = "addr1" } ∷ [];
    fee = 7;
    ttl = 90;
  };
  now = now;
  resolved_at = now;
  stored_at = now;
  utxos = λ refs. some ((output 0, "addr1") ∷ []);
}

abbrev snapshot : List (Next String)
snapshot = transaction (arrival "p1" 1000) ∷ undecodable ∷ transaction (arrival "p2" 1001) ∷ []

-- The second snapshot ends the loop.
abbrev snapshots : List (List (Next String))
snapshots = snapshot ∷ (undecodable ∷ broken ∷ snapshot) ∷ snapshot ∷ []

mempool_loop-undecodable_example :
    uncounted (mempool_loop env snapshots (init, []))
    ≡ uncounted (mempool_loop env (map (keep is_decodable) snapshots) (init, []))
mempool_loop-undecodable_example = mempool_loop-undecodable env snapshots (init, [])

abbrev calls : List (Call String)
calls =
    received (transaction (arrival "p1" 1000))
    ∷ displacements (spender "b1" ∷ []) 1500
    ∷ settled (spender "b1" ∷ []) 1500 (record { slot = 50; id = "b50" })
    ∷ received (transaction (arrival "p2" 1600))
    ∷ []

calls-IsConsistent_example : IsConsistent (serve_all env calls (init, [])).0.pending
unfolding to_set add_ref
calls-IsConsistent_example =
    calls-IsConsistent (λ id. output 0 ∷ []) env calls [] (refl, (tt, (tt, (refl, tt))))

abbrev block : Block
block = record {
  id = "b50";
  slot = some 50;
  height = 7;
  transactions = spender "b1" ∷ [];
  tip_slot = some 60;
}

abbrev outside : Bool → Forward.Env
outside answers = record {
  network = "preprod";
  now = 1500;
  raw_store_enabled = true;
  raw_data_max_bytes = 100;
  insert_settings = record {
    insert_max_retries = 3;
    insert_retry_base_delay = 1;
    insert_retry_max_delay = 8;
  };
  raw_write = λ h. true;
  insert_answers = λ n. answers;
  lifecycle_up = true;
  checkpoint_up = true;
}

abbrev world : World (Monitor String)
world = record {
  lifecycle = [];
  sync_point = none;
  pending_score_repurges = [];
  transactions = [];
  tx_class_scores = [];
  clustering_rows = [];
  raw_files = [];
  parse_failed_files = [];
  tip_slot = none;
  last_processed_slot = none;
  last_block_at = none;
  mempool = observing;
  repurge_tasks = [];
  events = [];
}

handle_roll_forward-Consumed_example :
    Post
      (Consumed env ("b1" ∷ []) world.mempool.pending_input_cache)
      (Cached env world.mempool.pending_input_cache)
      (handle_roll_forward (monitor env) (outside true) block world)
handle_roll_forward-Consumed_example =
    handle_roll_forward-Consumed env (outside true) block 50 world refl

second-is_healthy : any (is_healthy block) (outside false ∷ outside true ∷ []) ≡ true
unfolding insert_block_with_retry insert_from
second-is_healthy = refl

redeliver-monitor_example :
    (is_done (redeliver (monitor env) (outside false ∷ outside true ∷ []) block world) ≡ true)
    × ((final (redeliver (monitor env) (outside false ∷ outside true ∷ []) block world)).sync_point
        ≡ some (record { slot = 50; id = "b50" }))
redeliver-monitor_example =
    redeliver-monitor env (outside false ∷ outside true ∷ []) block 50 world refl second-is_healthy
