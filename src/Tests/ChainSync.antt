-- ===== src/Tests/ChainSync.antt =====
-- A block of two transactions, a rollback of it, and the repurge that the rollback owes.
use transaction_monitoring_s.Prelude.{
  ℕ, suc, ◌≡◌, refl, ◌⊎◌, Bool, true, false, none, some, [], ◌∷◌, mem,
}
use transaction_monitoring_s.ChainSync.{is_done, final, Point, World, MempoolMonitor, Post}
use transaction_monitoring_s.ChainSync.Insert.{Settings, insert_block_with_retry, insert_from}
use transaction_monitoring_s.ChainSync.Insert.Attempts.{some_attempt, insert-persisted_iff}
use transaction_monitoring_s.ChainSync.Forward
use transaction_monitoring_s.ChainSync.Forward.{Block, handle_roll_forward}
use transaction_monitoring_s.ChainSync.Forward.Checkpoint.{
  At, Pending, handle_roll_forward-checkpoint,
}
use transaction_monitoring_s.Resilience.Breaker.{closed}
use transaction_monitoring_s.ChainSync.Health.{Thresholds, degraded, pipeline_state, block_state}
use transaction_monitoring_s.ChainSync.Backward
use transaction_monitoring_s.ChainSync.Backward.{
  all_tables, orphans, roll_back_to, finished, scored, delayed_score_repurge, run_task, repurge,
  meanwhile, replay_pending_score_repurges, Rollback, handle_roll_backward,
}
use transaction_monitoring_s.ChainSync.Backward.Purge.{Purged}
use transaction_monitoring_s.ChainSync.Backward.Purge.Ends.{rollback-healthy}
use transaction_monitoring_s.ChainSync.Backward.Purge.Resent.{resent-forgets}
use transaction_monitoring_s.ChainSync.Backward.Repurge.{delayed, act, act-durable, written_within}

-- A monitor whose state counts its calls.
abbrev pub monitor : MempoolMonitor ℕ
monitor = record {
  record_displacements = λ hs now m. some (suc m);
  settle_confirmed = λ hs now p m. some (suc m);
  consume_enrichment = λ h m. suc m;
  clear_on_rollback = λ m. 0;
}

abbrev pub world : World ℕ
world = record {
  lifecycle = [];
  sync_point = some (record { slot = 40; id = "b40" });
  pending_score_repurges = "t0" ∷ [];
  transactions = record { tx_hash = "t0"; slot = 40 } ∷ record { tx_hash = "t9"; slot = 44 } ∷ [];
  tx_class_scores = "t0" ∷ "t9" ∷ [];
  clustering_rows = "t9" ∷ [];
  raw_files = [];
  parse_failed_files = [];
  tip_slot = none;
  last_processed_slot = none;
  last_block_at = none;
  mempool = 0;
  repurge_tasks = ("t0" ∷ []) ∷ [];
  events = [];
}

abbrev settings : Settings
settings = record {
  insert_max_retries = 3;
  insert_retry_base_delay = 1;
  insert_retry_max_delay = 8;
}

insert-persisted_iff_example :
    (insert_block_with_retry settings (λ n. mem "x" [])).is_persisted
    ≡ some_attempt (λ n. mem "x" []) 1 3
insert-persisted_iff_example = insert-persisted_iff settings (λ n. mem "x" [])

all_fail-sleeps : (insert_block_with_retry settings (λ n. false)).sleeps ≡ 1 ∷ 2 ∷ []
unfolding insert_block_with_retry insert_from
all_fail-sleeps = refl

abbrev block : Block
block = record {
  id = "b50";
  slot = some 50;
  height = 7;
  transactions =
      record {
        id = "t1";
        is_parsed = true;
        has_raw_data = true;
        script_valid = true;
        inputs = [];
        fee = none;
      }
      ∷ record {
        id = "t2";
        is_parsed = false;
        has_raw_data = true;
        script_valid = true;
        inputs = [];
        fee = none;
      }
      ∷ [];
  tip_slot = some 60;
}

-- ClickHouse answers as told.
abbrev pub env : Bool → Forward.Env
env answers = record {
  network = "preprod";
  now = 1000;
  raw_store_enabled = true;
  raw_data_max_bytes = 100;
  insert_settings = settings;
  raw_write = λ h. true;
  insert_answers = λ n. answers;
  lifecycle_up = true;
  checkpoint_up = true;
}

handle_roll_forward-checkpoint_example :
    Post
      (At
        (some (record { slot = 50; id = "b50" }))
        (record { tx_hash = "t1"; slot = 50 } ∷ world.transactions))
      (Pending world.sync_point (record { tx_hash = "t1"; slot = 50 } ∷ []) world.transactions)
      (handle_roll_forward monitor (env true) block world)
handle_roll_forward-checkpoint_example =
    handle_roll_forward-checkpoint monitor (env true) block 50 world refl

abbrev back : Bool → Backward.Env
back pending_up = record {
  network = "preprod";
  now = 2000;
  rollback_cleanup_enabled = true;
  lifecycle_up = true;
  purge = all_tables;
  pending_up = pending_up;
  clustering_up = true;
  checkpoint_up = true;
}

abbrev point : Point
point = record { slot = 42; id = "b42" }

abbrev rollback : Rollback
rollback = record { point = some point; tip_slot = some 61 }

rollback-healthy_example :
    (is_done (handle_roll_backward monitor (back true) rollback world) ≡ true)
    × Purged 42 world (final (handle_roll_backward monitor (back true) rollback world))
rollback-healthy_example =
    rollback-healthy monitor (back true) rollback point world refl refl refl refl refl refl

-- The replay writes no hash of the purge, and a score row of "t0" comes in between.
resent-forgets_example :
    mem "t9"
      (final (
        roll_back_to monitor (back true) point (
          replay_pending_score_repurges true finished
            ("t0" ∷ [])
            (final (roll_back_to monitor (back false) point world))))).pending_score_repurges
    ≡ false
resent-forgets_example =
    resent-forgets monitor (back false) (back true) point world true finished ("t0" ∷ []) "t9" refl
      refl refl refl

-- A score row that comes between the DELETE and the clearing stays, and nothing is pending.
late_score :
    ((act (delayed true finished (scored "t0" ∷ [])) world).tx_class_scores ≡ "t0" ∷ "t9" ∷ [])
    × ((act (delayed true finished (scored "t0" ∷ [])) world).pending_score_repurges ≡ [])
unfolding act delayed_score_repurge run_task repurge meanwhile
late_score = (refl, refl)

act-durable_example :
    (mem "t0" (act (delayed true finished (scored "t9" ∷ [])) world).pending_score_repurges ≡ true)
    ⊎ (mem "t0" (act (delayed true finished (scored "t9" ∷ [])) world).tx_class_scores ≡ true
        → mem "t0" (written_within (delayed true finished (scored "t9" ∷ []))) ≡ true)
act-durable_example = act-durable (delayed true finished (scored "t9" ∷ [])) world "t0" refl

abbrev thresholds : Thresholds
thresholds = record { block_age_degraded = 120; block_age_down = 600; startup_grace = 60 }

never_connected : pipeline_state thresholds closed none 0 3600 ≡ degraded
unfolding pipeline_state block_state
never_connected = refl
