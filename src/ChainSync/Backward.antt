-- ===== src/ChainSync/Backward.antt =====
-- `_handle_roll_backward`, `_delayed_score_repurge` and `_replay_pending_score_repurges` of
-- backend/app/ingestion/ogmios_client.py, with the statements that they run:
-- `delete_rolled_back_txs`, `delete_score_rows` and `delete_clustering_rows` of
-- backend/app/db/clickhouse.py and the pending score repurges of backend/app/db/postgres.py.
pub mod Purge
pub mod Repurge
use transaction_monitoring_s.Prelude.{
  ℕ, String, Bool, true, false, Option, none, some, List, [], ◌∷◌, ◌++◌, map, keep, ltb, not, ◌&&◌,
  if◌then◌else◌, str_eq, mem,
}
use transaction_monitoring_s.Lifecycle.{Table, mark_lifecycle_rolled_back}
use transaction_monitoring_s.ChainSync.{
  Point, Stored, World, Outcome, done, raised, MempoolMonitor, and_then, save_sync_point, tip_of,
}

-- How far the DELETEs of `delete_rolled_back_txs` get: `tx_class_scores` is the last but one,
-- `transactions` the last.
pub data Reached : Type 0 where
  before_scores : Reached
  before_transactions : Reached
  all_tables : Reached

pub record Env : Type 0 where
  pub network : String
  pub now : ℕ
  pub rollback_cleanup_enabled : Bool
  pub lifecycle_up : Bool
  pub purge : Reached
  pub pending_up : Bool
  pub clustering_up : Bool
  pub checkpoint_up : Bool

-- `FINAL`: of the rows of a hash the one that was inserted last, which comes first in the list.
unfoldable pub final_rows : List Stored → List Stored
final_rows [] = []
final_rows (r ∷ rs) = r ∷ keep (λ q. not (str_eq q.tx_hash r.tx_hash)) (final_rows rs)

-- `SELECT DISTINCT tx_hash … WHERE slot > rollback_slot`
unfoldable pub past_slot : ℕ → List Stored → List String
past_slot s [] = []
past_slot s (r ∷ rs) =
    let rest = past_slot s rs in
    if ltb s r.slot && not (mem r.tx_hash rest) then r.tx_hash ∷ rest else rest

abbrev pub orphans : ℕ → List Stored → List String
orphans s ts = past_slot s (final_rows ts)

-- `DELETE … WHERE tx_hash IN hashes`
abbrev pub without : List String → List String → List String
without hashes = keep (λ h. not (mem h hashes))

abbrev pub rows_without : List String → List Stored → List Stored
rows_without hashes = keep (λ r. not (mem r.tx_hash hashes))

-- `add_pending_score_repurges`: `ON CONFLICT DO NOTHING` for each hash.
unfoldable pub add_pending : List String → List String → List String
add_pending [] pending = pending
add_pending (h ∷ hs) pending = add_pending hs (if mem h pending then pending else h ∷ pending)

module _ {M : Type 0} where
  -- `delete_rolled_back_txs` on hashes that are not none.
  unfoldable pub delete_tables : Reached → List String → World M → Outcome M
  delete_tables before_scores hs w = raised w
  delete_tables before_transactions hs w =
      raised (record w { tx_class_scores = without hs w.tx_class_scores })
  delete_tables all_tables hs w = done (record w {
    tx_class_scores = without hs w.tx_class_scores;
    transactions = rows_without hs w.transactions;
  })

  -- The `if purged_hashes:` block.
  unfoldable pub after_purge : Env → List String → World M → Outcome M
  after_purge env hs w =
      if not env.pending_up
      then raised w
      else let w1 : World M = record w {
        pending_score_repurges = add_pending hs w.pending_score_repurges;
        repurge_tasks = hs ∷ w.repurge_tasks;
      } in
        if not env.clustering_up
        then raised w1
        else done (record w1 { clustering_rows = without hs w.clustering_rows })

  unfoldable pub purge_hashes : Env → List String → World M → Outcome M
  purge_hashes env [] w = done w
  purge_hashes env (h ∷ hs) w =
      and_then (delete_tables env.purge (h ∷ hs) w) (after_purge env (h ∷ hs))

  unfoldable pub purge_warehouse : Env → ℕ → World M → Outcome M
  purge_warehouse env s w = purge_hashes env (orphans s w.transactions) w

  abbrev pub mark : Env → ℕ → World M → World M
  mark env s w = record w {
    lifecycle =
        if env.lifecycle_up
        then mark_lifecycle_rolled_back env.now s env.network w.lifecycle
        else w.lifecycle;
  }

  unfoldable pub clean_up : Env → ℕ → World M → Outcome M
  clean_up env s w = if env.rollback_cleanup_enabled then purge_warehouse env s w else done w

-- A rollback: its point, none for the text "origin", and the tip.
pub record Rollback : Type 0 where
  pub point : Option Point
  pub tip_slot : Option ℕ

module _ {M : Type 0} (monitor : MempoolMonitor M) where
  -- `clear_on_rollback` and the TX_ROLLED_BACK event.
  abbrev pub announce : Point → World M → World M
  announce p w = record w { mempool = monitor.clear_on_rollback w.mempool; events = p ∷ w.events }

  abbrev pub checkpoint_rollback : Env → Point → World M → Outcome M
  checkpoint_rollback env p w =
      if str_eq p.id "" then done w else save_sync_point env.checkpoint_up p w

  -- A rollback to a point of the chain.
  unfoldable pub roll_back_to : Env → Point → World M → Outcome M
  roll_back_to env p w =
      and_then (clean_up env p.slot (mark env p.slot w))
        (λ w1. and_then (checkpoint_rollback env p w1) (λ w2. done (announce p w2)))

  -- By the point: a rollback to the origin leaves the tables alone.
  unfoldable pub roll_backward_at : Env → Option Point → World M → Outcome M
  roll_backward_at env none w = done (announce (record { slot = 0; id = "" }) w)
  roll_backward_at env (some p) w = roll_back_to env p w

  unfoldable pub handle_roll_backward : Env → Rollback → World M → Outcome M
  handle_roll_backward env r w =
      roll_backward_at env r.point (record w { tip_slot = tip_of r.tip_slot w.tip_slot })

-- How far a repurge gets: an error at the DELETE, an error at the clearing, or the end.
pub data Repurged : Type 0 where
  at_delete : Repurged
  at_clear : Repurged
  finished : Repurged

-- What the others do to the two tables while a repurge is between its DELETE and its clearing: the
-- engine writes a score row, a rollback deletes score rows, or it makes hashes pending.
pub data Change : Type 0 where
  scored : String → Change
  purged : List String → Change
  owed : List String → Change

module _ {M : Type 0} where
  abbrev pub delete_score_rows : List String → World M → World M
  delete_score_rows hs w = record w { tx_class_scores = without hs w.tx_class_scores }

  abbrev pub clear_pending_score_repurges : List String → World M → World M
  clear_pending_score_repurges hs w = record w {
    pending_score_repurges = without hs w.pending_score_repurges;
  }

  abbrev pub change : Change → World M → World M
  change (scored h) w = record w { tx_class_scores = h ∷ w.tx_class_scores }
  change (purged hs) w = delete_score_rows hs w
  change (owed hs) w = record w {
    pending_score_repurges = add_pending hs w.pending_score_repurges;
    repurge_tasks = hs ∷ w.repurge_tasks;
  }

  unfoldable pub meanwhile : List Change → World M → World M
  meanwhile [] w = w
  meanwhile (c ∷ cs) w = meanwhile cs (change c w)

  -- `delete_score_rows`, the changes of the others, then `clear_pending_score_repurges`; the errors
  -- are caught.
  unfoldable pub repurge : Repurged → List Change → List String → World M → World M
  repurge at_delete cs hs w = meanwhile cs w
  repurge at_clear cs hs w = meanwhile cs (delete_score_rows hs w)
  repurge finished cs hs w = clear_pending_score_repurges hs (meanwhile cs (delete_score_rows hs w))

  unfoldable pub run_task : Bool → Repurged → List Change → List (List String) → World M → World M
  run_task is_running how cs [] w = w
  run_task is_running how cs (hs ∷ tasks) w =
      let w1 : World M = record w { repurge_tasks = tasks } in
      if is_running then repurge how cs hs w1 else w1

  -- `_delayed_score_repurge`, after its pause, on the task that was scheduled last: nothing, if
  -- the client is shutting down.
  unfoldable pub delayed_score_repurge : Bool → Repurged → List Change → World M → World M
  delayed_score_repurge is_running how cs w = run_task is_running how cs w.repurge_tasks w

  -- `_replay_pending_score_repurges`; `is_read` says whether the pending rows were read. No
  -- rollback is handled meanwhile, but score rows may be written.
  unfoldable pub replay_pending_score_repurges : Bool → Repurged → List String → World M → World M
  replay_pending_score_repurges is_read how written w =
      if is_read then repurge how (map scored written) w.pending_score_repurges w else w
