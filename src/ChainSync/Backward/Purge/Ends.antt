-- ===== src/ChainSync/Backward/Purge/Ends.antt =====
-- A rollback during which every outside call succeeds.
use transaction_monitoring_s.Prelude.{◌≡◌, refl, String, true, some, List, [], ◌∷◌, arith, ap}
use transaction_monitoring_s.ChainSync.{
  is_done, final, and_then-done, Point, World, Outcome, done, raised, MempoolMonitor,
  save_sync_point, Post, tip_of,
}
use transaction_monitoring_s.ChainSync.Backward.{
  Env, all_tables, orphans, delete_tables, after_purge, purge_hashes, purge_warehouse, mark,
  roll_back_to, checkpoint_rollback, clean_up, Rollback, handle_roll_backward, roll_backward_at,
}
use transaction_monitoring_s.ChainSync.Backward.Purge.{Purged, rollback-Purged}

module _ {M : Type 0} where
  purge_hashes-done :
      (env : Env) (hs : List String) (w : World M)
      → env.purge ≡ all_tables
      → env.pending_up ≡ true
      → env.clustering_up ≡ true
      → is_done (purge_hashes env hs w) ≡ true
  unfolding purge_hashes delete_tables after_purge
  purge_hashes-done env [] w a b c = refl
  purge_hashes-done env (h ∷ hs) w a b c = simp (a, b, c)

  Post-final :
      (D R : World M → Type 0) (o : Outcome M) → is_done o ≡ true → Post D R o → D (final o)
  Post-final D R (done w) h p = p
  Post-final D R (raised w) h p = cc

module _ {M : Type 0} (monitor : MempoolMonitor M) where
  roll_back_to-done :
      (env : Env) (p : Point) (w : World M)
      → env.rollback_cleanup_enabled ≡ true
      → env.purge ≡ all_tables
      → env.pending_up ≡ true
      → env.clustering_up ≡ true
      → env.checkpoint_up ≡ true
      → is_done (roll_back_to monitor env p w) ≡ true
  unfolding roll_back_to clean_up purge_warehouse save_sync_point
  roll_back_to-done env p w on a b c d =
      let cleaned : is_done (clean_up env p.slot (mark env p.slot w)) ≡ true =
        simp on (purge_hashes-done env (orphans p.slot w.transactions) (mark env p.slot w) a b c) in
      and_then-done _ (clean_up env p.slot (mark env p.slot w)) cleaned
        (λ v. and_then-done _ (checkpoint_rollback monitor env p v) (ground arith) (λ u. refl))

  handle_roll_backward-done :
      (env : Env) (r : Rollback) (p : Point) (w : World M)
      → r.point ≡ some p
      → env.rollback_cleanup_enabled ≡ true
      → env.purge ≡ all_tables
      → env.pending_up ≡ true
      → env.clustering_up ≡ true
      → env.checkpoint_up ≡ true
      → is_done (handle_roll_backward monitor env r w) ≡ true
  unfolding handle_roll_backward roll_backward_at
  handle_roll_backward-done env r p w pointed on a b c d =
      let w' : World M = record w { tip_slot = tip_of r.tip_slot w.tip_slot } in
      let e : roll_backward_at monitor env r.point w' ≡ roll_back_to monitor env p w' =
        ap (λ o. roll_backward_at monitor env o w') pointed in
      rw e (roll_back_to-done env p w' on a b c d)

  -- When every outside call of a rollback to a point succeeds and the clean-up is on, the handler
  -- ends well; no current row of the warehouse (the last that was inserted for its hash) is past the
  -- point's slot, what was pending is pending, each hash whose current row was past it is pending
  -- too, and these hashes, no others, lost their score rows.
  pub rollback-healthy :
      (env : Env) (r : Rollback) (p : Point) (w : World M)
      → r.point ≡ some p
      → env.rollback_cleanup_enabled ≡ true
      → env.purge ≡ all_tables
      → env.pending_up ≡ true
      → env.clustering_up ≡ true
      → env.checkpoint_up ≡ true
      → (is_done (handle_roll_backward monitor env r w) ≡ true)
        × Purged p.slot w (final (handle_roll_backward monitor env r w))
  rollback-healthy env r p w pointed on a b c d =
      let ends = handle_roll_backward-done env r p w pointed on a b c d in
      (
        ends,
        Post-final (Purged p.slot w) (λ _. Unit) _ ends
            (rollback-Purged monitor env r p w pointed on),
      )
