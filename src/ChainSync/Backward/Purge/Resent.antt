-- ===== src/ChainSync/Backward/Purge/Resent.antt =====
-- A rollback that the node sends again after an error.
use transaction_monitoring_s.Prelude.{
  ℕ, ◌≡◌, refl, String, Bool, true, false, List, [], ◌∷◌, arith, mem, map, ap, ◌∙◌,
}
use transaction_monitoring_s.ChainSync.{
  final, Point, World, Outcome, done, raised, MempoolMonitor, and_then, save_sync_point,
}
use transaction_monitoring_s.ChainSync.Backward.{
  Env, all_tables, orphans, delete_tables, after_purge, purge_hashes, purge_warehouse, mark,
  checkpoint_rollback, announce, roll_back_to, clean_up, Repurged, at_delete, at_clear, finished,
  repurge, replay_pending_score_repurges, scored, change, meanwhile, delete_score_rows,
}
use transaction_monitoring_s.ChainSync.Backward.Repurge.{mem-without}
use transaction_monitoring_s.ChainSync.Backward.Purge.{orphans-rows_without, mem-orphans}

module _ {M : Type 0} where
  -- Nothing past the slot is left to select.
  abbrev pub Clear : ℕ → List String → World M → Type 0
  Clear s pending w = (orphans s w.transactions ≡ []) × (w.pending_score_repurges ≡ pending)

  purge_hashes-failed :
      (env : Env) (s : ℕ) (w : World M) (hs : List String)
      → orphans s w.transactions ≡ hs
      → env.purge ≡ all_tables
      → env.pending_up ≡ false
      → Clear s w.pending_score_repurges (final (purge_hashes env hs w))
  unfolding purge_hashes delete_tables after_purge
  purge_hashes-failed env s w [] e a d = (e, refl)
  purge_hashes-failed env s w (h ∷ hs) e a d =
      simp (a, d)
        (
          orphans-rows_without s (h ∷ hs) w.transactions
              (λ k o. ground (arith, rw e at (mem-orphans k s w.transactions))),
          refl,
        )

  clean_up-failed :
      (env : Env) (s : ℕ) (w : World M)
      → env.rollback_cleanup_enabled ≡ true
      → env.purge ≡ all_tables
      → env.pending_up ≡ false
      → Clear s w.pending_score_repurges (final (clean_up env s w))
  unfolding clean_up purge_warehouse
  clean_up-failed env s w on a d =
      simp on (purge_hashes-failed env s w (orphans s w.transactions) refl a d)

  purge_hashes-idle :
      (env : Env) (w : World M) (hs : List String) → hs ≡ [] → purge_hashes env hs w ≡ done w
  unfolding purge_hashes
  purge_hashes-idle env w [] e = refl
  purge_hashes-idle env w (h ∷ hs) e = cc

  clean_up-idle :
      (env : Env) (s : ℕ) (w : World M) → orphans s w.transactions ≡ [] → clean_up env s w ≡ done w
  unfolding clean_up purge_warehouse
  clean_up-idle env s w e = ground (arith, purge_hashes-idle env w (orphans s w.transactions) e)

  and_then-left :
      (s : ℕ) (pending : List String) (f : World M → Outcome M) (o : Outcome M)
      → Clear s pending (final o)
      → ((w : World M) → Clear s pending w → Clear s pending (final (f w)))
      → Clear s pending (final (and_then o f))
  and_then-left s pending f (done w) c h = h w c
  and_then-left s pending f (raised w) c h = c

module _ {M : Type 0} where
  scored-leaves :
      (written : List String) (w : World M)
      → ((meanwhile (map scored written) w).transactions ≡ w.transactions)
        × ((meanwhile (map scored written) w).pending_score_repurges ≡ w.pending_score_repurges)
  unfolding meanwhile
  scored-leaves [] w = (refl, refl)
  scored-leaves (x ∷ written) w = scored-leaves written (change (scored x) w)

  -- A replay adds nothing to what is pending, and leaves the transactions.
  repurge-leaves :
      (how : Repurged) (written hs : List String) (w : World M) (h : String)
      → ((repurge how (map scored written) hs w).transactions ≡ w.transactions)
        × (mem h w.pending_score_repurges ≡ false
            → mem h (repurge how (map scored written) hs w).pending_score_repurges ≡ false)
  unfolding repurge
  repurge-leaves at_delete written hs w h =
      let (t, p) = scored-leaves written w in (t, λ e. ap (λ (hs : List String). mem h hs) p ∙ e)
  repurge-leaves at_clear written hs w h =
      let (t, p) = scored-leaves written (delete_score_rows hs w) in
      (t, λ e. ap (λ (hs : List String). mem h hs) p ∙ e)
  repurge-leaves finished written hs w h =
      let (t, p) = scored-leaves written (delete_score_rows hs w) in
      (t, λ e. mem-without h hs _ ∙ ground (arith, ap (λ (hs : List String). mem h hs) p ∙ e))

  replay-leaves :
      (is_read : Bool) (how : Repurged) (written : List String) (w : World M) (h : String)
      → ((replay_pending_score_repurges is_read how written w).transactions ≡ w.transactions)
        × (mem h w.pending_score_repurges ≡ false
            → mem h (replay_pending_score_repurges is_read how written w).pending_score_repurges
              ≡ false)
  unfolding replay_pending_score_repurges
  replay-leaves true how written w h = repurge-leaves how written w.pending_score_repurges w h
  replay-leaves false how written w h = (refl, λ e. e)

module _ {M : Type 0} (monitor : MempoolMonitor M) where
  checkpoint_rollback-Clear :
      (env : Env) (p : Point) (s : ℕ) (pending : List String) (w : World M)
      → Clear s pending w
      → Clear s pending (final (checkpoint_rollback monitor env p w))
  unfolding save_sync_point
  checkpoint_rollback-Clear env p s pending w c = ground arith

  rest-Clear :
      (env : Env) (p : Point) (pending : List String) (o : Outcome M)
      → Clear p.slot pending (final o)
      → Clear p.slot pending (
          final (
            and_then o (λ w1.
              and_then
                (checkpoint_rollback monitor env p w1)
                (λ w2. done (announce monitor p w2)))))
  rest-Clear env p pending o c =
      let finish : World M → Outcome M = λ w2. done (announce monitor p w2) in
      and_then-left p.slot pending (λ w1. and_then (checkpoint_rollback monitor env p w1) finish) o
        c
        (λ v d.
          and_then-left p.slot pending finish (checkpoint_rollback monitor env p v)
            (checkpoint_rollback-Clear env p p.slot pending v d) (λ u g. g))

  roll_back_to-failed :
      (env : Env) (p : Point) (w : World M)
      → env.rollback_cleanup_enabled ≡ true
      → env.purge ≡ all_tables
      → env.pending_up ≡ false
      → Clear p.slot w.pending_score_repurges (final (roll_back_to monitor env p w))
  unfolding roll_back_to
  roll_back_to-failed env p w on a d =
      rest-Clear env p w.pending_score_repurges (clean_up env p.slot (mark env p.slot w))
        (clean_up-failed env p.slot (mark env p.slot w) on a d)

  roll_back_to-idle :
      (env : Env) (p : Point) (pending : List String) (w : World M)
      → Clear p.slot pending w
      → Clear p.slot pending (final (roll_back_to monitor env p w))
  unfolding roll_back_to
  roll_back_to-idle env p pending w c =
      rest-Clear env p pending (clean_up env p.slot (mark env p.slot w))
        (rw (clean_up-idle env p.slot (mark env p.slot w) c.0) c)

  -- With the clean-up on, when the purge of the warehouse succeeds and the write of the pending
  -- repurges then fails: a hash that was not pending before is not pending after the reconnect's
  -- replay, however it goes, and the rollback that is sent again, however that delivery goes.
  pub resent-forgets :
      (env env' : Env) (p : Point) (w : World M) (is_read : Bool) (how : Repurged)
      (written : List String) (h : String)
      → env.rollback_cleanup_enabled ≡ true
      → env.purge ≡ all_tables
      → env.pending_up ≡ false
      → mem h w.pending_score_repurges ≡ false
      → mem h
          (final (
            roll_back_to monitor env' p (
              replay_pending_score_repurges is_read how written
                (final (roll_back_to monitor env p w))))).pending_score_repurges
        ≡ false
  resent-forgets env env' p w is_read how written h on a d absent =
      let w1 = final (roll_back_to monitor env p w) in
      let (clear, same) = roll_back_to-failed env p w on a d in
      let (rows, fewer) = replay-leaves is_read how written w1 h in
      let still : mem h w1.pending_score_repurges ≡ false =
        ap (λ (hs : List String). mem h hs) same ∙ absent in
      let w2 = replay_pending_score_repurges is_read how written w1 in
      ap (λ (hs : List String). mem h hs)
        (roll_back_to-idle env' p w2.pending_score_repurges w2
          (ap (orphans p.slot) rows ∙ clear, refl)).1
      ∙ fewer still
