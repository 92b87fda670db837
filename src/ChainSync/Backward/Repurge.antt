-- ===== src/ChainSync/Backward/Repurge.antt =====
-- A pending repurge is not forgotten.
use transaction_monitoring_s.Prelude.{
  ◌≡◌, refl, ◌⊎◌, inl, inr, String, Bool, true, false, List, [], ◌∷◌, arith, not, ◌&&◌, ◌||◌,
  eq_iff, mem, map, Bool-cases, ◌∙◌,
}
use transaction_monitoring_s.ChainSync.{World}
use transaction_monitoring_s.ChainSync.Backward.{
  without, Repurged, at_delete, at_clear, finished, repurge, delayed_score_repurge, run_task,
  replay_pending_score_repurges, Change, scored, purged, owed, change, meanwhile, add_pending,
  delete_score_rows,
}

-- What remains are the hashes that are not deleted.
pub mem-without :
    (h : String) (hs xs : List String) → mem h (without hs xs) ≡ (mem h xs && not (mem h hs))
mem-without h hs [] = refl
mem-without h hs (x ∷ xs) = ground (arith, eq_iff h x, mem-without h hs xs)

-- A purged hash is pending afterwards, and so is what was pending before.
pub mem-add_pending :
    (h : String) (hs pending : List String)
    → mem h (add_pending hs pending) ≡ (mem h hs || mem h pending)
unfolding add_pending
mem-add_pending h [] pending = refl
mem-add_pending h (x ∷ hs) pending =
    ground (arith, eq_iff h x, mem-add_pending h hs pending, mem-add_pending h hs (x ∷ pending))

-- The score rows that are written.
unfoldable pub written : List Change → List String
written [] = []
written (scored h ∷ cs) = h ∷ written cs
written (purged hs ∷ cs) = written cs
written (owed hs ∷ cs) = written cs

-- What can happen between two rollbacks: the scheduled repurge runs, a reconnect replays the
-- pending ones, the process restarts, or the engine writes a score row.
pub data Action : Type 0 where
  delayed : Bool → Repurged → List Change → Action
  replay : Bool → Repurged → List String → Action
  restart : Action
  score : String → Action

-- The score rows that are written while a repurge is between its DELETE and its clearing.
abbrev pub written_within : Action → List String
written_within (delayed is_running how cs) = written cs
written_within (replay is_read how hs) = written (map scored hs)
written_within restart = []
written_within (score h) = []

module _ {M : Type 0} where
  unfoldable pub act : Action → World M → World M
  act (delayed is_running how cs) w = delayed_score_repurge is_running how cs w
  act (replay is_read how hs) w = replay_pending_score_repurges is_read how hs w
  act restart w = record w { repurge_tasks = [] }
  act (score h) w = record w { tx_class_scores = h ∷ w.tx_class_scores }

  -- A pending hash stays pending, and a score row of it was there or is written.
  meanwhile-keeps :
      (cs : List Change) (w : World M) (h : String)
      → (mem h w.pending_score_repurges ≡ true
          → mem h (meanwhile cs w).pending_score_repurges ≡ true)
        × (mem h (meanwhile cs w).tx_class_scores ≡ true
            → (mem h w.tx_class_scores || mem h (written cs)) ≡ true)
  unfolding meanwhile written
  meanwhile-keeps [] w h = (λ p. p, λ p. ground (arith, p))
  meanwhile-keeps (scored x ∷ cs) w h =
      let (p, s) = meanwhile-keeps cs (change (scored x) w) h in (p, λ k. ground (arith, s k))
  meanwhile-keeps (purged hs ∷ cs) w h =
      let (p, s) = meanwhile-keeps cs (change (purged hs) w) h in
      (p, λ k. ground (arith, s k, mem-without h hs w.tx_class_scores))
  meanwhile-keeps (owed hs ∷ cs) w h =
      let (p, s) = meanwhile-keeps cs (change (owed hs) w) h in
      (
        λ k. p (mem-add_pending h hs w.pending_score_repurges ∙ ground (arith, k)),
        λ k. ground (arith, s k),
      )

  -- The hash is still pending, or its score rows are among those of the list.
  abbrev pub Durable : String → List String → World M → Type 0
  Durable h late w =
      (mem h w.pending_score_repurges ≡ true) ⊎ (mem h w.tx_class_scores ≡ true → mem h late ≡ true)

  repurge-Durable :
      (how : Repurged) (cs : List Change) (hs : List String) (w : World M) (h : String)
      → mem h w.pending_score_repurges ≡ true
      → Durable h (written cs) (repurge how cs hs w)
  unfolding repurge
  repurge-Durable at_delete cs hs w h p = inl ((meanwhile-keeps cs w h).0 p)
  repurge-Durable at_clear cs hs w h p = inl ((meanwhile-keeps cs (delete_score_rows hs w) h).0 p)
  repurge-Durable finished cs hs w h p =
      let (kept, late) = meanwhile-keeps cs (delete_score_rows hs w) h in
      elim (Bool-cases (mem h hs)) [
        | inr e ↦ inl (mem-without h hs _ ∙ ground (arith, e, kept p))
        | inl e ↦ inr (λ k. ground (arith, late k, e, mem-without h hs w.tx_class_scores))
      ]

  run_task-Durable :
      (is_running : Bool) (how : Repurged) (cs : List Change) (tasks : List (List String))
      (w : World M) (h : String)
      → mem h w.pending_score_repurges ≡ true
      → Durable h (written cs) (run_task is_running how cs tasks w)
  unfolding run_task
  run_task-Durable is_running how cs [] w h p = inl p
  run_task-Durable true how cs (hs ∷ tasks) w h p =
      repurge-Durable how cs hs (record w { repurge_tasks = tasks }) h p
  run_task-Durable false how cs (hs ∷ tasks) w h p = inl p

  -- Whatever happens to a pending hash, a repurge that fails at any point, a shutdown, a restart
  -- or a new score row included: it is still pending, or the only score rows of it are those that
  -- were written between the DELETE and the clearing of that repurge, during which rollbacks may
  -- delete score rows and make hashes pending too.
  pub act-durable :
      (a : Action) (w : World M) (h : String)
      → mem h w.pending_score_repurges ≡ true
      → (mem h (act a w).pending_score_repurges ≡ true)
        ⊎ (mem h (act a w).tx_class_scores ≡ true → mem h (written_within a) ≡ true)
  unfolding act delayed_score_repurge replay_pending_score_repurges
  act-durable (delayed is_running how cs) w h p =
      run_task-Durable is_running how cs w.repurge_tasks w h p
  act-durable (replay true how hs) w h p =
      repurge-Durable how (map scored hs) w.pending_score_repurges w h p
  act-durable (replay false how hs) w h p = inl p
  act-durable restart w h p = inl p
  act-durable (score x) w h p = inl p
