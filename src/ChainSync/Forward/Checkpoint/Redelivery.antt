-- ===== src/ChainSync/Forward/Checkpoint/Redelivery.antt =====
-- A block whose handler raises is sent again after the reconnect, until a delivery ends well.
use transaction_monitoring_s.Prelude.{
  ℕ, ◌≡◌, refl, Bool, true, Option, none, some, List, [], ◌∷◌, arith, keep, any, not, ◌&&◌, is_some,
  Bool-cases, inl, inr, ◌⊎◌,
}
use transaction_monitoring_s.ChainSync.{
  is_done, final, and_then-done, Point, World, Outcome, done, raised, MempoolMonitor,
  save_sync_point, Post, BlockTx,
}
use transaction_monitoring_s.ChainSync.Insert.{insert_block_with_retry}
use transaction_monitoring_s.ChainSync.Forward.{
  Block, Env, parsed, hashes, is_empty, parse_block_txs, write_raw_payloads, insert_transactions,
  set_mempool, settle, persist_block, observe, ingest_block, handle_roll_forward,
}
use transaction_monitoring_s.ChainSync.Forward.Checkpoint.{
  handle_roll_forward-ingest_block, handle_roll_forward-checkpoint,
}

abbrev pub or_else : {M : Type 0} → Outcome M → (World M → Outcome M) → Outcome M
or_else (done w) f = done w
or_else (raised w) f = f w

-- The database and ClickHouse answer, and the raw store takes every payload of the block.
abbrev pub is_healthy : Block → Env → Bool
is_healthy b env =
    env.checkpoint_up
    && (insert_block_with_retry env.insert_settings env.insert_answers).is_persisted
    && is_empty (
        keep (λ h. not (env.raw_write h))
          (hashes (keep (λ t. t.has_raw_data) (parsed b.transactions))))

module _ {M : Type 0} (monitor : MempoolMonitor M) where
  -- The deliveries of one block, until one ends well; each has its own `Env`.
  unfoldable pub redeliver : List Env → Block → World M → Outcome M
  redeliver [] b w = raised w
  redeliver (env ∷ envs) b w = or_else (handle_roll_forward monitor env b w) (redeliver envs b)

module _ {M : Type 0} where
  -- Handled, and the checkpoint is the point.
  abbrev Checkpointed : Point → Outcome M → Type 0
  Checkpointed q o = (is_done o ≡ true) × ((final o).sync_point ≡ some q)

  Post-done :
      (q : Option Point) (P R : World M → Type 0) (o : Outcome M)
      → Post (λ w. (w.sync_point ≡ q) × P w) R o
      → Post (λ w. w.sync_point ≡ q) (λ _. Unit) o
  Post-done q P R (done w) p = p.0
  Post-done q P R (raised w) p = tt

  save_sync_point-done :
      (is_up : Bool) (p : Point)
      → is_up ≡ true
      → (w : World M) → is_done (save_sync_point is_up p w) ≡ true
  unfolding save_sync_point
  save_sync_point-done is_up p h w = rw h

  write_raw_payloads-done :
      (env : Env) (txs : List BlockTx) (w : World M)
      → is_empty (keep (λ h. not (env.raw_write h)) (hashes (keep (λ t. t.has_raw_data) txs)))
        ≡ true
      → is_done (write_raw_payloads env txs w) ≡ true
  unfolding write_raw_payloads
  write_raw_payloads-done env txs w h = ground arith

module _ {M : Type 0} (monitor : MempoolMonitor M)
    (records : (txs : List BlockTx) (now : ℕ) (m : M)
      → is_some (monitor.record_displacements txs now m) ≡ true)
    (settles : (txs : List BlockTx) (now : ℕ) (p : Point) (m : M)
      → is_some (monitor.settle_confirmed txs now p m) ≡ true) where
  set_mempool-done :
      (w : World M) (o : Option M) → is_some o ≡ true → is_done (set_mempool monitor w o) ≡ true
  set_mempool-done w none h = cc
  set_mempool-done w (some m) h = refl

  settle-done :
      (env : Env) (p : Point) (txs : List BlockTx) (w : World M)
      → is_done (settle monitor env p txs w) ≡ true
  unfolding settle
  settle-done env p txs w =
      and_then-done _ _ (set_mempool-done w _ (records txs env.now w.mempool))
        (λ v. set_mempool-done v _ (settles txs env.now p v.mempool))

  persist_block-done :
      (env : Env) (p : Point) (n : ℕ) (txs : List BlockTx) (w : World M)
      → (insert_block_with_retry env.insert_settings env.insert_answers).is_persisted ≡ true
      → is_empty (keep (λ h. not (env.raw_write h)) (hashes (keep (λ t. t.has_raw_data) txs)))
        ≡ true
      → is_done (persist_block monitor env p n txs w) ≡ true
  unfolding persist_block insert_transactions
  persist_block-done env p n [] w i r = refl
  persist_block-done env p n (t ∷ txs) w i r =
      and_then-done _ _ (write_raw_payloads-done env (t ∷ txs) w r)
        (λ v. rw i (settle-done env p (t ∷ txs) _))

  ingest_block-done :
      (env : Env) (b : Block) (s : ℕ) (w : World M)
      → is_healthy b env ≡ true
      → is_done (ingest_block monitor env b s w) ≡ true
  unfolding ingest_block
  ingest_block-done env b s w h =
      let p : Point = record { slot = s; id = b.id } in
      let saves : (v : World M) → is_done (save_sync_point env.checkpoint_up p v) ≡ true =
        save_sync_point-done env.checkpoint_up p (ground arith) in
      let persists =
        persist_block-done env p b.height (parsed b.transactions)
          (parse_block_txs env b.transactions (observe monitor env b s w)) (ground arith)
          (ground arith) in
      elim (Bool-cases (is_empty b.transactions)) [
        | inl e ↦ rw e (saves _)
        | inr e ↦ rw e (and_then-done _ _ persists (λ v. and_then-done _ _ (saves v) (λ u. refl)))
      ]

  or_else-lem :
      (q : Point) (o : Outcome M) (f : World M → Outcome M)
      → Post (λ w. w.sync_point ≡ some q) (λ _. Unit) o
      → (is_done o ≡ true) ⊎ ((w : World M) → Checkpointed q (f w))
      → Checkpointed q (or_else o f)
  or_else-lem q (done w) f p c = (refl, p)
  or_else-lem q (raised w) f p (inl h) = cc
  or_else-lem q (raised w) f p (inr k) = k w

  -- A block with a slot that is sent again until its handler ends well: if the mempool monitor
  -- never raises and the outside is healthy at one of the deliveries, the block is handled at one
  -- of them, and the checkpoint is the block.
  pub redeliver-checkpoint :
      (envs : List Env) (b : Block) (s : ℕ) (w : World M)
      → b.slot ≡ some s
      → any (is_healthy b) envs ≡ true
      → (is_done (redeliver monitor envs b w) ≡ true)
        × ((final (redeliver monitor envs b w)).sync_point ≡ some (record { slot = s; id = b.id }))
  unfolding redeliver
  redeliver-checkpoint [] b s w slotted h = cc
  redeliver-checkpoint (env ∷ envs) b s w slotted h =
      let q : Point = record { slot = s; id = b.id } in
      let o = handle_roll_forward monitor env b w in
      or_else-lem q o (redeliver monitor envs b)
        (Post-done (some q) _ _ o (handle_roll_forward-checkpoint monitor env b s w slotted))
        (elim (Bool-cases (is_healthy b env)) [
          | inl e ↦ inl (
              rw (handle_roll_forward-ingest_block monitor env b s w slotted)
                (ingest_block-done env b s w e))
          | inr e ↦ inr (λ v. redeliver-checkpoint envs b s v slotted (rw e at h))
        ])
