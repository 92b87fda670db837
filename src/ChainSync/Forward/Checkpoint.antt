-- ===== src/ChainSync/Forward/Checkpoint.antt =====
-- Where the checkpoint stands after a block, handled well or not.
pub mod Redelivery
use transaction_monitoring_s.Prelude.{
  ℕ, ◌≡◌, refl, sym, ap, ◌∙◌, ◌⊎◌, inl, inr, String, Bool, true, false, Option, none, some, List,
  [], ◌∷◌, ◌++◌, arith, keep, ltb, not, ◌&&◌, if◌then◌else◌, Bool-cases,
}
use transaction_monitoring_s.ChainSync.{
  Point, Stored, World, Outcome, done, raised, MempoolMonitor, and_then, save_sync_point, Post,
  and_then-Post, Post-weaken, BlockTx,
}
use transaction_monitoring_s.ChainSync.Insert.{insert_block_with_retry}
use transaction_monitoring_s.ChainSync.Forward.{
  Block, Env, parsed, hashes, rows, is_empty, parse_block_txs, write_raw_payloads,
  insert_transactions, confirm_lifecycle, set_mempool, settle, consume_all, persist_block, observe,
  ingest_block, handle_roll_forward, roll_forward_at,
}

module _ {M : Type 0} where
  -- The checkpoint and the rows of the warehouse.
  abbrev pub At : Option Point → List Stored → World M → Type 0
  At p ts w = (w.sync_point ≡ p) × (w.transactions ≡ ts)

  -- The rows of a block at most were added, and the checkpoint stands.
  abbrev pub Pending : Option Point → List Stored → List Stored → World M → Type 0
  Pending p new ts w = (w.sync_point ≡ p) × ((w.transactions ≡ ts) ⊎ (w.transactions ≡ new ++ ts))

module _ {M : Type 0} (p : Option Point) (ts : List Stored) where
  parse_block_txs-At :
      (env : Env) (txs : List BlockTx) (w : World M)
      → At p ts w
      → At p ts (parse_block_txs env txs w)
  unfolding parse_block_txs
  parse_block_txs-At env txs w h = h

  confirm_lifecycle-At :
      (env : Env) (q : Point) (n : ℕ) (txs : List BlockTx) (w : World M)
      → At p ts w
      → At p ts (confirm_lifecycle env q n txs w)
  unfolding confirm_lifecycle
  confirm_lifecycle-At env q n txs w h = ground arith

  write_raw_payloads-At :
      (env : Env) (txs : List BlockTx) (w : World M)
      → At p ts w
      → Post (At p ts) (At p ts) (write_raw_payloads env txs w)
  unfolding write_raw_payloads
  write_raw_payloads-At env txs w h = ground arith

  insert_transactions-At :
      (env : Env) (s : ℕ) (txs : List BlockTx) (w : World M)
      → At p ts w
      → Post (At p (rows s txs ++ ts)) (At p ts) (insert_transactions env s txs w)
  unfolding insert_transactions
  insert_transactions-At env s txs w h = ground arith

  save_sync_point-At :
      (is_up : Bool) (q : Point) (w : World M)
      → At p ts w
      → Post (At (some q) ts) (At p ts) (save_sync_point is_up q w)
  unfolding save_sync_point
  save_sync_point-At is_up q w h = ground arith

module _ {M : Type 0} (monitor : MempoolMonitor M) (p : Option Point) (ts : List Stored) where
  set_mempool-At :
      (w : World M) (o : Option M) → At p ts w → Post (At p ts) (At p ts) (set_mempool monitor w o)
  set_mempool-At w none h = h
  set_mempool-At w (some m) h = h

  settle-At :
      (env : Env) (q : Point) (txs : List BlockTx) (w : World M)
      → At p ts w
      → Post (At p ts) (At p ts) (settle monitor env q txs w)
  unfolding settle
  settle-At env q txs w h =
      and_then-Post (At p ts) (At p ts) (At p ts) (At p ts) _ _
        (set_mempool-At w (monitor.record_displacements txs env.now w.mempool) h) (λ v r. r)
        (λ v e. set_mempool-At v (monitor.settle_confirmed txs env.now q v.mempool) e)

  consume_all-At :
      (txs : List BlockTx) (w : World M) → At p ts w → At p ts (consume_all monitor txs w)
  unfolding consume_all
  consume_all-At [] w h = h
  consume_all-At (t ∷ txs) w h =
      consume_all-At txs (record w { mempool = monitor.consume_enrichment t.id w.mempool }) h

module _ {M : Type 0} (monitor : MempoolMonitor M) (p : Option Point) (ts : List Stored) where
  persist_block-At :
      (env : Env) (q : Point) (n : ℕ) (txs : List BlockTx) (w : World M)
      → At p ts w
      → Post
          (At p (rows q.slot txs ++ ts))
          (Pending p (rows q.slot txs) ts)
          (persist_block monitor env q n txs w)
  unfolding persist_block
  persist_block-At env q n [] w h = h
  persist_block-At env q n (t ∷ txs) w h =
      let new = rows q.slot (t ∷ txs) in
      and_then-Post (At p ts) (At p (new ++ ts)) (At p ts) (Pending p new ts) _ _
        (write_raw_payloads-At p ts env (t ∷ txs) w h) (λ v r. (r.0, inl r.1))
        (λ v e.
          and_then-Post (At p (new ++ ts)) (At p (new ++ ts)) (At p ts) (Pending p new ts) _ _
            (insert_transactions-At p ts env q.slot (t ∷ txs) v e) (λ u r. (r.0, inl r.1))
            (λ u g.
              Post-weaken (At p (new ++ ts)) (Pending p new ts) (At p (new ++ ts)) _
                (λ x r. (r.0, inr r.1))
                (settle-At monitor p (new ++ ts) env q (t ∷ txs) _
                  (confirm_lifecycle-At p (new ++ ts) env q n (t ∷ txs) u g))))

rows_empty : (s : ℕ) (txs : List BlockTx) → is_empty txs ≡ true → rows s (parsed txs) ≡ []
rows_empty s [] h = refl
rows_empty s (t ∷ txs) h = cc

module _ {M : Type 0} (monitor : MempoolMonitor M) where
  ingest_block-checkpoint :
      (env : Env) (b : Block) (s : ℕ) (w : World M)
      → Post
          (At
            (some (record { slot = s; id = b.id }))
            (rows s (parsed b.transactions) ++ w.transactions))
          (Pending w.sync_point (rows s (parsed b.transactions)) w.transactions)
          (ingest_block monitor env b s w)
  unfolding ingest_block
  ingest_block-checkpoint env b s w =
      let p = w.sync_point in
      let ts = w.transactions in
      let new = rows s (parsed b.transactions) in
      let q : Point = record { slot = s; id = b.id } in
      let w1 : World M = observe monitor env b s w in
      elim (Bool-cases (is_empty b.transactions)) [
        | inl e ↦
            rw (e, rows_empty s b.transactions e)
              (Post-weaken (At p ts) (Pending p [] ts) (At (some q) ts) _ (λ v r. (r.0, inl r.1))
                (save_sync_point-At p ts env.checkpoint_up q w1 (refl, refl)))
        | inr e ↦ rw e (
            and_then-Post (At p (new ++ ts)) (At (some q) (new ++ ts)) (Pending p new ts)
              (Pending p new ts) _ _
              (persist_block-At monitor p ts env q b.height (parsed b.transactions) _
                (parse_block_txs-At p ts env b.transactions w1 (refl, refl)))
              (λ v r. r)
              (λ v g.
                and_then-Post (At (some q) (new ++ ts)) (At (some q) (new ++ ts)) (At p (new ++ ts))
                  (Pending p new ts) _ _ (save_sync_point-At p (new ++ ts) env.checkpoint_up q v g)
                  (λ u r. (r.0, inr r.1))
                  (consume_all-At monitor (some q) (new ++ ts) (parsed b.transactions))))
      ]

  pub handle_roll_forward-ingest_block :
      (env : Env) (b : Block) (s : ℕ) (w : World M)
      → b.slot ≡ some s
      → handle_roll_forward monitor env b w ≡ ingest_block monitor env b s w
  unfolding handle_roll_forward roll_forward_at
  handle_roll_forward-ingest_block env b s w h = ap (λ o. roll_forward_at monitor env b o w) h

  -- When a block with a slot is handled, the checkpoint is the block and a row for each of its
  -- transactions that parse is in the warehouse, the older rows kept; when the handler raises, the
  -- checkpoint stands where it stood and no row is lost.
  pub handle_roll_forward-checkpoint :
      (env : Env) (b : Block) (s : ℕ) (w : World M)
      → b.slot ≡ some s
      → Post
          (At
            (some (record { slot = s; id = b.id }))
            (rows s (parsed b.transactions) ++ w.transactions))
          (Pending w.sync_point (rows s (parsed b.transactions)) w.transactions)
          (handle_roll_forward monitor env b w)
  handle_roll_forward-checkpoint env b s w h =
      rw (handle_roll_forward-ingest_block env b s w h) (ingest_block-checkpoint env b s w)
