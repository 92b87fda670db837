-- ===== src/Mempool/Client.antt =====
-- The mempool monitor of backend/app/ingestion/mempool_monitor.py behind the calls that the
-- chain-sync client (backend/app/ingestion/ogmios_client.py) makes of it: the interface filled, and
-- what the client's checkpoint then says of the monitor's cache.
use transaction_monitoring_s.Prelude.{
  ℕ, String, Bool, true, false, none, some, List, [], ◌∷◌, ◌≡◌, refl, ◌∙◌, mem, any, Bool-cases,
  inl, inr, arith, eq_iff, if◌then◌else◌,
}
use transaction_monitoring_s.Prelude.Assoc.{Assoc, lookup, lookup-remove}
use transaction_monitoring_s.ChainSync.{
  Point, BlockTx, World, MempoolMonitor, Post, and_then-Post, is_done, final, save_sync_point,
}
use transaction_monitoring_s.ChainSync.Forward.{
  Block, Env, parsed, hashes, is_empty, parse_block_txs, write_raw_payloads, insert_transactions,
  confirm_lifecycle, settle, consume_all, persist_block, ingest_block, handle_roll_forward,
}
use transaction_monitoring_s.ChainSync.Forward.Checkpoint.{handle_roll_forward-ingest_block}
use transaction_monitoring_s.ChainSync.Forward.Checkpoint.Redelivery.{
  is_healthy, redeliver, redeliver-checkpoint,
}
use transaction_monitoring_s.Mempool.Pending.{Ref}
use transaction_monitoring_s.Mempool.Monitor
use transaction_monitoring_s.Mempool.Monitor.{
  Monitor, record_displacements, settle_confirmed, settle_all, consume_enrichment,
  clear_on_rollback,
}

mem-hashes_empty :
    (id : String) (txs : List BlockTx) → is_empty txs ≡ true → mem id (hashes (parsed txs)) ≡ false
mem-hashes_empty id [] h = refl
mem-hashes_empty id (t ∷ txs) h = cc

module _ {V : Type 0} (monitor_env : Monitor.Env) where
  -- None of the calls raises: their `try` blocks and `emit` catch what the database raises.
  abbrev pub monitor : MempoolMonitor (Monitor V)
  monitor = record {
    record_displacements = λ txs now m. some (record_displacements monitor_env txs now m);
    settle_confirmed = λ txs now p m. some (settle_confirmed monitor_env txs now p m);
    consume_enrichment = consume_enrichment;
    clear_on_rollback = clear_on_rollback;
  }

  -- With the real monitor, which never raises, a block with a slot that is sent again until its
  -- handler ends well is handled, and is the checkpoint, if the outside is healthy at one of the
  -- deliveries.
  pub redeliver-monitor :
      (envs : List Env) (b : Block) (s : ℕ) (w : World (Monitor V))
      → b.slot ≡ some s
      → any (is_healthy b) envs ≡ true
      → (is_done (redeliver monitor envs b w) ≡ true)
        × ((final (redeliver monitor envs b w)).sync_point ≡ some (record { slot = s; id = b.id }))
  redeliver-monitor envs b s w =
      redeliver-checkpoint monitor (λ txs now m. refl) (λ txs now p m. refl) envs b s w

  -- The cached inputs of the pending transactions.
  abbrev pub Cached : Assoc (List (Ref × V) × ℕ) → World (Monitor V) → Type 0
  Cached c w = w.mempool.pending_input_cache ≡ c

  -- Those of the block's transactions are gone, the others as they were.
  abbrev pub Consumed : List String → Assoc (List (Ref × V) × ℕ) → World (Monitor V) → Type 0
  Consumed ids c w =
      (id : String)
      → lookup id w.mempool.pending_input_cache ≡ (if mem id ids then none else lookup id c)

  settle_all-cache :
      (txs : List BlockTx) (m : Monitor V)
      → (settle_all monitor_env txs m).pending_input_cache ≡ m.pending_input_cache
  unfolding settle_all
  settle_all-cache [] m = refl
  settle_all-cache (tx ∷ txs) m = settle_all-cache txs _

  consume_all-Consumed :
      (txs : List BlockTx) (w : World (Monitor V))
      → Consumed (hashes txs) w.mempool.pending_input_cache (consume_all monitor txs w)
  unfolding consume_all consume_enrichment
  consume_all-Consumed [] w id = refl
  consume_all-Consumed (tx ∷ txs) w id = ground (
    arith,
    consume_all-Consumed txs (record w { mempool = consume_enrichment tx.id w.mempool }) id,
    lookup-remove tx.id id w.mempool.pending_input_cache,
    eq_iff tx.id id,
    eq_iff id tx.id,
  )

  module _ (c : Assoc (List (Ref × V) × ℕ)) where
    write_raw_payloads-Cached :
        (env : Env) (txs : List BlockTx) (w : World (Monitor V))
        → Cached c w
        → Post (Cached c) (Cached c) (write_raw_payloads env txs w)
    unfolding write_raw_payloads
    write_raw_payloads-Cached env txs w h = ground arith

    insert_transactions-Cached :
        (env : Env) (s : ℕ) (txs : List BlockTx) (w : World (Monitor V))
        → Cached c w
        → Post (Cached c) (Cached c) (insert_transactions env s txs w)
    unfolding insert_transactions
    insert_transactions-Cached env s txs w h = ground arith

    confirm_lifecycle-Cached :
        (env : Env) (p : Point) (height : ℕ) (txs : List BlockTx) (w : World (Monitor V))
        → Cached c w
        → Cached c (confirm_lifecycle env p height txs w)
    unfolding confirm_lifecycle
    confirm_lifecycle-Cached env p height txs w h = ground arith

    save_sync_point-Cached :
        (is_up : Bool) (p : Point) (w : World (Monitor V))
        → Cached c w
        → Post (Cached c) (Cached c) (save_sync_point is_up p w)
    unfolding save_sync_point
    save_sync_point-Cached is_up p w h = ground arith

    settle-Cached :
        (env : Env) (p : Point) (txs : List BlockTx) (w : World (Monitor V))
        → Cached c w
        → Post (Cached c) (Cached c) (settle monitor env p txs w)
    unfolding settle record_displacements settle_confirmed
    settle-Cached env p txs w h = settle_all-cache txs _ ∙ h

    -- a block without transactions
    save_sync_point-Consumed :
        (is_up : Bool) (p : Point) (ids : List String) (w : World (Monitor V))
        → Cached c w
        → ((id : String) → mem id ids ≡ false)
        → Post (Consumed ids c) (Cached c) (save_sync_point is_up p w)
    unfolding save_sync_point
    save_sync_point-Consumed true p ids w h none_in = λ id. rw (none_in id, h)
    save_sync_point-Consumed false p ids w h none_in = h

    persist_block-Cached :
        (env : Env) (p : Point) (height : ℕ) (txs : List BlockTx) (w : World (Monitor V))
        → Cached c w
        → Post (Cached c) (Cached c) (persist_block monitor env p height txs w)
    unfolding persist_block
    persist_block-Cached env p height [] w h = h
    persist_block-Cached env p height (t ∷ txs) w h =
        and_then-Post (Cached c) (Cached c) (Cached c) (Cached c) _ _
          (write_raw_payloads-Cached env (t ∷ txs) w h) (λ v r. r)
          (λ v r.
            and_then-Post (Cached c) (Cached c) (Cached c) (Cached c) _ _
              (insert_transactions-Cached env p.slot (t ∷ txs) v r) (λ u q. q)
              (λ u q.
                settle-Cached env p (t ∷ txs) _
                  (confirm_lifecycle-Cached env p height (t ∷ txs) u q)))

    ingest_block-Consumed :
        (env : Env) (b : Block) (s : ℕ) (w : World (Monitor V))
        → Cached c w
        → Post
            (Consumed (hashes (parsed b.transactions)) c)
            (Cached c)
            (ingest_block monitor env b s w)
    unfolding ingest_block parse_block_txs
    ingest_block-Consumed env b s w h =
        let p : Point = record { slot = s; id = b.id } in
        let gone = Consumed (hashes (parsed b.transactions)) c in
        elim (Bool-cases (is_empty b.transactions)) [
          | inl e ↦ rw e (
              save_sync_point-Consumed env.checkpoint_up p (hashes (parsed b.transactions)) _ h
                (λ id. mem-hashes_empty id b.transactions e))
          | inr e ↦ rw e (
              and_then-Post (Cached c) gone (Cached c) (Cached c) _ _
                (persist_block-Cached env p b.height (parsed b.transactions) _ h) (λ v r. r)
                (λ v r.
                  and_then-Post (Cached c) gone (Cached c) (Cached c) _ _
                    (save_sync_point-Cached env.checkpoint_up p v r) (λ u q. q)
                    (λ u q id. consume_all-Consumed (parsed b.transactions) u id ∙ rw q)))
        ]

  -- When the handler of a block with a slot raises, the cache is as it was, so that the next
  -- delivery finds the inputs again; when it ends well, exactly the entries of the block's
  -- transactions that parse are gone.
  pub handle_roll_forward-Consumed :
      (env : Env) (b : Block) (s : ℕ) (w : World (Monitor V))
      → b.slot ≡ some s
      → Post
          (Consumed (hashes (parsed b.transactions)) w.mempool.pending_input_cache)
          (Cached w.mempool.pending_input_cache)
          (handle_roll_forward monitor env b w)
  handle_roll_forward-Consumed env b s w h =
      rw (handle_roll_forward-ingest_block monitor env b s w h)
        (ingest_block-Consumed w.mempool.pending_input_cache env b s w refl)
