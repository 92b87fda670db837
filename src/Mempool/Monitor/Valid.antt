-- ===== src/Mempool/Monitor/Valid.antt =====
-- Whatever calls the `MempoolMonitor` of backend/app/ingestion/mempool_monitor.py gets, in whatever
-- order, its pending index stays in step with itself.
use mathlib.Core.Path.{subst}
use transaction_monitoring_s.Prelude.{
  ℕ, suc, String, true, Option, none, some, List, [], ◌∷◌, ◌≡◌, refl, sym, ◌∙◌, ap, mem, ◌||◌,
  str_eq, Bool-cases, inl, inr, arith, leb, eq_iff,
}
use transaction_monitoring_s.Prelude.Assoc.{lookup, lookup-insert}
use transaction_monitoring_s.Lifecycle.{Table}
use transaction_monitoring_s.ChainSync.{Point, BlockTx}
use transaction_monitoring_s.Mempool.Pending.{Ref, Entry, PendingTxIndex, track, untrack, mem_ref}
use transaction_monitoring_s.Mempool.Pending.Consistent.{
  IsConsistent, spends, track-IsConsistent, untrack-IsConsistent,
}
use transaction_monitoring_s.Mempool.Monitor.{
  Monitor, Env, init, record_displacements, settle_confirmed, settle_all, consume_enrichment,
  clear_on_rollback,
}
use transaction_monitoring_s.Mempool.Loop.{
  Arrival, Next, undecodable, broken, transaction, on_next, observe, detect, resolve_mempool_inputs,
  resolve_refs, cache_inputs, record_mempool_collisions, count_and_prune, sweep, register,
  untrack_all, refs_of, entry_of,
}
use transaction_monitoring_s.Mempool.Loop.Sweep.{entries-untrack}

-- A call of the monitor; `reconnected` starts `_mempool_loop` again.
pub data Call (V : Type 0) : Type 0 where
  displacements : List BlockTx → ℕ → Call V
  settled : List BlockTx → ℕ → Point → Call V
  consumed : String → Call V
  rolled_back : Call V
  reconnected : Call V
  received : Next V → Call V

module _ {V : Type 0} where
  unfoldable pub serve : Env → Call V → Monitor V × Table → Monitor V × Table
  serve env (displacements txs now) (m, t) = (record_displacements env txs now m, t)
  serve env (settled txs now p) (m, t) = (settle_confirmed env txs now p m, t)
  serve env (consumed tx_hash) (m, t) = (consume_enrichment tx_hash m, t)
  serve env rolled_back (m, t) = (clear_on_rollback m, t)
  serve env reconnected (m, t) = (record m { seen_mempool_txs = [] }, t)
  serve env (received n) s = on_next env n s

  unfoldable pub serve_all : Env → List (Call V) → Monitor V × Table → Monitor V × Table
  serve_all env [] s = s
  serve_all env (c ∷ cs) s = serve_all env cs (serve env c s)

module _ (body : String → List Ref) where
  -- A transaction's id is the hash of its body, which names the references.
  abbrev pub IsOfBody : {V : Type 0} → Call V → Type 0
  IsOfBody (received (transaction a)) = refs_of a.tx ≡ body a.tx.id
  IsOfBody _ = Unit

  abbrev pub AreOfBody : {V : Type 0} → List (Call V) → Type 0
  AreOfBody [] = Unit
  AreOfBody (c ∷ cs) = IsOfBody c × AreOfBody cs

  -- Every entry has the references of its transaction's body.
  abbrev pub IsFaithful : PendingTxIndex → Type 0
  IsFaithful p = (id : String) (e : Entry) → lookup id p.entries ≡ some e → e.input_refs ≡ body id

  abbrev pub IsValid : PendingTxIndex → Type 0
  IsValid p = IsConsistent p × IsFaithful p

  -- by the entry that `track` replaces
  replaced_spends :
      (r : Ref) (id : String) (e : Entry) (p : PendingTxIndex) (o : Option Entry)
      → lookup id p.entries ≡ o
      → e.input_refs ≡ body id
      → IsFaithful p
      → spends r o ≡ true
      → mem_ref r e.input_refs ≡ true
  replaced_spends r id e p none at h f s = ground arith
  replaced_spends r id e p (some old) at h f s = ap (mem_ref r) (h ∙ sym (f id old at)) ∙ s

  track-IsFaithful :
      (id : String) (e : Entry) (p : PendingTxIndex)
      → e.input_refs ≡ body id
      → IsFaithful p
      → IsFaithful (track id e p)
  unfolding track
  track-IsFaithful id e p h f x d at =
      ground (arith, lookup-insert id x e p.entries, f x d, eq_iff id x)

  track-IsValid :
      (id : String) (e : Entry) (p : PendingTxIndex)
      → e.input_refs ≡ body id
      → IsValid p
      → IsValid (track id e p)
  track-IsValid id e p h v = (
    track-IsConsistent id e p (λ r. replaced_spends r id e p _ refl h v.1) v.0,
    track-IsFaithful id e p h v.1,
  )

  untrack-IsValid : (id : String) (p : PendingTxIndex) → IsValid p → IsValid (untrack id p)
  untrack-IsValid id p v =
      (untrack-IsConsistent id p v.0, λ x e h. ground (arith, v.1 x e, entries-untrack x id p, h))

  untrack_all-IsValid :
      (ids : List String) (p : PendingTxIndex) → IsValid p → IsValid (untrack_all ids p)
  unfolding untrack_all
  untrack_all-IsValid [] p v = v
  untrack_all-IsValid (id ∷ ids) p v =
      untrack_all-IsValid ids (untrack id p) (untrack-IsValid id p v)

  module _ {V : Type 0} where
    settle_all-IsValid :
        (env : Env) (txs : List BlockTx) (m : Monitor V)
        → IsValid m.pending
        → IsValid (settle_all env txs m).pending
    unfolding settle_all
    settle_all-IsValid env [] m v = v
    settle_all-IsValid env (tx ∷ txs) m v =
        settle_all-IsValid env txs _ (untrack-IsValid tx.id m.pending v)

    register-IsValid :
        (env : Env) (id : String) (e : Entry) (refs : List Ref) (m : Monitor V)
        → e.input_refs ≡ body id
        → IsValid m.pending
        → IsValid (register env id e refs m).pending
    unfolding register
    register-IsValid env id e [] m h v = v
    register-IsValid env id e (r ∷ refs) m h v = track-IsValid id e m.pending h v

    count_and_prune-IsValid :
        (env : Env) (now : ℕ) (m : Monitor V)
        → IsValid m.pending
        → IsValid (count_and_prune env now m).pending
    unfolding count_and_prune sweep
    count_and_prune-IsValid env now m v =
        elim (Bool-cases (leb env.prune_every_n_txs (suc m.mempool_txs_since_prune))) [
          | inl e ↦ simp e (untrack_all-IsValid _ m.pending v)
          | inr e ↦ simp e v
        ]

    detect-IsValid :
        (env : Env) (a : Arrival V) (m : Monitor V)
        → refs_of a.tx ≡ body a.tx.id
        → IsValid m.pending
        → IsValid (detect env a m).pending
    unfolding detect record_mempool_collisions
    detect-IsValid env a m h v = elim (Bool-cases a.tx.is_readable) [
      | inl e ↦ simp e (
          count_and_prune-IsValid env a.now _ (
            register-IsValid env a.tx.id (entry_of a.tx (refs_of a.tx) a.now) (refs_of a.tx) m h v))
      | inr e ↦ simp e v
    ]

    cache_inputs-pending :
        (id : String) (at : ℕ) (utxos : Option (List (Ref × V))) (m : Monitor V)
        → (cache_inputs id at utxos m).pending ≡ m.pending
    unfolding cache_inputs
    cache_inputs-pending id at none m = refl
    cache_inputs-pending id at (some []) m = refl
    cache_inputs-pending id at (some (u ∷ us)) m = refl

    resolve_refs-pending :
        (a : Arrival V) (refs : List Ref) (m : Monitor V)
        → (resolve_refs a refs m).pending ≡ m.pending
    unfolding resolve_refs
    resolve_refs-pending a [] m = refl
    resolve_refs-pending a (r ∷ refs) m = cache_inputs-pending _ _ (a.utxos (r ∷ refs)) m

    observe-IsValid :
        (env : Env) (a : Arrival V) (s : Monitor V × Table)
        → refs_of a.tx ≡ body a.tx.id
        → IsValid s.0.pending
        → IsValid (observe env a s).0.pending
    unfolding observe resolve_mempool_inputs
    observe-IsValid env a (m, t) h v =
        subst IsValid (sym (resolve_refs-pending a _ _)) (detect-IsValid env a _ h v)

    serve-IsValid :
        (env : Env) (c : Call V) (s : Monitor V × Table)
        → IsOfBody c
        → IsValid s.0.pending
        → IsValid (serve env c s).0.pending
    unfolding serve record_displacements settle_confirmed consume_enrichment clear_on_rollback
        on_next
    serve-IsValid env (displacements txs now) s h v = v
    serve-IsValid env (settled txs now p) s h v = settle_all-IsValid env txs s.0 v
    serve-IsValid env (consumed tx) s h v = v
    serve-IsValid env rolled_back s h v = v
    serve-IsValid env reconnected s h v = v
    serve-IsValid env (received undecodable) s h v = v
    serve-IsValid env (received broken) s h v = v
    serve-IsValid env (received (transaction a)) s h v =
        elim (Bool-cases (str_eq a.tx.id "" || mem a.tx.id s.0.seen_mempool_txs)) [
          | inl e ↦ simp e v
          | inr e ↦ simp e (observe-IsValid env a s h v)
        ]

    serve_all-IsValid :
        (env : Env) (cs : List (Call V)) (s : Monitor V × Table)
        → AreOfBody cs
        → IsValid s.0.pending
        → IsValid (serve_all env cs s).0.pending
    unfolding serve_all
    serve_all-IsValid env [] s h v = v
    serve_all-IsValid env (c ∷ cs) s h v =
        serve_all-IsValid env cs _ h.1 (serve-IsValid env c s h.0 v)

    -- From a new monitor, after any calls in any order whose transactions have the references that
    -- their ids name, the inverted index has an id under a reference exactly if its entry spends
    -- it, and no key over an empty set.
    pub calls-IsConsistent :
        (env : Env) (cs : List (Call V)) (t : Table)
        → AreOfBody cs
        → IsConsistent (serve_all env cs (init, t)).0.pending
    unfolding lookup
    calls-IsConsistent env cs t h =
        (serve_all-IsValid env cs (init, t) h
          ((λ r id. refl, λ r e. ground arith), λ id e at. ground arith)).0
