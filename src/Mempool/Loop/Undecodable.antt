-- ===== src/Mempool/Loop/Undecodable.antt =====
-- What a frame that is nested too deeply costs the LocalTxMonitor loop of
-- backend/app/ingestion/mempool_monitor.py.
use transaction_monitoring_s.Prelude.{
  ℕ, suc, Bool, true, false, Option, none, some, List, [], ◌∷◌, any, map, ◌≡◌, refl, sym, ◌∙◌, ap,
  keep, mem, ◌||◌, str_eq, leb, Bool-cases, inl, inr, String,
}
use transaction_monitoring_s.Lifecycle.{Table}
use transaction_monitoring_s.Mempool.Pending.{Ref, Entry}
use transaction_monitoring_s.Mempool.Monitor.{Monitor, Env}
use transaction_monitoring_s.Mempool.Loop.{
  Arrival, Next, MempoolTx, undecodable, broken, transaction, on_next, walk, is_broken, acquire,
  mempool_loop, register, sweep, count_and_prune, record_mempool_collisions, cache_inputs,
  resolve_refs, resolve_mempool_inputs, observe, detect, announce, entry_of, refs_of,
}

abbrev pub is_decodable : {V : Type 0} → Next V → Bool
is_decodable undecodable = false
is_decodable broken = true
is_decodable (transaction a) = true

module _ {V : Type 0} where
  -- The monitor without the count of the frames that did not decode.
  abbrev pub forget : Monitor V → Monitor V
  forget m = record m { undecodable_txs = 0 }

  abbrev pub uncounted : Monitor V × Table → Monitor V × Table
  uncounted (m, t) = (forget m, t)

  register-forget :
      (env : Env) (id : String) (e : Entry) (refs : List Ref) (m : Monitor V)
      → register env id e refs (forget m) ≡ forget (register env id e refs m)
  unfolding register
  register-forget env id e [] m = refl
  register-forget env id e (r ∷ refs) m = refl

  count_and_prune-forget :
      (env : Env) (now : ℕ) (m : Monitor V)
      → count_and_prune env now (forget m) ≡ forget (count_and_prune env now m)
  unfolding count_and_prune sweep
  count_and_prune-forget env now m =
      elim (Bool-cases (leb env.prune_every_n_txs (suc m.mempool_txs_since_prune))) [
        | inl e ↦ simp e refl
        | inr e ↦ simp e refl
      ]

  record_mempool_collisions-forget :
      (env : Env) (tx : MempoolTx) (now : ℕ) (m : Monitor V)
      → record_mempool_collisions env tx now (forget m)
        ≡ forget (record_mempool_collisions env tx now m)
  unfolding record_mempool_collisions
  record_mempool_collisions-forget env tx now m =
      ap (count_and_prune env now)
        (register-forget env tx.id (entry_of tx (refs_of tx) now) (refs_of tx) m)
      ∙ count_and_prune-forget env now _

  cache_inputs-forget :
      (id : String) (at : ℕ) (utxos : Option (List (Ref × V))) (m : Monitor V)
      → cache_inputs id at utxos (forget m) ≡ forget (cache_inputs id at utxos m)
  unfolding cache_inputs
  cache_inputs-forget id at none m = refl
  cache_inputs-forget id at (some []) m = refl
  cache_inputs-forget id at (some (u ∷ us)) m = refl

  resolve_refs-forget :
      (a : Arrival V) (refs : List Ref) (m : Monitor V)
      → resolve_refs a refs (forget m) ≡ forget (resolve_refs a refs m)
  unfolding resolve_refs
  resolve_refs-forget a [] m = refl
  resolve_refs-forget a (r ∷ refs) m = cache_inputs-forget _ _ (a.utxos (r ∷ refs)) m

  detect-forget :
      (env : Env) (a : Arrival V) (m : Monitor V)
      → detect env a (forget m) ≡ forget (detect env a m)
  unfolding detect
  detect-forget env a m = elim (Bool-cases a.tx.is_readable) [
    | inl e ↦ simp e (record_mempool_collisions-forget env a.tx a.now m)
    | inr e ↦ simp e refl
  ]

  observe-uncounted :
      (env : Env) (a : Arrival V) (s : Monitor V × Table)
      → observe env a (uncounted s) ≡ uncounted (observe env a s)
  unfolding observe resolve_mempool_inputs
  observe-uncounted env a (m, t) =
      let seen = record m { seen_mempool_txs = a.tx.id ∷ m.seen_mempool_txs } in
      ap (λ m'. (announce a m', (observe env a (m, t)).1))
        (ap (resolve_refs a _) (detect-forget env a seen)
          ∙ resolve_refs-forget a _ (detect env a seen))

  on_next-uncounted :
      (env : Env) (a : Arrival V) (s : Monitor V × Table)
      → on_next env (transaction a) (uncounted s) ≡ uncounted (on_next env (transaction a) s)
  unfolding on_next
  on_next-uncounted env a (m, t) =
      elim (Bool-cases (str_eq a.tx.id "" || mem a.tx.id m.seen_mempool_txs)) [
        | inl e ↦ rw e
        | inr e ↦ rw (e, observe-uncounted env a (m, t))
      ]

  walk-keep :
      (env : Env) (ns : List (Next V)) (s s' : Monitor V × Table)
      → uncounted s ≡ uncounted s'
      → uncounted (walk env ns s) ≡ uncounted (walk env (keep is_decodable ns) s')
  unfolding walk
  walk-keep env [] s s' h = h
  walk-keep env (undecodable ∷ ns) s s' h = walk-keep env ns _ s' (unfold on_next in h)
  walk-keep env (broken ∷ ns) s s' h = unfold on_next in h
  walk-keep env (transaction a ∷ ns) s s' h = walk-keep env ns _ _ (
      sym (on_next-uncounted env a s)
      ∙ ap (on_next env (transaction a)) h
      ∙ on_next-uncounted env a s')

  ends_keep : (ns : List (Next V)) → any is_broken (keep is_decodable ns) ≡ any is_broken ns
  ends_keep [] = refl
  ends_keep (undecodable ∷ ns) = ends_keep ns
  ends_keep (broken ∷ ns) = refl
  ends_keep (transaction a ∷ ns) = ends_keep ns

  acquire-keep :
      (env : Env) (snapshots : List (List (Next V))) (s s' : Monitor V × Table)
      → uncounted s ≡ uncounted s'
      → uncounted (acquire env snapshots s)
        ≡ uncounted (acquire env (map (keep is_decodable) snapshots) s')
  unfolding acquire
  acquire-keep env [] s s' h = h
  acquire-keep env (ns ∷ snapshots) s s' h =
      let walked = walk-keep env ns s s' h in
      elim (Bool-cases (any is_broken ns)) [
        | inl e ↦ rw (ends_keep ns, e) walked
        | inr e ↦ rw (ends_keep ns, e) (acquire-keep env snapshots _ _ walked)
      ]

  -- A frame that is nested too deeply costs its own transaction only: whatever else the snapshots
  -- bring, and where another error ends the loop, the loop leaves the monitor and the lifecycle
  -- table, the count of such frames aside, as it would if those frames had not come.
  pub mempool_loop-undecodable :
      (env : Env) (snapshots : List (List (Next V))) (s : Monitor V × Table)
      → uncounted (mempool_loop env snapshots s)
        ≡ uncounted (mempool_loop env (map (keep is_decodable) snapshots) s)
  unfolding mempool_loop
  mempool_loop-undecodable env snapshots (m, t) = acquire-keep env snapshots _ _ refl
