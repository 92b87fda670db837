-- ===== src/Mempool/Loop/Sweep.antt =====
-- What the sweep of backend/app/ingestion/mempool_monitor.py leaves behind.
use transaction_monitoring_s.Prelude.{
  ℕ, ◌≤◌, String, Bool, true, false, Option, none, some, List, [], ◌∷◌, ◌≡◌, refl, ◌∙◌, ap, mem,
  ◌||◌, str_eq, arith, ltb, length, eq_iff, if◌then◌else◌,
}
use transaction_monitoring_s.Prelude.Assoc.{
  Assoc, lookup, remove, lookup-remove, Distinct, survive, remove-Distinct, lookup-delete_rows,
}
use transaction_monitoring_s.Mempool.Pending.{
  Entry, PendingTxIndex, untrack, untrack_entry, ids_before, stale_ids, Ref,
}
use transaction_monitoring_s.Mempool.Monitor.{Monitor, Env}
use transaction_monitoring_s.Mempool.Loop.{untrack_all, sweep, remove_all}

-- By what `pop` returns.
entries-untrack_entry :
    (id tx : String) (o : Option Entry) (p : PendingTxIndex)
    → lookup tx p.entries ≡ o
    → lookup id (untrack_entry tx o p).entries
      ≡ (if str_eq tx id then none else lookup id p.entries)
unfolding untrack_entry
entries-untrack_entry id tx none p e = ground (arith, e, eq_iff tx id)
entries-untrack_entry id tx (some old) p e = lookup-remove tx id p.entries

pub entries-untrack :
    (id tx : String) (p : PendingTxIndex)
    → lookup id (untrack tx p).entries ≡ (if str_eq tx id then none else lookup id p.entries)
unfolding untrack
entries-untrack id tx p = entries-untrack_entry id tx _ p refl

entries-untrack_all :
    (id : String) (ks : List String) (p : PendingTxIndex)
    → lookup id (untrack_all ks p).entries ≡ (if mem id ks then none else lookup id p.entries)
unfolding untrack_all
entries-untrack_all id [] p = refl
entries-untrack_all id (k ∷ ks) p = ground (
  arith,
  entries-untrack_all id ks (untrack k p),
  entries-untrack id k p,
  eq_iff k id,
  eq_iff id k,
)

lookup-remove_all {ℓ} :
    {A : Type ℓ} (id : String) (ks : List String) (rows : Assoc A)
    → lookup id (remove_all ks rows) ≡ (if mem id ks then none else lookup id rows)
unfolding remove_all
lookup-remove_all id [] rows = refl
lookup-remove_all id (k ∷ ks) rows = ground (
  arith,
  lookup-remove_all id ks (remove k rows),
  lookup-remove k id rows,
  eq_iff k id,
  eq_iff id k,
)

-- Whether there is an entry, first seen before the cutoff.
abbrev pub is_stale : ℕ → Option Entry → Bool
is_stale cutoff none = false
is_stale cutoff (some e) = ltb e.first_seen_at cutoff

mem-ids_before :
    (id : String) (cutoff : ℕ) (rows : Assoc Entry)
    → Distinct rows
    → mem id (ids_before cutoff rows) ≡ is_stale cutoff (lookup id rows)
unfolding ids_before lookup
mem-ids_before id cutoff [] d = refl
mem-ids_before id cutoff ((k, v) ∷ rows) d =
    ground (arith, mem-ids_before id cutoff rows d.1, eq_iff k id, eq_iff id k, d.0)

-- What the sweep leaves of an entry and of cached inputs.
abbrev pub fresh {ℓ} : {A : Type ℓ} → Bool → Option A → Option A
fresh is_old o = if is_old then none else o

module _ {V : Type 0} where
  -- Whether the cached inputs are from before the cutoff.
  abbrev pub is_orphaned : ℕ → Option (List (Ref × V) × ℕ) → Bool
  is_orphaned cutoff none = false
  is_orphaned cutoff (some (inputs, cached_at)) = ltb cached_at cutoff

  fresh-survive :
      (cutoff : ℕ) (o : Option (List (Ref × V) × ℕ)) (b : Bool)
      → survive (λ (inputs, cached_at). ltb cached_at cutoff) (if b then none else o)
        ≡ fresh (b || is_orphaned cutoff o) o
  fresh-survive cutoff o true = refl
  fresh-survive cutoff none false = refl
  fresh-survive cutoff (some (inputs, at)) false = refl

  remove_all-Distinct :
      (ks : List String) (rows : Assoc (List (Ref × V) × ℕ))
      → Distinct rows
      → Distinct (remove_all ks rows)
  unfolding remove_all
  remove_all-Distinct [] rows d = d
  remove_all-Distinct (k ∷ ks) rows d =
      remove_all-Distinct ks (remove k rows) (remove-Distinct k rows d)

  -- On tables without a key twice, the sweep takes exactly the entries first seen before the cutoff
  -- and the cached inputs that are theirs or that are themselves from before it, and the dedup set
  -- stays within its cap.
  pub sweep-fresh :
      (env : Env) (cutoff : ℕ) (m : Monitor V)
      → Distinct m.pending.entries
      → Distinct m.pending_input_cache
      → ((id : String)
          → (lookup id (sweep env cutoff m).pending.entries
              ≡ fresh (is_stale cutoff (lookup id m.pending.entries)) (lookup id m.pending.entries))
            × (lookup id (sweep env cutoff m).pending_input_cache
                ≡ fresh
                    (is_stale cutoff (lookup id m.pending.entries)
                      || is_orphaned cutoff (lookup id m.pending_input_cache))
                    (lookup id m.pending_input_cache)))
        × (length (sweep env cutoff m).seen_mempool_txs ≤ env.seen_txs_max)
  unfolding sweep stale_ids
  sweep-fresh env cutoff m d c =
      let stale = ids_before cutoff m.pending.entries in
      (
        λ id. (
          entries-untrack_all id stale m.pending
              ∙ rw (mem-ids_before id cutoff m.pending.entries d),
          lookup-delete_rows _ id (remove_all stale m.pending_input_cache)
                (remove_all-Distinct stale m.pending_input_cache c)
              ∙ ap (survive _) (lookup-remove_all id stale m.pending_input_cache)
              ∙ fresh-survive cutoff (lookup id m.pending_input_cache) (mem id stale)
              ∙ rw (mem-ids_before id cutoff m.pending.entries d),
        ),
        ground arith,
      )
