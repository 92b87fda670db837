-- ===== src/Mempool/Pending/Consistent.antt =====
-- The entries and the inverted index of a `PendingTxIndex` say the same: what `track` and `untrack`
-- (backend/app/ingestion/mempool_monitor.py) keep true.
use transaction_monitoring_s.Prelude.{
  String, Bool, true, false, Option, none, some, List, [], ◌∷◌, ◌≡◌, ◌≢◌, refl, keep, mem, not,
  str_eq, ◌&&◌, ◌||◌, arith, eq_iff, Bool-cases, inl, inr, ◌++◌,
}
use transaction_monitoring_s.Prelude.Assoc.{lookup, lookup-insert, lookup-remove}
use transaction_monitoring_s.Mempool.Pending.{
  Ref, mem_ref, Entry, RefIndex, PendingTxIndex, or_empty, nonempty, update, add_id, discard_id,
  add_refs, discard_refs, track, untrack_entry, untrack,
}

-- Whether the entry of a transaction, if it has one, spends the reference.
abbrev pub spends : Ref → Option Entry → Bool
spends r none = false
spends r (some e) = mem_ref r e.input_refs

-- Whether the inverted index has the id under the reference.
abbrev pub is_indexed : Ref → String → RefIndex → Bool
is_indexed r id index = mem id (or_empty (index r))

abbrev pub IsConsistent : PendingTxIndex → Type 0
IsConsistent p =
    ((r : Ref) (id : String) → is_indexed r id p.ref_index ≡ spends r (lookup id p.entries))
    × ((r : Ref) → p.ref_index r ≢ some [])

mem-append : (x : String) (xs ys : List String) → mem x (xs ++ ys) ≡ (mem x xs || mem x ys)
mem-append x [] ys = refl
mem-append x (y ∷ xs) ys = ground (arith, mem-append x xs ys)

mem-without :
    (x id : String) (xs : List String)
    → mem x (keep (λ y. not (str_eq y id)) xs) ≡ (not (str_eq x id) && mem x xs)
mem-without x id [] = ground arith
mem-without x id (y ∷ xs) =
    ground (arith, mem-without x id xs, eq_iff x y, eq_iff y id, eq_iff x id)

mem-add_id :
    (x id : String) (ids : List String) → mem x (add_id id ids) ≡ (str_eq x id || mem x ids)
unfolding add_id
mem-add_id x id ids = elim (Bool-cases (str_eq x id)) [
  | inl e ↦ ground (arith, e, eq_iff x id, mem-append x ids (id ∷ []))
  | inr e ↦ ground (arith, e, mem-append x ids (id ∷ []))
]

nonempty-or_empty {ℓ} : {A : Type ℓ} (xs : List A) → or_empty (nonempty xs) ≡ xs
nonempty-or_empty [] = refl
nonempty-or_empty (x ∷ xs) = refl

mem-discard_id :
    (x id : String) (ids : Option (List String))
    → mem x (or_empty (discard_id id ids)) ≡ (not (str_eq x id) && mem x (or_empty ids))
unfolding discard_id
mem-discard_id x id none = ground arith
mem-discard_id x id (some ids) =
    rw (nonempty-or_empty (keep (λ y. not (str_eq y id)) ids), mem-without x id ids)

is_indexed-add_refs :
    (q : Ref) (x id : String) (rs : List Ref) (index : RefIndex)
    → is_indexed q x (add_refs id rs index)
      ≡ ((str_eq x id && mem_ref q rs) || is_indexed q x index)
unfolding add_refs update
is_indexed-add_refs q x id [] index = ground arith
is_indexed-add_refs q x id (r ∷ rs) index = ground (
  arith,
  is_indexed-add_refs q x id rs (update r (λ ids. some (add_id id (or_empty ids))) index),
  mem-add_id x id (or_empty (index q)),
)

is_indexed-discard_refs :
    (q : Ref) (x id : String) (rs : List Ref) (index : RefIndex)
    → is_indexed q x (discard_refs id rs index)
      ≡ (not (str_eq x id && mem_ref q rs) && is_indexed q x index)
unfolding discard_refs update
is_indexed-discard_refs q x id [] index = ground arith
is_indexed-discard_refs q x id (r ∷ rs) index = ground (
  arith,
  is_indexed-discard_refs q x id rs (update r (discard_id id) index),
  mem-discard_id x id (index q),
)

-- No key is left over an empty set.
abbrev IsFull : RefIndex → Type 0
IsFull index = (r : Ref) → index r ≢ some []

add_id-full : (id : String) (ids : List String) → some (add_id id ids) ≢ some []
unfolding add_id
add_id-full id [] = ground arith
add_id-full id (x ∷ ids) = ground arith

add_refs-IsFull :
    (id : String) (rs : List Ref) (index : RefIndex) → IsFull index → IsFull (add_refs id rs index)
unfolding add_refs update
add_refs-IsFull id [] index h = h
add_refs-IsFull id (r ∷ rs) index h =
    add_refs-IsFull id rs _ (λ q. ground (arith, h q, add_id-full id (or_empty (index q))))

nonempty-full {ℓ} : {A : Type ℓ} (xs : List A) → nonempty xs ≢ some []
nonempty-full [] = ground arith
nonempty-full (x ∷ xs) = ground arith

discard_id-full : (id : String) (ids : Option (List String)) → discard_id id ids ≢ some []
unfolding discard_id
discard_id-full id none = ground arith
discard_id-full id (some ids) = nonempty-full (keep (λ x. not (str_eq x id)) ids)

discard_refs-IsFull :
    (id : String) (rs : List Ref) (index : RefIndex)
    → IsFull index
    → IsFull (discard_refs id rs index)
unfolding discard_refs update
discard_refs-IsFull id [] index h = h
discard_refs-IsFull id (r ∷ rs) index h =
    discard_refs-IsFull id rs _ (λ q. ground (arith, h q, discard_id-full id (index q)))

-- `track` keeps the two in step if an entry that it replaces spends nothing that the new one does not.
pub track-IsConsistent :
    (tx : String) (e : Entry) (p : PendingTxIndex)
    → ((r : Ref) → spends r (lookup tx p.entries) ≡ true → spends r (some e) ≡ true)
    → IsConsistent p
    → IsConsistent (track tx e p)
unfolding track
track-IsConsistent tx e p old c = (
  λ r id. ground (
    arith,
    is_indexed-add_refs r id tx e.input_refs p.ref_index,
    lookup-insert tx id e p.entries,
    c.0 r id,
    old r,
    eq_iff id tx,
    eq_iff tx id,
  ),
  add_refs-IsFull tx e.input_refs p.ref_index c.1,
)

-- by what `pop` returns
untrack_entry-IsConsistent :
    (tx : String) (o : Option Entry) (p : PendingTxIndex)
    → lookup tx p.entries ≡ o
    → IsConsistent p
    → IsConsistent (untrack_entry tx o p)
unfolding untrack_entry
untrack_entry-IsConsistent tx none p e c = c
untrack_entry-IsConsistent tx (some old) p e c = (
  λ r id. ground (
    arith,
    is_indexed-discard_refs r id tx old.input_refs p.ref_index,
    lookup-remove tx id p.entries,
    c.0 r id,
    e,
    eq_iff id tx,
    eq_iff tx id,
  ),
  discard_refs-IsFull tx old.input_refs p.ref_index c.1,
)

pub untrack-IsConsistent :
    (tx : String) (p : PendingTxIndex) → IsConsistent p → IsConsistent (untrack tx p)
unfolding untrack
untrack-IsConsistent tx p = untrack_entry-IsConsistent tx _ p refl
