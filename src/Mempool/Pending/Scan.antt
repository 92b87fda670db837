-- ===== src/Mempool/Pending/Scan.antt =====
-- What `sharing` of backend/app/ingestion/mempool_monitor.py answers from the inverted index,
-- against the set intersection with each entry that it replaces.
use transaction_monitoring_s.Prelude.{
  String, Bool, true, false, Option, none, some, List, [], ◌∷◌, ◌++◌, ◌≡◌, refl, ◌∙◌, ap, keep, mem,
  ◌||◌, if◌then◌else◌, arith, eq_iff, Bool-cases, inl, inr,
}
use mathlib.Core.List.{append_assoc}
use transaction_monitoring_s.Prelude.Assoc.{Assoc, lookup, insert, lookup-insert}
use transaction_monitoring_s.Mempool.Pending.{
  Ref, ref_eq, mem_ref, Entry, RefIndex, PendingTxIndex, or_empty, nonempty, add_ref, share,
  share_all, sharing,
}
use transaction_monitoring_s.Mempool.Pending.Consistent.{IsConsistent, spends, is_indexed}

-- `refs & entry[0]`, if the transaction is pending and the intersection is not empty.
abbrev pub scan : List Ref → Option Entry → Option (List Ref)
scan refs entry = nonempty (keep (λ r. spends r entry) refs)

-- No reference twice.
abbrev pub Unrepeated : List Ref → Type 0
Unrepeated [] = Unit
Unrepeated (r ∷ rs) = (mem_ref r rs ≡ false) × Unrepeated rs

ref_eq_refl : (r : Ref) → ref_eq r r ≡ true
ref_eq_refl r = ground (arith, eq_iff r.tx_hash r.tx_hash)

ref_eq_sym : (q r : Ref) → ref_eq q r ≡ ref_eq r q
ref_eq_sym q r = ground (arith, eq_iff r.tx_hash q.tx_hash, eq_iff q.tx_hash r.tx_hash)

mem_ref-append :
    (q : Ref) (xs ys : List Ref) → mem_ref q (xs ++ ys) ≡ (mem_ref q xs || mem_ref q ys)
mem_ref-append q [] ys = refl
mem_ref-append q (x ∷ xs) ys = ground (arith, mem_ref-append q xs ys)

add_ref-new : (r : Ref) (refs : List Ref) → mem_ref r refs ≡ false → add_ref r refs ≡ refs ++ r ∷ []
unfolding add_ref
add_ref-new r refs h = ground arith

add_ref-again : (r : Ref) (refs : List Ref) → add_ref r (add_ref r refs) ≡ add_ref r refs
unfolding add_ref
add_ref-again r refs = ground (arith, ref_eq_refl r, mem_ref-append r refs (r ∷ []))

lookup-share :
    (r : Ref) (id : String) (ids : List String) (out : Assoc (List Ref))
    → lookup id (share r ids out)
      ≡ (if mem id ids then some (add_ref r (or_empty (lookup id out))) else lookup id out)
unfolding share
lookup-share r id [] out = refl
lookup-share r id (x ∷ ids) out =
    let added = insert x (add_ref r (or_empty (lookup x out))) out in
    ground (
      arith,
      lookup-share r id ids added,
      lookup-insert x id (add_ref r (or_empty (lookup x out))) out,
      add_ref-again r (or_empty (lookup id out)),
      eq_iff id x,
      eq_iff x id,
    )

mem_ref-apart :
    (q r : Ref) (rs : List Ref) → mem_ref r rs ≡ false → mem_ref q rs ≡ true → ref_eq q r ≡ false
mem_ref-apart q r [] out within = ground arith
mem_ref-apart q r (x ∷ rs) out within = ground (
  arith,
  mem_ref-apart q r rs,
  eq_iff q.tx_hash x.tx_hash,
  eq_iff q.tx_hash r.tx_hash,
  eq_iff r.tx_hash x.tx_hash,
)

-- The set under a key, with more added to it.
extended : Option (List Ref) → List Ref → Option (List Ref)
extended o [] = o
extended o (x ∷ xs) = some (or_empty o ++ x ∷ xs)

extended-step :
    (o : Option (List Ref)) (r : Ref) (xs : List Ref)
    → extended (some (or_empty o ++ r ∷ [])) xs ≡ extended o (r ∷ xs)
unfolding extended
extended-step o r [] = refl
extended-step o r (x ∷ xs) = ap some (append_assoc (or_empty o) (r ∷ []) (x ∷ xs))

lookup-share_all :
    (index : RefIndex) (id : String) (refs : List Ref) (out : Assoc (List Ref))
    → Unrepeated refs
    → ((q : Ref) → mem_ref q refs ≡ true → mem_ref q (or_empty (lookup id out)) ≡ false)
    → lookup id (share_all index refs out)
      ≡ extended (lookup id out) (keep (λ r. is_indexed r id index) refs)
unfolding share_all extended
lookup-share_all index id [] out u new = refl
lookup-share_all index id (r ∷ refs) out u new =
    let out' = share r (or_empty (index r)) out in
    let found = lookup-share r id (or_empty (index r)) out in
    elim (Bool-cases (is_indexed r id index)) [
      | inl e ↦
          let there : lookup id out' ≡ some (or_empty (lookup id out) ++ r ∷ []) =
            found ∙ rw (e, add_ref-new r (or_empty (lookup id out)) (new r (rw (ref_eq_refl r)))) in
          let later : (q : Ref)
              → mem_ref q refs ≡ true
              → mem_ref q (or_empty (lookup id out')) ≡ false =
            λ q h. rw (
              there,
              mem_ref-append q (or_empty (lookup id out)) (r ∷ []),
              new q (ground (arith, h)),
              mem_ref-apart q r refs u.0 h,
            ) in
          lookup-share_all index id refs out' u.1 later
          ∙ rw (there, e, extended-step (lookup id out) r (keep (λ x. is_indexed x id index) refs))
      | inr e ↦
          let there : lookup id out' ≡ lookup id out = found ∙ rw e in
          lookup-share_all index id refs out' u.1 (λ q h. rw there (new q (ground (arith, h))))
          ∙ rw (there, e)
    ]

keep-same :
    (f g : Ref → Bool) (refs : List Ref) → ((r : Ref) → f r ≡ g r) → keep f refs ≡ keep g refs
keep-same f g [] h = refl
keep-same f g (r ∷ refs) h = rw (h r, keep-same f g refs h)

extended-none : (xs : List Ref) → extended none xs ≡ nonempty xs
unfolding extended
extended-none [] = refl
extended-none (x ∷ xs) = refl

-- When the inverted index agrees with the entries, for references without repeats it answers as the
-- intersections would: for each pending transaction the part of the references that it spends, if
-- there is one, and nothing for the others.
pub sharing-scan :
    (refs : List Ref) (id : String) (p : PendingTxIndex)
    → IsConsistent p
    → Unrepeated refs
    → lookup id (sharing refs p) ≡ scan refs (lookup id p.entries)
unfolding sharing lookup
sharing-scan refs id p c u =
    lookup-share_all p.ref_index id refs [] u (λ q h. refl)
    ∙ extended-none (keep (λ r. is_indexed r id p.ref_index) refs)
    ∙ ap nonempty (keep-same _ _ refs (λ r. c.0 r id))

Unrepeated-append :
    (r : Ref) (xs : List Ref) → mem_ref r xs ≡ false → Unrepeated xs → Unrepeated (xs ++ r ∷ [])
Unrepeated-append r [] h u = (refl, tt)
Unrepeated-append r (x ∷ xs) h u =
    ground (arith, Unrepeated-append r xs, mem_ref-append x xs (r ∷ []), ref_eq_sym x r, u.0, u.1)

-- What `set(refs)` makes has no repeats.
pub add_ref-Unrepeated : (r : Ref) (refs : List Ref) → Unrepeated refs → Unrepeated (add_ref r refs)
unfolding add_ref
add_ref-Unrepeated r refs u = ground (arith, Unrepeated-append r refs, u)
