-- ===== src/KupoClient/Lookup.antt =====
-- The point of a hash in the lists of backend/app/ingestion/kupo_client.py.
use transaction_monitoring_s.Prelude.{
  ℕ, ◌≡◌, ◌≤◌, refl, String, false, Option, none, some, List, [], ◌∷◌, ◌++◌, any, All,
  if◌then◌else◌, str_eq, eq_iff, arith, Bool-cases, inl, inr, ◌∙◌, ap,
}
use transaction_monitoring_s.KupoClient.{TxPoint, insert_point, newest_first, is_before}

abbrev pub or_else : Option TxPoint → Option TxPoint → Option TxPoint
or_else none o = o
or_else (some p) o = some p

-- The first point of a hash.
abbrev pub point_of : String → List TxPoint → Option TxPoint
point_of h [] = none
point_of h (p ∷ ps) = let rest = point_of h ps in if str_eq p.tx_hash h then some p else rest

-- No hash twice.
abbrev pub Distinct : List TxPoint → Type 0
Distinct [] = Unit
Distinct (p ∷ ps) = (point_of p.tx_hash ps ≡ none) × Distinct ps

-- The newest point is the first.
abbrev pub Descending : List TxPoint → Type 0
Descending [] = Unit
Descending (p ∷ ps) = All (λ q. q.slot ≤ p.slot) ps × Descending ps

pub point_of-append :
    (h : String) (ps qs : List TxPoint)
    → point_of h (ps ++ qs) ≡ or_else (point_of h ps) (point_of h qs)
point_of-append h [] qs = refl
point_of-append h (p ∷ ps) qs = ground (arith, point_of-append h ps qs)

pub point_of-any :
    (h : String) (ps : List TxPoint)
    → any (λ q. str_eq q.tx_hash h) ps ≡ false
    → point_of h ps ≡ none
point_of-any h [] e = refl
point_of-any h (p ∷ ps) e = ground (arith, e, point_of-any h ps)

-- What is found has the hash.
pub point_of-tx_hash :
    (h : String) (ps : List TxPoint) (p : TxPoint) → point_of h ps ≡ some p → p.tx_hash ≡ h
point_of-tx_hash h [] p e = cc
point_of-tx_hash h (q ∷ ps) p e = elim (Bool-cases (str_eq q.tx_hash h)) [
  | inl f ↦ let same = (eq_iff q.tx_hash h).0 f in ground (arith, e, f, same)
  | inr f ↦ point_of-tx_hash h ps p (ground (arith, e, f))
]

pub point_of-none :
    (h : String) (q : TxPoint) (qs : List TxPoint)
    → point_of h (q ∷ qs) ≡ none
    → (str_eq q.tx_hash h ≡ false) × (point_of h qs ≡ none)
point_of-none h q qs e = elim (Bool-cases (str_eq q.tx_hash h)) [
  | inl f ↦ ground (arith, e, f)
  | inr f ↦ (f, ground (arith, e, f))
]

module _ (p : TxPoint) where
  -- Two points with different hashes are found in either order.
  swapped :
      (h : String) (q : TxPoint) (o : Option TxPoint)
      → str_eq q.tx_hash p.tx_hash ≡ false
      → (if str_eq q.tx_hash h then some q else if str_eq p.tx_hash h then some p else o)
        ≡ (if str_eq p.tx_hash h then some p else if str_eq q.tx_hash h then some q else o)
  swapped h q o e =
      ground (arith, e, eq_iff q.tx_hash h, eq_iff p.tx_hash h, eq_iff q.tx_hash p.tx_hash)

  pub point_of-insert :
      (h : String) (qs : List TxPoint)
      → point_of p.tx_hash qs ≡ none
      → point_of h (insert_point p qs) ≡ (if str_eq p.tx_hash h then some p else point_of h qs)
  unfolding insert_point
  point_of-insert h [] e = refl
  point_of-insert h (q ∷ qs) e =
      let (apart, gone) = point_of-none p.tx_hash q qs e in
      elim (Bool-cases (is_before p q)) [
        | inl f ↦ rw f refl
        | inr f ↦ rw (f, point_of-insert h qs gone) (swapped h q (point_of h qs) apart)
      ]

  pub insert-Distinct :
      (qs : List TxPoint)
      → point_of p.tx_hash qs ≡ none
      → Distinct qs
      → Distinct (insert_point p qs)
  unfolding insert_point
  insert-Distinct [] e d = (refl, tt)
  insert-Distinct (q ∷ qs) e d =
      let (apart, gone) = point_of-none p.tx_hash q qs e in
      elim (Bool-cases (is_before p q)) [
        | inl f ↦ rw f (e, d)
        | inr f ↦ rw f (
          point_of-insert q.tx_hash qs gone
              ∙ ground (arith, apart, d.0, eq_iff q.tx_hash p.tx_hash, eq_iff p.tx_hash q.tx_hash),
          insert-Distinct qs gone d.1,
        )
      ]

  insert-All :
      (n : ℕ) (qs : List TxPoint)
      → p.slot ≤ n
      → All (λ q. q.slot ≤ n) qs
      → All (λ q. q.slot ≤ n) (insert_point p qs)
  unfolding insert_point
  insert-All n [] h a = (h, tt)
  insert-All n (q ∷ qs) h a = elim (Bool-cases (is_before p q)) [
    | inl f ↦ rw f (h, a)
    | inr f ↦ rw f (a.0, insert-All n qs h a.1)
  ]

  All-le :
      (n m : ℕ) (qs : List TxPoint) → n ≤ m → All (λ q. q.slot ≤ n) qs → All (λ q. q.slot ≤ m) qs
  All-le n m [] h a = tt
  All-le n m (q ∷ qs) h a = (omega (arith, h, a.0), All-le n m qs h a.1)

  pub insert-Descending : (qs : List TxPoint) → Descending qs → Descending (insert_point p qs)
  unfolding insert_point
  insert-Descending [] d = (tt, tt)
  insert-Descending (q ∷ qs) d = elim (Bool-cases (is_before p q)) [
    | inl f ↦
        let le : q.slot ≤ p.slot = ground (arith, f) in
        rw f ((le, All-le q.slot p.slot qs le d.0), d)
    | inr f ↦
        let le : p.slot ≤ q.slot = ground (arith, f) in
        rw f (insert-All q.slot qs le d.0, insert-Descending qs d.1)
  ]

-- What sorting keeps, and what it gives.
pub newest_first-lookup :
    (ps : List TxPoint)
    → Distinct ps
    → ((h : String) → point_of h (newest_first ps) ≡ point_of h ps)
      × Distinct (newest_first ps)
      × Descending (newest_first ps)
unfolding newest_first
newest_first-lookup [] d = (λ h. refl, tt, tt)
newest_first-lookup (p ∷ ps) d =
    let (same, distinct, descending) = newest_first-lookup ps d.1 in
    let gone = same p.tx_hash ∙ d.0 in
    (
      λ h.
          point_of-insert p h (newest_first ps) gone
          ∙ ap (λ (o : Option TxPoint). if str_eq p.tx_hash h then some p else o) (same h),
      insert-Distinct p (newest_first ps) gone distinct,
      insert-Descending p (newest_first ps) descending,
    )
