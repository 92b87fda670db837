-- ===== src/KupoClient/Cut.antt =====
-- The bound and the cut of `address_tx_points` of backend/app/ingestion/kupo_client.py.
use transaction_monitoring_s.Prelude.{
  ℕ, zero, suc, ◌≡◌, ◌≤◌, refl, String, Bool, Option, none, some, List, [], ◌∷◌, keep, take, length,
  All, if◌then◌else◌, str_eq, eq_iff, arith, Bool-cases, Option-cases, inl, inr, sym, ◌∙◌, ap, ◌⊎◌,
}
use transaction_monitoring_s.KupoClient.{TxPoint}
use transaction_monitoring_s.KupoClient.Lookup.{point_of, Distinct, Descending}

abbrev pub if_kept : (TxPoint → Bool) → Option TxPoint → Option TxPoint
if_kept b none = none
if_kept b (some p) = if b p then some p else none

module _ (b : TxPoint → Bool) where
  pub keep-lookup :
      (h : String) (ps : List TxPoint)
      → Distinct ps
      → point_of h (keep b ps) ≡ if_kept b (point_of h ps)
  keep-lookup h [] d = refl
  keep-lookup h (p ∷ ps) d = elim (Bool-cases (str_eq p.tx_hash h)) [
    | inr f ↦ elim (Bool-cases (b p)) [
      | inl e ↦ rw (e, f) (keep-lookup h ps d.1)
      | inr e ↦ rw (e, f) (keep-lookup h ps d.1)
    ]
    | inl f ↦ elim (Bool-cases (b p)) [
      | inl e ↦ rw (e, f) (rw e refl)
      | inr e ↦
          let same : h ≡ p.tx_hash = sym ((eq_iff p.tx_hash h).0 f) in
          let gone : point_of h ps ≡ none = ap (λ (z : String). point_of z ps) same ∙ d.0 in
          rw (e, f) (rw e (keep-lookup h ps d.1 ∙ ap (if_kept b) gone))
    ]
  ]

  pub keep-Distinct : (ps : List TxPoint) → Distinct ps → Distinct (keep b ps)
  keep-Distinct [] d = tt
  keep-Distinct (p ∷ ps) d = elim (Bool-cases (b p)) [
    | inr e ↦ rw e (keep-Distinct ps d.1)
    | inl e ↦ rw e (keep-lookup p.tx_hash ps d.1 ∙ ap (if_kept b) d.0, keep-Distinct ps d.1)
  ]

  keep-All :
      (n : ℕ) (ps : List TxPoint) → All (λ q. q.slot ≤ n) ps → All (λ q. q.slot ≤ n) (keep b ps)
  keep-All n [] a = tt
  keep-All n (p ∷ ps) a = elim (Bool-cases (b p)) [
    | inl e ↦ rw e (a.0, keep-All n ps a.1)
    | inr e ↦ rw e (keep-All n ps a.1)
  ]

  pub keep-Descending : (ps : List TxPoint) → Descending ps → Descending (keep b ps)
  keep-Descending [] d = tt
  keep-Descending (p ∷ ps) d = elim (Bool-cases (b p)) [
    | inl e ↦ rw e (keep-All p.slot ps d.0, keep-Descending ps d.1)
    | inr e ↦ rw e (keep-Descending ps d.1)
  ]

-- A cut keeps what it finds, and what it drops is no newer than all it keeps.
pub take-lookup :
    (n : ℕ) (h : String) (ps : List TxPoint) (p : TxPoint)
    → point_of h (take n ps) ≡ some p
    → point_of h ps ≡ some p
take-lookup zero h ps p e = cc
take-lookup (suc n) h [] p e = cc
take-lookup (suc n) h (q ∷ ps) p e = elim (Bool-cases (str_eq q.tx_hash h)) [
  | inl f ↦ rw f (ground (arith, e, f))
  | inr f ↦ rw f (take-lookup n h ps p (ground (arith, e, f)))
]

abbrev pub Full : ℕ → TxPoint → List TxPoint → Type 0
Full n p ps = (length ps ≡ n) × All (λ q. p.slot ≤ q.slot) ps

-- What is found is no newer than the head of a descending list.
found_le :
    (h : String) (n : ℕ) (ps : List TxPoint) (p : TxPoint)
    → All (λ q. q.slot ≤ n) ps
    → point_of h ps ≡ some p
    → p.slot ≤ n
found_le h n [] p a e = cc
found_le h n (q ∷ ps) p a e = elim (Bool-cases (str_eq q.tx_hash h)) [
  | inl f ↦ ground (arith, e, f, a.0)
  | inr f ↦ found_le h n ps p a.1 (ground (arith, e, f))
]

pub take-newest :
    (n : ℕ) (h : String) (ps : List TxPoint) (p : TxPoint)
    → Descending ps
    → point_of h ps ≡ some p
    → (point_of h (take n ps) ≡ some p) ⊎ Full n p (take n ps)
take-newest zero h ps p d e = inr (refl, tt)
take-newest (suc n) h [] p d e = cc
take-newest (suc n) h (q ∷ ps) p d e = elim (Bool-cases (str_eq q.tx_hash h)) [
  | inl f ↦ inl (rw f (ground (arith, e, f)))
  | inr f ↦
      let later : point_of h ps ≡ some p = ground (arith, e, f) in
      elim (take-newest n h ps p d.1 later) [
        | inl k ↦ inl (rw f k)
        | inr (k, a) ↦ inr (ap suc k, (found_le h q.slot ps p d.0 later, a))
      ]
]

pub take-Distinct : (n : ℕ) (ps : List TxPoint) → Distinct ps → Distinct (take n ps)
take-Distinct zero ps d = tt
take-Distinct (suc n) [] d = tt
take-Distinct (suc n) (p ∷ ps) d = (
  elim (Option-cases (point_of p.tx_hash (take n ps))) [
    | inl e ↦ e
    | inr (q, e) ↦ absurd (cc (take-lookup n p.tx_hash ps q e, d.0))
  ],
  take-Distinct n ps d.1,
)

take-All :
    (n m : ℕ) (ps : List TxPoint) → All (λ q. q.slot ≤ m) ps → All (λ q. q.slot ≤ m) (take n ps)
take-All zero m ps a = tt
take-All (suc n) m [] a = tt
take-All (suc n) m (p ∷ ps) a = (a.0, take-All n m ps a.1)

pub length-take-le : (n : ℕ) (ps : List TxPoint) → length (take n ps) ≤ n
length-take-le zero ps = omega arith
length-take-le (suc n) [] = omega arith
length-take-le (suc n) (p ∷ ps) = omega (arith, length-take-le n ps)

pub take-Descending : (n : ℕ) (ps : List TxPoint) → Descending ps → Descending (take n ps)
take-Descending zero ps d = tt
take-Descending (suc n) [] d = tt
take-Descending (suc n) (p ∷ ps) d = (take-All n p.slot ps d.0, take-Descending n ps d.1)
