-- ===== src/KupoClient/Newest.antt =====
-- The points that `address_tx_points` of backend/app/ingestion/kupo_client.py returns.
use transaction_monitoring_s.Prelude.{
  ℕ, ◌≡◌, ◌≤◌, refl, String, Bool, true, Option, none, some, List, [], keep, length, arith,
  Bool-cases, inl, inr, sym, ◌∙◌, ap, ◌⊎◌,
}
use transaction_monitoring_s.KupoClient.{
  TxPoint, Match, matches, collect_all, newest_first, is_below, cut, address_tx_points,
}
use transaction_monitoring_s.KupoClient.Lookup.{point_of, Distinct, Descending, newest_first-lookup}
use transaction_monitoring_s.KupoClient.Collected.{points, collect_all-Adds}
use transaction_monitoring_s.KupoClient.Cut.{
  if_kept, keep-lookup, keep-Distinct, keep-Descending, take-lookup, take-newest, take-Distinct,
  take-Descending, length-take-le, Full,
}

-- The newest of the matches' points below the bound: a hash stands for its first point, and what is
-- left out is left out by the cut, and no newer than what is returned.
pub record IsNewest (max_txs created_before_slot : Option ℕ) (found : List (Option Match))
    (ps : List TxPoint) : Type 0 where
  pub descending : Descending ps
  pub distinct : Distinct ps
  pub short : (n : ℕ) → max_txs ≡ some n → length ps ≤ n
  pub sound :
      (h : String) (p : TxPoint)
      → point_of h ps ≡ some p
      → (point_of h (points found) ≡ some p) × (is_below created_before_slot p ≡ true)
  pub complete :
      (h : String) (p : TxPoint)
      → point_of h (points found) ≡ some p
      → is_below created_before_slot p ≡ true
      → (point_of h ps ≡ some p) ⊎ ((n : ℕ) × (max_txs ≡ some n) × Full n p ps)

kept_some :
    (b : TxPoint → Bool) (o : Option TxPoint) (p : TxPoint)
    → if_kept b o ≡ some p
    → (o ≡ some p) × (b p ≡ true)
kept_some b none p e = cc
kept_some b (some q) p e = elim (Bool-cases (b q)) [
  | inl f ↦ let same : q ≡ p = ground (arith, e, f) in (ap some same, ap b (sym same) ∙ f)
  | inr f ↦ ground (arith, e, f)
]

module _ (created_before_slot : Option ℕ) (found : List (Option Match)) where
  abbrev bounded : List TxPoint
  bounded = keep (is_below created_before_slot) (newest_first (collect_all [] found))

  -- What is known before the cut.
  bounded-lookup :
      ((h : String)
        → point_of h bounded ≡ if_kept (is_below created_before_slot) (point_of h (points found)))
      × Distinct bounded
      × Descending bounded
  bounded-lookup =
      let adds = collect_all-Adds found [] in
      let (same, distinct, descending) =
        newest_first-lookup (collect_all [] found) (adds.distinct tt) in
      let b = is_below created_before_slot in
      (
        λ h.
            keep-lookup b h (newest_first (collect_all [] found)) distinct
            ∙ ap (if_kept b) (same h ∙ adds.lookup h),
        keep-Distinct b _ distinct,
        keep-Descending b _ descending,
      )

  bounded_some :
      (h : String) (p : TxPoint)
      → point_of h bounded ≡ some p
      → (point_of h (points found) ≡ some p) × (is_below created_before_slot p ≡ true)
  bounded_some h p e = kept_some (is_below created_before_slot) _ p (sym (bounded-lookup.0 h) ∙ e)

  some_bounded :
      (h : String) (p : TxPoint)
      → point_of h (points found) ≡ some p
      → is_below created_before_slot p ≡ true
      → point_of h bounded ≡ some p
  some_bounded h p e k =
      bounded-lookup.0 h ∙ ap (if_kept (is_below created_before_slot)) e ∙ ground (arith, k)

  cut-IsNewest :
      (max_txs : Option ℕ) → IsNewest max_txs created_before_slot found (cut max_txs bounded)
  cut-IsNewest none = record {
    descending = bounded-lookup.2;
    distinct = bounded-lookup.1;
    short = λ n e. cc;
    sound = bounded_some;
    complete = λ h p e k. inl (some_bounded h p e k);
  }
  cut-IsNewest (some max_txs) = record {
    descending = take-Descending max_txs bounded bounded-lookup.2;
    distinct = take-Distinct max_txs bounded bounded-lookup.1;
    short = λ n e. ground (arith, e, length-take-le max_txs bounded);
    sound = λ h p e. bounded_some h p (take-lookup max_txs h bounded p e);
    complete = λ h p e k.
        elim (take-newest max_txs h bounded p bounded-lookup.2 (some_bounded h p e k)) [
          | inl f ↦ inl f
          | inr f ↦ inr (max_txs, refl, f)
        ];
  }

-- For a list of matches, the points that are returned are no more than `max_txs`, newest first and
-- of different hashes; each is the first usable point of its hash among the matches and below the
-- bound; and such a point is missing only when `max_txs` points are returned that are all at least
-- as new.
pub address_tx_points-IsNewest :
    (max_txs created_before_slot : Option ℕ) (found : List (Option Match))
    → (ps : List TxPoint) × (address_tx_points max_txs created_before_slot (matches found)
        ≡ some ps)
      × IsNewest max_txs created_before_slot found ps
unfolding address_tx_points
address_tx_points-IsNewest max_txs created_before_slot found =
    (_, refl, cut-IsNewest created_before_slot found max_txs)
