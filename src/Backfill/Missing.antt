-- ===== src/Backfill/Missing.antt =====
-- The targets of backend/app/ingestion/address_backfill.py that are not seen.
use transaction_monitoring_s.Prelude.{
  suc, String, ◌≡◌, refl, true, false, List, [], ◌∷◌, ◌++◌, keep, mem, length, not, str_eq, eq_iff,
  ◌||◌, arith, Bool-cases, inl, inr, sym, ◌∙◌, ap,
}

-- No text twice.
abbrev pub Unique : List String → Type 0
Unique [] = Unit
Unique (x ∷ xs) = (mem x xs ≡ false) × Unique xs

-- The targets that are not among the seen.
abbrev pub missing : List String → List String → List String
missing needed seen = keep (λ h. not (mem h seen)) needed

mem-snoc : (h x : String) (xs : List String) → mem h (xs ++ x ∷ []) ≡ (mem h xs || str_eq h x)
mem-snoc h x [] = ground arith
mem-snoc h x (y ∷ xs) = ground (arith, mem-snoc h x xs)

pub snoc-Unique :
    (x : String) (xs : List String) → Unique xs → mem x xs ≡ false → Unique (xs ++ x ∷ [])
snoc-Unique x [] u h = (refl, tt)
snoc-Unique x (y ∷ xs) u h = (
  ground (arith, mem-snoc y x xs, u.0, h, eq_iff x y, eq_iff y x),
  snoc-Unique x xs u.1 (ground (arith, h)),
)

-- One more seen text that is no target changes nothing, and one that is a target is missing no more.
missing-other :
    (needed seen : List String) (x : String)
    → mem x needed ≡ false
    → missing needed (seen ++ x ∷ []) ≡ missing needed seen
missing-other [] seen x h = refl
missing-other (y ∷ needed) seen x h =
    ground (arith, h, missing-other needed seen x, mem-snoc y x seen, eq_iff x y, eq_iff y x)

pub missing-target :
    (needed seen : List String) (x : String)
    → Unique needed
    → mem x needed ≡ true
    → mem x seen ≡ false
    → length (missing needed seen) ≡ suc (length (missing needed (seen ++ x ∷ [])))
missing-target [] seen x u h k = cc
missing-target (y ∷ needed) seen x u h k = elim (Bool-cases (str_eq x y)) [
  | inl e ↦
      let same : x ≡ y = (eq_iff x y).0 e in
      let unseen : mem y seen ≡ false = ap (λ (z : String). mem z seen) (sym same) ∙ k in
      let now : mem y (seen ++ x ∷ []) ≡ true =
        ground (arith, mem-snoc y x seen, same, eq_iff y x) in
      let once : mem x needed ≡ false = ap (λ (z : String). mem z needed) same ∙ u.0 in
      rw (unseen, now, missing-other needed seen x once) refl
  | inr e ↦
      let later : mem x needed ≡ true = ground (arith, h, e) in
      let rest = missing-target needed seen x u.1 later k in
      let head : mem y (seen ++ x ∷ []) ≡ mem y seen =
        ground (arith, mem-snoc y x seen, e, eq_iff x y, eq_iff y x) in
      rw head (ground (arith, rest))
]
