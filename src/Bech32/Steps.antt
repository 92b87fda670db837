-- ===== src/Bech32/Steps.antt =====
-- One byte more for the encoder and one group more for the decoder: `convertbits` of
-- backend/app/utils/bech32.py at the widths 8 and 5.
use transaction_monitoring_s.Prelude.{
  ℕ, ◌/◌, ◌%◌, ◌≡◌, refl, true, false, Option, none, some, List, [], ◌∷◌, arith, ◌<◌, zero, suc,
  ◌-◌, ◌≤◌, Bool-cases, inl, inr, leb,
}
use transaction_monitoring_s.Bech32.{drain, prepend, shift_in, regroup}

-- The decoder after the encoder: from where each of them is.
abbrev pub both : Option (List ℕ) → ℕ → ℕ → Option (List ℕ)
both none acc bits = none
both (some groups) acc bits = regroup 5 8 false groups acc bits

-- `acc` of the encoder after a byte, and of the decoder after a group.
abbrev pub encoded : ℕ → ℕ → ℕ
encoded = shift_in 8 5

abbrev pub decoded : ℕ → ℕ → ℕ
decoded = shift_in 5 8

prepend-nil : (r : Option (List ℕ)) → prepend [] r ≡ r
prepend-nil none = refl
prepend-nil (some ys) = refl

pub prepend-two :
    (x y : ℕ) (r : Option (List ℕ)) → prepend (x ∷ y ∷ []) r ≡ prepend (x ∷ []) (prepend (y ∷ []) r)
prepend-two x y none = refl
prepend-two x y (some ys) = refl

-- The encoder with so many bits left from the bytes before.
pub encode_0 :
    (v : ℕ) (vs : List ℕ) (acc : ℕ)
    → v < 256
    → regroup 8 5 true (v ∷ vs) acc 0
      ≡ prepend ((encoded acc v / 8) % 32 ∷ []) (regroup 8 5 true vs (encoded acc v) 3)
unfolding regroup drain
encode_0 v vs acc h = ground arith

pub encode_3 :
    (v : ℕ) (vs : List ℕ) (acc : ℕ)
    → v < 256
    → regroup 8 5 true (v ∷ vs) acc 3
      ≡ prepend
          ((encoded acc v / 64) % 32 ∷ (encoded acc v / 2) % 32 ∷ [])
          (regroup 8 5 true vs (encoded acc v) 1)
unfolding regroup drain
encode_3 v vs acc h = ground arith

pub encode_1 :
    (v : ℕ) (vs : List ℕ) (acc : ℕ)
    → v < 256
    → regroup 8 5 true (v ∷ vs) acc 1
      ≡ prepend ((encoded acc v / 16) % 32 ∷ []) (regroup 8 5 true vs (encoded acc v) 4)
unfolding regroup drain
encode_1 v vs acc h = ground arith

pub encode_4 :
    (v : ℕ) (vs : List ℕ) (acc : ℕ)
    → v < 256
    → regroup 8 5 true (v ∷ vs) acc 4
      ≡ prepend
          ((encoded acc v / 128) % 32 ∷ (encoded acc v / 4) % 32 ∷ [])
          (regroup 8 5 true vs (encoded acc v) 2)
unfolding regroup drain
encode_4 v vs acc h = ground arith

pub encode_2 :
    (v : ℕ) (vs : List ℕ) (acc : ℕ)
    → v < 256
    → regroup 8 5 true (v ∷ vs) acc 2
      ≡ prepend
          ((encoded acc v / 32) % 32 ∷ (encoded acc v / 1) % 32 ∷ [])
          (regroup 8 5 true vs (encoded acc v) 0)
unfolding regroup drain
encode_2 v vs acc h = ground arith

-- The decoder with so many bits left from the groups before.
pub decode_0 :
    (g : ℕ) (r : Option (List ℕ)) (acc : ℕ)
    → g < 32
    → both (prepend (g ∷ []) r) acc 0 ≡ both r (decoded acc g) 5
unfolding regroup drain
decode_0 g none acc h = refl
decode_0 g (some ys) acc h = ground (arith, prepend-nil (regroup 5 8 false ys (decoded acc g) 5))

pub decode_5 :
    (g : ℕ) (r : Option (List ℕ)) (acc : ℕ)
    → g < 32
    → both (prepend (g ∷ []) r) acc 5
      ≡ prepend ((decoded acc g / 4) % 256 ∷ []) (both r (decoded acc g) 2)
unfolding regroup drain
decode_5 g none acc h = refl
decode_5 g (some ys) acc h = ground arith

pub decode_2 :
    (g : ℕ) (r : Option (List ℕ)) (acc : ℕ)
    → g < 32
    → both (prepend (g ∷ []) r) acc 2 ≡ both r (decoded acc g) 7
unfolding regroup drain
decode_2 g none acc h = refl
decode_2 g (some ys) acc h = ground (arith, prepend-nil (regroup 5 8 false ys (decoded acc g) 7))

pub decode_7 :
    (g : ℕ) (r : Option (List ℕ)) (acc : ℕ)
    → g < 32
    → both (prepend (g ∷ []) r) acc 7
      ≡ prepend ((decoded acc g / 16) % 256 ∷ []) (both r (decoded acc g) 4)
unfolding regroup drain
decode_7 g none acc h = refl
decode_7 g (some ys) acc h = ground arith

pub decode_4 :
    (g : ℕ) (r : Option (List ℕ)) (acc : ℕ)
    → g < 32
    → both (prepend (g ∷ []) r) acc 4
      ≡ prepend ((decoded acc g / 2) % 256 ∷ []) (both r (decoded acc g) 1)
unfolding regroup drain
decode_4 g none acc h = refl
decode_4 g (some ys) acc h = ground arith

pub decode_1 :
    (g : ℕ) (r : Option (List ℕ)) (acc : ℕ)
    → g < 32
    → both (prepend (g ∷ []) r) acc 1 ≡ both r (decoded acc g) 6
unfolding regroup drain
decode_1 g none acc h = refl
decode_1 g (some ys) acc h = ground (arith, prepend-nil (regroup 5 8 false ys (decoded acc g) 6))

pub decode_6 :
    (g : ℕ) (r : Option (List ℕ)) (acc : ℕ)
    → g < 32
    → both (prepend (g ∷ []) r) acc 6
      ≡ prepend ((decoded acc g / 8) % 256 ∷ []) (both r (decoded acc g) 3)
unfolding regroup drain
decode_6 g none acc h = refl
decode_6 g (some ys) acc h = ground arith

pub decode_3 :
    (g : ℕ) (r : Option (List ℕ)) (acc : ℕ)
    → g < 32
    → both (prepend (g ∷ []) r) acc 3
      ≡ prepend ((decoded acc g / 1) % 256 ∷ []) (both r (decoded acc g) 0)
unfolding regroup drain
decode_3 g none acc h = refl
decode_3 g (some ys) acc h = ground arith

-- As many rounds as there are bits end the loop: less than a group is left.
drain_enough :
    (rounds tobits acc bits : ℕ)
    → 0 < tobits
    → bits ≤ rounds
    → (drain rounds tobits acc bits).1 < tobits
unfolding drain
drain_enough zero tobits acc bits h e = omega (arith, h, e)
drain_enough (suc rounds) tobits acc bits h e = elim (Bool-cases (leb tobits bits)) [
  | inl f ↦ simp f (drain_enough rounds tobits acc (bits - tobits) h (ground (arith, f, h, e)))
  | inr f ↦ simp f (ground (arith, f))
]
