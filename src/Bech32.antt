-- ===== src/Bech32.antt =====
-- Bech32, backend/app/utils/bech32.py: the regrouping of bits. `x << n`, `x >> n` and a mask of n
-- bits are a product, a quotient and a remainder by 2 ^ n, and `|` of disjoint bits is a sum.
pub mod Steps
pub mod RoundTrip
use transaction_monitoring_s.Prelude.{
  ℕ, zero, suc, ◌+◌, ◌-◌, ◌*◌, ◌/◌, ◌%◌, ◌^◌, Bool, true, false, Option, none, some, List, [], ◌∷◌,
  ◌++◌, leb, ltb, ◌||◌, if◌then◌else◌,
}

-- The inner loop: the groups that `bits` bits of `acc` fill, and the bits that are left. `bits`
-- rounds are enough, since each takes `tobits` of them.
unfoldable pub drain : ℕ → ℕ → ℕ → ℕ → List ℕ × ℕ
drain zero tobits acc bits = ([], bits)
drain (suc rounds) tobits acc bits =
    let rest = drain rounds tobits acc (bits - tobits) in
    if leb tobits bits
    then ((acc / 2 ^ (bits - tobits)) % 2 ^ tobits ∷ rest.0, rest.1)
    else ([], bits)

-- After the loop: the last group, padded, or the check of the padding.
unfoldable pub finish : ℕ → ℕ → Bool → ℕ → ℕ → Option (List ℕ)
finish frombits tobits true acc bits =
    if ltb 0 bits then some ((acc * 2 ^ (tobits - bits)) % 2 ^ tobits ∷ []) else some []
finish frombits tobits false acc bits =
    if leb frombits bits || ltb 0 ((acc * 2 ^ (tobits - bits)) % 2 ^ tobits) then none else some []

abbrev pub prepend : List ℕ → Option (List ℕ) → Option (List ℕ)
prepend xs none = none
prepend xs (some ys) = some (xs ++ ys)

-- `acc` after a value.
abbrev pub shift_in : ℕ → ℕ → ℕ → ℕ → ℕ
shift_in frombits tobits acc value = (acc * 2 ^ frombits + value) % 2 ^ (frombits + tobits - 1)

unfoldable pub regroup : ℕ → ℕ → Bool → List ℕ → ℕ → ℕ → Option (List ℕ)
regroup frombits tobits pad [] acc bits = finish frombits tobits pad acc bits
regroup frombits tobits pad (value ∷ values) acc bits =
    let acc' = shift_in frombits tobits acc value in
    let drained = drain (bits + frombits) tobits acc' (bits + frombits) in
    let rest = regroup frombits tobits pad values acc' drained.1 in
    if leb (2 ^ frombits) value then none else prepend drained.0 rest

unfoldable pub convertbits : List ℕ → ℕ → ℕ → Bool → Option (List ℕ)
convertbits values frombits tobits pad = regroup frombits tobits pad values 0 0
