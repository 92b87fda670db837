-- ===== src/Bech32/RoundTrip.antt =====
-- Bytes in groups of five bits and back: `convertbits` of backend/app/utils/bech32.py.
use transaction_monitoring_s.Prelude.{
  ℕ, ◌+◌, ◌-◌, ◌*◌, ◌/◌, ◌%◌, ◌≡◌, refl, ◌∙◌, ap, Bool, true, false, Option, none, some, List, [],
  ◌∷◌, arith, ◌<◌, All,
}
use transaction_monitoring_s.Bech32.{drain, finish, prepend, regroup, convertbits}
use transaction_monitoring_s.Bech32.Steps.{
  both, encoded, decoded, prepend-two, encode_0, encode_1, encode_2, encode_3, encode_4, decode_0,
  decode_1, decode_2, decode_3, decode_4, decode_5, decode_6, decode_7,
}

-- The bytes come back, from each of the five states: the encoder has the low bits of the last byte,
-- and the decoder the others.
abbrev Back : ℕ → ℕ → ℕ → List ℕ → Type 0
Back bits m n bytes =
    (last v w : ℕ)
    → last < 256
    → v % m ≡ last % m
    → w % n ≡ last / m
    → both (regroup 8 5 true bytes v bits) w (8 - bits) ≡ some (last ∷ bytes)

abbrev BackWhole : List ℕ → Type 0
BackWhole bytes = (v w : ℕ) → both (regroup 8 5 true bytes v 0) w 0 ≡ some bytes

end_3 : Back 3 8 32 []
unfolding regroup finish drain
end_3 last v w small low high =
    let g = (v * 4) % 32 in
    let emitted : ((w * 32 + g) % 4096 / 4) % 256 ≡ last = omega (arith, small, low, high) in
    let padding : ((w * 32 + g) % 4096 * 64) % 256 ≡ 0 = omega (arith, low) in
    ground (arith, emitted, padding)

end_1 : Back 1 2 128 []
unfolding regroup finish drain
end_1 last v w small low high =
    let g = (v * 16) % 32 in
    let emitted : ((w * 32 + g) % 4096 / 16) % 256 ≡ last = omega (arith, small, low, high) in
    let padding : ((w * 32 + g) % 4096 * 16) % 256 ≡ 0 = omega (arith, low) in
    ground (arith, emitted, padding)

end_4 : Back 4 16 16 []
unfolding regroup finish drain
end_4 last v w small low high =
    let g = (v * 2) % 32 in
    let emitted : ((w * 32 + g) % 4096 / 2) % 256 ≡ last = omega (arith, small, low, high) in
    let padding : ((w * 32 + g) % 4096 * 128) % 256 ≡ 0 = omega (arith, low) in
    ground (arith, emitted, padding)

end_2 : Back 2 4 64 []
unfolding regroup finish drain
end_2 last v w small low high =
    let g = (v * 8) % 32 in
    let emitted : ((w * 32 + g) % 4096 / 8) % 256 ≡ last = omega (arith, small, low, high) in
    let padding : ((w * 32 + g) % 4096 * 32) % 256 ≡ 0 = omega (arith, low) in
    ground (arith, emitted, padding)

end_0 : BackWhole []
unfolding regroup finish
end_0 v w = ground arith

-- A byte more, from each of the states.
step_0 : (b : ℕ) (bytes : List ℕ) → b < 256 → Back 3 8 32 bytes → BackWhole (b ∷ bytes)
step_0 b bytes small next v w =
    let v' = encoded v b in
    let g = (v' / 8) % 32 in
    ap (λ r. both r w 0) (encode_0 b bytes v small)
    ∙ decode_0 g (regroup 8 5 true bytes v' 3) w (omega arith)
    ∙ next b v' (decoded w g) small (omega arith) (omega (arith, small))

step_1 : (b : ℕ) (bytes : List ℕ) → b < 256 → Back 4 16 16 bytes → Back 1 2 128 (b ∷ bytes)
step_1 b bytes small next last v w fits low high =
    let v' = encoded v b in
    let g = (v' / 16) % 32 in
    let emitted : (decoded w g / 16) % 256 ≡ last = omega (arith, small, fits, low, high) in
    ap (λ r. both r w 7) (encode_1 b bytes v small)
    ∙ decode_7 g (regroup 8 5 true bytes v' 4) w (omega arith)
    ∙ ap (prepend ((decoded w g / 16) % 256 ∷ []))
        (next b v' (decoded w g) small (omega arith) (omega (arith, small)))
    ∙ ap (λ x. some (x ∷ b ∷ bytes)) emitted

step_3 : (b : ℕ) (bytes : List ℕ) → b < 256 → Back 1 2 128 bytes → Back 3 8 32 (b ∷ bytes)
step_3 b bytes small next last v w fits low high =
    let v' = encoded v b in
    let g = (v' / 64) % 32 in
    let h = (v' / 2) % 32 in
    let w' = decoded w g in
    let rest = regroup 8 5 true bytes v' 1 in
    let emitted : (w' / 4) % 256 ≡ last = omega (arith, small, fits, low, high) in
    ap (λ r. both r w 5) (encode_3 b bytes v small ∙ prepend-two g h rest)
    ∙ decode_5 g (prepend (h ∷ []) rest) w (omega arith)
    ∙ ap (prepend ((w' / 4) % 256 ∷ [])) (
        decode_2 h rest w' (omega arith)
        ∙ next b v' (decoded w' h) small (omega arith) (omega (arith, small)))
    ∙ ap (λ x. some (x ∷ b ∷ bytes)) emitted

step_4 : (b : ℕ) (bytes : List ℕ) → b < 256 → Back 2 4 64 bytes → Back 4 16 16 (b ∷ bytes)
step_4 b bytes small next last v w fits low high =
    let v' = encoded v b in
    let g = (v' / 128) % 32 in
    let h = (v' / 4) % 32 in
    let w' = decoded w g in
    let rest = regroup 8 5 true bytes v' 2 in
    let emitted : (w' / 2) % 256 ≡ last = omega (arith, small, fits, low, high) in
    ap (λ r. both r w 4) (encode_4 b bytes v small ∙ prepend-two g h rest)
    ∙ decode_4 g (prepend (h ∷ []) rest) w (omega arith)
    ∙ ap (prepend ((w' / 2) % 256 ∷ [])) (
        decode_1 h rest w' (omega arith)
        ∙ next b v' (decoded w' h) small (omega arith) (omega (arith, small)))
    ∙ ap (λ x. some (x ∷ b ∷ bytes)) emitted

step_2 : (b : ℕ) (bytes : List ℕ) → b < 256 → BackWhole bytes → Back 2 4 64 (b ∷ bytes)
step_2 b bytes small next last v w fits low high =
    let v' = encoded v b in
    let g = (v' / 32) % 32 in
    let h = (v' / 1) % 32 in
    let w' = decoded w g in
    let rest = regroup 8 5 true bytes v' 0 in
    let emitted : (w' / 8) % 256 ≡ last = omega (arith, small, fits, low, high) in
    ap (λ r. both r w 6) (encode_2 b bytes v small ∙ prepend-two g h rest)
    ∙ decode_6 g (prepend (h ∷ []) rest) w (omega arith)
    ∙ ap (prepend ((w' / 8) % 256 ∷ [])) (
        decode_3 h rest w' (omega arith)
        ∙ ap (prepend ((decoded w' h / 1) % 256 ∷ [])) (next v' (decoded w' h))
        ∙ ap (λ x. some (x ∷ bytes)) (omega (arith, small)))
    ∙ ap (λ x. some (x ∷ b ∷ bytes)) emitted

-- All the states at once.
abbrev AllBack : List ℕ → Type 0
AllBack bytes =
    BackWhole bytes
    × Back 3 8 32 bytes
    × Back 1 2 128 bytes
    × Back 4 16 16 bytes
    × Back 2 4 64 bytes

all_back : (bytes : List ℕ) → All (λ b. b < 256) bytes → AllBack bytes
all_back [] h = (end_0, end_3, end_1, end_4, end_2)
all_back (b ∷ bytes) h =
    let (back_0, back_3, back_1, back_4, back_2) = all_back bytes h.1 in
    (
      step_0 b bytes h.0 back_3,
      step_3 b bytes h.0 back_1,
      step_1 b bytes h.0 back_4,
      step_4 b bytes h.0 back_2,
      step_2 b bytes h.0 back_0,
    )

-- The result of a regrouping, regrouped.
abbrev pub then_convertbits : Option (List ℕ) → ℕ → ℕ → Bool → Option (List ℕ)
then_convertbits none frombits tobits pad = none
then_convertbits (some groups) frombits tobits pad = convertbits groups frombits tobits pad

both-then : (r : Option (List ℕ)) → then_convertbits r 5 8 false ≡ both r 0 0
unfolding convertbits
both-then none = refl
both-then (some groups) = refl

-- Bytes that are regrouped to five bits with padding come back when the groups are regrouped to
-- bytes without, and no check of the padding refuses them.
pub convertbits-back :
    (bytes : List ℕ)
    → All (λ b. b < 256) bytes
    → then_convertbits (convertbits bytes 8 5 true) 5 8 false ≡ some bytes
unfolding convertbits
convertbits-back bytes h = both-then (regroup 8 5 true bytes 0 0) ∙ (all_back bytes h).0 0 0
