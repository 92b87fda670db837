-- ===== src/Tests/Bech32.antt =====
-- Three bytes as groups of five bits and back.
use transaction_monitoring_s.Prelude.{◌≡◌, refl, true, false, some, none, [], ◌∷◌, arith}
use transaction_monitoring_s.Bech32.{convertbits, regroup, drain, finish}
use transaction_monitoring_s.Bech32.RoundTrip.{then_convertbits, convertbits-back}

convertbits-back_example :
    then_convertbits (convertbits (97 ∷ 255 ∷ 3 ∷ []) 8 5 true) 5 8 false ≡ some (97 ∷ 255 ∷ 3 ∷ [])
convertbits-back_example =
    convertbits-back (97 ∷ 255 ∷ 3 ∷ []) (omega arith, (omega arith, (omega arith, tt)))

three_bytes : convertbits (97 ∷ 255 ∷ 3 ∷ []) 8 5 true ≡ some (12 ∷ 7 ∷ 31 ∷ 16 ∷ 6 ∷ [])
unfolding convertbits regroup drain finish
three_bytes = refl

-- A group of more than five bits, and bits that the padding must not have.
too_wide : convertbits (32 ∷ []) 5 8 false ≡ none
unfolding convertbits regroup
too_wide = refl

bad_padding : convertbits (12 ∷ 1 ∷ []) 5 8 false ≡ none
unfolding convertbits regroup drain finish
bad_padding = refl
