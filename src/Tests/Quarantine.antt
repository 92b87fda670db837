-- ===== src/Tests/Quarantine.antt =====
-- A frame with two transactions, `{}` and `["]"]`, of which the second does not decode.
use transaction_monitoring_s.Prelude.{
  ◌≡◌, refl, Bool, true, false, Option, none, some, List, [], ◌∷◌, ◌++◌, map, ◌==◌, if◌then◌else◌,
  arith,
}
use transaction_monitoring_s.ChainSync.{BlockTx}
use transaction_monitoring_s.ChainSync.Quarantine.{
  Patterns, quarantine_undecodable_block, scan_block_header,
}
use transaction_monitoring_s.ChainSync.Quarantine.Salvaged.{Salvaged, quarantine-Salvaged}
use transaction_monitoring_s.Rpc.{
  Text, block_key, transactions_key, header_segment, from_key, until_key, starts_with,
  recover_transactions, split_array_elements, scan, step, is_last, from_bracket, decode_each,
}
use transaction_monitoring_s.Rpc.Lexical.{
  Item, element, blank, Container, Tokens, seq, quoted, bare,
}
use transaction_monitoring_s.Rpc.Split.{HasNoBracket}
use transaction_monitoring_s.Tests.ChainSync.{monitor, world, env}
use transaction_monitoring_s.Rpc.Recover.{recover_transactions-each, some_of, none_of}
use transaction_monitoring_s.Rpc.Lexical.{elements_of, print}

abbrev braces : Container
braces = record { opening = 123; closing = 125; opens = refl; closes = refl; inside = Tokens.end }

abbrev strings : Container
strings = record {
  opening = 91;
  closing = 93;
  opens = refl;
  closes = refl;
  inside = seq (quoted (bare 93 refl refl ∷ [])) Tokens.end;
}

abbrev array : List Item
array = element braces ∷ blank 44 refl refl refl ∷ element strings ∷ []

-- `"transactions":`
abbrev before : Text
before = transactions_key ++ 58 ∷ []

abbrev frame : Text
frame =
    block_key
    ++ (123 ∷ (before ++ 91 ∷ (123 ∷ 125 ∷ 44 ∷ 91 ∷ 34 ∷ 93 ∷ 34 ∷ 93 ∷ 93 ∷ 125 ∷ 125 ∷ [])))

no_bracket : HasNoBracket before
no_bracket = ground arith

abbrev salvaged_tx : BlockTx
salvaged_tx = record {
  id = "t2";
  is_parsed = true;
  has_raw_data = true;
  script_valid = true;
  inputs = [];
  fee = none;
}

abbrev is_object : Text → Bool
is_object [] = false
is_object (c ∷ text) = c == 123

abbrev loads : Text → Option BlockTx
loads text = if is_object text then some salvaged_tx else none

abbrev patterns : Patterns
patterns = record {
  block_id = λ text. some "b9";
  block_slot = λ text. some 90;
  block_height = λ text. none;
}

recovers : recover_transactions loads frame ≡ (salvaged_tx ∷ [], 1)
unfolding recover_transactions split_array_elements from_key starts_with from_bracket scan step
    is_last decode_each
recovers = refl

recover_transactions-each_example :
    recover_transactions loads frame
    ≡ (some_of (map loads (elements_of array)), none_of (map loads (elements_of array)))
unfolding from_key starts_with print
recover_transactions-each_example =
    recover_transactions-each loads frame before (125 ∷ 125 ∷ []) array 93 refl (no_bracket) refl

quarantine-Salvaged_example :
    Salvaged monitor
      (env true)
      true
      patterns
      loads
      "b9"
      90
      array
      []
      world
      (quarantine_undecodable_block monitor (env true) true patterns loads frame [] [] world)
unfolding from_key starts_with print scan_block_header header_segment until_key
quarantine-Salvaged_example =
    quarantine-Salvaged monitor (env true) true patterns loads frame before (125 ∷ 125 ∷ []) array
      93 "b9" 90 [] [] world refl refl refl refl no_bracket refl
