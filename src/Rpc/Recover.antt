-- ===== src/Rpc/Recover.antt =====
-- `recover_transactions` of backend/app/ingestion/ogmios_rpc.py.
use transaction_monitoring_s.Prelude.{
  ℕ, suc, ◌≡◌, refl, true, Option, none, some, List, [], ◌∷◌, ◌++◌, map,
}
use transaction_monitoring_s.Rpc.{
  Text, is_close, from_key, transactions_key, decode_each, decoded_or_lost, recover_transactions,
}
use transaction_monitoring_s.Rpc.Lexical.{Item, print_items, elements_of}
use transaction_monitoring_s.Rpc.Split.{HasNoBracket, split_array_elements-text}

module _ {A : Type 0} where
  -- The values that are there.
  abbrev pub some_of : List (Option A) → List A
  some_of [] = []
  some_of (none ∷ os) = some_of os
  some_of (some x ∷ os) = x ∷ some_of os

  -- The number of those that are not.
  abbrev pub none_of : List (Option A) → ℕ
  none_of [] = 0
  none_of (none ∷ os) = suc (none_of os)
  none_of (some x ∷ os) = none_of os

  decoded_or_lost_lem :
      (o : Option A) (os : List (Option A)) (r : List A × ℕ)
      → r ≡ (some_of os, none_of os)
      → decoded_or_lost o r ≡ (some_of (o ∷ os), none_of (o ∷ os))
  decoded_or_lost_lem none os r h = rw h refl
  decoded_or_lost_lem (some x) os r h = rw h refl

module _ {A : Type 0} (loads : Text → Option A) where
  decode_each_lem :
      (es : List Text) → decode_each loads es ≡ (some_of (map loads es), none_of (map loads es))
  unfolding decode_each
  decode_each_lem [] = refl
  decode_each_lem (e ∷ es) = decoded_or_lost_lem (loads e) (map loads es) _ (decode_each_lem es)

  -- Of a frame whose first `"transactions"` is followed by an array: each container of the array
  -- that decodes on its own is recovered, in order, and the number of the others is the number of
  -- the lost, whatever strings, brackets and depths are in them and whatever follows the array.
  pub recover_transactions-each :
      (raw before rest : Text) (items : List Item) (c : ℕ)
      → is_close c ≡ true
      → HasNoBracket before
      → from_key transactions_key raw ≡ some (before ++ 91 ∷ (print_items items ++ c ∷ rest))
      → recover_transactions loads raw
        ≡ (some_of (map loads (elements_of items)), none_of (map loads (elements_of items)))
  unfolding recover_transactions
  recover_transactions-each raw before rest items c h none_before at_key =
      rw (split_array_elements-text raw transactions_key before rest items c h none_before at_key)
        (decode_each_lem (elements_of items))
