-- ===== src/Tests/Enrich.antt =====
-- A block whose second transaction spends an output of the first and one of the warehouse, and whose
-- third fails and spends its collateral.
use transaction_monitoring_s.Prelude.{
  inl, ℕ, ◌≡◌, refl, Bool, true, false, Option, none, some, List, [], ◌∷◌, map, All, String,
}
use transaction_monitoring_s.Mempool.Pending.{Ref}
use transaction_monitoring_s.Enrich.{
  TransactionInput, consumed_by_ledger, TransactionOutput, Transaction, OutputRow, resolve_tx,
  resolve_input_amounts, positive, resolve_tx_inputs, resolve_inputs, intra_block, outputs_from,
  cross_block_refs, get_outputs_for_refs, find, withdrawal_total_of, union, flow_addresses,
}
use transaction_monitoring_s.Enrich.Totals.{consumed}
use transaction_monitoring_s.Enrich.Block.{IsTotalled, total_known, resolve_input_amounts-total}

abbrev ref : String → ℕ → Ref
ref h i = record { tx_hash = h; index = i }

abbrev spend : Bool → Bool → Ref → TransactionInput
spend collateral attempt r = record {
  ref = r;
  address = "";
  amount = 0;
  assets = none;
  is_reference = false;
  is_collateral = collateral;
  is_unspent_attempt = attempt;
}

abbrev pay : String → ℕ → TransactionOutput
pay a n = record { address = a; amount = n; output_index = none }

abbrev tx :
    String
    → Bool
    → ℕ
    → List TransactionInput
    → List TransactionOutput
    → Option ℕ
    → List String
    → Transaction
tx h ok w ins outs total addresses = record {
  tx_hash = h;
  script_valid = ok;
  withdrawal_total = w;
  inputs = ins;
  outputs = outs;
  total_input_value = total;
  addresses = addresses;
}

-- The first transaction withdraws and spends nothing.
abbrev block : List Transaction
block =
    tx "t1" true 3 [] (pay "a" 10 ∷ []) none []
    ∷ tx "t2" true 5
        (spend false false (ref "t1" 0)
          ∷ spend true false (ref "w" 0)
          ∷ spend false false (ref "w" 1)
          ∷ [])
        [] none []
    ∷ tx "t3" false 7 (spend false true (ref "w" 1) ∷ spend true false (ref "w" 0) ∷ []) [] none []
    ∷ []

abbrev row : Ref → String → ℕ → OutputRow
row r a n = record { ref = r; network = "preprod"; address = a; amount = n }

abbrev rows : List OutputRow
rows = row (ref "w" 0) "b" 100 ∷ row (ref "w" 1) "c" 1000 ∷ []

abbrev result : Option (List Transaction)
result = resolve_input_amounts true rows "preprod" block

abbrev or_nil : Option (List Transaction) → List Transaction
or_nil none = []
or_nil (some txs) = txs

totals : map (λ t. t.total_input_value) (or_nil result) ≡ some 3 ∷ some 1015 ∷ some 100 ∷ []
unfolding resolve_input_amounts resolve_tx resolve_tx_inputs resolve_inputs intra_block outputs_from
    cross_block_refs get_outputs_for_refs find withdrawal_total_of consumed_by_ledger union
    flow_addresses
totals = refl

resolve_input_amounts-total_example :
    (map (λ t. t.total_input_value) (or_nil result)
      ≡ map (λ t. positive (total_known block rows "preprod" t)) block)
    × All (IsTotalled block rows "preprod") (or_nil result)
unfolding resolve_input_amounts resolve_tx resolve_tx_inputs resolve_inputs intra_block outputs_from
    cross_block_refs get_outputs_for_refs find withdrawal_total_of consumed_by_ledger union
    flow_addresses consumed
resolve_input_amounts-total_example =
    resolve_input_amounts-total block rows "preprod" true (or_nil result)
      (inl (refl, refl), (inl (refl, refl), (inl (refl, refl), tt))) refl
