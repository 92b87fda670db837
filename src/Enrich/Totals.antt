-- ===== src/Enrich/Totals.antt =====
-- What the loop over a transaction's inputs of backend/app/ingestion/input_enrichment.py adds up.
use transaction_monitoring_s.Prelude.{
  ℕ, ◌+◌, ◌≡◌, Bool, true, false, Option, none, some, List, [], ◌∷◌, ltb, if◌then◌else◌, arith,
  Option-cases, All,
}
use transaction_monitoring_s.Mempool.Pending.{Ref}
use transaction_monitoring_s.Enrich.{
  TransactionInput, consumed_by_ledger, ResolvedRef, Lookup, find, Resolved, counted, resolve_one,
  resolve_inputs,
}

-- What the ledger consumed of the inputs, as far as their amounts are known.
unfoldable pub consumed : Bool → List TransactionInput → ℕ
consumed script_valid [] = 0
consumed script_valid (i ∷ inputs) = counted script_valid i i.amount + consumed script_valid inputs

abbrev pub amount_of : Option ResolvedRef → ℕ
amount_of none = 0
amount_of (some r) = r.amount

-- The value of a reference, for inputs whose amount is not known yet.
abbrev pub worth : (Ref → Option ResolvedRef) → TransactionInput → ℕ
worth source i = if ltb 0 i.amount then i.amount else amount_of (source i.ref)

unfoldable pub value_consumed : (Ref → Option ResolvedRef) → Bool → List TransactionInput → ℕ
value_consumed source script_valid [] = 0
value_consumed source script_valid (i ∷ inputs) =
    counted script_valid i (worth source i) + value_consumed source script_valid inputs

module _ (script_valid : Bool) (lookup : Lookup ResolvedRef) (total : ℕ) where
  abbrev run : List TransactionInput → Resolved
  run inputs = resolve_inputs script_valid lookup total inputs

  resolve_one-consumed :
      (i : TransactionInput) (rest : Resolved)
      → rest.total ≡ total + consumed script_valid rest.new_inputs
      → (resolve_one script_valid lookup i rest).total
        ≡ total + consumed script_valid (resolve_one script_valid lookup i rest).new_inputs
  unfolding consumed consumed_by_ledger
  resolve_one-consumed i rest h = ground (arith, Option-cases (find i.ref lookup))

  -- The total and the inputs cannot disagree on what the ledger consumed.
  pub resolve-consumed :
      (inputs : List TransactionInput)
      → (run inputs).total ≡ total + consumed script_valid (run inputs).new_inputs
  unfolding resolve_inputs consumed
  resolve-consumed [] = omega arith
  resolve-consumed (i ∷ inputs) = resolve_one-consumed i (run inputs) (resolve-consumed inputs)

  module _ (source : Ref → Option ResolvedRef) where
    -- The lookup has what the source has for an input that the ledger consumes.
    abbrev pub Sees : TransactionInput → Type 0
    Sees i =
        ltb 0 i.amount ≡ false
        → consumed_by_ledger script_valid i ≡ true
        → find i.ref lookup ≡ source i.ref

    resolve_one-value :
        (i : TransactionInput) (rest : Resolved) (v : ℕ)
        → Sees i
        → rest.total ≡ total + v
        → (resolve_one script_valid lookup i rest).total
          ≡ total + (counted script_valid i (worth source i) + v)
    unfolding consumed_by_ledger
    resolve_one-value i rest v h e = ground (arith, Option-cases (find i.ref lookup), h)

    pub resolve-value :
        (inputs : List TransactionInput)
        → All Sees inputs
        → (run inputs).total ≡ total + value_consumed source script_valid inputs
    unfolding resolve_inputs value_consumed
    resolve-value [] h = omega arith
    resolve-value (i ∷ inputs) h =
        resolve_one-value i (run inputs) (value_consumed source script_valid inputs) h.0
          (resolve-value inputs h.1)

  resolve_one-unchanged :
      (i : TransactionInput) (rest : Resolved) (v : ℕ)
      → (rest.changed ≡ false → rest.total ≡ total + v)
      → (resolve_one script_valid lookup i rest).changed ≡ false
      → (resolve_one script_valid lookup i rest).total
        ≡ total + (counted script_valid i i.amount + v)
  unfolding consumed_by_ledger
  resolve_one-unchanged i rest v h e = ground (arith, Option-cases (find i.ref lookup), h)

  -- Where nothing is newly resolved, the total is that of the amounts that were there.
  pub resolve-unchanged :
      (inputs : List TransactionInput)
      → (run inputs).changed ≡ false
      → (run inputs).total ≡ total + consumed script_valid inputs
  unfolding resolve_inputs consumed
  resolve-unchanged [] h = omega arith
  resolve-unchanged (i ∷ inputs) h =
      resolve_one-unchanged i (run inputs) (consumed script_valid inputs) (resolve-unchanged inputs)
        h
