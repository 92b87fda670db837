-- ===== src/Enrich/Block.antt =====
-- `resolve_input_amounts` of backend/app/ingestion/input_enrichment.py on a whole block.
use transaction_monitoring_s.Prelude.{
  ℕ, ◌+◌, ◌≡◌, refl, Bool, true, false, Option, none, some, List, [], ◌∷◌, ◌++◌, ltb, ◌||◌,
  if◌then◌else◌, arith, Bool-cases, Option-cases, inl, inr, ◌⊎◌, All, map, keep, any, String,
  str_eq, eq_iff, ◌∙◌, sym, ap,
}
use transaction_monitoring_s.Mempool.Pending.{Ref, ref_eq}
use transaction_monitoring_s.Enrich.{
  TransactionInput, consumed_by_ledger, ResolvedRef, Lookup, find, Transaction, withdrawal_total_of,
  is_unresolved, intra_block, cross_block_refs, OutputRow, get_outputs_for_refs, resolve_tx,
  resolve_tx_inputs, positive, resolve_input_amounts,
}
use transaction_monitoring_s.Enrich.Totals.{
  consumed, value_consumed, Sees, resolve-value, resolve-unchanged, resolve-consumed,
}

-- The warehouse without a list of references.
unfoldable pub stored : List OutputRow → String → Lookup ResolvedRef
stored [] network = []
stored (row ∷ rows) network =
    let rest = stored rows network in
    if str_eq row.network network
    then (row.ref, record { address = row.address; amount = row.amount; assets = none }) ∷ rest
    else rest

abbrev pub either : Option ResolvedRef → Option ResolvedRef → Option ResolvedRef
either none b = b
either (some a) b = some a

-- What the block and the warehouse know of a reference, the block first.
abbrev pub source : List Transaction → List OutputRow → String → Ref → Option ResolvedRef
source txs rows network r = either (find r (intra_block txs [])) (find r (stored rows network))

find-append :
    (r : Ref) (xs ys : Lookup ResolvedRef) → find r (xs ++ ys) ≡ either (find r xs) (find r ys)
unfolding find
find-append r [] ys = refl
find-append r ((k, v) ∷ xs) ys = ground (arith, find-append r xs ys)

asked : List Ref → Ref → Bool
asked refs r = any (λ q. ref_eq q r) refs

ref_eq-eq : (k r : Ref) → ref_eq k r ≡ true → k ≡ r
ref_eq-eq k r h = ground (arith, eq_iff k.tx_hash r.tx_hash)

find-get_outputs_for_refs :
    (rows : List OutputRow) (refs : List Ref) (network : String) (r : Ref)
    → asked refs r ≡ true
    → find r (get_outputs_for_refs rows refs network) ≡ find r (stored rows network)
unfolding find get_outputs_for_refs stored asked
find-get_outputs_for_refs [] refs network r h = refl
find-get_outputs_for_refs (row ∷ rows) refs network r h =
    let rest = find-get_outputs_for_refs rows refs network r h in
    elim (Bool-cases (ref_eq row.ref r)) [
      | inl e ↦
          let here : any (λ q. ref_eq q row.ref) refs ≡ true =
            ap (asked refs) (ref_eq-eq row.ref r e) ∙ h in
          rw here (ground (arith, rest, e))
      | inr e ↦ ground (arith, rest, e)
    ]

asked-append : (xs ys : List Ref) (r : Ref) → asked (xs ++ ys) r ≡ (asked xs r || asked ys r)
unfolding asked
asked-append [] ys r = refl
asked-append (x ∷ xs) ys r = ground (arith, asked-append xs ys r)

or_true : (a : Bool) → (a || true) ≡ true
or_true a = ground arith

module _ (intra : Lookup ResolvedRef) (refs : List Ref) where
  -- An input that is to be looked up across blocks is asked for.
  abbrev Asks : Bool → TransactionInput → Type 0
  Asks script_valid i = is_unresolved intra script_valid i ≡ true → asked refs i.ref ≡ true

  inputs-Asks :
      (script_valid : Bool) (inputs : List TransactionInput)
      → ((r : Ref)
          → asked (map (λ i. i.ref) (keep (is_unresolved intra script_valid) inputs)) r ≡ true
          → asked refs r ≡ true)
      → All (Asks script_valid) inputs
  unfolding asked
  inputs-Asks script_valid [] h = tt
  inputs-Asks script_valid (i ∷ inputs) h = (
    λ e. h i.ref (rw e (ground (arith, eq_iff i.ref.tx_hash i.ref.tx_hash))),
    inputs-Asks script_valid inputs (λ r k.
        h r (elim (Bool-cases (is_unresolved intra script_valid i)) [
          | inl e ↦ rw e (ground (arith, k))
          | inr e ↦ rw e k
        ])),
  )

  txs-Asks :
      (txs : List Transaction)
      → ((r : Ref) → asked (cross_block_refs intra txs) r ≡ true → asked refs r ≡ true)
      → All (λ tx. All (Asks tx.script_valid) tx.inputs) txs
  unfolding cross_block_refs
  txs-Asks [] h = tt
  txs-Asks (tx ∷ txs) h = (
    inputs-Asks tx.script_valid tx.inputs (λ r k. h r (rw (asked-append, k) refl)),
    txs-Asks txs (λ r k. h r (rw (asked-append, k) (or_true _))),
  )

module _ (txs : List Transaction) (rows : List OutputRow) (network : String) where
  abbrev intra : Lookup ResolvedRef
  intra = intra_block txs []

  abbrev refs : List Ref
  refs = cross_block_refs intra txs

  abbrev lookup : Lookup ResolvedRef
  lookup = intra ++ get_outputs_for_refs rows refs network

  -- The narrowed lookup has all that the total needs.
  Asks-Sees :
      (script_valid : Bool) (i : TransactionInput)
      → Asks intra refs script_valid i
      → Sees script_valid lookup 0 (source txs rows network) i
  unfolding consumed_by_ledger
  Asks-Sees script_valid i ask unknown used =
      find-append i.ref intra (get_outputs_for_refs rows refs network)
      ∙ (elim (Option-cases (find i.ref intra)) [
        | inr (r, e) ↦ rw e refl
        | inl e ↦
            let open_ref : is_unresolved intra script_valid i ≡ true =
              ground (arith, e, unknown, used) in
            rw (find-get_outputs_for_refs rows refs network i.ref (ask open_ref)) refl
      ])

  inputs-Sees :
      (script_valid : Bool) (total : ℕ) (inputs : List TransactionInput)
      → All (Asks intra refs script_valid) inputs
      → All (Sees script_valid lookup total (source txs rows network)) inputs
  inputs-Sees script_valid total [] h = tt
  inputs-Sees script_valid total (i ∷ inputs) h =
      (Asks-Sees script_valid i h.0, inputs-Sees script_valid total inputs h.1)

  -- The value that the ledger consumed, withdrawals included, as far as the block and the warehouse
  -- know it.
  abbrev pub total_known : Transaction → ℕ
  total_known tx =
      withdrawal_total_of tx + value_consumed (source txs rows network) tx.script_valid tx.inputs

  -- The total is that of the withdrawals and of the amounts that the consumed inputs have.
  abbrev pub IsTotalled : Transaction → Type 0
  IsTotalled tx =
      tx.total_input_value ≡ positive (withdrawal_total_of tx + consumed tx.script_valid tx.inputs)

  -- As the parser leaves it, with no amounts and no total, or with the total of its amounts.
  abbrev pub IsGiven : Transaction → Type 0
  IsGiven tx =
      ((consumed tx.script_valid tx.inputs ≡ 0) × (tx.total_input_value ≡ none)) ⊎ IsTotalled tx

  -- A transaction that withdraws nothing needs no total.
  given-IsTotalled : (tx : Transaction) → withdrawal_total_of tx ≡ 0 → IsGiven tx → IsTotalled tx
  given-IsTotalled tx w (inl (c, e)) = rw (w, c) e
  given-IsTotalled tx w (inr done) = done

  resolve_tx-total :
      (tx : Transaction)
      → All (Asks intra refs tx.script_valid) tx.inputs
      → IsGiven tx
      → ((resolve_tx lookup tx).total_input_value ≡ positive (total_known tx))
        × IsTotalled (resolve_tx lookup tx)
  unfolding resolve_tx resolve_tx_inputs withdrawal_total_of
  resolve_tx-total tx asks given =
      let w = withdrawal_total_of tx in
      let r = resolve_tx_inputs tx lookup in
      let all : r.total ≡ total_known tx =
        resolve-value tx.script_valid lookup w (source txs rows network) tx.inputs
          (inputs-Sees tx.script_valid w tx.inputs asks) in
      elim (Bool-cases (r.changed || ltb 0 w)) [
        | inl e ↦
            rw e
              (ap positive all, ap positive (resolve-consumed tx.script_valid lookup w tx.inputs))
        | inr e ↦
            let quiet : r.changed ≡ false = ground (arith, e) in
            let still : w ≡ 0 = ground (arith, e) in
            let done = given-IsTotalled tx still given in
            let same = resolve-unchanged tx.script_valid lookup w tx.inputs quiet in
            rw e (done ∙ ap positive (sym same ∙ all), done)
      ]

  resolve_all_lem :
      (some_txs : List Transaction)
      → All (λ tx. All (Asks intra refs tx.script_valid) tx.inputs) some_txs
      → All IsGiven some_txs
      → (map (λ tx. tx.total_input_value) (map (resolve_tx lookup) some_txs)
          ≡ map (λ tx. positive (total_known tx)) some_txs)
        × All IsTotalled (map (resolve_tx lookup) some_txs)
  resolve_all_lem [] asks done = (refl, tt)
  resolve_all_lem (tx ∷ some_txs) asks done =
      let (value, total) = resolve_tx-total tx asks.0 done.0 in
      let (values, totals) = resolve_all_lem some_txs asks.1 done.1 in
      (rw (value, values) refl, (total, totals))

  -- When each transaction has no amounts of consumed inputs and no total, as the parser leaves it, or
  -- the total of its amounts and withdrawals, as the cache leaves it, and the resolution does not
  -- raise: then each has the total of its amounts and withdrawals, and that total is the value that
  -- the ledger consumed, withdrawals included: of each input the amount it has, or else that of its
  -- reference in the block, or else in the whole warehouse. A total of 0 is None.
  pub resolve_input_amounts-total :
      (is_up : Bool) (txs' : List Transaction)
      → All IsGiven txs
      → resolve_input_amounts is_up rows network txs ≡ some txs'
      → (map (λ tx. tx.total_input_value) txs' ≡ map (λ tx. positive (total_known tx)) txs)
        × All IsTotalled txs'
  unfolding resolve_input_amounts
  resolve_input_amounts-total is_up txs' done h =
      let same : map (resolve_tx lookup) txs ≡ txs' = ground arith in
      rw (← same) (resolve_all_lem txs (txs-Asks intra refs txs (λ r k. k)) done)
