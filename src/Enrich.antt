-- ===== src/Enrich.antt =====
-- The resolution of inputs, backend/app/ingestion/input_enrichment.py, on the part of a
-- `NormalizedTransaction` of backend/app/models/transaction.py that it reads and writes. Amounts are
-- natural numbers of lovelace.
pub mod Totals
pub mod Block
use transaction_monitoring_s.Prelude.{
  ℕ, zero, suc, ◌+◌, String, Bool, true, false, Option, none, some, is_some, List, [], ◌∷◌, ◌++◌,
  map, keep, any, mem, not, ltb, ◌==◌, str_eq, ◌&&◌, ◌||◌, if◌then◌else◌,
}
use transaction_monitoring_s.Prelude.Assoc.{Assoc}
use transaction_monitoring_s.Mempool.Pending.{Ref, ref_eq}

pub record TransactionInput : Type 0 where
  pub ref : Ref
  pub address : String
  pub amount : ℕ
  pub assets : Option (Assoc ℕ)
  pub is_reference : Bool
  pub is_collateral : Bool
  pub is_unspent_attempt : Bool

unfoldable pub consumed_by_ledger : Bool → TransactionInput → Bool
consumed_by_ledger script_valid i =
    if i.is_reference
    then false
    else if script_valid
    then not i.is_collateral && not i.is_unspent_attempt
    else i.is_collateral

pub record TransactionOutput : Type 0 where
  pub address : String
  pub amount : ℕ
  pub output_index : Option ℕ

pub record Transaction : Type 0 where
  pub tx_hash : String
  pub script_valid : Bool
  pub withdrawal_total : ℕ
  pub inputs : List TransactionInput
  pub outputs : List TransactionOutput
  pub total_input_value : Option ℕ
  pub addresses : List String

-- Address, amount, and assets or None to keep the input's own.
pub record ResolvedRef : Type 0 where
  pub address : String
  pub amount : ℕ
  pub assets : Option (Assoc ℕ)

-- A dict keyed by references, as its insertions, the last one first.
abbrev pub Lookup {ℓ} : Type ℓ → Type ℓ
Lookup V = List (Ref × V)

-- `d.get(ref)`
unfoldable pub find {ℓ} : {V : Type ℓ} → Ref → Lookup V → Option V
find r [] = none
find r ((k, v) ∷ rows) = let rest = find r rows in if ref_eq k r then some v else rest

unfoldable pub withdrawal_total_of : Transaction → ℕ
withdrawal_total_of tx = if tx.script_valid then tx.withdrawal_total else 0

-- `set(addresses) | more`, the new ones last.
unfoldable pub union : List String → List String → List String
union addresses [] = addresses
union addresses (a ∷ more) =
    union (if mem a addresses then addresses else addresses ++ (a ∷ [])) more

abbrev pub is_flow : Bool → TransactionInput → Bool
is_flow script_valid i =
    not (str_eq i.address "") && not i.is_reference && (not i.is_collateral || not script_valid)

unfoldable pub flow_addresses : Bool → List TransactionInput → List String
flow_addresses script_valid inputs = map (λ i. i.address) (keep (is_flow script_valid) inputs)

abbrev pub or_own : Option (Assoc ℕ) → Option (Assoc ℕ) → Option (Assoc ℕ)
or_own none own = own
or_own (some assets) own = some assets

-- The inputs so far, the consumed total, and whether one was newly resolved.
pub record Resolved : Type 0 where
  pub new_inputs : List TransactionInput
  pub total : ℕ
  pub changed : Bool

-- `total += amount` if the ledger consumed the input.
abbrev pub counted : Bool → TransactionInput → ℕ → ℕ
counted script_valid i amount = if consumed_by_ledger script_valid i then amount else 0

abbrev pub resolved_input : TransactionInput → ResolvedRef → TransactionInput
resolved_input i r = record i {
  address = r.address;
  amount = r.amount;
  assets = or_own r.assets i.assets;
}

-- The input in front of those after it, with what it adds to the total.
abbrev pub before : TransactionInput → ℕ → Bool → Resolved → Resolved
before i added newly rest = record {
  new_inputs = i ∷ rest.new_inputs;
  total = added + rest.total;
  changed = newly || rest.changed;
}

abbrev pub from_lookup : Bool → TransactionInput → Option ResolvedRef → Resolved → Resolved
from_lookup script_valid i none rest = before i 0 false rest
from_lookup script_valid i (some r) rest =
    before (resolved_input i r) (counted script_valid (resolved_input i r) r.amount) true rest

abbrev pub resolve_one : Bool → Lookup ResolvedRef → TransactionInput → Resolved → Resolved
resolve_one script_valid lookup i rest =
    if i.is_reference
    then before i 0 false rest
    else if ltb 0 i.amount
    then before i (counted script_valid i i.amount) false rest
    else from_lookup script_valid i (find i.ref lookup) rest

-- The loop over the inputs; `total` starts as the sum of the withdrawals.
unfoldable pub resolve_inputs : Bool → Lookup ResolvedRef → ℕ → List TransactionInput → Resolved
resolve_inputs script_valid lookup total [] = record {
  new_inputs = [];
  total = total;
  changed = false;
}
resolve_inputs script_valid lookup total (i ∷ inputs) =
    resolve_one script_valid lookup i (resolve_inputs script_valid lookup total inputs)

unfoldable pub resolve_tx_inputs : Transaction → Lookup ResolvedRef → Resolved
resolve_tx_inputs tx lookup =
    resolve_inputs tx.script_valid lookup (withdrawal_total_of tx) tx.inputs

-- `total if total > 0 else None`
abbrev pub positive : ℕ → Option ℕ
positive total = if ltb 0 total then some total else none

abbrev pub updated : Transaction → Resolved → Transaction
updated tx r = record tx {
  inputs = r.new_inputs;
  total_input_value = positive r.total;
  addresses = union tx.addresses (flow_addresses tx.script_valid r.new_inputs);
}

-- The path of the mempool's cache.
unfoldable pub apply_resolved_inputs : Transaction → Lookup ResolvedRef → Transaction
apply_resolved_inputs tx lookup = updated tx (resolve_tx_inputs tx lookup)

-- The outputs of a transaction by their index on the chain, those from `idx` on.
abbrev pub index_or : Option ℕ → ℕ → ℕ
index_or none idx = idx
index_or (some output_index) idx = output_index

unfoldable pub outputs_from :
    String → ℕ → List TransactionOutput → Lookup ResolvedRef → Lookup ResolvedRef
outputs_from tx_hash idx [] found = found
outputs_from tx_hash idx (o ∷ outputs) found = outputs_from tx_hash (suc idx) outputs (
    (
      record { tx_hash = tx_hash; index = index_or o.output_index idx },
      record { address = o.address; amount = o.amount; assets = none },
    )
    ∷ found)

unfoldable pub intra_block : List Transaction → Lookup ResolvedRef → Lookup ResolvedRef
intra_block [] found = found
intra_block (tx ∷ txs) found = intra_block txs (outputs_from tx.tx_hash 0 tx.outputs found)

-- Whether an input's reference is asked for across blocks.
abbrev pub is_unresolved : Lookup ResolvedRef → Bool → TransactionInput → Bool
is_unresolved intra script_valid i =
    not i.is_reference
    && not (i.is_collateral && script_valid)
    && not (ltb 0 i.amount)
    && not (is_some (find i.ref intra))

unfoldable pub cross_block_refs : Lookup ResolvedRef → List Transaction → List Ref
cross_block_refs intra [] = []
cross_block_refs intra (tx ∷ txs) =
    map (λ i. i.ref) (keep (is_unresolved intra tx.script_valid) tx.inputs)
    ++ cross_block_refs intra txs

-- A row of ClickHouse's `transaction_outputs`, merged.
pub record OutputRow : Type 0 where
  pub ref : Ref
  pub network : String
  pub address : String
  pub amount : ℕ

-- `get_outputs_for_refs`: the rows of the network with a transaction hash of the references, of which
-- the dict has those that are asked for.
unfoldable pub get_outputs_for_refs : List OutputRow → List Ref → String → Lookup ResolvedRef
get_outputs_for_refs [] refs network = []
get_outputs_for_refs (row ∷ rows) refs network =
    let rest = get_outputs_for_refs rows refs network in
    if str_eq row.network network && any (λ r. ref_eq r row.ref) refs
    then (row.ref, record { address = row.address; amount = row.amount; assets = none }) ∷ rest
    else rest

-- A transaction is copied only if something is resolved or it withdraws.
unfoldable pub resolve_tx : Lookup ResolvedRef → Transaction → Transaction
resolve_tx lookup tx =
    if (resolve_tx_inputs tx lookup).changed || ltb 0 (withdrawal_total_of tx)
    then updated tx (resolve_tx_inputs tx lookup)
    else tx

abbrev pub is_empty : List Ref → Bool
is_empty [] = true
is_empty (r ∷ refs) = false

-- The block's own outputs come before the warehouse's. The lookup of any references may raise.
unfoldable pub resolve_input_amounts :
    Bool → List OutputRow → String → List Transaction → Option (List Transaction)
resolve_input_amounts is_up rows network txs =
    let intra = intra_block txs [] in
    let refs = cross_block_refs intra txs in
    let lookup = intra ++ get_outputs_for_refs rows refs network in
    if is_up || is_empty refs then some (map (resolve_tx lookup) txs) else none
