-- ===== src/Mempool/Monitor.antt =====
-- `MempoolMonitor` of backend/app/ingestion/mempool_monitor.py: its state, the calls of the
-- chain-sync client, and the LocalTxMonitor loop. Whether each statement of the database succeeds
-- is an `Env`. Times are milliseconds. `V` is what `parse_resolved_utxo` gives for an output.
pub mod Pairs
pub mod Displaced
pub mod Valid
use transaction_monitoring_s.Prelude.{
  ℕ, zero, suc, ◌+◌, ◌-◌, ◌*◌, String, Bool, true, false, Option, none, some, List, [], ◌∷◌, ◌++◌,
  map, keep, mem, length, not, ltb, leb, str_eq, ◌&&◌, ◌||◌, if◌then◌else◌,
}
use transaction_monitoring_s.Prelude.Assoc.{Assoc, lookup, insert, remove}
use transaction_monitoring_s.Prelude.Int.{sub_ℕ}
use transaction_monitoring_s.Lifecycle.{Table, upsert_lifecycle_pending}
use transaction_monitoring_s.ChainSync.{Point, Input, BlockTx}
use transaction_monitoring_s.Mempool.Pending.{
  Ref, Entry, PendingTxIndex, empty, add_ref, track, untrack, get, sharing, stale_ids,
}
use transaction_monitoring_s.Mempool.Collisions.{
  Collision, both_pending, insert_mempool_collision, update_collision_outcome,
}

pub data Event : Type 0 where
  tx_confirmed : String → ℕ → Point → Event
  tx_pending : String → ℕ → Event

-- The monitor's state, the collision table and the events it has emitted, last first.
pub record Monitor (V : Type 0) : Type 0 where
  pub seen_mempool_txs : List String
  pub mempool_txs_since_prune : ℕ
  pub pending : PendingTxIndex
  pub pending_input_cache : Assoc (List (Ref × V) × ℕ)
  pub undecodable_txs : ℕ
  pub collisions : List Collision
  pub events : List Event

pub record Env : Type 0 where
  pub network : String
  pub prune_every_n_txs : ℕ
  pub pending_ttl_ms : ℕ
  pub seen_txs_max : ℕ
  -- whether the row of a pair is inserted, and the outcomes of a transaction updated
  pub insert_up : String → String → Bool
  pub outcome_up : String → Bool
  pub lifecycle_up : String → Bool

-- `__init__`
abbrev pub init : {V : Type 0} → Monitor V
init = record {
  seen_mempool_txs = [];
  mempool_txs_since_prune = 0;
  pending = empty;
  pending_input_cache = [];
  undecodable_txs = 0;
  collisions = [];
  events = [];
}

abbrev pub peek_enrichment : {V : Type 0} → String → Monitor V → Option (List (Ref × V) × ℕ)
peek_enrichment tx_hash m = lookup tx_hash m.pending_input_cache

unfoldable pub consume_enrichment : {V : Type 0} → String → Monitor V → Monitor V
consume_enrichment tx_hash m = record m {
  pending_input_cache = remove tx_hash m.pending_input_cache;
}

unfoldable pub clear_on_rollback : {V : Type 0} → Monitor V → Monitor V
clear_on_rollback m = record m { seen_mempool_txs = [] }

abbrev pub ref_of : Input → Ref
ref_of i = record { tx_hash = i.tx_hash; index = i.index }

-- `set(refs)`
unfoldable pub to_set : List Ref → List Ref → List Ref
to_set acc [] = acc
to_set acc (r ∷ rs) = to_set (add_ref r acc) rs

abbrev pub is_regular : Input → Bool
is_regular i = not i.is_collateral && not i.is_reference

unfoldable pub consumed_refs : BlockTx → List Ref
unfolding to_set
consumed_refs tx = to_set [] (
    map ref_of (
      if tx.script_valid then keep is_regular tx.inputs else keep (λ i. i.is_collateral) tx.inputs))

-- The address of the first regular input that has one.
unfoldable pub first_address : List Input → String
first_address [] = ""
first_address (i ∷ rest) =
    let later = first_address rest in
    if is_regular i && not (str_eq i.address "") then i.address else later

abbrev pub fee_of : Option ℕ → ℕ
fee_of none = 0
fee_of (some fee) = fee

-- The row of a pending transaction and the confirmed one that displaced it.
abbrev pub displacement : String → ℕ → BlockTx → String → Entry → List Ref → Collision
displacement network now tx pending_id e shared = record {
  tx_a = pending_id;
  tx_b = tx.id;
  network = network;
  shared_inputs = shared;
  shared_count = length shared;
  tx_a_seen_at = e.first_seen_at;
  tx_b_seen_at = now;
  delta_ms = sub_ℕ now e.first_seen_at;
  outcome = both_pending;
  tx_a_fee = e.fee;
  tx_b_fee = fee_of tx.fee;
  tx_a_first_input_addr = e.first_input_addr;
  tx_b_first_input_addr = first_address tx.inputs;
  tx_a_ttl = e.ttl;
  tx_b_ttl = 0;
}

-- The `try` block: the insert, then the outcome.
unfoldable pub record_displacement : Env → Collision → List Collision → List Collision
record_displacement env row rows =
    let inserted = insert_mempool_collision row rows in
    if not (env.insert_up row.tx_a row.tx_b)
    then rows
    else if env.outcome_up row.tx_b
    then update_collision_outcome row.tx_b env.network inserted
    else inserted

-- One pending transaction of `sharing`, by its entry and by the references it shares.
unfoldable pub displace_entry :
    Env → ℕ → BlockTx → String → List Ref → Option Entry → List Collision → List Collision
displace_entry env now tx id shared none rows = rows
displace_entry env now tx id [] (some e) rows = rows
displace_entry env now tx id (r ∷ shared) (some e) rows =
    record_displacement env (displacement env.network now tx id e (r ∷ shared)) rows

-- The loop over `sharing`.
unfoldable pub displace_each :
    Env
    → ℕ
    → List String
    → PendingTxIndex
    → BlockTx
    → Assoc (List Ref)
    → List Collision
    → List Collision
displace_each env now confirmed p tx [] rows = rows
displace_each env now confirmed p tx ((id, shared) ∷ rest) rows =
    displace_each env now confirmed p tx rest
      (if mem id confirmed then rows else displace_entry env now tx id shared (get id p) rows)

-- The loop over the block's transactions; without a consumed reference `sharing` is empty.
unfoldable pub displace_all :
    Env → ℕ → List String → PendingTxIndex → List BlockTx → List Collision → List Collision
displace_all env now confirmed p [] rows = rows
displace_all env now confirmed p (tx ∷ txs) rows =
    displace_all env now confirmed p txs
      (displace_each env now confirmed p tx (sharing (consumed_refs tx) p) rows)

unfoldable pub record_displacements : {V : Type 0} → Env → List BlockTx → ℕ → Monitor V → Monitor V
record_displacements env txs now m = record m {
  collisions = displace_all env now (map (λ tx. tx.id) txs) m.pending txs m.collisions;
}

-- The first loop of `settle_confirmed`.
unfoldable pub settle_all : {V : Type 0} → Env → List BlockTx → Monitor V → Monitor V
settle_all env [] m = m
settle_all env (tx ∷ txs) m = settle_all env txs (record m {
  pending = untrack tx.id m.pending;
  collisions =
      if env.outcome_up tx.id
      then update_collision_outcome tx.id env.network m.collisions
      else m.collisions;
})

-- The second, whose `emit` raises nothing.
unfoldable pub emit_confirmed : List BlockTx → ℕ → Point → List Event → List Event
emit_confirmed [] now p events = events
emit_confirmed (tx ∷ txs) now p events =
    emit_confirmed txs now p (tx_confirmed tx.id now p ∷ events)

-- The third.
unfoldable pub discard_seen : List BlockTx → List String → List String
discard_seen [] seen = seen
discard_seen (tx ∷ txs) seen = discard_seen txs (keep (λ x. not (str_eq x tx.id)) seen)

unfoldable pub settle_confirmed :
    {V : Type 0} → Env → List BlockTx → ℕ → Point → Monitor V → Monitor V
settle_confirmed env txs now p m =
    let m' = settle_all env txs m in
    record m' {
      events = emit_confirmed txs now p m'.events;
      seen_mempool_txs = discard_seen txs m'.seen_mempool_txs;
    }
