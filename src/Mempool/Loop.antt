-- ===== src/Mempool/Loop.antt =====
-- The LocalTxMonitor loop, `_mempool_loop` of backend/app/ingestion/mempool_monitor.py, with
-- `_record_mempool_collisions`, its prune, and `_resolve_mempool_inputs`. The write to the raw
-- store, which runs in a task of its own, is left out.
pub mod Undecodable
pub mod Sweep
use transaction_monitoring_s.Prelude.{
  any, ℕ, suc, ◌-◌, String, Bool, true, false, Option, none, some, List, [], ◌∷◌, map, keep, mem,
  length, not, ltb, leb, str_eq, ◌||◌, if◌then◌else◌,
}
use transaction_monitoring_s.Prelude.Assoc.{Assoc, insert, remove, delete_rows}
use transaction_monitoring_s.Prelude.Int.{sub_ℕ}
use transaction_monitoring_s.Lifecycle.{Table, upsert_lifecycle_pending}
use transaction_monitoring_s.Mempool.Pending.{
  Ref, ref_eq, Entry, PendingTxIndex, track, untrack, get, sharing, stale_ids,
}
use transaction_monitoring_s.Mempool.Collisions.{Collision, both_pending, insert_mempool_collision}
use transaction_monitoring_s.Mempool.Monitor.{Monitor, Env, Event, tx_pending, to_set}

-- An input of a pending transaction: `ogmios_input_ref` of it, whether its transaction is an object
-- with an id, and its address, "" without one.
pub record PendingInput : Type 0 where
  pub ref : Ref
  pub has_id : Bool
  pub address : String

-- The transaction of a `nextTransaction` response. `is_readable` is whether its fee, its inputs
-- and its time to live are read without an exception.
pub record MempoolTx : Type 0 where
  pub id : String
  pub is_readable : Bool
  pub inputs : List PendingInput
  pub fee : ℕ
  pub ttl : ℕ

-- A transaction with the clock's readings: at its arrival, after its inputs are resolved, and of
-- the database; and the answer of the query for its inputs, `none` for an exception.
pub record Arrival (V : Type 0) : Type 0 where
  pub tx : MempoolTx
  pub now : ℕ
  pub resolved_at : ℕ
  pub stored_at : ℕ
  pub utxos : List Ref → Option (List (Ref × V))

abbrev pub refs_of : MempoolTx → List Ref
refs_of tx = to_set [] (map (λ i. i.ref) tx.inputs)

abbrev pub address_of : List PendingInput → String
address_of [] = ""
address_of (i ∷ rest) = i.address

abbrev pub entry_of : MempoolTx → List Ref → ℕ → Entry
entry_of tx refs now = record {
  input_refs = refs;
  first_seen_at = now;
  fee = tx.fee;
  first_input_addr = address_of tx.inputs;
  ttl = tx.ttl;
}

abbrev pub collision : String → String → Entry → List Ref → String → Entry → Collision
collision network other_id other shared tx_id e = record {
  tx_a = other_id;
  tx_b = tx_id;
  network = network;
  shared_inputs = shared;
  shared_count = length shared;
  tx_a_seen_at = other.first_seen_at;
  tx_b_seen_at = e.first_seen_at;
  delta_ms = sub_ℕ e.first_seen_at other.first_seen_at;
  outcome = both_pending;
  tx_a_fee = other.fee;
  tx_b_fee = e.fee;
  tx_a_first_input_addr = other.first_input_addr;
  tx_b_first_input_addr = e.first_input_addr;
  tx_a_ttl = other.ttl;
  tx_b_ttl = e.ttl;
}

-- One pending transaction of `sharing`, by its entry and by the references it shares.
unfoldable pub collide_entry :
    Env → String → Entry → String → List Ref → Option Entry → List Collision → List Collision
collide_entry env tx_id e other_id shared none rows = rows
collide_entry env tx_id e other_id [] (some other) rows = rows
collide_entry env tx_id e other_id (r ∷ shared) (some other) rows =
    if env.insert_up other_id tx_id
    then insert_mempool_collision (collision env.network other_id other (r ∷ shared) tx_id e) rows
    else rows

unfoldable pub collide_each :
    Env → PendingTxIndex → String → Entry → Assoc (List Ref) → List Collision → List Collision
collide_each env p tx_id e [] rows = rows
collide_each env p tx_id e ((other_id, shared) ∷ rest) rows = collide_each env p tx_id e rest (
    if str_eq other_id tx_id
    then rows
    else collide_entry env tx_id e other_id shared (get other_id p) rows)

-- `if input_refs:`
unfoldable pub register : {V : Type 0} → Env → String → Entry → List Ref → Monitor V → Monitor V
register env tx_id e [] m = m
register env tx_id e (r ∷ refs) m = record m {
  collisions = collide_each env m.pending tx_id e (sharing (r ∷ refs) m.pending) m.collisions;
  pending = track tx_id e m.pending;
}

unfoldable pub untrack_all : List String → PendingTxIndex → PendingTxIndex
untrack_all [] p = p
untrack_all (k ∷ ks) p = untrack_all ks (untrack k p)

unfoldable pub remove_all {ℓ} : {A : Type ℓ} → List String → Assoc A → Assoc A
remove_all [] cache = cache
remove_all (k ∷ ks) cache = remove_all ks (remove k cache)

-- The sweep: stale entries with their cached inputs, cached inputs by their own age, and the
-- dedup set at its cap.
unfoldable pub sweep : {V : Type 0} → Env → ℕ → Monitor V → Monitor V
sweep env cutoff m =
    let stale = stale_ids cutoff m.pending in
    record m {
      pending = untrack_all stale m.pending;
      pending_input_cache =
          delete_rows (λ (inputs, cached_at). ltb cached_at cutoff)
            (remove_all stale m.pending_input_cache);
      seen_mempool_txs =
          if ltb env.seen_txs_max (length m.seen_mempool_txs) then [] else m.seen_mempool_txs;
    }

-- The prune every N transactions. A cutoff before the clock's origin has nothing before it.
unfoldable pub count_and_prune : {V : Type 0} → Env → ℕ → Monitor V → Monitor V
count_and_prune env now m =
    let n = suc m.mempool_txs_since_prune in
    if leb env.prune_every_n_txs n
    then sweep env (now - env.pending_ttl_ms) (record m { mempool_txs_since_prune = 0 })
    else record m { mempool_txs_since_prune = n }

unfoldable pub record_mempool_collisions :
    {V : Type 0} → Env → MempoolTx → ℕ → Monitor V → Monitor V
record_mempool_collisions env tx now m =
    count_and_prune env now (register env tx.id (entry_of tx (refs_of tx) now) (refs_of tx) m)

-- `cache_entry[ref] = resolved`
abbrev pub set_ref : {V : Type 0} → Ref → V → List (Ref × V) → List (Ref × V)
set_ref r v [] = (r, v) ∷ []
set_ref r v ((q, w) ∷ rest) =
    let later = set_ref r v rest in if ref_eq q r then (q, v) ∷ rest else (q, w) ∷ later

abbrev pub to_dict : {V : Type 0} → List (Ref × V) → List (Ref × V) → List (Ref × V)
to_dict acc [] = acc
to_dict acc ((r, v) ∷ rest) = to_dict (set_ref r v acc) rest

-- `if cache_entry:`
unfoldable pub cache_inputs :
    {V : Type 0} → String → ℕ → Option (List (Ref × V)) → Monitor V → Monitor V
cache_inputs tx_id at none m = m
cache_inputs tx_id at (some []) m = m
cache_inputs tx_id at (some (u ∷ utxos)) m = record m {
  pending_input_cache = insert tx_id (to_dict [] (u ∷ utxos), at) m.pending_input_cache;
}

-- By the references to query.
unfoldable pub resolve_refs : {V : Type 0} → Arrival V → List Ref → Monitor V → Monitor V
resolve_refs a [] m = m
resolve_refs a (r ∷ refs) m = cache_inputs a.tx.id a.resolved_at (a.utxos (r ∷ refs)) m

unfoldable pub resolve_mempool_inputs : {V : Type 0} → Arrival V → Monitor V → Monitor V
resolve_mempool_inputs a m = resolve_refs a (map (λ i. i.ref) (keep (λ i. i.has_id) a.tx.inputs)) m

-- The `try` block: an exception of reading the transaction changes nothing.
unfoldable pub detect : {V : Type 0} → Env → Arrival V → Monitor V → Monitor V
detect env a m =
    let detected = record_mempool_collisions env a.tx a.now m in
    if a.tx.is_readable then detected else m

abbrev pub announce : {V : Type 0} → Arrival V → Monitor V → Monitor V
announce a m = record m { events = tx_pending a.tx.id a.now ∷ m.events }

-- A transaction that is not yet seen.
unfoldable pub observe : {V : Type 0} → Env → Arrival V → Monitor V × Table → Monitor V × Table
observe env a (m, t) = (
  announce a (
      resolve_mempool_inputs a
        (detect env a (record m { seen_mempool_txs = a.tx.id ∷ m.seen_mempool_txs }))),
  if env.lifecycle_up a.tx.id
      then upsert_lifecycle_pending a.stored_at a.tx.id env.network a.now t
      else t,
)

-- What `nextTransaction` brings until the snapshot is exhausted: a frame that is nested too deeply, an
-- error of another kind (a text that `json.loads` refuses, a lost socket, an error response), or a
-- transaction.
pub data Next (V : Type 0) : Type 0 where
  undecodable : Next V
  broken : Next V
  transaction : Arrival V → Next V

unfoldable pub on_next : {V : Type 0} → Env → Next V → Monitor V × Table → Monitor V × Table
on_next env undecodable (m, t) = (record m { undecodable_txs = suc m.undecodable_txs }, t)
on_next env broken (m, t) = (m, t)
on_next env (transaction a) (m, t) =
    if str_eq a.tx.id "" || mem a.tx.id m.seen_mempool_txs then (m, t) else observe env a (m, t)

-- The inner loop, over one snapshot; an error of another kind leaves it.
unfoldable pub walk : {V : Type 0} → Env → List (Next V) → Monitor V × Table → Monitor V × Table
walk env [] s = s
walk env (undecodable ∷ ns) s = walk env ns (on_next env undecodable s)
walk env (broken ∷ ns) s = on_next env broken s
walk env (transaction a ∷ ns) s = walk env ns (on_next env (transaction a) s)

abbrev pub is_broken : {V : Type 0} → Next V → Bool
is_broken undecodable = false
is_broken broken = true
is_broken (transaction a) = false

-- The outer loop, over the snapshots it acquires until it is stopped or an error leaves it.
unfoldable pub acquire :
    {V : Type 0} → Env → List (List (Next V)) → Monitor V × Table → Monitor V × Table
acquire env [] s = s
acquire env (ns ∷ snapshots) s =
    let later = acquire env snapshots (walk env ns s) in
    if any is_broken ns then walk env ns s else later

unfoldable pub mempool_loop :
    {V : Type 0} → Env → List (List (Next V)) → Monitor V × Table → Monitor V × Table
mempool_loop env snapshots (m, t) = acquire env snapshots (record m { seen_mempool_txs = [] }, t)
