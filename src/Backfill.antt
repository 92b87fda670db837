-- ===== src/Backfill.antt =====
-- The backfill of one address, backend/app/ingestion/address_backfill.py. The answers of Kupo, the
-- messages of the node's socket and which calls of the stores succeed are arguments.
pub mod Missing
pub mod Taken
pub mod Settled
pub mod Accounts
use transaction_monitoring_s.Prelude.{
  ℕ, zero, suc, ◌+◌, String, Bool, true, false, Option, none, some, is_some, List, [], ◌∷◌, ◌++◌,
  map, keep, mem, length, not, ltb, leb, ◌==◌, ◌&&◌, ◌||◌, if◌then◌else◌,
}
use transaction_monitoring_s.KupoClient.{TxPoint}

-- A transaction of a block: its id, if it has one, and whether it parses.
pub record BlockTx : Type 0 where
  pub id : Option String
  pub is_parsed : Bool

pub record Block : Type 0 where
  pub slot : Option ℕ
  pub transactions : List BlockTx

-- `next_block`: a block, a rollback, another result, or a JSON-RPC error.
pub data Message : Type 0 where
  forward : Block → Message
  backward : Message
  other : Message
  rpc_error : Message

-- A connection: whether it opens, whether its slot-time queries succeed in one of the attempts, the
-- intersection, and what `next_block` answers until the socket closes.
pub data Intersection : Type 0 where
  found refused cut : Intersection

pub record Session : Type 0 where
  pub opens : Bool
  pub has_slot_times : Bool
  pub intersection : Intersection
  pub messages : List Message

pub record Env : Type 0 where
  pub raw_store_enabled : Bool
  pub raw_data_max_bytes : ℕ
  pub max_retries : ℕ
  -- by the slot of the block
  pub resolves : ℕ → Bool
  pub raw_up : ℕ → Bool
  pub preserves : String → Bool
  -- by the slot and the attempt
  pub insert_answers : ℕ → ℕ → Bool

-- The variables of the walk, with the stores that it writes.
pub record Walk : Type 0 where
  pub seen : List String
  pub blocks_scanned : ℕ
  pub txs_ingested : ℕ
  pub transactions : List String
  pub raw_files : List String
  pub parse_failed_files : List String

-- A step that goes on, or one that raises a `BackfillError` or another exception.
pub data Step : Type 0 where
  ok : Walk → Step
  failed : Walk → Step

-- The loop of `_insert_with_retry` from an attempt on, with the attempts that are left.
unfoldable pub insert_attempts : ℕ → ℕ → (ℕ → Bool) → Bool
insert_attempts zero attempt answers = false
insert_attempts (suc left) attempt answers =
    let later = insert_attempts left (suc attempt) answers in
    if answers attempt then true else later

-- `transactions` stands for the table as the engine merges it, by hash: an attempt that raises may
-- have written rows, which the next attempt writes again.
unfoldable pub insert_with_retry : Env → ℕ → List String → Walk → Step
insert_with_retry env slot new w =
    if insert_attempts env.max_retries 1 (env.insert_answers slot)
    then ok (record w {
      transactions = w.transactions ++ new;
      txs_ingested = w.txs_ingested + length new;
    })
    else failed w

abbrev pub preserve_unparseable : Env → String → Walk → Walk
preserve_unparseable env id w =
    if env.raw_store_enabled && env.preserves id
    then record w { parse_failed_files = id ∷ w.parse_failed_files }
    else w

-- A target of a block: parsed and seen, or preserved.
abbrev pub take_target : Env → BlockTx → String → List String × Walk → List String × Walk
take_target env tx id (new, w) =
    if tx.is_parsed
    then (new ++ id ∷ [], record w { seen = w.seen ++ id ∷ [] })
    else (new, preserve_unparseable env id w)

abbrev pub take_id :
    Env → List String → BlockTx → Option String → List String × Walk → List String × Walk
take_id env needed tx none acc = acc
take_id env needed tx (some id) (new, w) =
    if not (mem id needed) || mem id w.seen then (new, w) else take_target env tx id (new, w)

-- The loop over a block's transactions: the hashes that are normalized.
unfoldable pub take_targets :
    Env → List String → List BlockTx → List String × Walk → List String × Walk
take_targets env needed [] acc = acc
take_targets env needed (tx ∷ txs) acc =
    take_targets env needed txs (take_id env needed tx tx.id acc)

-- The raw payloads are written before the rows; a failure is fatal if they are the only full copy.
abbrev pub write_raw_payloads : Env → ℕ → List String → Walk → Step
write_raw_payloads env slot new w =
    if not env.raw_store_enabled
    then ok w
    else if env.raw_up slot
    then ok (record w { raw_files = new ++ w.raw_files })
    else if ltb 0 env.raw_data_max_bytes
    then failed w
    else ok w

abbrev pub and_insert : Env → ℕ → List String → Step → Step
and_insert env slot new (ok w) = insert_with_retry env slot new w
and_insert env slot new (failed w) = failed w

unfoldable pub store_targets : Env → ℕ → List String × Walk → Step
store_targets env slot ([], w) = ok w
store_targets env slot (id ∷ new, w) =
    if env.resolves slot
    then and_insert env slot (id ∷ new) (write_raw_payloads env slot (id ∷ new) w)
    else failed w

unfoldable pub ingest_block_targets : Env → List String → List BlockTx → ℕ → Walk → Step
ingest_block_targets env needed txs slot w =
    store_targets env slot (take_targets env needed txs ([], w))

-- `needed - seen` is empty.
abbrev pub is_complete : List String → List String → Bool
is_complete [] seen = true
is_complete (h ∷ needed) seen = mem h seen && is_complete needed seen

-- How the walk over one connection ends: past the targets, by a closed socket, or by an error.
pub data Walked : Type 0 where
  finished closed broken : Walk → Walked

abbrev pub go_on : Step → (Walk → Walked) → Walked
go_on (ok w) rest = rest w
go_on (failed w) rest = broken w

abbrev pub at_slot :
    Env → List String → ℕ → List BlockTx → Option ℕ → Walk → (Walk → Walked) → Walked
at_slot env needed latest txs none w rest = rest w
at_slot env needed latest txs (some slot) w rest =
    if ltb latest slot
    then finished w
    else go_on
        (ingest_block_targets env needed txs slot
          (record w { blocks_scanned = suc w.blocks_scanned }))
        rest

abbrev pub on_message : Env → List String → ℕ → Message → Walk → (Walk → Walked) → Walked
on_message env needed latest (forward block) w rest =
    at_slot env needed latest block.transactions block.slot w rest
on_message env needed latest backward w rest = rest w
on_message env needed latest other w rest = rest w
on_message env needed latest rpc_error w rest = broken w

-- The `while needed - seen` of one connection.
unfoldable pub walk : Env → List String → ℕ → List Message → Walk → Walked
walk env needed latest [] w = if is_complete needed w.seen then finished w else closed w
walk env needed latest (m ∷ messages) w =
    if is_complete needed w.seen
    then finished w
    else on_message env needed latest m w (walk env needed latest messages)

abbrev pub intersected : Env → List String → ℕ → Session → Intersection → Walk → Walked
intersected env needed latest session found w = walk env needed latest session.messages w
intersected env needed latest session refused w = broken w
intersected env needed latest session cut w = closed w

unfoldable pub connect : Env → List String → ℕ → Session → Walk → Walked
connect env needed latest session w =
    if session.opens then intersected env needed latest session session.intersection w else broken w

-- The loop over the connections, by the reconnects that are left.
abbrev pub or_reconnect : Walked → (Walk → Step) → Step
or_reconnect (finished w) again = ok w
or_reconnect (closed w) again = again w
or_reconnect (broken w) again = failed w

unfoldable pub sessions : Env → List String → ℕ → ℕ → ℕ → (ℕ → Session) → Walk → Step
sessions env needed latest zero k session w =
    or_reconnect (connect env needed latest (session k) w) failed
sessions env needed latest (suc left) k session w =
    or_reconnect (connect env needed latest (session k) w)
      (sessions env needed latest left (suc k) session)

-- `{p.tx_hash for p in points}`
unfoldable pub hashes : List TxPoint → List String
hashes [] = []
hashes (p ∷ points) =
    let rest = hashes points in if mem p.tx_hash rest then rest else p.tx_hash ∷ rest

unfoldable pub latest_slot : List TxPoint → ℕ
latest_slot [] = 0
latest_slot (p ∷ points) = if ltb (latest_slot points) p.slot then p.slot else latest_slot points

-- The caveats, in the order in which they are collected.
pub data Caveat : Type 0 where
  kupo_incomplete no_anchor no_chain_time : Caveat

pub record BackfillResult : Type 0 where
  pub requested_txs : ℕ
  pub blocks_scanned : ℕ
  pub txs_ingested : ℕ
  pub missing_tx_hashes : List String
  pub degraded : List Caveat

-- What Kupo says of its own index, and whether it has a point before the earliest target.
pub record Kupo : Type 0 where
  pub is_reliable : Bool
  pub has_anchor : Bool

abbrev pub caveat : Bool → Caveat → List Caveat
caveat true c = c ∷ []
caveat false c = []

pub data Backfilled : Type 0 where
  returned : BackfillResult → Walk → Backfilled
  raised : Walk → Backfilled

abbrev pub fresh_walk : List String → Walk → Walk
fresh_walk seen stores = record stores { seen = seen; blocks_scanned = 0; txs_ingested = 0 }

abbrev pub summary : List String → Kupo → Bool → Step → Backfilled
summary needed kupo has_slot_times (failed w) = raised w
summary needed kupo has_slot_times (ok w) =
    returned
      (record {
        requested_txs = length needed;
        blocks_scanned = w.blocks_scanned;
        txs_ingested = w.txs_ingested;
        missing_tx_hashes = keep (λ h. not (mem h w.seen)) needed;
        degraded =
            caveat (not kupo.is_reliable) kupo_incomplete
            ++ (caveat (not kupo.has_anchor) no_anchor
                ++ caveat (not has_slot_times) no_chain_time);
      })
      w

-- `_SCAN_RECONNECT_ATTEMPTS`
abbrev pub scan_reconnect_attempts : ℕ
scan_reconnect_attempts = 1

-- Nothing to do without points. The slot times are asked for on the first connection.
unfoldable pub backfill_address : Env → List TxPoint → Kupo → (ℕ → Session) → Walk → Backfilled
backfill_address env [] kupo session stores =
    returned
      (record {
        requested_txs = 0;
        blocks_scanned = 0;
        txs_ingested = 0;
        missing_tx_hashes = [];
        degraded = [];
      })
      (fresh_walk [] stores)
backfill_address env (p ∷ points) kupo session stores =
    summary (hashes (p ∷ points)) kupo ((session 0).has_slot_times) (
      sessions env (hashes (p ∷ points)) (latest_slot (p ∷ points)) scan_reconnect_attempts 0
        session (fresh_walk [] stores))
