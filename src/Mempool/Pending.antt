-- ===== src/Mempool/Pending.antt =====
-- `PendingTxIndex` of backend/app/ingestion/mempool_monitor.py: the entries of the pending
-- transactions by id, and an inverted index from the output references they spend to their ids.
-- A Python set is a list that the operations keep free of repeats, in the order of insertion.
pub mod Consistent
pub mod Scan
use transaction_monitoring_s.Prelude.{
  ℕ, String, Bool, Option, none, some, List, [], ◌∷◌, ◌++◌, keep, any, mem, not, ltb, str_eq, ◌==◌,
  ◌&&◌, if◌then◌else◌,
}
use transaction_monitoring_s.Prelude.Assoc.{Assoc, lookup, insert, remove}

-- `(input_tx_hash, input_index)`
pub record Ref : Type 0 where
  pub tx_hash : String
  pub index : ℕ

abbrev pub ref_eq : Ref → Ref → Bool
ref_eq q r = str_eq q.tx_hash r.tx_hash && q.index == r.index

abbrev pub mem_ref : Ref → List Ref → Bool
mem_ref q = any (ref_eq q)

-- The entry tuple; times are milliseconds.
pub record Entry : Type 0 where
  pub input_refs : List Ref
  pub first_seen_at : ℕ
  pub fee : ℕ
  pub first_input_addr : String
  pub ttl : ℕ

-- `none` is a missing key.
abbrev pub RefIndex : Type 0
RefIndex = Ref → Option (List String)

pub record PendingTxIndex : Type 0 where
  pub entries : Assoc Entry
  pub ref_index : RefIndex

-- `__init__`
abbrev pub empty : PendingTxIndex
empty = record { entries = []; ref_index = λ r. none }

abbrev pub or_empty {ℓ} : {A : Type ℓ} → Option (List A) → List A
or_empty none = []
or_empty (some xs) = xs

-- A set, or nothing in place of an empty one.
abbrev pub nonempty {ℓ} : {A : Type ℓ} → List A → Option (List A)
nonempty [] = none
nonempty (x ∷ xs) = some (x ∷ xs)

-- The index with `f` applied at one key.
unfoldable pub update : Ref → (Option (List String) → Option (List String)) → RefIndex → RefIndex
update r f index q = if ref_eq q r then f (index q) else index q

-- `ids.add(id)`
unfoldable pub add_id : String → List String → List String
add_id id ids = if mem id ids then ids else ids ++ id ∷ []

-- `ids.discard(id)`, and `pop` of the key when none is left
unfoldable pub discard_id : String → Option (List String) → Option (List String)
discard_id id none = none
discard_id id (some ids) = nonempty (keep (λ x. not (str_eq x id)) ids)

unfoldable pub add_refs : String → List Ref → RefIndex → RefIndex
add_refs id [] index = index
add_refs id (r ∷ rs) index =
    add_refs id rs (update r (λ ids. some (add_id id (or_empty ids))) index)

unfoldable pub discard_refs : String → List Ref → RefIndex → RefIndex
discard_refs id [] index = index
discard_refs id (r ∷ rs) index = discard_refs id rs (update r (discard_id id) index)

unfoldable pub track : String → Entry → PendingTxIndex → PendingTxIndex
track tx_id entry p = record {
  entries = insert tx_id entry p.entries;
  ref_index = add_refs tx_id entry.input_refs p.ref_index;
}

-- By the entry that `pop` returns.
unfoldable pub untrack_entry : String → Option Entry → PendingTxIndex → PendingTxIndex
untrack_entry tx_id none p = p
untrack_entry tx_id (some entry) p = record {
  entries = remove tx_id p.entries;
  ref_index = discard_refs tx_id entry.input_refs p.ref_index;
}

unfoldable pub untrack : String → PendingTxIndex → PendingTxIndex
unfolding untrack_entry
untrack tx_id p = untrack_entry tx_id (lookup tx_id p.entries) p

unfoldable pub get : String → PendingTxIndex → Option Entry
get tx_id p = lookup tx_id p.entries

-- `add(ref)`
unfoldable pub add_ref : Ref → List Ref → List Ref
add_ref r refs = if mem_ref r refs then refs else refs ++ r ∷ []

-- The inner loop of `sharing`.
unfoldable pub share : Ref → List String → Assoc (List Ref) → Assoc (List Ref)
share r [] out = out
share r (id ∷ ids) out = share r ids (insert id (add_ref r (or_empty (lookup id out))) out)

-- The outer loop.
unfoldable pub share_all : RefIndex → List Ref → Assoc (List Ref) → Assoc (List Ref)
share_all index [] out = out
share_all index (r ∷ refs) out = share_all index refs (share r (or_empty (index r)) out)

-- The pending transactions that spend some of `refs`, each with those it spends.
unfoldable pub sharing : List Ref → PendingTxIndex → Assoc (List Ref)
sharing refs p = share_all p.ref_index refs []

unfoldable pub ids_before : ℕ → Assoc Entry → List String
ids_before cutoff [] = []
ids_before cutoff ((k, v) ∷ rows) =
    let rest = ids_before cutoff rows in if ltb v.first_seen_at cutoff then k ∷ rest else rest

unfoldable pub stale_ids : ℕ → PendingTxIndex → List String
unfolding ids_before
stale_ids cutoff p = ids_before cutoff p.entries
