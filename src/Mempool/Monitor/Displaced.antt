-- ===== src/Mempool/Monitor/Displaced.antt =====
-- The rows that `record_displacements` of backend/app/ingestion/mempool_monitor.py writes for a
-- block, against a plain description of them.
use transaction_monitoring_s.Prelude.{
  ℕ, String, Bool, Option, none, some, List, [], ◌∷◌, ◌++◌, ◌≡◌, refl, sym, ◌∙◌, ap, keep, map, mem,
  not, str_eq, ◌&&◌, if◌then◌else◌, arith, eq_iff,
}
use mathlib.Core.List.{append_assoc, append-nil}
use transaction_monitoring_s.Prelude.Assoc.{Assoc, lookup, Distinct, insert-Distinct}
use transaction_monitoring_s.ChainSync.{BlockTx}
use transaction_monitoring_s.Mempool.Pending.{
  Ref, Entry, PendingTxIndex, or_empty, add_ref, share, share_all, sharing, get,
}
use transaction_monitoring_s.Mempool.Pending.Consistent.{IsConsistent}
use transaction_monitoring_s.Mempool.Pending.Scan.{
  scan, Unrepeated, sharing-scan, add_ref-Unrepeated,
}
use transaction_monitoring_s.Mempool.Collisions.{Collision}
use transaction_monitoring_s.Mempool.Monitor.{
  Monitor, Env, displace_entry, displace_each, displace_all, record_displacements, consumed_refs,
  to_set, ref_of, is_regular,
}
use transaction_monitoring_s.Mempool.Monitor.Pairs.{pair_rows, row_for, pair_rows-displace_entry}

-- Whether the pair may get a row of this transaction at all.
abbrev may_pair : Env → List String → String → String → BlockTx → Bool
may_pair env confirmed a b tx = str_eq tx.id b && not (mem a confirmed) && env.insert_up a b

abbrev rows_of :
    Env
    → ℕ
    → List String
    → PendingTxIndex
    → String
    → String
    → BlockTx
    → Option (List Ref)
    → List Collision
rows_of env now confirmed p a b tx shared =
    if may_pair env confirmed a b tx then row_for env now tx a (get a p) shared else []

row_for-none :
    (env : Env) (now : ℕ) (tx : BlockTx) (a : String) (o : Option Entry)
    → row_for env now tx a o none ≡ []
row_for-none env now tx a none = refl
row_for-none env now tx a (some e) = refl

abbrev displace_one :
    Env
    → ℕ
    → List String
    → PendingTxIndex
    → BlockTx
    → String
    → List Ref
    → List Collision
    → List Collision
displace_one env now confirmed p tx id shared rows =
    if mem id confirmed then rows else displace_entry env now tx id shared (get id p) rows

pair_rows-displace_one :
    (env : Env) (now : ℕ) (confirmed : List String) (p : PendingTxIndex) (a b : String)
    (tx : BlockTx) (id : String) (shared : List Ref) (rows : List Collision)
    → pair_rows a b (displace_one env now confirmed p tx id shared rows)
      ≡ pair_rows a b rows
        ++ (if str_eq id a then rows_of env now confirmed p a b tx (some shared) else [])
pair_rows-displace_one env now confirmed p a b tx id shared rows = ground (
  arith,
  pair_rows-displace_entry env now a b id tx shared (get id p) rows,
  append-nil (pair_rows a b rows),
  eq_iff id a,
)

pair_rows-displace_each :
    (env : Env) (now : ℕ) (confirmed : List String) (p : PendingTxIndex) (a b : String)
    (tx : BlockTx) (out : Assoc (List Ref)) (rows : List Collision)
    → Distinct out
    → pair_rows a b (displace_each env now confirmed p tx out rows)
      ≡ pair_rows a b rows ++ rows_of env now confirmed p a b tx (lookup a out)
unfolding displace_each lookup
pair_rows-displace_each env now confirmed p a b tx [] rows d =
    ground (arith, append-nil (pair_rows a b rows), row_for-none env now tx a (get a p))
pair_rows-displace_each env now confirmed p a b tx ((id, shared) ∷ out) rows d = ground (
  arith,
  pair_rows-displace_each env now confirmed p a b tx out
      (displace_one env now confirmed p tx id shared rows) d.1,
  pair_rows-displace_one env now confirmed p a b tx id shared rows,
  append-nil (pair_rows a b rows),
  append-nil (pair_rows a b rows ++ rows_of env now confirmed p a b tx (some shared)),
  row_for-none env now tx a (get a p),
  d.0,
  eq_iff id a,
)

share-Distinct :
    (r : Ref) (ids : List String) (out : Assoc (List Ref))
    → Distinct out
    → Distinct (share r ids out)
unfolding share
share-Distinct r [] out d = d
share-Distinct r (id ∷ ids) out d = share-Distinct r ids _ (insert-Distinct id _ out d)

share_all-Distinct :
    (index : Ref → Option (List String)) (refs : List Ref) (out : Assoc (List Ref))
    → Distinct out
    → Distinct (share_all index refs out)
unfolding share_all
share_all-Distinct index [] out d = d
share_all-Distinct index (r ∷ refs) out d =
    share_all-Distinct index refs _ (share-Distinct r (or_empty (index r)) out d)

to_set-Unrepeated : (refs acc : List Ref) → Unrepeated acc → Unrepeated (to_set acc refs)
unfolding to_set
to_set-Unrepeated [] acc u = u
to_set-Unrepeated (r ∷ refs) acc u =
    to_set-Unrepeated refs (add_ref r acc) (add_ref-Unrepeated r acc u)

consumed_refs-Unrepeated : (tx : BlockTx) → Unrepeated (consumed_refs tx)
unfolding consumed_refs
consumed_refs-Unrepeated tx =
    to_set-Unrepeated
      (map ref_of (
        if tx.script_valid
        then keep is_regular tx.inputs
        else keep (λ i. i.is_collateral) tx.inputs))
      [] tt

-- What the pair gets for one transaction of the block, by the intersection of the references that
-- it consumed with the pending transaction's.
abbrev pub rows_for :
    Env → ℕ → List String → PendingTxIndex → String → String → BlockTx → List Collision
rows_for env now confirmed p a b tx =
    rows_of env now confirmed p a b tx (scan (consumed_refs tx) (get a p))

abbrev pub all_rows_for :
    Env → ℕ → List String → PendingTxIndex → String → String → List BlockTx → List Collision
all_rows_for env now confirmed p a b [] = []
all_rows_for env now confirmed p a b (tx ∷ txs) =
    rows_for env now confirmed p a b tx ++ all_rows_for env now confirmed p a b txs

pair_rows-displace_all :
    (env : Env) (now : ℕ) (confirmed : List String) (p : PendingTxIndex) (a b : String)
    (txs : List BlockTx) (rows : List Collision)
    → IsConsistent p
    → pair_rows a b (displace_all env now confirmed p txs rows)
      ≡ pair_rows a b rows ++ all_rows_for env now confirmed p a b txs
unfolding displace_all get
pair_rows-displace_all env now confirmed p a b [] rows c = sym (append-nil (pair_rows a b rows))
pair_rows-displace_all env now confirmed p a b (tx ∷ txs) rows c =
    let refs = consumed_refs tx in
    pair_rows-displace_all env now confirmed p a b txs _ c
    ∙ ap (◌++ all_rows_for env now confirmed p a b txs) (
        pair_rows-displace_each env now confirmed p a b tx (sharing refs p) rows
          (unfold sharing in share_all-Distinct p.ref_index refs [] tt)
        ∙ ap (λ o. pair_rows a b rows ++ rows_of env now confirmed p a b tx o)
            (sharing-scan refs a p c (consumed_refs-Unrepeated tx)))
    ∙ append_assoc (pair_rows a b rows) _ _

-- When the inverted index agrees with the entries, for every pair of a pending and a confirmed
-- transaction the rows that a block adds, their outcomes aside, are those of the intersections, if
-- the insert succeeds, and none for a pending transaction of the block.
pub record_displacements-rows :
    {V : Type 0} (env : Env) (txs : List BlockTx) (now : ℕ) (m : Monitor V) (a b : String)
    → IsConsistent m.pending
    → pair_rows a b (record_displacements env txs now m).collisions
      ≡ pair_rows a b m.collisions ++ all_rows_for env now (map (λ tx. tx.id) txs) m.pending a b txs
unfolding record_displacements
record_displacements-rows env txs now m a b c =
    pair_rows-displace_all env now _ m.pending a b txs m.collisions c
