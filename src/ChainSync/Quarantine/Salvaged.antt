-- ===== src/ChainSync/Quarantine/Salvaged.antt =====
-- What the quarantine of backend/app/ingestion/ogmios_client.py saves of a block.
use transaction_monitoring_s.Prelude.{
  ℕ, String, ◌≡◌, refl, Bool, true, false, Option, none, some, List, ◌∷◌, ◌++◌, map, length, str_eq,
  eq_iff, Bool-cases, inl, inr, arith, ◌⊎◌,
}
use transaction_monitoring_s.Prelude.Assoc.{Assoc, lookup, insert, lookup-insert}
use transaction_monitoring_s.ChainSync.{
  Point, World, Outcome, done, raised, MempoolMonitor, BlockTx, Post,
}
use transaction_monitoring_s.ChainSync.Forward.{Env, Block, handle_roll_forward, parsed, rows}
use transaction_monitoring_s.ChainSync.Forward.Checkpoint.{
  At, Pending, handle_roll_forward-checkpoint,
}
use transaction_monitoring_s.ChainSync.Quarantine.{
  QuarantinedBlock, Quarantine, Patterns, height_or_0, scan_block_header, rebuilt, salvage,
  quarantine_undecodable_block,
}
use transaction_monitoring_s.Rpc.{Text, is_close, from_key, transactions_key}
use transaction_monitoring_s.Rpc.Lexical.{Item, print_items, elements_of}
use transaction_monitoring_s.Rpc.Split.{HasNoBracket}
use transaction_monitoring_s.Rpc.Recover.{some_of, none_of, recover_transactions-each}

-- A fact beside what holds where a handler ends well.
Post-and :
    {M : Type 0} (D R : World M → Type 0) (Q : Type 0) (o : Outcome M)
    → Post D R o
    → Q
    → Post (λ v. D v × Q) R o
Post-and D R Q (done w) h q = (h, q)
Post-and D R Q (raised w) h q = h

insert-found :
    {V : Type 0} (id : String) (new : V) (table : Assoc V)
    → lookup id (insert id new table) ≡ some new
insert-found id new table = rw (lookup-insert id id new table, (eq_iff id id).1 refl) refl

module _ {M : Type 0} (monitor : MempoolMonitor M) (env : Env) (record_up : Bool)
    (patterns : Patterns) (loads : Text → Option BlockTx) where
  -- The transactions of the array that decode.
  abbrev pub recovered : List Item → List BlockTx
  recovered items = some_of (map loads (elements_of items))

  -- What the handler leaves of a block: no checkpoint without the row that says what was lost.
  abbrev pub Salvaged :
      String → ℕ → List Item → Assoc QuarantinedBlock → World M → Quarantine M → Type 0
  Salvaged id slot items table w q =
      Post
        (λ v.
          At (some (record { slot = slot; id = id }))
            (rows slot (parsed (recovered items)) ++ w.transactions) v
          × (lookup id q.quarantined_blocks
              ≡ some (record {
                slot = slot;
                txs_recovered = length (recovered items);
                txs_lost = none_of (map loads (elements_of items));
              })))
        (Pending w.sync_point (rows slot (parsed (recovered items))) w.transactions) q.outcome

  salvage-Salvaged :
      (id : String) (slot height : ℕ) (items : List Item) (table : Assoc QuarantinedBlock)
      (emitted : List Point) (w : World M)
      → Salvaged id slot items table w (
          salvage monitor env record_up id slot height
            (recovered items, none_of (map loads (elements_of items)))
            table
            emitted
            w)
  unfolding salvage
  salvage-Salvaged id slot height items table emitted w = elim (Bool-cases record_up) [
    | inl e ↦
        let new = rows slot (parsed (recovered items)) in
        let b : Block = rebuilt monitor env record_up id slot height (recovered items) in
        let row : QuarantinedBlock = record {
          slot = slot;
          txs_recovered = length (recovered items);
          txs_lost = none_of (map loads (elements_of items));
        } in
        rw e (
          Post-and {M = M} (At (some (record { slot = slot; id = id })) (new ++ w.transactions))
            (Pending w.sync_point new w.transactions) (lookup id (insert id row table) ≡ some row)
            (handle_roll_forward monitor env b w)
            (handle_roll_forward-checkpoint monitor env b slot w refl) (insert-found id row table))
    | inr e ↦ rw e (refl, inl refl)
  ]

  -- When the patterns find the block's id and slot and the frame's first `"transactions"` is followed
  -- by an array: if the handler ends well, the checkpoint is the block, a row for each container of
  -- the array that decodes on its own and parses is in the warehouse, the older rows kept, and the
  -- block's quarantine row counts those that decode and those that do not; if it raises, the
  -- checkpoint stands where it stood and no row is lost.
  pub quarantine-Salvaged :
      (raw before rest : Text) (items : List Item) (c : ℕ) (id : String) (slot : ℕ)
      (table : Assoc QuarantinedBlock) (emitted : List Point) (w : World M)
      → (scan_block_header patterns raw).id ≡ some id
      → (scan_block_header patterns raw).slot ≡ some slot
      → str_eq id "" ≡ false
      → is_close c ≡ true
      → HasNoBracket before
      → from_key transactions_key raw ≡ some (before ++ 91 ∷ (print_items items ++ c ∷ rest))
      → Salvaged id slot items table w
          (quarantine_undecodable_block monitor env record_up patterns loads raw table emitted w)
  unfolding quarantine_undecodable_block
  quarantine-Salvaged raw before rest items c id slot table emitted w at_id at_slot named h free
        key =
      rw (at_id, at_slot, named, recover_transactions-each loads raw before rest items c h free key)
        (salvage-Salvaged id slot (height_or_0 (scan_block_header patterns raw).height) items table
          emitted w)

  -- Without the id or the slot nothing is written.
  pub quarantine-refused :
      (raw : Text) (table : Assoc QuarantinedBlock) (emitted : List Point) (w : World M)
      → ((scan_block_header patterns raw).id ≡ none)
        ⊎ ((scan_block_header patterns raw).slot ≡ none)
      → quarantine_undecodable_block monitor env record_up patterns loads raw table emitted w
        ≡ record { quarantined_blocks = table; emitted = emitted; outcome = raised w }
  unfolding quarantine_undecodable_block
  quarantine-refused raw table emitted w (inl e) = ground arith
  quarantine-refused raw table emitted w (inr e) = ground arith
