-- ===== src/Backfill/Taken.antt =====
-- What a block of backend/app/ingestion/address_backfill.py adds to the targets that are seen.
use transaction_monitoring_s.Prelude.{
  ℕ, ◌+◌, String, ◌≡◌, true, false, Option, none, some, List, [], ◌∷◌, ◌++◌, mem, length, ◌&&◌, All,
  arith, Bool-cases, inl, inr, sym, ◌∙◌, ap, length-append,
}
use mathlib.Core.List.{append_assoc}
use transaction_monitoring_s.Backfill.{BlockTx, Env, Walk, take_id, take_targets}
use transaction_monitoring_s.Backfill.Missing.{Unique, missing, snoc-Unique, missing-target}

module _ (needed old : List String) (targets : Unique needed) where
  -- The hashes `new` are seen and not yet inserted; the others that are seen were inserted.
  pub record Inv (new : List String) (w : Walk) : Type 0 where
    pub once : Unique w.seen
    pub wanted : All (λ h. mem h needed ≡ true) w.seen
    pub rows : w.transactions ++ new ≡ old ++ w.seen
    pub counted : w.txs_ingested + length new ≡ length w.seen
    pub balanced : length w.seen + length (missing needed w.seen) ≡ length needed

  All-snoc :
      (x : String) (xs : List String)
      → All (λ h. mem h needed ≡ true) xs
      → mem x needed ≡ true
      → All (λ h. mem h needed ≡ true) (xs ++ x ∷ [])
  All-snoc x [] a h = (h, tt)
  All-snoc x (y ∷ xs) a h = (a.0, All-snoc x xs a.1 h)

  -- A change of what is not accounted for.
  pub other-Inv :
      (new : List String) (w : Walk) (scanned : ℕ) (raw parse_failed : List String)
      → Inv new w
      → Inv new (record w {
        blocks_scanned = scanned;
        raw_files = raw;
        parse_failed_files = parse_failed;
      })
  other-Inv new w scanned raw parse_failed v = record {
    once = v.once;
    wanted = v.wanted;
    rows = v.rows;
    counted = v.counted;
    balanced = v.balanced;
  }

  module _ (env : Env) where
    see-Inv :
        (new : List String) (w : Walk) (id : String)
        → Inv new w
        → mem id needed ≡ true
        → mem id w.seen ≡ false
        → Inv (new ++ id ∷ []) (record w { seen = w.seen ++ id ∷ [] })
    see-Inv new w id v h k = record {
      once = snoc-Unique id w.seen v.once k;
      wanted = All-snoc id w.seen v.wanted h;
      rows =
          sym (append_assoc w.transactions new (id ∷ []))
          ∙ (ap (λ (t : List String). t ++ id ∷ []) v.rows ∙ append_assoc old w.seen (id ∷ []));
      counted =
          omega (arith, v.counted, length-append new (id ∷ []), length-append w.seen (id ∷ []));
      balanced = omega (
        arith,
        v.balanced,
        length-append w.seen (id ∷ []),
        missing-target needed w.seen id targets h k,
      );
    }

    take_id-Inv :
        (tx : BlockTx) (o : Option String) (new : List String) (w : Walk)
        → Inv new w
        → Inv (take_id env needed tx o (new, w)).0 (take_id env needed tx o (new, w)).1
    take_id-Inv tx none new w v = v
    take_id-Inv tx (some id) new w v = elim (Bool-cases (mem id needed)) [
      | inr e ↦ rw e v
      | inl e ↦ elim (Bool-cases (mem id w.seen)) [
        | inl f ↦ rw (e, f) v
        | inr f ↦ elim (Bool-cases tx.is_parsed) [
          | inl g ↦ rw (e, f, g) (see-Inv new w id v e f)
          | inr g ↦ elim (Bool-cases (env.raw_store_enabled && env.preserves id)) [
            | inl p ↦
                rw (e, f, g, p)
                  (other-Inv new w w.blocks_scanned w.raw_files (id ∷ w.parse_failed_files) v)
            | inr p ↦ rw (e, f, g, p) v
          ]
        ]
      ]
    ]

    pub take_targets-Inv :
        (txs : List BlockTx) (new : List String) (w : Walk)
        → Inv new w
        → Inv (take_targets env needed txs (new, w)).0 (take_targets env needed txs (new, w)).1
    unfolding take_targets
    take_targets-Inv [] new w v = v
    take_targets-Inv (tx ∷ txs) new w v =
        take_targets-Inv txs (take_id env needed tx tx.id (new, w)).0
          (take_id env needed tx tx.id (new, w)).1 (take_id-Inv tx tx.id new w v)
