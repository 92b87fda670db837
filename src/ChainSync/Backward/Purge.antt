-- ===== src/ChainSync/Backward/Purge.antt =====
-- What a rollback removes from the warehouse, and what it owes.
pub mod Resent
pub mod Ends
use transaction_monitoring_s.Prelude.{
  ℕ, ◌≡◌, refl, ◌⊎◌, inl, inr, String, Bool, true, false, Option, none, some, List, [], ◌∷◌, arith,
  keep, any, ltb, not, ◌&&◌, ◌||◌, if◌then◌else◌, str_eq, eq_iff, Bool-cases, sym, ap, mem, ◌∙◌,
}
use transaction_monitoring_s.ChainSync.{
  is_done, final, and_then-done, Point, Stored, World, Outcome, done, raised, MempoolMonitor,
  and_then, save_sync_point, Post, and_then-Post, tip_of,
}
use transaction_monitoring_s.ChainSync.Backward.{
  final_rows, past_slot, Env, Reached, before_scores, before_transactions, all_tables, orphans,
  without, rows_without, add_pending, delete_tables, after_purge, purge_hashes, purge_warehouse,
  mark, roll_back_to, checkpoint_rollback, announce, clean_up, Rollback, handle_roll_backward,
  roll_backward_at,
}
use transaction_monitoring_s.ChainSync.Backward.Repurge.{mem-without, mem-add_pending}

-- The hash has one of the rows past the slot.
abbrev pub has_past : String → ℕ → List Stored → Bool
has_past h s = any (λ r. str_eq h r.tx_hash && ltb s r.slot)

-- The row of the hash that `FINAL` reads is past the slot.
abbrev pub is_orphaned : String → ℕ → List Stored → Bool
is_orphaned h s ts = has_past h s (final_rows ts)

mem-past_slot : (h : String) (s : ℕ) (rs : List Stored) → mem h (past_slot s rs) ≡ has_past h s rs
unfolding past_slot
mem-past_slot h s [] = refl
mem-past_slot h s (r ∷ rs) =
    ground (arith, eq_iff h r.tx_hash, mem-past_slot h s rs, mem-past_slot r.tx_hash s rs)

-- The purge selects the hashes whose row is past the slot, and no other.
pub mem-orphans :
    (h : String) (s : ℕ) (ts : List Stored) → mem h (orphans s ts) ≡ is_orphaned h s ts
mem-orphans h s ts = mem-past_slot h s (final_rows ts)

past_slot-rows_without :
    (s : ℕ) (hs : List String) (rs : List Stored)
    → ((h : String) → has_past h s rs ≡ true → mem h hs ≡ true)
    → past_slot s (rows_without hs rs) ≡ []
unfolding past_slot
past_slot-rows_without s hs [] c = refl
past_slot-rows_without s hs (r ∷ rs) c = ground (
  arith,
  past_slot-rows_without s hs rs (λ h p. c h (ground arith)),
  c r.tx_hash,
  eq_iff r.tx_hash r.tx_hash,
)

keep_swap : (p q : Stored → Bool) (rs : List Stored) → keep p (keep q rs) ≡ keep q (keep p rs)
keep_swap p q [] = refl
keep_swap p q (r ∷ rs) = ground (arith, keep_swap p q rs)

-- The rows of a hash that is deleted need not be left out before.
rows_without-other :
    (hs : List String) (h : String) (rs : List Stored)
    → mem h hs ≡ true
    → rows_without hs (keep (λ q. not (str_eq q.tx_hash h)) rs) ≡ rows_without hs rs
rows_without-other hs h [] e = refl
rows_without-other hs h (r ∷ rs) e = elim (Bool-cases (str_eq r.tx_hash h)) [
  | inr f ↦ rw f (ground (arith, rows_without-other hs h rs e))
  | inl f ↦
      let gone : mem r.tx_hash hs ≡ true =
        ap (λ (k : String). mem k hs) ((eq_iff r.tx_hash h).0 f) ∙ e in
      rw f (rw gone (rows_without-other hs h rs e))
]

-- A DELETE by hash and `FINAL` can be exchanged.
final_rows-rows_without :
    (hs : List String) (rs : List Stored)
    → final_rows (rows_without hs rs) ≡ rows_without hs (final_rows rs)
unfolding final_rows
final_rows-rows_without hs [] = refl
final_rows-rows_without hs (r ∷ rs) = elim (Bool-cases (mem r.tx_hash hs)) [
  | inl e ↦
      rw e (final_rows-rows_without hs rs ∙ sym (rows_without-other hs r.tx_hash (final_rows rs) e))
  | inr e ↦
      rw (e, final_rows-rows_without hs rs)
        (ap (◌∷◌ r) (
          keep_swap (λ q. not (str_eq q.tx_hash r.tx_hash)) (λ q. not (mem q.tx_hash hs))
            (final_rows rs)))
]

pub orphans-rows_without :
    (s : ℕ) (hs : List String) (ts : List Stored)
    → ((h : String) → is_orphaned h s ts ≡ true → mem h hs ≡ true)
    → orphans s (rows_without hs ts) ≡ []
orphans-rows_without s hs ts c =
    ap (past_slot s) (final_rows-rows_without hs ts) ∙ past_slot-rows_without s hs (final_rows ts) c

-- `FINAL` reads no row past the slot; the hashes whose row was past it are pending, and have no score
-- row.
abbrev pub Purged : {M : Type 0} → ℕ → World M → World M → Type 0
Purged s w w' =
    (orphans s w'.transactions ≡ [])
    × ((h : String)
        → (mem h w'.pending_score_repurges
            ≡ (is_orphaned h s w.transactions || mem h w.pending_score_repurges))
          × (mem h w'.tx_class_scores
              ≡ (mem h w.tx_class_scores && not (is_orphaned h s w.transactions))))

module _ {M : Type 0} where
  all_deleted-Purged :
      (env : Env) (s : ℕ) (w : World M) (hs : List String)
      → ((h : String) → mem h hs ≡ is_orphaned h s w.transactions)
      → Post
          (Purged s w)
          (λ _. Unit)
          (and_then (delete_tables all_tables hs w) (after_purge env hs))
  unfolding delete_tables after_purge
  all_deleted-Purged env s w hs e = elim (Bool-cases env.pending_up) [
    | inr q ↦ rw q tt
    | inl p ↦ elim (Bool-cases env.clustering_up) [
      | inr q ↦ rw (p, q) tt
      | inl q ↦
          rw (p, q)
            (
              orphans-rows_without s hs w.transactions (λ h o. ground (arith, e h)),
              λ h. (
                ground (arith, e h, mem-add_pending h hs w.pending_score_repurges),
                ground (arith, e h, mem-without h hs w.tx_class_scores),
              ),
            )
    ]
  ]

  deleted-Purged :
      (env : Env) (s : ℕ) (w : World M) (how : Reached) (hs : List String)
      → ((h : String) → mem h hs ≡ is_orphaned h s w.transactions)
      → Post (Purged s w) (λ _. Unit) (and_then (delete_tables how hs w) (after_purge env hs))
  unfolding delete_tables
  deleted-Purged env s w before_scores hs e = tt
  deleted-Purged env s w before_transactions hs e = tt
  deleted-Purged env s w all_tables hs e = all_deleted-Purged env s w hs e

  purge_hashes-Purged :
      (env : Env) (s : ℕ) (w : World M) (hs : List String)
      → orphans s w.transactions ≡ hs
      → Post (Purged s w) (λ _. Unit) (purge_hashes env hs w)
  unfolding purge_hashes
  purge_hashes-Purged env s w [] e = (
    e,
    λ h.
        let o : is_orphaned h s w.transactions ≡ false =
          sym (rw e at (mem-orphans h s w.transactions)) in
        (ground arith, ground arith),
  )
  purge_hashes-Purged env s w (h ∷ hs) e =
      deleted-Purged env s w env.purge (h ∷ hs) (λ k. rw e at (mem-orphans k s w.transactions))

  clean_up-Purged :
      (env : Env) (s : ℕ) (w : World M)
      → env.rollback_cleanup_enabled ≡ true
      → Post (Purged s w) (λ _. Unit) (clean_up env s w)
  unfolding clean_up purge_warehouse
  clean_up-Purged env s w on = simp on (purge_hashes-Purged env s w (orphans s w.transactions) refl)

module _ {M : Type 0} (monitor : MempoolMonitor M) where
  checkpoint_rollback-Purged :
      (env : Env) (p : Point) (w w' : World M)
      → Purged p.slot w w'
      → Post (Purged p.slot w) (λ _. Unit) (checkpoint_rollback monitor env p w')
  unfolding save_sync_point
  checkpoint_rollback-Purged env p w w' h = elim (Bool-cases (str_eq p.id "")) [
    | inl e ↦ rw e h
    | inr e ↦ elim (Bool-cases env.checkpoint_up) [ inl u ↦ rw (e, u) h | inr u ↦ rw (e, u) tt ]
  ]

  roll_back_to-Purged :
      (env : Env) (p : Point) (w : World M)
      → env.rollback_cleanup_enabled ≡ true
      → Post (Purged p.slot w) (λ _. Unit) (roll_back_to monitor env p w)
  unfolding roll_back_to
  roll_back_to-Purged env p w on =
      and_then-Post (Purged p.slot w) (Purged p.slot w) (λ _. Unit) (λ _. Unit) _ _
        (clean_up-Purged env p.slot (mark env p.slot w) on) (λ v r. tt)
        (λ v g.
          and_then-Post (Purged p.slot w) (Purged p.slot w) (λ _. Unit) (λ _. Unit) _ _
            (checkpoint_rollback-Purged env p w v g) (λ u r. tt) (λ u k. k))

  -- After a rollback to a point that ends well, with the clean-up on: no current row of the warehouse
  -- is past the point's slot, what was pending is pending, each hash whose current row was past it is
  -- pending too, and these hashes, no others, lost their score rows.
  pub rollback-Purged :
      (env : Env) (r : Rollback) (p : Point) (w : World M)
      → r.point ≡ some p
      → env.rollback_cleanup_enabled ≡ true
      → Post (Purged p.slot w) (λ _. Unit) (handle_roll_backward monitor env r w)
  unfolding handle_roll_backward roll_backward_at
  rollback-Purged env r p w pointed on =
      let w' : World M = record w { tip_slot = tip_of r.tip_slot w.tip_slot } in
      let e : roll_backward_at monitor env r.point w' ≡ roll_back_to monitor env p w' =
        ap (λ o. roll_backward_at monitor env o w') pointed in
      rw e (roll_back_to-Purged env p w' on)
