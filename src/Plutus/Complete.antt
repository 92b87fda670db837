-- ===== src/Plutus/Complete.antt =====
-- The walk of backend/app/analysis/plutus_structure.py against the complete tree.
use transaction_monitoring_s.Prelude.{
  ℕ, zero, suc, ◌-◌, ◌≤◌, ◌≡◌, refl, false, Option, some, List, ◌==◌, ◌↔◌, arith, sym, ◌∙◌,
}
use transaction_monitoring_s.Plutus.{
  DatumNode, Nodes, Shape, Budget, walk_each, walk_entries, build, walk, new_budget,
}
use transaction_monitoring_s.Plutus.Rendering.{
  taken, taken_all, height, height_all, is_elided, Renders, as_leaf, as_branch, as_map, RendersAll,
  none_left, one_more, RendersEntries, no_entry, one_entry,
}
use transaction_monitoring_s.Plutus.Spent.{SpentOn, walk-Returns}

abbrev pay : ℕ → Budget → Budget
pay k b = record b { remaining = b.remaining - k }

module _ {A : Type 0} (shape : A → Option (Shape A)) where
  -- A tree that fits is what the walk returns.
  mutual
    unfolding walk build walk_each walk_entries taken height

    walk-full :
        (x : A) (n : DatumNode)
        → Renders shape x n
        → (depths : ℕ) (b : Budget) → height n ≤ depths
        → taken n ≤ b.remaining
        → walk shape depths x b ≡ some (n, pay (taken n) b)
    walk-full x n (as_leaf e) zero b h t = absurd (omega arith)
    walk-full x n (as_leaf e) (suc d) b h t = rw e (ground arith)
    walk-full x n (as_branch {ns} e r) zero b h t = absurd (omega arith)
    walk-full x n (as_branch {xs} {ns} e r) (suc d) b h t =
        let funded : (b.remaining == 0) ≡ false = ground arith in
        let parts = walk_each-full xs ns r d (pay 1 b) (omega arith) (omega arith) in
        rw (e, funded, parts) (ground arith)
    walk-full x n (as_map {ns} e r) zero b h t = absurd (omega arith)
    walk-full x n (as_map {es} {ns} e r) (suc d) b h t =
        let funded : (b.remaining == 0) ≡ false = ground arith in
        let parts = walk_entries-full es ns r d (pay 1 b) (omega arith) (omega arith) in
        rw (e, funded, parts) (ground arith)

    walk_each-full :
        (xs : List A) (ns : Nodes)
        → RendersAll shape xs ns
        → (depths : ℕ) (b : Budget) → height_all ns ≤ depths
        → taken_all ns ≤ b.remaining
        → walk_each (walk shape depths) xs b ≡ some (ns, pay (taken_all ns) b)
    walk_each-full xs ns none_left d b h t = ground arith
    walk_each-full xs ns (one_more {x} {xs = ys} {n} {ns = ms} r rs) d b h t =
        let first = walk-full x n r d b (omega arith) (omega arith) in
        let rest = walk_each-full ys ms rs d (pay (taken n) b) (omega arith) (omega arith) in
        rw (first, rest) (ground arith)

    walk_entries-full :
        (es : List (A × A)) (ns : Nodes)
        → RendersEntries shape es ns
        → (depths : ℕ) (b : Budget) → height_all ns ≤ depths
        → taken_all ns ≤ b.remaining
        → walk_entries (walk shape depths) es b ≡ some (ns, pay (taken_all ns) b)
    walk_entries-full es ns no_entry d b h t = ground arith
    walk_entries-full es ns (one_entry {k} {v} {es = fs} {key} {value} {ns = ms} r r' rs) d b h t =
        let first = walk-full k key r d b (omega arith) (omega arith) in
        let second = walk-full v value r' d (pay (taken key) b) (omega arith) (omega arith) in
        let rest =
          walk_entries-full fs ms rs d (pay (taken value) (pay (taken key) b)) (omega arith)
            (omega arith) in
        rw (first, second, rest) (ground arith)

  returned :
      (depths : ℕ) (x : A) (b b' : Budget) (n : DatumNode)
      → walk shape depths x b ≡ some (n, b')
      → SpentOn shape depths x b n b'
  returned depths x b b' n h = rw h at (walk-Returns shape depths x b)

  -- The walk answers with a tree and no sign of a limit exactly when that tree says all of the value
  -- and is within both limits.
  pub walk_iff :
      (depths max_nodes : ℕ) (x : A) (n : DatumNode)
      → ((b : Budget) × (walk shape depths x (new_budget max_nodes) ≡ some (n, b))
          × (b.hit ≡ false))
        ↔ (Renders shape x n × (taken n ≤ max_nodes) × (height n ≤ depths))
  walk_iff depths max_nodes x n = (
    λ (b, h, clear).
        let (s, full) = returned depths x (new_budget max_nodes) b n h in
        (full (sym s.flagged ∙ clear), omega (arith, s.paid), s.bounded),
    λ (r, t, h). (pay (taken n) (new_budget max_nodes), walk-full x n r depths _ h t, refl),
  )

  -- Every tree is within the limits, and the sign is there exactly when something is left out.
  pub walk_bounds :
      (depths max_nodes : ℕ) (x : A) (n : DatumNode) (b : Budget)
      → walk shape depths x (new_budget max_nodes) ≡ some (n, b)
      → (taken n ≤ max_nodes) × (height n ≤ depths) × (b.hit ≡ is_elided n)
  walk_bounds depths max_nodes x n b h =
      let (s, full) = returned depths x (new_budget max_nodes) b n h in
      (omega (arith, s.paid), s.bounded, s.flagged)
