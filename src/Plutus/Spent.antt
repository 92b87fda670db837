-- ===== src/Plutus/Spent.antt =====
-- What the walk of backend/app/analysis/plutus_structure.py has spent when it returns.
use transaction_monitoring_s.Prelude.Int.{ℤ}
use transaction_monitoring_s.Prelude.{
  ℕ, zero, suc, ◌+◌, ◌-◌, ◌≤◌, ◌≡◌, refl, Bool, false, ◌||◌, Option, none, some, List, [], ◌∷◌,
  ◌==◌, Bool-cases, inl, inr, arith,
}
use transaction_monitoring_s.Plutus.{
  Kind, DatumNode, node, map_entry, Nodes, Shape, leaf, branch, entries, Budget, Walked, walk_each,
  walk_entries, build, walk, entry_to, cons_to, node_to, node_then, key_then,
}
use transaction_monitoring_s.Plutus.Rendering.{
  taken, taken_all, height, height_all, is_elided, any_elided, Renders, as_leaf, as_branch, as_map,
  RendersAll, none_left, one_more, RendersEntries, no_entry, one_entry,
}

-- What a walk has taken, and when the tree has all of its value: `T` nodes of height `H`.
pub record Spent (T H depths : ℕ) (left_out : Bool) (before rest : Budget) : Type 0 where
  pub paid : T + rest.remaining ≡ before.remaining
  pub flagged : rest.hit ≡ (before.hit || left_out)
  pub bounded : H ≤ depths

-- What is known of a walk that no exception has left.
abbrev pub Returns : {N : Type 0} → (N → Budget → Type 0) → Walked N → Type 0
Returns P none = Unit
Returns P (some (n, b)) = P n b

module _ {A : Type 0} (shape : A → Option (Shape A)) (depths : ℕ) where
  abbrev pub SpentOn : A → Budget → DatumNode → Budget → Type 0
  SpentOn x b n b' =
      Spent (taken n) (height n) depths (is_elided n) b b'
      × (is_elided n ≡ false → Renders shape x n)

  abbrev SpentOnAll : List A → Budget → Nodes → Budget → Type 0
  SpentOnAll xs b ns b' =
      Spent (taken_all ns) (height_all ns) depths (any_elided ns) b b'
      × (any_elided ns ≡ false → RendersAll shape xs ns)

  abbrev SpentOnEntries : List (A × A) → Budget → Nodes → Budget → Type 0
  SpentOnEntries es b ns b' =
      Spent (taken_all ns) (height_all ns) depths (any_elided ns) b b'
      × (any_elided ns ≡ false → RendersEntries shape es ns)

  cons_to-Returns :
      (x : A) (xs : List A) (b b' : Budget) (n : DatumNode) (r : Walked Nodes)
      → SpentOn x b n b'
      → Returns (SpentOnAll xs b') r
      → Returns (SpentOnAll (x ∷ xs) b) (cons_to n r)
  unfolding taken height is_elided
  cons_to-Returns x xs b b' n none h k = tt
  cons_to-Returns x xs b b' n (some (ns, c)) (h, full) (k, fulls) = (
    record {
      paid = omega (arith, h.paid, k.paid);
      flagged = ground (arith, h.flagged, k.flagged);
      bounded = omega (arith, h.bounded, k.bounded);
    },
    λ e. one_more (full (ground arith)) (fulls (ground arith)),
  )

  entry_to-Returns :
      (k v : A) (es : List (A × A)) (b b' c : Budget) (key value : DatumNode) (r : Walked Nodes)
      → SpentOn k b key b'
      → SpentOn v b' value c
      → Returns (SpentOnEntries es c) r
      → Returns (SpentOnEntries ((k, v) ∷ es) b) (cons_to (map_entry key value) r)
  unfolding taken height is_elided
  entry_to-Returns k v es b b' c key value none h g f = tt
  entry_to-Returns k v es b b' c key value (some (ns, d)) (h, full) (g, full') (f, fulls) = (
    record {
      paid = omega (arith, h.paid, g.paid, f.paid);
      flagged = ground (arith, h.flagged, g.flagged, f.flagged);
      bounded = omega (arith, h.bounded, g.bounded, f.bounded);
    },
    λ e. one_entry (full (ground arith)) (full' (ground arith)) (fulls (ground arith)),
  )

  node_then-Returns :
      (x : A) (xs : List A) (b : Budget) (r : Walked DatumNode) (rest : Budget → Walked Nodes)
      → Returns (SpentOn x b) r
      → ((c : Budget) → Returns (SpentOnAll xs c) (rest c))
      → Returns (SpentOnAll (x ∷ xs) b) (node_then r rest)
  node_then-Returns x xs b none rest h k = tt
  node_then-Returns x xs b (some (n, c)) rest h k = cons_to-Returns x xs b c n (rest c) h (k c)

  value_then-Returns :
      (k v : A) (es : List (A × A)) (b b' : Budget) (key : DatumNode) (r : Walked DatumNode)
      (rest : Budget → Walked Nodes)
      → SpentOn k b key b'
      → Returns (SpentOn v b') r
      → ((c : Budget) → Returns (SpentOnEntries es c) (rest c))
      → Returns (SpentOnEntries ((k, v) ∷ es) b) (entry_to key r rest)
  value_then-Returns k v es b b' key none rest h g f = tt
  value_then-Returns k v es b b' key (some (value, c)) rest h g f =
      entry_to-Returns k v es b b' c key value (rest c) h g (f c)

  key_then-Returns :
      (k v : A) (es : List (A × A)) (b : Budget) (r : Walked DatumNode)
      (value : Budget → Walked DatumNode) (rest : Budget → Walked Nodes)
      → Returns (SpentOn k b) r
      → ((c : Budget) → Returns (SpentOn v c) (value c))
      → ((c : Budget) → Returns (SpentOnEntries es c) (rest c))
      → Returns (SpentOnEntries ((k, v) ∷ es) b) (key_then r value rest)
  key_then-Returns k v es b none value rest h g f = tt
  key_then-Returns k v es b (some (key, c)) value rest h g f =
      value_then-Returns k v es b c key (value c) rest h (g c) f

  nothing-Spent : (b : Budget) → Spent 0 0 depths false b b
  nothing-Spent b = record { paid = omega arith; flagged = ground arith; bounded = omega arith }

  module _ (f : A → Budget → Walked DatumNode)
      (ih : (x : A) (b : Budget) → Returns (SpentOn x b) (f x b)) where
    walk_each-Returns : (xs : List A) (b : Budget) → Returns (SpentOnAll xs b) (walk_each f xs b)
    unfolding walk_each taken height is_elided
    walk_each-Returns [] b = (nothing-Spent b, λ e. none_left)
    walk_each-Returns (x ∷ xs) b =
        node_then-Returns x xs b (f x b) (walk_each f xs) (ih x b) (walk_each-Returns xs)

    walk_entries-Returns :
        (es : List (A × A)) (b : Budget) → Returns (SpentOnEntries es b) (walk_entries f es b)
    unfolding walk_entries taken height is_elided
    walk_entries-Returns [] b = (nothing-Spent b, λ e. no_entry)
    walk_entries-Returns ((k, v) ∷ es) b =
        key_then-Returns k v es b (f k b) (f v) (walk_entries f es) (ih k b) (ih v)
          (walk_entries-Returns es)

module _ {A : Type 0} (shape : A → Option (Shape A)) (depths : ℕ) (x : A) (b : Budget)
    (funded : (b.remaining == 0) ≡ false) where
  abbrev less : Budget
  less = record b { remaining = b.remaining - 1 }

  -- A node over the parts of its value.
  node_to-Returns :
      (kind : Kind) (index : Option ℤ) (r : Walked Nodes) (Parts : Nodes → Type 0)
      → Returns
          (λ ns c.
            Spent (taken_all ns) (height_all ns) depths (any_elided ns) less c
            × (any_elided ns ≡ false → Parts ns))
          r
      → ((ns : Nodes) → Parts ns → Renders shape x (node kind index none none ns))
      → Returns (SpentOn shape (suc depths) x b) (node_to kind index r)
  unfolding taken height is_elided
  node_to-Returns kind index none Parts h f = tt
  node_to-Returns kind index (some (ns, c)) Parts (h, full) f = (
    record {
      paid = ground (arith, h.paid, funded);
      flagged = h.flagged;
      bounded = omega (arith, h.bounded);
    },
    λ e. f ns (full e),
  )

  build-Returns :
      (f : A → Budget → Walked DatumNode)
      → ((y : A) (c : Budget) → Returns (SpentOn shape depths y c) (f y c))
      → (s : Option (Shape A)) → shape x ≡ s
      → Returns (SpentOn shape (suc depths) x b) (build f s less)
  unfolding build taken height is_elided
  build-Returns f ih none e = tt
  build-Returns f ih (some (leaf kind value printed)) e = (
    record { paid = ground (arith, funded); flagged = ground arith; bounded = omega arith },
    λ h. as_leaf e,
  )
  build-Returns f ih (some (branch kind index xs)) e =
      node_to-Returns kind index (walk_each f xs less) (RendersAll shape xs)
        (walk_each-Returns shape depths f ih xs less) (λ ns r. as_branch e r)
  build-Returns f ih (some (entries es)) e =
      node_to-Returns Kind.map none (walk_entries f es less) (RendersEntries shape es)
        (walk_entries-Returns shape depths f ih es less) (λ ns r. as_map e r)

module _ {A : Type 0} (shape : A → Option (Shape A)) where
  pub walk-Returns :
      (depths : ℕ) (x : A) (b : Budget) → Returns (SpentOn shape depths x b) (walk shape depths x b)
  unfolding walk taken height is_elided
  walk-Returns zero x b =
      (record { paid = omega arith; flagged = ground arith; bounded = omega arith }, λ e. cc)
  walk-Returns (suc depths) x b = elim (Bool-cases (b.remaining == 0)) [
    | inl e ↦
        rw e (record { paid = omega arith; flagged = ground arith; bounded = omega arith }, λ h. cc)
    | inr e ↦
        rw e (
          build-Returns shape depths x b e (walk shape depths) (walk-Returns depths) (shape x) refl)
  ]
