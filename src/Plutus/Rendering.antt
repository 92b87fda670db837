-- ===== src/Plutus/Rendering.antt =====
-- What a complete tree of backend/app/analysis/plutus_structure.py is, without depth or budget.
use transaction_monitoring_s.Prelude.{
  ℕ, suc, ◌+◌, max, ◌≡◌, List, [], ◌∷◌, Option, none, some, String, Bool, true, false, ◌||◌,
}
use transaction_monitoring_s.Prelude.Int.{ℤ}
use transaction_monitoring_s.Plutus.{
  Kind, DatumNode, node, map_entry, truncated, Nodes, nil, cons, Shape, leaf, branch, entries,
}

-- The values that the walk takes from its budget: an entry of a map is free.
unfoldable mutual
  pub taken : DatumNode → ℕ
  taken (node kind index value printed ns) = suc (taken_all ns)
  taken (map_entry k v) = taken k + taken v
  taken truncated = 0

  pub taken_all : Nodes → ℕ
  taken_all nil = 0
  taken_all (cons n ns) = taken n + taken_all ns

-- The levels of values.
unfoldable mutual
  pub height : DatumNode → ℕ
  height (node kind index value printed ns) = suc (height_all ns)
  height (map_entry k v) = max (height k) (height v)
  height truncated = 0

  pub height_all : Nodes → ℕ
  height_all nil = 0
  height_all (cons n ns) = max (height n) (height_all ns)

-- Whether something was left out.
unfoldable mutual
  pub is_elided : DatumNode → Bool
  is_elided (node kind index value printed ns) = any_elided ns
  is_elided (map_entry k v) = is_elided k || is_elided v
  is_elided truncated = true

  pub any_elided : Nodes → Bool
  any_elided nil = false
  any_elided (cons n ns) = is_elided n || any_elided ns

module _ {A : Type 0} (shape : A → Option (Shape A)) where
  -- The tree says of the value, and of each below it, what that shows of itself.
  mutual
    pub data Renders : A → DatumNode → Type 0 where
      as_leaf :
          {x : A} {kind : Kind} {value printed : Option String}
          → shape x ≡ some (leaf kind value printed)
          → Renders x (node kind none value printed nil)
      as_branch :
          {x : A} {kind : Kind} {index : Option ℤ} {xs : List A} {ns : Nodes}
          → shape x ≡ some (branch kind index xs)
          → RendersAll xs ns
          → Renders x (node kind index none none ns)
      as_map :
          {x : A} {es : List (A × A)} {ns : Nodes}
          → shape x ≡ some (entries es)
          → RendersEntries es ns
          → Renders x (node Kind.map none none none ns)

    pub data RendersAll : List A → Nodes → Type 0 where
      none_left : RendersAll [] nil
      one_more :
          {x : A} {xs : List A} {n : DatumNode} {ns : Nodes}
          → Renders x n
          → RendersAll xs ns
          → RendersAll (x ∷ xs) (cons n ns)

    pub data RendersEntries : List (A × A) → Nodes → Type 0 where
      no_entry : RendersEntries [] nil
      one_entry :
          {k v : A} {es : List (A × A)} {key value : DatumNode} {ns : Nodes}
          → Renders k key
          → Renders v value
          → RendersEntries es ns
          → RendersEntries ((k, v) ∷ es) (cons (map_entry key value) ns)
