-- ===== src/Plutus.antt =====
-- The bounded walk of backend/app/analysis/plutus_structure.py. What a value of one of the two
-- representations shows of itself is its shape, of Plutus/Shapes.antt; the walk over either is this.
pub mod Rendering
pub mod Spent
pub mod Complete
pub mod Shapes
pub mod Decode
use transaction_monitoring_s.Prelude.{
  ℕ, zero, suc, ◌-◌, Bool, true, false, Option, none, some, List, [], ◌∷◌, String, ◌==◌,
  if◌then◌else◌,
}
use transaction_monitoring_s.Prelude.Int.{ℤ}

-- The kinds of a node that stands for a value.
pub data Kind : Type 0 where
  constructor list map bytes int text unknown : Kind

-- A `DatumNode`: a value with its constructor index, scalar and text; an entry of a map; what is
-- shown in place of a subtree that the walk has left out.
mutual
  pub data DatumNode : Type 0 where
    node : Kind → Option ℤ → Option String → Option String → Nodes → DatumNode
    map_entry : DatumNode → DatumNode → DatumNode
    truncated : DatumNode

  pub data Nodes : Type 0 where
    nil : Nodes
    cons : DatumNode → Nodes → Nodes

-- One branch of the walk: a leaf, a node over the values to walk next, or a map.
pub data Shape (A : Type 0) : Type 0 where
  leaf : Kind → Option String → Option String → Shape A
  branch : Kind → Option ℤ → List A → Shape A
  entries : List (A × A) → Shape A

pub record Budget : Type 0 where
  pub remaining : ℕ
  pub hit : Bool

abbrev pub new_budget : ℕ → Budget
new_budget max_nodes = record { remaining = max_nodes; hit = false }

-- A node of the walk, `none` if an exception leaves it.
abbrev pub Walked : Type 0 → Type 0
Walked N = Option (N × Budget)

abbrev pub cons_to : DatumNode → Walked Nodes → Walked Nodes
cons_to n none = none
cons_to n (some (ns, budget)) = some (cons n ns, budget)

abbrev pub entry_to : DatumNode → Walked DatumNode → (Budget → Walked Nodes) → Walked Nodes
entry_to key none rest = none
entry_to key (some (value, budget)) rest = cons_to (map_entry key value) (rest budget)

abbrev pub node_then : Walked DatumNode → (Budget → Walked Nodes) → Walked Nodes
node_then none rest = none
node_then (some (n, budget)) rest = cons_to n (rest budget)

abbrev pub key_then :
    Walked DatumNode → (Budget → Walked DatumNode) → (Budget → Walked Nodes) → Walked Nodes
key_then none value rest = none
key_then (some (key, budget)) value rest = entry_to key (value budget) rest

abbrev pub node_to : Kind → Option ℤ → Walked Nodes → Walked DatumNode
node_to kind index none = none
node_to kind index (some (ns, budget)) = some (node kind index none none ns, budget)

module _ {A : Type 0} (walk : A → Budget → Walked DatumNode) where
  -- `[walk(x, …) for x in xs]`
  unfoldable pub walk_each : List A → Budget → Walked Nodes
  walk_each [] budget = some (nil, budget)
  walk_each (x ∷ xs) budget = node_then (walk x budget) (walk_each xs)

  -- The entries of a map, key before value.
  unfoldable pub walk_entries : List (A × A) → Budget → Walked Nodes
  walk_entries [] budget = some (nil, budget)
  walk_entries ((k, v) ∷ es) budget = key_then (walk k budget) (walk v) (walk_entries es)

  unfoldable pub build : Option (Shape A) → Budget → Walked DatumNode
  build none budget = none
  build (some (leaf kind value printed)) budget = some (node kind none value printed nil, budget)
  build (some (branch kind index xs)) budget = node_to kind index (walk_each xs budget)
  build (some (entries es)) budget = node_to map none (walk_entries es budget)

-- `MAX_WALK_DEPTH`; the depths 0 to 64 are walked.
abbrev pub max_walk_depth : ℕ
max_walk_depth = 64

abbrev pub elided : Budget → Walked DatumNode
elided budget = some (truncated, record budget { hit = true })

module _ {A : Type 0} (shape : A → Option (Shape A)) where
  -- `_walk_cbor` and `_walk_plutus_json`, by the depths that are left: 65 at the root.
  unfoldable pub walk : ℕ → A → Budget → Walked DatumNode
  walk zero x budget = elided budget
  walk (suc depths) x budget =
      if budget.remaining == 0
      then elided budget
      else build (walk depths) (shape x) (record budget { remaining = budget.remaining - 1 })
