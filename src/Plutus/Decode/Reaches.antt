-- ===== src/Plutus/Decode/Reaches.antt =====
-- Which values of a datum an exception of the walk of backend/app/analysis/plutus_structure.py comes
-- from.
use transaction_monitoring_s.Prelude.{
  ℕ, zero, suc, ◌-◌, ◌≡◌, refl, Option, none, some, List, [], ◌∷◌, ◌==◌, inl, inr, ◌⊎◌, Bool-cases,
}
use transaction_monitoring_s.Prelude.Int.{ℤ}
use transaction_monitoring_s.Plutus.{
  DatumNode, map_entry, Nodes, Kind, Budget, Walked, walk, walk_each, walk_entries, node_then,
  key_then, entry_to, cons_to, node_to, build, Shape, leaf, branch, entries,
}
use transaction_monitoring_s.Plutus.Decode.{Encoding, decoded}

-- An exception has a cause.
abbrev pub Caused : {N : Type 0} → Type 0 → Option N → Type 0
Caused Q none = Q
Caused Q (some x) = Unit

module _ (Q : Type 0) where
  cons_to-Caused : (n : DatumNode) (r : Walked Nodes) → Caused Q r → Caused Q (cons_to n r)
  cons_to-Caused n none q = q
  cons_to-Caused n (some r) q = tt

  node_then-Caused :
      (r : Walked DatumNode) (rest : Budget → Walked Nodes)
      → Caused Q r
      → ((c : Budget) → Caused Q (rest c))
      → Caused Q (node_then r rest)
  node_then-Caused none rest q k = q
  node_then-Caused (some (n, c)) rest q k = cons_to-Caused n (rest c) (k c)

  entry_to-Caused :
      (key : DatumNode) (r : Walked DatumNode) (rest : Budget → Walked Nodes)
      → Caused Q r
      → ((c : Budget) → Caused Q (rest c))
      → Caused Q (entry_to key r rest)
  entry_to-Caused key none rest q k = q
  entry_to-Caused key (some (n, c)) rest q k = cons_to-Caused (map_entry key n) (rest c) (k c)

  key_then-Caused :
      (r : Walked DatumNode) (value : Budget → Walked DatumNode) (rest : Budget → Walked Nodes)
      → Caused Q r
      → ((c : Budget) → Caused Q (value c))
      → ((c : Budget) → Caused Q (rest c))
      → Caused Q (key_then r value rest)
  key_then-Caused none value rest q v k = q
  key_then-Caused (some (n, c)) value rest q v k = entry_to-Caused n (value c) rest (v c) k

  node_to-Caused :
      (kind : Kind) (index : Option ℤ) (r : Walked Nodes)
      → Caused Q r
      → Caused Q (node_to kind index r)
  node_to-Caused kind index none q = q
  node_to-Caused kind index (some (ns, c)) q = tt

  pub decoded-Caused :
      (encoding : Encoding) (w : Walked DatumNode) → Caused Q w → Caused Q (decoded encoding w)
  decoded-Caused encoding none q = q
  decoded-Caused encoding (some (n, b)) q = tt

pub Caused-map : {N P Q : Type 0} (o : Option N) → (P → Q) → Caused P o → Caused Q o
Caused-map none f q = f q
Caused-map (some x) f q = tt

-- One of the elements.
pub data In {A : Type 0} (y : A) : List A → Type 0 where
  first : {xs : List A} → In y (y ∷ xs)
  later : {x : A} {xs : List A} → In y xs → In y (x ∷ xs)

-- A value that is refused is the value itself or one of those that it leads to.
pub data Reaches {A : Type 0} (shape : A → Option (Shape A)) (Refused : A → Type 0)
    : A → Type 0 where
  here : {x : A} → Refused x → Reaches shape Refused x
  child :
      {x y : A} {kind : Kind} {index : Option ℤ} {xs : List A}
      → shape x ≡ some (branch kind index xs)
      → In y xs
      → Reaches shape Refused y
      → Reaches shape Refused x
  by_key :
      {x k v : A} {es : List (A × A)}
      → shape x ≡ some (entries es)
      → In (k, v) es
      → Reaches shape Refused k
      → Reaches shape Refused x
  by_value :
      {x k v : A} {es : List (A × A)}
      → shape x ≡ some (entries es)
      → In (k, v) es
      → Reaches shape Refused v
      → Reaches shape Refused x

module _ {A : Type 0} (R : A → Type 0) (f : A → Budget → Walked DatumNode)
    (ih : (x : A) (b : Budget) → Caused (R x) (f x b)) where
  -- One of the elements, or a part of one of the entries, is to blame.
  abbrev OneOf : List A → Type 0
  OneOf xs = (y : A) × In y xs × R y

  abbrev PartOf : List (A × A) → Type 0
  PartOf es = (k : A) × ((v : A) × In (k, v) es × (R k ⊎ R v))

  walk_each-Caused : (xs : List A) (b : Budget) → Caused (OneOf xs) (walk_each f xs b)
  unfolding walk_each
  walk_each-Caused [] b = tt
  walk_each-Caused (x ∷ xs) b =
      node_then-Caused (OneOf (x ∷ xs)) (f x b) (walk_each f xs)
        (Caused-map (f x b) (λ q. (x, first, q)) (ih x b))
        (λ c. Caused-map (walk_each f xs c) (λ (y, i, q). (y, later i, q)) (walk_each-Caused xs c))

  walk_entries-Caused : (es : List (A × A)) (b : Budget) → Caused (PartOf es) (walk_entries f es b)
  unfolding walk_entries
  walk_entries-Caused [] b = tt
  walk_entries-Caused ((k, v) ∷ es) b =
      key_then-Caused (PartOf ((k, v) ∷ es)) (f k b) (f v) (walk_entries f es)
        (Caused-map (f k b) (λ q. (k, (v, first, inl q))) (ih k b))
        (λ c. Caused-map (f v c) (λ q. (k, (v, first, inr q))) (ih v c))
        (λ c.
          Caused-map (walk_entries f es c) (λ (l, (w, i, q)). (l, (w, later i, q)))
            (walk_entries-Caused es c))

module _ {A : Type 0} (shape : A → Option (Shape A)) (Refused : A → Type 0)
    (cause : (x : A) → Caused (Refused x) (shape x)) where
  abbrev R : A → Type 0
  R = Reaches shape Refused

  build-Caused :
      (f : A → Budget → Walked DatumNode)
      → ((x : A) (b : Budget) → Caused (R x) (f x b))
      → (x : A) (s : Option (Shape A)) (b : Budget) → shape x ≡ s
      → Caused (Refused x) s
      → Caused (R x) (build f s b)
  unfolding build
  build-Caused f ih x none b e q = here q
  build-Caused f ih x (some (leaf kind value printed)) b e q = tt
  build-Caused f ih x (some (branch kind index xs)) b e q =
      node_to-Caused (R x) kind index (walk_each f xs b)
        (Caused-map (walk_each f xs b) (λ (y, i, c). child e i c) (walk_each-Caused R f ih xs b))
  build-Caused f ih x (some (entries es)) b e q =
      node_to-Caused (R x) Kind.map none (walk_entries f es b)
        (Caused-map (walk_entries f es b) (part x es e) (walk_entries-Caused R f ih es b))
    where
      part : (x : A) (es : List (A × A)) → shape x ≡ some (entries es) → PartOf R f ih es → R x
      part x es e (k, (v, i, inl c)) = by_key e i c
      part x es e (k, (v, i, inr c)) = by_value e i c

  pub walk-Caused : (d : ℕ) (x : A) (b : Budget) → Caused (R x) (walk shape d x b)
  unfolding walk
  walk-Caused zero x b = tt
  walk-Caused (suc d) x b = elim (Bool-cases (b.remaining == 0)) [
    | inl e ↦ rw e tt
    | inr e ↦ rw e (
        build-Caused (walk shape d) (walk-Caused d) x (shape x)
          (record b { remaining = b.remaining - 1 }) refl (cause x))
  ]
