-- ===== src/Prelude/Assoc.antt =====
-- Tables keyed by text, as association lists: Python dicts and the rows of a keyed table.
use mathlib.Core.Option
use transaction_monitoring_s.Prelude.Tests.{if◌then◌else◌}
use mathlib.Core.Path.{◌≡◌, refl}
use mathlib.Core.Bool.{Bool}
use mathlib.Core.Option.{Option, none, some}
use mathlib.Core.List.{List, [], ◌∷◌}
use Prim.Native.Nat.{ℕ, suc}
use Prim.Native.String.{String}
use native.Mathlib.Omega.{arith}
use text.Mathlib.Text.{◌==◌}
use text.Mathlib.TextEquality.{eq_iff}

abbrev pub Assoc {ℓ} : Type ℓ → Type ℓ
Assoc V = List (String × V)

module _ {ℓ} {V : Type ℓ} where
  -- `d[key] = new`: in place if the key is there, at the end if not.
  unfoldable pub insert : String → V → Assoc V → Assoc V
  insert key new [] = (key, new) ∷ []
  insert key new ((k, old) ∷ rows) =
      let rest = insert key new rows in if k == key then (key, new) ∷ rows else (k, old) ∷ rest

  -- `d.get(key)`
  unfoldable pub lookup : String → Assoc V → Option V
  lookup key [] = none
  lookup key ((k, row) ∷ rows) = let rest = lookup key rows in if k == key then some row else rest

  pub lookup-insert :
      (set get : String) (new : V) (rows : Assoc V)
      → lookup get (insert set new rows) ≡ (if set == get then some new else lookup get rows)
  unfolding insert lookup
  lookup-insert set get new [] = refl
  lookup-insert set get new ((k, old) ∷ rows) =
      let rest = lookup-insert set get new rows in
      ground (arith, rest, eq_iff k set, eq_iff k get, eq_iff set get)

  -- `UPDATE … SET row = f(row)` on every row.
  unfoldable pub map_rows : (V → V) → Assoc V → Assoc V
  map_rows f [] = []
  map_rows f ((j, w) ∷ m) = (j, f w) ∷ map_rows f m

  pub lookup-map_rows :
      (f : V → V) (k : String) (m : Assoc V) → lookup k (map_rows f m) ≡ Option.map f (lookup k m)
  unfolding lookup map_rows
  lookup-map_rows f k [] = refl
  lookup-map_rows f k ((j, w) ∷ m) = ground (arith, lookup-map_rows f k m)

  -- No key twice.
  abbrev pub Distinct : Assoc V → Type ℓ
  Distinct [] = Unit
  Distinct ((k, v) ∷ m) = (lookup k m ≡ none) × Distinct m

  pub insert-Distinct : (k : String) (v : V) (m : Assoc V) → Distinct m → Distinct (insert k v m)
  unfolding insert lookup
  insert-Distinct k v [] d = (refl, tt)
  insert-Distinct k v ((j, w) ∷ m) d =
      ground (arith, eq_iff j k, eq_iff k j, lookup-insert k j v m, insert-Distinct k v m d.1)

  -- `DELETE … WHERE p(row)`, and `del d[k]` for each key whose value is to go.
  unfoldable pub delete_rows : (V → Bool) → Assoc V → Assoc V
  delete_rows p [] = []
  delete_rows p ((j, w) ∷ m) = let rest = delete_rows p m in if p w then rest else (j, w) ∷ rest

  -- The row, unless it is one to delete.
  abbrev pub survive : (V → Bool) → Option V → Option V
  survive p none = none
  survive p (some w) = if p w then none else some w

  pub lookup-delete_rows :
      (p : V → Bool) (k : String) (m : Assoc V)
      → Distinct m
      → lookup k (delete_rows p m) ≡ survive p (lookup k m)
  unfolding lookup delete_rows
  lookup-delete_rows p k [] d = refl
  lookup-delete_rows p k ((j, w) ∷ m) d = ground (arith, eq_iff j k, lookup-delete_rows p k m d.1)

  pub delete_rows-Distinct : (p : V → Bool) (m : Assoc V) → Distinct m → Distinct (delete_rows p m)
  unfolding delete_rows
  delete_rows-Distinct p [] d = tt
  delete_rows-Distinct p ((j, w) ∷ m) d =
      ground (arith, delete_rows-Distinct p m d.1, lookup-delete_rows p j m d.1)

  pub map_rows-Distinct : (f : V → V) (m : Assoc V) → Distinct m → Distinct (map_rows f m)
  unfolding map_rows
  map_rows-Distinct f [] d = tt
  map_rows-Distinct f ((j, w) ∷ m) d = (rw (lookup-map_rows f j m, d.0), map_rows-Distinct f m d.1)

  -- `d.pop(key, None)`
  unfoldable pub remove : String → Assoc V → Assoc V
  remove key [] = []
  remove key ((k, v) ∷ rows) =
      let rest = remove key rows in if k == key then rest else (k, v) ∷ rest

  pub lookup-remove :
      (key get : String) (rows : Assoc V)
      → lookup get (remove key rows) ≡ (if key == get then none else lookup get rows)
  unfolding remove lookup
  lookup-remove key get [] = ground arith
  lookup-remove key get ((k, v) ∷ rows) =
      let rest = lookup-remove key get rows in
      ground (arith, rest, eq_iff k key, eq_iff k get, eq_iff key get)

  pub remove-Distinct : (k : String) (m : Assoc V) → Distinct m → Distinct (remove k m)
  unfolding remove
  remove-Distinct k [] d = tt
  remove-Distinct k ((j, w) ∷ m) d =
      ground (arith, remove-Distinct k m d.1, lookup-remove k j m, d.0)

  -- `DELETE … WHERE p(key, row)`
  unfoldable pub delete_where : (String → V → Bool) → Assoc V → Assoc V
  delete_where p [] = []
  delete_where p ((k, v) ∷ rows) =
      let rest = delete_where p rows in if p k v then rest else (k, v) ∷ rest

  abbrev pub survive_at : (String → V → Bool) → String → Option V → Option V
  survive_at p k none = none
  survive_at p k (some v) = if p k v then none else some v

  pub lookup-delete_where :
      (p : String → V → Bool) (get : String) (rows : Assoc V)
      → Distinct rows
      → lookup get (delete_where p rows) ≡ survive_at p get (lookup get rows)
  unfolding lookup delete_where
  lookup-delete_where p get [] d = refl
  lookup-delete_where p get ((k, v) ∷ rows) d =
      ground (arith, eq_iff k get, lookup-delete_where p get rows d.1)

  pub delete_where-Distinct :
      (p : String → V → Bool) (m : Assoc V) → Distinct m → Distinct (delete_where p m)
  unfolding delete_where
  delete_where-Distinct p [] d = tt
  delete_where-Distinct p ((j, w) ∷ m) d =
      ground (arith, delete_where-Distinct p m d.1, lookup-delete_where p j m d.1)

  -- `SELECT count(*) … WHERE p(key, row)`
  unfoldable pub count_where : (String → V → Bool) → Assoc V → ℕ
  count_where p [] = 0
  count_where p ((k, v) ∷ rows) = let rest = count_where p rows in if p k v then suc rest else rest

  pub remove-absent : (k : String) (m : Assoc V) → lookup k m ≡ none → remove k m ≡ m
  unfolding remove lookup
  remove-absent k [] h = refl
  remove-absent k ((j, w) ∷ m) h = ground (arith, remove-absent k m, h)
