-- ===== src/Plutus/Shapes.antt =====
-- The branches of `_walk_cbor` and `_walk_plutus_json` of
-- backend/app/analysis/plutus_structure.py: what a value shows, and which values it leads to.
-- Python's texts of numbers and bytes are a parameter.
use transaction_monitoring_s.Prelude.{
  ℕ, ◌+◌, ◌-◌, Bool, true, false, Option, none, some, List, [], ◌∷◌, String, leb, str_eq, ◌==◌,
  ◌&&◌, ◌||◌, not, if◌then◌else◌,
}
use transaction_monitoring_s.Prelude.Int.{ℤ, pos}
use transaction_monitoring_s.Plutus.{
  constructor, list, bytes, int, text, unknown, Shape, leaf, branch, entries,
}

-- A value of `cbor2.loads`; `other` holds the `str` of any other object,
-- `none` where that raises.
mutual
  pub data Cbor : Type 0 where
    tag : ℕ → Cbor → Cbor
    boolean : Bool → Cbor
    number : ℤ → Cbor
    byte_string : List ℕ → Cbor
    chars : String → Cbor
    array : Items → Cbor
    mapping : Pairs → Cbor
    null : Cbor
    other : Option String → Cbor

  pub data Items : Type 0 where
    end : Items
    item : Cbor → Items → Items

  pub data Pairs : Type 0 where
    last : Pairs
    pair : Cbor → Cbor → Pairs → Pairs

-- A value of the JSON of Ogmios; a number that is no integer is a `float`.
mutual
  pub data Json : Type 0 where
    null : Json
    boolean : Bool → Json
    number : ℤ → Json
    float : Json
    chars : String → Json
    array : Elements → Json
    object : Fields → Json

  pub data Elements : Type 0 where
    end : Elements
    item : Json → Elements → Elements

  pub data Fields : Type 0 where
    last : Fields
    field : String → Json → Fields → Fields

abbrev pub items : Items → List Cbor
items Items.end = []
items (Items.item x xs) = x ∷ items xs

abbrev pub pairs : Pairs → List (Cbor × Cbor)
pairs Pairs.last = []
pairs (Pairs.pair k v es) = (k, v) ∷ pairs es

abbrev pub elements : Elements → List Json
elements Elements.end = []
elements (Elements.item x xs) = x ∷ elements xs

-- `node.values()`
abbrev pub values : Fields → List Json
values Fields.last = []
values (Fields.field k v fs) = v ∷ values fs

-- `key in node`
unfoldable pub has : String → Fields → Bool
has key Fields.last = false
has key (Fields.field k v fs) = str_eq k key || has key fs

-- `node.get(key)`
unfoldable pub get : String → Fields → Json
get key Fields.last = Json.null
get key (Fields.field k v fs) = let rest = get key fs in if str_eq k key then v else rest

-- What Python's `int.__str__` (which refuses an integer of too many digits), `bytes.hex`,
-- `bytes.fromhex`, `bytes.decode` and `str.isprintable` answer; `none` is an exception.
pub record Python : Type 0 where
  pub str_of_int : ℤ → Option String
  pub hex : List ℕ → String
  pub from_hex : String → Option (List ℕ)
  pub decode : List ℕ → Option String
  pub is_printable : String → Bool

-- `str` of a bool.
abbrev pub str_of_bool : Bool → String
str_of_bool true = "True"
str_of_bool false = "False"

unfoldable pub constructor_from_tag : ℕ → Option ℕ
constructor_from_tag n =
    if leb 121 n && leb n 127
    then some (n - 121)
    else if leb 1280 n && leb n 1400
    then some (n - 1280 + (127 - 121 + 1))
    else none

-- `fields if isinstance(fields, list | tuple) else [fields]`
abbrev pub listed : Cbor → List Cbor
listed (Cbor.array xs) = items xs
listed x = x ∷ []

-- `index if isinstance(index, int) else None`, and a bool is an int.
abbrev pub index_of : Cbor → Option ℤ
index_of (Cbor.number z) = some z
index_of (Cbor.boolean true) = some (pos 1)
index_of (Cbor.boolean false) = some (pos 0)
index_of x = none

-- The general form holds an index and the fields; another payload is shown as it is.
abbrev pub general_items : Items → Shape Cbor
general_items (Items.item index (Items.item fields Items.end)) =
    branch constructor (index_of index) (listed fields)
general_items xs = branch unknown none (Cbor.array xs ∷ [])

abbrev pub general : Cbor → Shape Cbor
general (Cbor.array xs) = general_items xs
general x = branch unknown none (x ∷ [])

abbrev pub shape_tag : ℕ → Option ℕ → Cbor → Shape Cbor
shape_tag n (some index) x = branch constructor (some (pos index)) (listed x)
shape_tag n none x = if n == 102 then general x else branch unknown none (x ∷ [])

abbrev pub json_index : Json → Option ℤ
json_index (Json.number z) = some z
json_index (Json.boolean true) = some (pos 1)
json_index (Json.boolean false) = some (pos 0)
json_index x = none

abbrev pub list_or_empty : Json → List Json
list_or_empty (Json.array xs) = elements xs
list_or_empty x = []

-- The entries of a `map` that are objects.
unfoldable pub map_entries : List Json → List (Json × Json)
map_entries [] = []
map_entries (Json.object fs ∷ es) = (get "k" fs, get "v" fs) ∷ map_entries es
map_entries (x ∷ es) = map_entries es

module _ {R : Type 0} where
  abbrev pub if_array : Json → (List Json → R) → R → R
  if_array (Json.array xs) f otherwise = f (elements xs)
  if_array x f otherwise = otherwise

  abbrev pub if_chars : Json → (String → R) → R → R
  if_chars (Json.chars s) f otherwise = f s
  if_chars x f otherwise = otherwise

  -- An int that is no bool.
  abbrev pub if_number : Json → (ℤ → R) → R → R
  if_number (Json.number z) f otherwise = f z
  if_number x f otherwise = otherwise

module _ (py : Python) where
  abbrev pub shown : Option String → Option String
  shown none = none
  shown (some s) = if str_eq s "" || not (py.is_printable s) then none else some s

  unfoldable pub printable_text : List ℕ → Option String
  printable_text blob = shown (py.decode blob)

  module _ {A : Type 0} where
    abbrev pub int_leaf_of : Option String → Option (Shape A)
    int_leaf_of none = none
    int_leaf_of (some s) = some (leaf int (some s) none)

    abbrev pub other_leaf : Option String → Option (Shape A)
    other_leaf none = none
    other_leaf (some s) = some (leaf unknown (some s) none)

    abbrev pub int_leaf : ℤ → Option (Shape A)
    int_leaf z = int_leaf_of (py.str_of_int z)

    abbrev pub bytes_leaf : List ℕ → Shape A
    bytes_leaf blob = leaf bytes (some (py.hex blob)) (printable_text blob)

  -- The branches of `_walk_cbor`.
  unfoldable pub shape_cbor : Cbor → Option (Shape Cbor)
  shape_cbor (Cbor.tag n x) = some (shape_tag n (constructor_from_tag n) x)
  shape_cbor (Cbor.boolean b) = some (leaf unknown (some (str_of_bool b)) none)
  shape_cbor (Cbor.number z) = int_leaf z
  shape_cbor (Cbor.byte_string blob) = some (bytes_leaf blob)
  shape_cbor (Cbor.chars s) = some (leaf text (some s) none)
  shape_cbor (Cbor.array xs) = some (branch list none (items xs))
  shape_cbor (Cbor.mapping es) = some (entries (pairs es))
  shape_cbor Cbor.null = some (leaf unknown none none)
  shape_cbor (Cbor.other s) = other_leaf s

  -- A text that is no hex is shown as it is.
  abbrev pub hex_leaf : String → Option (List ℕ) → Shape Json
  hex_leaf raw_hex none = leaf bytes (some raw_hex) none
  hex_leaf raw_hex (some blob) = bytes_leaf blob

  unfoldable pub shape_object : Fields → Option (Shape Json)
  shape_object fs =
      if has "constructor" fs
      then some
          (branch constructor (json_index (get "constructor" fs)) (list_or_empty (get "fields" fs)))
      else if_array (get "list" fs) (λ xs. some (branch list none xs))
          (if_array (get "map" fs) (λ xs. some (entries (map_entries xs)))
            (if_chars (get "bytes" fs) (λ s. some (hex_leaf s (py.from_hex s)))
              (if_number (get "int" fs) int_leaf (
                if_number (get "integer" fs) int_leaf (
                  if_chars (get "string" fs) (λ s. some (leaf text (some s) none))
                    (some (branch unknown none (values fs))))))))

  -- The branches of `_walk_plutus_json`.
  unfoldable pub shape_json : Json → Option (Shape Json)
  shape_json (Json.array xs) = some (branch list none (elements xs))
  shape_json (Json.boolean b) = some (leaf unknown (some (str_of_bool b)) none)
  shape_json (Json.number z) = int_leaf z
  shape_json (Json.chars s) = some (leaf text (some s) none)
  shape_json (Json.object fs) = shape_object fs
  shape_json x = some (leaf unknown none none)
