-- ===== src/Plutus/Decode/Raises.antt =====
-- The exceptions of `decode_datum_structure` of backend/app/analysis/plutus_structure.py.
use transaction_monitoring_s.Prelude.{
  ℕ, ◌<◌, ◌≡◌, refl, false, Option, none, some, List, arith, String, ◌==◌, inl, inr, ◌⊎◌,
  Bool-cases,
}
use transaction_monitoring_s.Prelude.Int.{ℤ}
use transaction_monitoring_s.Plutus.{new_budget, walk, build}
use transaction_monitoring_s.Plutus.Shapes.{
  Cbor, Json, Fields, Python, shape_cbor, shape_json, shape_object, elements, if_array, if_number,
  if_chars, int_leaf_of, has, get,
}
use transaction_monitoring_s.Plutus.Decode.{
  Datum, absent, hex_text, json_object, json_array, other, depths, decode_hex, decode_cbor,
  decode_datum_structure, cbor_hex, plutus_json, decode_json,
}
use transaction_monitoring_s.Plutus.Decode.Reaches.{
  Caused, Caused-map, Reaches, walk-Caused, decoded-Caused,
}

module _ (py : Python) where
  -- An integer or another object that has no text.
  abbrev pub RefusedCbor : Cbor → Type 0
  RefusedCbor (Cbor.number z) = py.str_of_int z ≡ none
  RefusedCbor (Cbor.other s) = s ≡ none
  RefusedCbor x = ⊥

  -- An integer that has no text, or an object with one under "int" or "integer".
  abbrev pub RefusedFields : Fields → Type 0
  RefusedFields fs =
      (z : ℤ) × (py.str_of_int z ≡ none)
      × ((get "int" fs ≡ Json.number z) ⊎ (get "integer" fs ≡ Json.number z))

  abbrev pub RefusedJson : Json → Type 0
  RefusedJson (Json.number z) = py.str_of_int z ≡ none
  RefusedJson (Json.object fs) = RefusedFields fs
  RefusedJson x = ⊥

  int_leaf_of-Caused :
      (A Q : Type 0) (o : Option String) → (o ≡ none → Q) → Caused Q (int_leaf_of py {A = A} o)
  int_leaf_of-Caused A Q none e = e refl
  int_leaf_of-Caused A Q (some s) e = tt

  shape_cbor-Caused : (x : Cbor) → Caused (RefusedCbor x) (shape_cbor py x)
  unfolding shape_cbor
  shape_cbor-Caused (Cbor.number z) = int_leaf_of-Caused Cbor _ (py.str_of_int z) (λ e. e)
  shape_cbor-Caused (Cbor.tag n x) = tt
  shape_cbor-Caused (Cbor.boolean b) = tt
  shape_cbor-Caused (Cbor.byte_string blob) = tt
  shape_cbor-Caused (Cbor.chars s) = tt
  shape_cbor-Caused (Cbor.array xs) = tt
  shape_cbor-Caused (Cbor.mapping es) = tt
  shape_cbor-Caused Cbor.null = tt
  shape_cbor-Caused (Cbor.other none) = refl
  shape_cbor-Caused (Cbor.other (some s)) = tt

  -- A field of the kind that is asked for, or the other branch.
  module _ {R : Type 0} (Q : Type 0) (otherwise : Option R) (q : Caused Q otherwise) where
    if_array-Caused :
        (x : Json) (f : List Json → Option R)
        → ((xs : List Json) → Caused Q (f xs))
        → Caused Q (if_array x f otherwise)
    if_array-Caused (Json.array xs) f h = h (elements xs)
    if_array-Caused Json.null f h = q
    if_array-Caused (Json.boolean b) f h = q
    if_array-Caused (Json.number z) f h = q
    if_array-Caused Json.float f h = q
    if_array-Caused (Json.chars s) f h = q
    if_array-Caused (Json.object fs) f h = q

    if_chars-Caused :
        (x : Json) (f : String → Option R)
        → ((s : String) → Caused Q (f s))
        → Caused Q (if_chars x f otherwise)
    if_chars-Caused (Json.chars s) f h = h s
    if_chars-Caused Json.null f h = q
    if_chars-Caused (Json.boolean b) f h = q
    if_chars-Caused (Json.number z) f h = q
    if_chars-Caused Json.float f h = q
    if_chars-Caused (Json.array xs) f h = q
    if_chars-Caused (Json.object fs) f h = q

    if_number-Caused :
        (x : Json) (f : ℤ → Option R)
        → ((z : ℤ) → x ≡ Json.number z → Caused Q (f z))
        → Caused Q (if_number x f otherwise)
    if_number-Caused (Json.number z) f h = h z refl
    if_number-Caused Json.null f h = q
    if_number-Caused (Json.boolean b) f h = q
    if_number-Caused Json.float f h = q
    if_number-Caused (Json.chars s) f h = q
    if_number-Caused (Json.array xs) f h = q
    if_number-Caused (Json.object fs) f h = q

  shape_object-Caused : (fs : Fields) → Caused (RefusedFields fs) (shape_object py fs)
  unfolding shape_object
  shape_object-Caused fs =
      let Q = RefusedFields fs in
      elim (Bool-cases (has "constructor" fs)) [
        | inl e ↦ rw e tt
        | inr e ↦ rw e (
            if_array-Caused Q _
              (if_array-Caused Q _
                (if_chars-Caused Q _
                  (if_number-Caused Q _
                    (if_number-Caused Q _ (if_chars-Caused Q _ tt (get "string" fs) _ (λ s. tt))
                      (get "integer" fs) _
                      (λ z g. int_leaf_of-Caused Json Q (py.str_of_int z) (λ n. (z, n, inr g))))
                    (get "int" fs) _
                    (λ z g. int_leaf_of-Caused Json Q (py.str_of_int z) (λ n. (z, n, inl g))))
                  (get "bytes" fs) _ (λ s. tt))
                (get "map" fs) _ (λ xs. tt))
              (get "list" fs) _ (λ xs. tt))
      ]

  shape_json-Caused : (x : Json) → Caused (RefusedJson x) (shape_json py x)
  unfolding shape_json
  shape_json-Caused (Json.number z) = int_leaf_of-Caused Json _ (py.str_of_int z) (λ e. e)
  shape_json-Caused (Json.object fs) = shape_object-Caused fs
  shape_json-Caused (Json.array xs) = tt
  shape_json-Caused (Json.boolean b) = tt
  shape_json-Caused (Json.chars s) = tt
  shape_json-Caused Json.null = tt
  shape_json-Caused Json.float = tt

  module _ (loads : List ℕ → Option Cbor) (max_nodes : ℕ) where
    -- The datum leads to a value that Python refuses to write out.
    abbrev pub HasRefused : Datum → Type 0
    HasRefused absent = ⊥
    HasRefused (hex_text s) =
        (blob : List ℕ) × ((x : Cbor) × (py.from_hex s ≡ some blob)
          × (loads blob ≡ some x)
          × Reaches (shape_cbor py) RefusedCbor x)
    HasRefused (json_object fs) = Reaches (shape_json py) RefusedJson (Json.object fs)
    HasRefused (json_array xs) = Reaches (shape_json py) RefusedJson (Json.array xs)
    HasRefused other = ⊥

    decode_cbor-Caused :
        (s : String) (blob : List ℕ) (x : Option Cbor)
        → py.from_hex s ≡ some blob
        → loads blob ≡ x
        → Caused (HasRefused (hex_text s)) (decode_cbor py loads max_nodes x)
    decode_cbor-Caused s blob none h l = tt
    decode_cbor-Caused s blob (some x) h l = decoded-Caused (HasRefused (hex_text s)) cbor_hex _ (
        Caused-map {Q = HasRefused (hex_text s)} _ (λ c. (blob, (x, h, l, c)))
          (walk-Caused (shape_cbor py) RefusedCbor shape_cbor-Caused depths x
            (new_budget max_nodes)))

    decode_hex-Caused :
        (s : String) (o : Option (List ℕ))
        → py.from_hex s ≡ o
        → Caused (HasRefused (hex_text s)) (decode_hex py loads max_nodes o)
    decode_hex-Caused s none h = tt
    decode_hex-Caused s (some blob) h = decode_cbor-Caused s blob (loads blob) h refl

    decode_json-Caused :
        (x : Json)
        → Caused (Reaches (shape_json py) RefusedJson x) (decode_json py loads max_nodes x)
    decode_json-Caused x =
        decoded-Caused (Reaches (shape_json py) RefusedJson x) plutus_json _ (
          walk-Caused (shape_json py) RefusedJson shape_json-Caused depths x (new_budget max_nodes))

    decode-Caused :
        (d : Datum) → Caused (HasRefused d) (decode_datum_structure py loads d max_nodes)
    unfolding decode_datum_structure
    decode-Caused absent = tt
    decode-Caused (hex_text s) = decode_hex-Caused s (py.from_hex s) refl
    decode-Caused (json_object fs) = decode_json-Caused (Json.object fs)
    decode-Caused (json_array xs) = decode_json-Caused (Json.array xs)
    decode-Caused other = tt

    -- Whatever the datum is, malformed or not: an exception leaves the function only if the datum
    -- itself leads, through elements, fields and entries, to an integer or another object that
    -- Python refuses to write out.
    pub decode-raises :
        (d : Datum) → decode_datum_structure py loads d max_nodes ≡ none → HasRefused d
    decode-raises d h = rw h at (decode-Caused d)

    -- And where the datum is such an integer, one does.
    pub decode_number-raises :
        (s : String) (blob : List ℕ) (z : ℤ)
        → 0 < max_nodes
        → py.from_hex s ≡ some blob
        → loads blob ≡ some (Cbor.number z)
        → py.str_of_int z ≡ none
        → decode_datum_structure py loads (hex_text s) max_nodes ≡ none
    unfolding decode_datum_structure walk shape_cbor build
    decode_number-raises s blob z pos h l e =
        let funded : (max_nodes == 0) ≡ false = ground arith in rw (h, l, funded, e) refl
