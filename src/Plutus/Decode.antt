-- ===== src/Plutus/Decode.antt =====
-- `decode_datum_structure` of backend/app/analysis/plutus_structure.py.
use transaction_monitoring_s.Prelude.{ℕ, suc, Bool, true, false, Option, none, some, List, String}
pub mod Faithful
pub mod Reaches
pub mod Raises
pub mod Width
use transaction_monitoring_s.Plutus.{DatumNode, Budget, Walked, new_budget, max_walk_depth, walk}
use transaction_monitoring_s.Plutus.Shapes.{
  Cbor, Json, Elements, Fields, Python, shape_cbor, shape_json,
}

-- What `assessable_datum` answers: hex of CBOR, an object or a list of JSON, or None.
pub data Datum : Type 0 where
  absent : Datum
  hex_text : String → Datum
  json_object : Fields → Datum
  json_array : Elements → Datum
  other : Datum

pub data Encoding : Type 0 where
  cbor_hex plutus_json unencoded : Encoding

pub record DecodedDatum : Type 0 where
  pub root : Option DatumNode
  pub encoding : Encoding
  pub truncated : Bool
  pub error : Option String

abbrev pub undecoded : Encoding → Option String → DecodedDatum
undecoded encoding error = record {
  root = none;
  encoding = encoding;
  truncated = false;
  error = error;
}

abbrev pub decoded : Encoding → Walked DatumNode → Option DecodedDatum
decoded encoding none = none
decoded encoding (some (root, budget)) =
    some (record { root = some root; encoding = encoding; truncated = budget.hit; error = none })

-- The depths 0 to `MAX_WALK_DEPTH` are walked.
abbrev pub depths : ℕ
depths = suc max_walk_depth

module _ (py : Python) (loads : List ℕ → Option Cbor) where
  abbrev pub decode_cbor : ℕ → Option Cbor → Option DecodedDatum
  decode_cbor max_nodes none = some (undecoded cbor_hex (some "datum is not valid CBOR"))
  decode_cbor max_nodes (some x) =
      decoded cbor_hex (walk (shape_cbor py) depths x (new_budget max_nodes))

  abbrev pub decode_hex : ℕ → Option (List ℕ) → Option DecodedDatum
  decode_hex max_nodes none = some (undecoded cbor_hex (some "datum is not valid hex"))
  decode_hex max_nodes (some blob) = decode_cbor max_nodes (loads blob)

  abbrev pub decode_json : ℕ → Json → Option DecodedDatum
  decode_json max_nodes x =
      decoded plutus_json (walk (shape_json py) depths x (new_budget max_nodes))

  -- `none` is an exception that leaves the function.
  unfoldable pub decode_datum_structure : Datum → ℕ → Option DecodedDatum
  decode_datum_structure absent max_nodes = some (undecoded unencoded none)
  decode_datum_structure (hex_text s) max_nodes = decode_hex max_nodes (py.from_hex s)
  decode_datum_structure (json_object fs) max_nodes = decode_json max_nodes (Json.object fs)
  decode_datum_structure (json_array xs) max_nodes = decode_json max_nodes (Json.array xs)
  decode_datum_structure other max_nodes =
      some (undecoded unencoded (some "unrecognised datum representation"))
