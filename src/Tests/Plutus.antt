-- ===== src/Tests/Plutus.antt =====
-- Small datums: the bytes are the code of the value, and negative numbers have no text.
use transaction_monitoring_s.Prelude.{
  ℕ, ◌≡◌, ◌≤◌, ◌↔◌, refl, true, false, Option, none, some, List, [], ◌∷◌, String,
}
use transaction_monitoring_s.Prelude.Int.{ℤ, pos, negsuc}
use transaction_monitoring_s.Plutus.{
  DatumNode, node, map_entry, truncated, nil, cons, Kind, walk, walk_each, walk_entries, build,
}
use transaction_monitoring_s.Plutus.Rendering.{taken, height, is_elided}
use transaction_monitoring_s.Plutus.Shapes.{
  Cbor, Items, Pairs, Python, shape_cbor, constructor_from_tag, printable_text,
}
use transaction_monitoring_s.Plutus.Decode.{
  hex_text, DecodedDatum, cbor_hex, decode_datum_structure, depths,
}
use transaction_monitoring_s.Plutus.Decode.Faithful.{decode-Says_iff, decode-bounds, Shows, Says}
use transaction_monitoring_s.Plutus.Decode.Raises.{decode-raises, HasRefused}

abbrev text_of : ℤ → Option String
text_of (pos n) = some "7"
text_of (negsuc n) = none

abbrev python : Python
python = record {
  str_of_int = text_of;
  hex = λ blob. "00";
  from_hex = λ s. some (1 ∷ []);
  decode = λ blob. none;
  is_printable = λ s. true;
}

-- Constructor 2 over an integer and a map from bytes to a list.
abbrev datum : Cbor
datum = Cbor.tag 123 (
    Cbor.array (
      Items.item (Cbor.number (pos 7)) (
        Items.item
          (Cbor.mapping (Pairs.pair (Cbor.byte_string []) (Cbor.array Items.end) Pairs.last))
          Items.end)))

abbrev seven : DatumNode
seven = node Kind.int none (some "7") none nil

abbrev tree : DatumNode
tree = node Kind.constructor (some (pos 2)) none none (
    cons seven (
      cons
        (node Kind.map none none none (
          cons
            (map_entry (node Kind.bytes none (some "00") none nil)
              (node Kind.list none none none nil))
            nil))
        nil))

abbrev loads : List ℕ → Option Cbor
loads blob = some datum

abbrev answer : DecodedDatum
answer = record { root = some tree; encoding = cbor_hex; truncated = false; error = none }

decodes : decode_datum_structure python loads (hex_text "01") 5 ≡ some answer
unfolding decode_datum_structure walk build walk_each walk_entries shape_cbor constructor_from_tag
    printable_text
decodes = refl

decode-Says_iff_example :
    Shows tree (decode_datum_structure python loads (hex_text "01") 5)
    ↔ (Says python loads (hex_text "01") tree × (taken tree ≤ 5) × (height tree ≤ depths))
decode-Says_iff_example = decode-Says_iff python loads (hex_text "01") 5 tree

decode-bounds_example : (taken tree ≤ 5) × (height tree ≤ depths) × (false ≡ is_elided tree)
decode-bounds_example = decode-bounds python loads 5 answer tree refl (hex_text "01") decodes

abbrev minus_one : List ℕ → Option Cbor
minus_one blob = some (Cbor.array (Items.item (Cbor.number (negsuc 0)) Items.end))

decode-raises_example : HasRefused python minus_one 9 (hex_text "01")
unfolding decode_datum_structure walk walk_each build shape_cbor
decode-raises_example = decode-raises python minus_one 9 (hex_text "01") refl

-- Three elements of an inner list and a budget for it and one of them.
abbrev three : Items
three = Items.item Cbor.null (Items.item Cbor.null (Items.item Cbor.null Items.end))

abbrev cut : DatumNode
cut =
    node Kind.list none none none
      (cons (node Kind.unknown none none none nil) (cons truncated (cons truncated nil)))
