-- ===== src/Plutus/Decode/Faithful.antt =====
-- What `decode_datum_structure` of backend/app/analysis/plutus_structure.py shows of a datum.
use transaction_monitoring_s.Prelude.{
  ℕ, ◌≤◌, ◌≡◌, refl, false, Option, none, some, List, ◌↔◌, arith, Option-cases, inl, inr, ◌∙◌,
  String,
}
use mathlib.Core.Path.{subst}
use transaction_monitoring_s.Plutus.{DatumNode, Budget, Walked, new_budget, walk, Shape}
use transaction_monitoring_s.Plutus.Rendering.{taken, height, is_elided, Renders}
use transaction_monitoring_s.Plutus.Complete.{walk_iff, walk_bounds}
use transaction_monitoring_s.Plutus.Shapes.{Cbor, Json, Python, shape_cbor, shape_json}
use transaction_monitoring_s.Plutus.Decode.{
  Datum, absent, hex_text, json_object, json_array, other, DecodedDatum, Encoding, decoded, depths,
  decode_hex, decode_cbor, decode_datum_structure, cbor_hex, plutus_json,
}

-- A decoded tree that nothing limits.
abbrev pub Shows : DatumNode → Option DecodedDatum → Type 0
Shows n o = (r : DecodedDatum) × (o ≡ some r) × (r.root ≡ some n) × (r.truncated ≡ false)

decoded-Shows :
    (encoding : Encoding) (n : DatumNode) (w : Walked DatumNode)
    → Shows n (decoded encoding w) ↔ ((b : Budget) × (w ≡ some (n, b)) × (b.hit ≡ false))
decoded-Shows encoding n none = (λ (r, e, f, g). cc, λ (b, e, f). cc)
decoded-Shows encoding n (some (m, b)) = (
  λ (r, e, f, g). (b, ground arith, ground arith),
  λ (c, e, f). (_, refl, ground arith, ground arith),
)

module _ {A : Type 0} (shape : A → Option (Shape A)) (encoding : Encoding) (max_nodes : ℕ) (x : A)
    (n : DatumNode) where
  abbrev walked : Option DecodedDatum
  walked = decoded encoding (walk shape depths x (new_budget max_nodes))

  walked-Shows : Shows n walked ↔ (Renders shape x n × (taken n ≤ max_nodes) × (height n ≤ depths))
  walked-Shows =
      let limits = walk_iff shape depths max_nodes x n in
      let show = decoded-Shows encoding n (walk shape depths x (new_budget max_nodes)) in
      (λ h. limits.0 (show.0 h), λ h. show.1 (limits.1 h))

module _ (py : Python) (loads : List ℕ → Option Cbor) where
  -- The tree says of the datum's value, decoded if it is hex of CBOR, all that it shows of itself.
  abbrev pub Says : Datum → DatumNode → Type 0
  Says absent n = ⊥
  Says (hex_text s) n =
      (blob : List ℕ) × (x : Cbor) × (py.from_hex s ≡ some blob)
      × (loads blob ≡ some x)
      × Renders (shape_cbor py) x n
  Says (json_object fs) n = Renders (shape_json py) (Json.object fs) n
  Says (json_array xs) n = Renders (shape_json py) (Json.array xs) n
  Says other n = ⊥

  module _ (max_nodes : ℕ) (n : DatumNode) where
    abbrev decode : Datum → Option DecodedDatum
    decode d = decode_datum_structure py loads d max_nodes

    hex_text-Shows :
        (s : String)
        → Shows n (decode (hex_text s))
          ↔ (Says (hex_text s) n × (taken n ≤ max_nodes) × (height n ≤ depths))
    unfolding decode_datum_structure
    hex_text-Shows s = elim (Option-cases (py.from_hex s)) [
      | inl e ↦ rw e (λ (r, h, f, g). cc, λ ((blob, x, h, l, r), t, k). cc)
      | inr (blob, e) ↦ elim (Option-cases (loads blob)) [
        | inl l ↦ rw (e, l) (λ (r, h, f, g). cc, λ ((blob', x, h, k, r), t, u). cc)
        | inr (x, l) ↦
            let w = walked-Shows (shape_cbor py) cbor_hex max_nodes x n in
            rw (e, l)
              (
                λ h. let (r, t, u) = w.0 h in ((blob, x, refl, l, r), t, u),
                λ ((blob', y, h, k, r), t, u).
                    let same : y ≡ x = cc in
                    w.1 (subst (λ z. Renders (shape_cbor py) z n) same r, t, u),
              )
      ]
    ]

  -- A datum is shown whole and not marked as truncated exactly when some tree says all of it within
  -- `max_nodes` nodes and 65 levels, entries of maps aside, and it is that tree that is shown.
  pub decode-Says_iff :
      (d : Datum) (max_nodes : ℕ) (n : DatumNode)
      → Shows n (decode_datum_structure py loads d max_nodes)
        ↔ (Says d n × (taken n ≤ max_nodes) × (height n ≤ depths))
  unfolding decode_datum_structure
  decode-Says_iff absent max_nodes n = (λ (r, e, f, g). cc, λ h. absurd h.0)
  decode-Says_iff (hex_text s) max_nodes n = hex_text-Shows max_nodes n s
  decode-Says_iff (json_object fs) max_nodes n =
      walked-Shows (shape_json py) plutus_json max_nodes (Json.object fs) n
  decode-Says_iff (json_array xs) max_nodes n =
      walked-Shows (shape_json py) plutus_json max_nodes (Json.array xs) n
  decode-Says_iff other max_nodes n = (λ (r, e, f, g). cc, λ h. absurd h.0)

module _ {A : Type 0} (shape : A → Option (Shape A)) (encoding : Encoding) (max_nodes : ℕ) (x : A)
    (r : DecodedDatum) (n : DatumNode) (h : r.root ≡ some n) where
  -- What the limits say of the tree of an answer.
  abbrev Limited : Type 0
  Limited = (taken n ≤ max_nodes) × (height n ≤ depths) × (r.truncated ≡ is_elided n)

  decoded-Limited :
      (w : Walked DatumNode)
      → walk shape depths x (new_budget max_nodes) ≡ w
      → decoded encoding w ≡ some r
      → Limited
  decoded-Limited none e f = cc
  decoded-Limited (some (m, b)) e f =
      let same : m ≡ n = ground arith in
      let flag : r.truncated ≡ b.hit = ground arith in
      let (t, u, v) = walk_bounds shape depths max_nodes x m b e in rw (← same) (t, u, flag ∙ v)

module _ (py : Python) (loads : List ℕ → Option Cbor) (max_nodes : ℕ) (r : DecodedDatum)
    (n : DatumNode) (h : r.root ≡ some n) where
  decode_cbor-Limited :
      (x : Option Cbor)
      → decode_cbor py loads max_nodes x ≡ some r
      → (taken n ≤ max_nodes) × (height n ≤ depths) × (r.truncated ≡ is_elided n)
  decode_cbor-Limited none e = ground arith
  decode_cbor-Limited (some x) e =
      decoded-Limited (shape_cbor py) cbor_hex max_nodes x r n h _ refl e

  decode_hex-Limited :
      (blob : Option (List ℕ))
      → decode_hex py loads max_nodes blob ≡ some r
      → (taken n ≤ max_nodes) × (height n ≤ depths) × (r.truncated ≡ is_elided n)
  decode_hex-Limited none e = ground arith
  decode_hex-Limited (some blob) e = decode_cbor-Limited (loads blob) e

  -- Every tree that is shown has at most `max_nodes` nodes and 65 levels, entries of maps and the
  -- placeholders aside, and it is marked as truncated exactly if some placeholder is in it.
  pub decode-bounds :
      (d : Datum)
      → decode_datum_structure py loads d max_nodes ≡ some r
      → (taken n ≤ max_nodes) × (height n ≤ depths) × (r.truncated ≡ is_elided n)
  unfolding decode_datum_structure
  decode-bounds absent e = ground arith
  decode-bounds (hex_text s) e = decode_hex-Limited (py.from_hex s) e
  decode-bounds (json_object fs) e =
      decoded-Limited (shape_json py) plutus_json max_nodes (Json.object fs) r n h _ refl e
  decode-bounds (json_array xs) e =
      decoded-Limited (shape_json py) plutus_json max_nodes (Json.array xs) r n h _ refl e
  decode-bounds other e = ground arith
