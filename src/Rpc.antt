-- ===== src/Rpc.antt =====
-- The salvage of a frame that does not decode, backend/app/ingestion/ogmios_rpc.py. A text is the
-- list of its code points. `json.loads` is a parameter.
pub mod Lexical
pub mod Split
pub mod Recover
use transaction_monitoring_s.Prelude.{
  ℕ, zero, suc, ◌+◌, ◌-◌, max, Bool, true, false, Option, none, some, is_some, List, [], ◌∷◌, ◌++◌,
  ◌==◌, ◌&&◌, ◌||◌, not, if◌then◌else◌,
}

abbrev pub Text : Type 0
Text = List ℕ

-- Code points of `"`, `\`, `[`, `]`, `{` and `}`.
abbrev pub quote : ℕ
quote = 34

abbrev pub backslash : ℕ
backslash = 92

abbrev pub is_open : ℕ → Bool
is_open ch = ch == 91 || ch == 123

abbrev pub is_close : ℕ → Bool
is_close ch = ch == 93 || ch == 125

-- `raw.startswith(key)`
unfoldable pub starts_with : Text → Text → Bool
starts_with [] raw = true
starts_with (k ∷ key) [] = false
starts_with (k ∷ key) (c ∷ raw) = k == c && starts_with key raw

-- The text from the first occurrence of the key on: `raw[raw.find(key):]`, if it is found.
unfoldable pub from_key : Text → Text → Option Text
from_key key [] = if starts_with key [] then some [] else none
from_key key (c ∷ raw) =
    let rest = from_key key raw in if starts_with key (c ∷ raw) then some (c ∷ raw) else rest

-- The text from the first `[` on.
unfoldable pub from_bracket : Text → Option Text
from_bracket [] = none
from_bracket (c ∷ raw) = let rest = from_bracket raw in if c == 91 then some (c ∷ raw) else rest

-- The variables of the loop; `element` is the text from `element_start` to the last character read.
pub record Scan : Type 0 where
  pub elements : List Text
  pub depth : ℕ
  pub element : Option Text
  pub in_string : Bool
  pub escaped : Bool

-- The character belongs to the element that is open, if one is.
abbrev pub grow : ℕ → Option Text → Option Text
grow ch none = none
grow ch (some element) = some (element ++ ch ∷ [])

abbrev pub read : ℕ → Scan → Scan
read ch s = record s { element = grow ch s.element }

abbrev pub end_string : ℕ → Scan → Scan
end_string ch s =
    if s.escaped
    then record (read ch s) { escaped = false }
    else if ch == backslash
    then record (read ch s) { escaped = true }
    else if ch == quote
    then record (read ch s) { in_string = false }
    else read ch s

-- `depth += 1`; depth 1 is the array itself, so an element opens at depth 2.
abbrev pub open_bracket : ℕ → Scan → Scan
open_bracket ch s =
    if s.depth == 1 && not (is_some s.element)
    then record s { depth = suc s.depth; element = some (ch ∷ []) }
    else record (read ch s) { depth = suc s.depth }

abbrev pub add_element : Option Text → List Text → List Text
add_element none elements = elements
add_element (some element) elements = elements ++ element ∷ []

-- `depth -= 1`; an element ends at depth 1.
abbrev pub close_bracket : ℕ → Scan → Scan
close_bracket ch s =
    if s.depth - 1 == 1 && is_some s.element
    then record s {
      depth = s.depth - 1;
      elements = add_element (grow ch s.element) s.elements;
      element = none;
    }
    else record (read ch s) { depth = s.depth - 1 }

-- A round of the loop.
unfoldable pub step : ℕ → Scan → Scan
step ch s =
    if s.in_string
    then end_string ch s
    else if ch == quote
    then record (read ch s) { in_string = true }
    else if is_open ch
    then open_bracket ch s
    else if is_close ch
    then close_bracket ch s
    else read ch s

-- Whether the round breaks the loop: the array's own bracket has closed.
unfoldable pub is_last : ℕ → Scan → Bool
is_last ch s =
    not s.in_string
    && is_close ch
    && not (s.depth - 1 == 1 && is_some s.element)
    && s.depth - 1 == 0

unfoldable pub scan : Text → Scan → List Text
scan [] s = s.elements
scan (ch ∷ raw) s = let rest = scan raw (step ch s) in if is_last ch s then s.elements else rest

abbrev pub start : Scan
start = record { elements = []; depth = 0; element = none; in_string = false; escaped = false }

abbrev pub scan_from : Option Text → List Text
scan_from none = []
scan_from (some raw) = scan raw start

abbrev pub array_at : Option Text → Option Text
array_at none = none
array_at (some raw) = from_bracket raw

unfoldable pub split_array_elements : Text → Text → List Text
split_array_elements raw key = scan_from (array_at (from_key key raw))

-- The code points of `"transactions"`, with its quotes.
abbrev pub transactions_key : Text
transactions_key = 34 ∷ 116 ∷ 114 ∷ 97 ∷ 110 ∷ 115 ∷ 97 ∷ 99 ∷ 116 ∷ 105 ∷ 111 ∷ 110 ∷ 115 ∷ 34 ∷ []

abbrev pub decoded_or_lost : {A : Type 0} → Option A → List A × ℕ → List A × ℕ
decoded_or_lost none (decoded, lost) = (decoded, suc lost)
decoded_or_lost (some x) (decoded, lost) = (x ∷ decoded, lost)

module _ {A : Type 0} (loads : Text → Option A) where
  -- The elements that decode, in order, and the number of the others.
  unfoldable pub decode_each : List Text → List A × ℕ
  decode_each [] = ([], 0)
  decode_each (element ∷ elements) = decoded_or_lost (loads element) (decode_each elements)

  unfoldable pub recover_transactions : Text → List A × ℕ
  recover_transactions raw = decode_each (split_array_elements raw transactions_key)

-- The code points of `"block":`, with its quotes and the colon.
abbrev pub block_key : Text
block_key = 34 ∷ 98 ∷ 108 ∷ 111 ∷ 99 ∷ 107 ∷ 34 ∷ 58 ∷ []

-- The text up to the first occurrence of the key, or all of it.
unfoldable pub until_key : Text → Text → Text
until_key key [] = []
until_key key (c ∷ raw) =
    let rest = until_key key raw in if starts_with key (c ∷ raw) then [] else c ∷ rest

abbrev pub header_of : Option Text → Option Text
header_of none = none
header_of (some raw) = some (until_key transactions_key raw)

-- The segment that the patterns are searched in.
unfoldable pub header_segment : Text → Option Text
header_segment raw = header_of (from_key block_key raw)
