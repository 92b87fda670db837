-- ===== src/Rpc/Lexical.antt =====
-- The lexical structure of JSON as backend/app/ingestion/ogmios_rpc.py relies on it: strings with
-- their escapes, and brackets that are closed in their turn.
use transaction_monitoring_s.Prelude.{ℕ, ◌≡◌, true, false, List, [], ◌∷◌, ◌++◌, ◌==◌}
use transaction_monitoring_s.Rpc.{Text, quote, backslash, is_open, is_close}

-- A character of a string: one that is neither a quote nor a backslash, or an escaped one.
pub data StringChar : Type 0 where
  bare : (c : ℕ) → (c == quote) ≡ false → (c == backslash) ≡ false → StringChar
  escape : ℕ → StringChar

-- Tokens outside of strings, strings, and bracketed parts.
mutual
  pub data Token : Type 0 where
    plain : (c : ℕ) → (c == quote) ≡ false → is_open c ≡ false → is_close c ≡ false → Token
    quoted : List StringChar → Token
    nested : (o c : ℕ) → is_open o ≡ true → is_close c ≡ true → Tokens → Token

  pub data Tokens : Type 0 where
    end : Tokens
    seq : Token → Tokens → Tokens

abbrev pub print_char : StringChar → Text
print_char (bare c p q) = c ∷ []
print_char (escape c) = backslash ∷ c ∷ []

abbrev pub print_chars : List StringChar → Text
print_chars [] = []
print_chars (c ∷ cs) = print_char c ++ print_chars cs

unfoldable mutual
  pub print : Token → Text
  print (plain c p q r) = c ∷ []
  print (quoted cs) = quote ∷ (print_chars cs ++ quote ∷ [])
  print (nested o c p q ts) = o ∷ (print_all ts ++ c ∷ [])

  pub print_all : Tokens → Text
  print_all end = []
  print_all (seq t ts) = print t ++ print_all ts

-- The brackets of a container.
pub record Container : Type 0 where
  pub opening : ℕ
  pub closing : ℕ
  pub opens : is_open opening ≡ true
  pub closes : is_close closing ≡ true
  pub inside : Tokens

abbrev pub text_of : Container → Text
text_of e = e.opening ∷ (print_all e.inside ++ e.closing ∷ [])

-- What stands in an array: its containers, and commas, blanks and scalars between them.
pub data Item : Type 0 where
  element : Container → Item
  blank : (c : ℕ) → (c == quote) ≡ false → is_open c ≡ false → is_close c ≡ false → Item
  string : List StringChar → Item

abbrev pub print_item : Item → Text
print_item (element e) = text_of e
print_item (blank c p q r) = c ∷ []
print_item (string cs) = quote ∷ (print_chars cs ++ quote ∷ [])

abbrev pub print_items : List Item → Text
print_items [] = []
print_items (i ∷ items) = print_item i ++ print_items items

-- The array's containers.
abbrev pub elements_of : List Item → List Text
elements_of [] = []
elements_of (element e ∷ items) = text_of e ∷ elements_of items
elements_of (blank c p q r ∷ items) = elements_of items
elements_of (string cs ∷ items) = elements_of items
