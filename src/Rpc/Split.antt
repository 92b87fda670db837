-- ===== src/Rpc/Split.antt =====
-- The scan of `split_array_elements` of backend/app/ingestion/ogmios_rpc.py over the lexical
-- structure of JSON.
use transaction_monitoring_s.Prelude.{
  ℕ, suc, ◌-◌, ◌≡◌, refl, Bool, true, false, Option, none, some, List, [], ◌∷◌, ◌++◌, ◌==◌, arith,
  ap, ◌∙◌, sym,
}
use mathlib.Core.List.{append_assoc, append-nil}
use transaction_monitoring_s.Rpc.{
  Text, quote, backslash, is_open, is_close, Scan, grow, step, is_last, scan, start, from_bracket,
  from_key, split_array_elements,
}
use transaction_monitoring_s.Rpc.Lexical.{
  StringChar, bare, escape, Token, plain, quoted, nested, Tokens, end, seq, print_chars, print,
  print_all, Container, text_of, Item, element, blank, string, print_items, elements_of,
}

abbrev grow_all : Text → Option Text → Option Text
grow_all text none = none
grow_all text (some e) = some (e ++ text)

grow_all-grow :
    (c : ℕ) (text : Text) (e : Option Text) → grow_all text (grow c e) ≡ grow_all (c ∷ text) e
grow_all-grow c text none = refl
grow_all-grow c text (some e) = ap some (append_assoc e (c ∷ []) text)

abbrev at : List Text → ℕ → Option Text → Bool → Bool → Scan
at els d e in_string escaped = record {
  elements = els;
  depth = d;
  element = e;
  in_string = in_string;
  escaped = escaped;
}

-- A string is read to its end, whatever brackets it has.
scan-string :
    (cs : List StringChar) (rest : Text) (els : List Text) (d : ℕ) (e : Option Text)
    → scan (print_chars cs ++ quote ∷ rest) (at els d e true false)
      ≡ scan rest (at els d (grow_all (print_chars cs ++ quote ∷ []) e) false false)
unfolding scan step is_last
scan-string [] rest els d none = refl
scan-string [] rest els d (some e) = refl
scan-string (bare c p q ∷ cs) rest els d e =
    rw (p, q) (scan-string cs rest els d (grow c e) ∙ rw (grow_all-grow) refl)
scan-string (escape c ∷ cs) rest els d e =
    scan-string cs rest els d (grow c (grow backslash e)) ∙ rw (grow_all-grow, grow_all-grow) refl

-- Inside an element.
abbrev inside : List Text → ℕ → Text → Scan
inside els d acc = at els d (some acc) false false

open_facts : (o : ℕ) → is_open o ≡ true → ((o == quote) ≡ false) × (is_close o ≡ false)
open_facts o h = ground arith

close_facts : (c : ℕ) → is_close c ≡ true → ((c == quote) ≡ false) × (is_open c ≡ false)
close_facts c h = ground arith

-- A bracket that opens inside an element.
scan-open :
    (o : ℕ) (rest : Text) (els : List Text) (k : ℕ) (acc : Text)
    → is_open o ≡ true
    → scan (o ∷ rest) (inside els (suc (suc k)) acc)
      ≡ scan rest (inside els (suc (suc (suc k))) (acc ++ o ∷ []))
unfolding scan step is_last
scan-open o rest els k acc h =
    let (p, q) = open_facts o h in
    let deep : (suc (suc k) == 1) ≡ false = ground arith in rw (p, q, h, deep) refl

-- A bracket that closes inside an element.
scan-close :
    (c : ℕ) (rest : Text) (els : List Text) (k : ℕ) (acc : Text)
    → is_close c ≡ true
    → scan (c ∷ rest) (inside els (suc (suc (suc k))) acc)
      ≡ scan rest (inside els (suc (suc k)) (acc ++ c ∷ []))
unfolding scan step is_last
scan-close c rest els k acc h =
    let (p, q) = close_facts c h in
    let minus : suc (suc (suc k)) - 1 ≡ suc (suc k) = omega arith in
    let deep : (suc (suc k) == 1) ≡ false = ground arith in
    let not_last : (suc (suc k) == 0) ≡ false = ground arith in
    rw (p, q, h, minus, deep, not_last) refl

mutual
  unfolding scan step is_last print

  scan-token :
      (t : Token) (rest : Text) (els : List Text) (k : ℕ) (acc : Text)
      → scan (print t ++ rest) (inside els (suc (suc k)) acc)
        ≡ scan rest (inside els (suc (suc k)) (acc ++ print t))
  scan-token (plain c p q r) rest els k acc = rw (p, q, r) refl
  scan-token (quoted cs) rest els k acc = rw (append_assoc (print_chars cs) (quote ∷ []) rest) (
      scan-string cs rest els (suc (suc k)) (some (acc ++ quote ∷ []))
      ∙ rw (append_assoc acc (quote ∷ []) (print_chars cs ++ quote ∷ [])) refl)
  scan-token (nested o c p q ts) rest els k acc =
      scan-open o ((print_all ts ++ c ∷ []) ++ rest) els k acc p
      ∙ (rw (append_assoc (print_all ts) (c ∷ []) rest) (
          scan-tokens ts (c ∷ rest) els (suc k) (acc ++ o ∷ [])
          ∙ (scan-close c rest els k ((acc ++ o ∷ []) ++ print_all ts) q
              ∙ rw
                  (
                    append_assoc acc (o ∷ []) (print_all ts),
                    append_assoc acc (o ∷ print_all ts) (c ∷ []),
                  )
                  refl)))

  scan-tokens :
      (ts : Tokens) (rest : Text) (els : List Text) (k : ℕ) (acc : Text)
      → scan (print_all ts ++ rest) (inside els (suc (suc k)) acc)
        ≡ scan rest (inside els (suc (suc k)) (acc ++ print_all ts))
  scan-tokens end rest els k acc = rw (append-nil acc) refl
  scan-tokens (seq t ts) rest els k acc = rw (append_assoc (print t) (print_all ts) rest) (
      scan-token t (print_all ts ++ rest) els k acc
      ∙ (scan-tokens ts rest els k (acc ++ print t)
          ∙ rw (append_assoc acc (print t) (print_all ts)) refl))

-- Between the elements.
abbrev between : List Text → Scan
between els = at els 1 none false false

-- An element, from its bracket to the one that closes it.
scan-element :
    (e : Container) (rest : Text) (els : List Text)
    → scan (text_of e ++ rest) (between els) ≡ scan rest (between (els ++ text_of e ∷ []))
unfolding scan step is_last
scan-element e rest els =
    let (p, q) = open_facts e.opening e.opens in
    let (p', q') = close_facts e.closing e.closes in
    rw (p, q, e.opens, append_assoc (print_all e.inside) (e.closing ∷ []) rest)
      (scan-tokens e.inside (e.closing ∷ rest) els 0 (e.opening ∷ []) ∙ rw (p', q', e.closes) refl)

scan-items :
    (items : List Item) (c : ℕ) (rest : Text) (els : List Text)
    → is_close c ≡ true
    → scan (print_items items ++ c ∷ rest) (between els) ≡ els ++ elements_of items
unfolding scan step is_last
scan-items [] c rest els h = let (p, q) = close_facts c h in rw (h) (sym (append-nil els))
scan-items (element e ∷ items) c rest els h =
    ap (λ (t : Text). scan t (between els))
      (append_assoc (text_of e) (print_items items) (c ∷ rest))
    ∙ (scan-element e (print_items items ++ c ∷ rest) els
        ∙ (scan-items items c rest (els ++ text_of e ∷ []) h
            ∙ append_assoc els (text_of e ∷ []) (elements_of items)))
scan-items (blank b p q r ∷ items) c rest els h = rw (p, q, r) (scan-items items c rest els h)
scan-items (string cs ∷ items) c rest els h =
    rw
      (
        append_assoc (print_chars cs) (quote ∷ []) (print_items items),
        append_assoc (print_chars cs) (quote ∷ print_items items) (c ∷ rest),
      )
      (scan-string cs (print_items items ++ c ∷ rest) els 1 none ∙ scan-items items c rest els h)

scan_body :
    (items : List Item) (c : ℕ) (rest : Text)
    → is_close c ≡ true
    → scan (91 ∷ (print_items items ++ c ∷ rest)) start ≡ elements_of items
unfolding scan step is_last
scan_body items c rest h = scan-items items c rest [] h

-- The text from the key to the first bracket after it.
abbrev pub HasNoBracket : Text → Type 0
HasNoBracket [] = Unit
HasNoBracket (c ∷ text) = ((c == 91) ≡ false) × HasNoBracket text

from_bracket_lem :
    (before rest : Text)
    → HasNoBracket before
    → from_bracket (before ++ 91 ∷ rest) ≡ some (91 ∷ rest)
unfolding from_bracket
from_bracket_lem [] rest h = refl
from_bracket_lem (c ∷ before) rest h = rw (h.0) (from_bracket_lem before rest h.1)

-- The array whose bracket is the first one from the first occurrence of the key on is split into
-- the texts of its containers, whatever strings, brackets and depths are in them and whatever
-- scalars and blanks between them, and whatever follows the array.
pub split_array_elements-text :
    (raw key before rest : Text) (items : List Item) (c : ℕ)
    → is_close c ≡ true
    → HasNoBracket before
    → from_key key raw ≡ some (before ++ 91 ∷ (print_items items ++ c ∷ rest))
    → split_array_elements raw key ≡ elements_of items
unfolding split_array_elements
split_array_elements-text raw key before rest items c h none_before at_key =
    rw (at_key, from_bracket_lem before (print_items items ++ c ∷ rest) none_before)
      (scan_body items c rest h)
