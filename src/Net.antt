-- ===== src/Net.antt =====
-- The client's address, backend/app/net.py. A text is the list of its code points. The `ipaddress`
-- module, `str.isspace` and the settings that they parse are parameters.
pub mod Spoof
use transaction_monitoring_s.Prelude.{
  ℕ, ◌-◌, Bool, true, false, Option, none, some, List, [], ◌∷◌, ◌++◌, map, keep, any, length, ltb,
  leb, ◌==◌, not, ◌&&◌, ◌||◌, is_some, if◌then◌else◌, suc, zero,
}

abbrev pub Text : Type 0
Text = List ℕ

abbrev pub is_empty : Text → Bool
is_empty [] = true
is_empty (c ∷ cs) = false

-- Code points of `,`, `:`, `[` and `]`.
abbrev pub comma : ℕ
comma = 44

abbrev colon : ℕ
colon = 58

abbrev open_bracket : ℕ
open_bracket = 91

abbrev close_bracket : ℕ
close_bracket = 93

-- The part before the first `c`: `text.split(c)[0]`, and `text[: text.index(c)]` if it is there.
unfoldable pub before : ℕ → Text → Text
before c [] = []
before c (x ∷ xs) = let rest = before c xs in if x == c then [] else x ∷ rest

abbrev pub count : ℕ → Text → ℕ
count c text = length (keep (λ x. x == c) text)

-- The first part of a split and the others.
abbrev pub cut : Bool → ℕ → Text × List Text → Text × List Text
cut is_separator x (part, parts) = if is_separator then ([], part ∷ parts) else (x ∷ part, parts)

unfoldable pub split_parts : ℕ → Text → Text × List Text
split_parts c [] = ([], [])
split_parts c (x ∷ xs) = cut (x == c) x (split_parts c xs)

-- `text.split(c)`
unfoldable pub split : ℕ → Text → List Text
split c text = (split_parts c text).0 ∷ (split_parts c text).1

-- A bracketed IPv6 address with or without a port, an IPv4 address with a port, or neither.
unfoldable pub host_of : Text → Text
host_of [] = []
host_of (c ∷ rest) =
    if c == open_bracket && any (λ x. x == close_bracket) rest
    then before close_bracket rest
    else if count colon (c ∷ rest) == 1
    then before colon (c ∷ rest)
    else c ∷ rest

-- A request or a websocket: the peer's host, a header by its name, the X-Forwarded-For values.
pub record Connection : Type 0 where
  pub host : Option Text
  -- by a name other than that of the next field, as config.py asks of the edge's header
  pub header : Text → Option Text
  pub forwarded_for : List Text

pub record Settings (Network : Type 0) : Type 0 where
  pub trusted_proxy_enabled : Bool
  -- `none` is a value that does not parse
  pub trusted_proxy_networks : Option (List Network)
  pub trusted_proxy_client_ip_header : Text
  pub trusted_proxy_hops : ℕ

-- The entry at an index.
abbrev pub get_elem? {ℓ} : {A : Type ℓ} → List A → ℕ → Option A
get_elem? [] i = none
get_elem? (x ∷ xs) zero = some x
get_elem? (x ∷ xs) (suc i) = get_elem? xs i

-- The hops-th entry from the right, if the index is within the entries.
unfoldable pub from_right : ℕ → List Text → Option Text
from_right hops es =
    if ltb (length es) hops || leb (length es) (length es - hops)
    then none
    else get_elem? es (length es - hops)

-- `candidate` unless it is None.
abbrev pub or_direct : Option Text → Option Text → Option Text
or_direct none direct = direct
or_direct (some candidate) direct = some candidate

module _ (is_space : ℕ → Bool) where
  unfoldable pub trim_start : Text → Text
  trim_start [] = []
  trim_start (c ∷ cs) = let rest = trim_start cs in if is_space c then rest else c ∷ cs

  unfoldable pub trim_end : Text → Text
  trim_end [] = []
  trim_end (c ∷ cs) = let rest = trim_end cs in if is_space c && is_empty rest then [] else c ∷ rest

  -- `text.strip()`
  unfoldable pub strip : Text → Text
  strip text = trim_end (trim_start text)

  -- The entries of one X-Forwarded-For value that are not blank.
  unfoldable pub entries_of : Text → List Text
  entries_of value = keep (λ e. not (is_empty e)) (map strip (split comma value))

  unfoldable pub entries : List Text → List Text
  entries [] = []
  entries (value ∷ values) = entries_of value ++ entries values

module _ {Address Network : Type 0} (is_space : ℕ → Bool) (ip_address : Text → Option Address)
    (ipv4_mapped : Address → Option Address) (to_text : Address → Text)
    (is_in : Address → Network → Bool) where
  -- An IPv4 address in IPv6 clothes is unwrapped.
  abbrev pub unmapped : Address → Option Address → Address
  unmapped a none = a
  unmapped a (some b) = b

  abbrev pub canonical : Option Address → Option Text
  canonical none = none
  canonical (some a) = some (to_text (unmapped a (ipv4_mapped a)))

  unfoldable pub parse_ip : Option Text → Option Text
  parse_ip none = none
  parse_ip (some []) = none
  parse_ip (some (c ∷ cs)) = canonical (ip_address (host_of (strip is_space (c ∷ cs))))

  -- Whether the peer's address is in one of the networks; a peer's text that is no address raises.
  abbrev pub in_networks : List Network → Option Address → Option Bool
  in_networks networks none = none
  in_networks networks (some a) = some (any (is_in a) networks)

  unfoldable pub peer_is_trusted_proxy : Settings Network → Option Text → Option Bool
  peer_is_trusted_proxy settings none = some false
  peer_is_trusted_proxy settings (some direct) = elim settings.trusted_proxy_networks [
    | none ↦ some false
    | some networks ↦ in_networks networks (ip_address direct)
  ]

  -- The direct peer's address.
  abbrev pub direct_of : Connection → Option Text
  direct_of conn = parse_ip conn.host

  unfoldable pub is_trusted_proxy_peer : Settings Network → Connection → Option Bool
  is_trusted_proxy_peer settings conn =
      if settings.trusted_proxy_enabled
      then peer_is_trusted_proxy settings (direct_of conn)
      else some false

  unfoldable pub forwarded : Settings Network → Connection → Option Text
  forwarded settings conn =
      or_direct
        (parse_ip (from_right settings.trusted_proxy_hops (entries is_space conn.forwarded_for)))
        (direct_of conn)

  -- `if header:`, whose valid value wins.
  unfoldable pub by_header : Connection → Text → Option Text → Option Text
  by_header conn [] otherwise = otherwise
  by_header conn (c ∷ cs) otherwise = or_direct (parse_ip (conn.header (c ∷ cs))) otherwise

  unfoldable pub client_ip_of : Settings Network → Connection → Option Bool → Option (Option Text)
  client_ip_of settings conn none = none
  client_ip_of settings conn (some false) = some (direct_of conn)
  client_ip_of settings conn (some true) = some (
      by_header conn (strip is_space settings.trusted_proxy_client_ip_header)
        (forwarded settings conn))

  -- `none` is an exception.
  unfoldable pub client_ip : Settings Network → Option Connection → Option (Option Text)
  client_ip settings none = some none
  client_ip settings (some conn) = client_ip_of settings conn (is_trusted_proxy_peer settings conn)
