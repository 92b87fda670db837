-- ===== src/Notify/Triggers.antt =====
-- backend/app/notifications/triggers.py, with the accessors of backend/app/notifications/config.py
-- that it calls. The loaded config document is a record; a recipient entry is already split at its
-- `group:` prefix, and an absent key of the document is the default that the code reads for it.
pub mod Routing
use transaction_monitoring_s.Prelude.{
  String, Bool, true, false, Option, none, some, List, [], ◌∷◌, ◌++◌, str_eq, ◌&&◌, ◌||◌, not, any,
  if◌then◌else◌,
}
use transaction_monitoring_s.Prelude.Assoc.{Assoc, lookup}

pub data Recipient : Type 0 where
  address : String → Recipient
  group : String → Recipient

pub record Rule : Type 0 where
  pub band : String
  pub attack_classes : List String
  pub channels : List String
  pub recipients : Assoc (List Recipient)
  pub webhook_url : String

pub record Channel : Type 0 where
  pub enabled : Bool
  pub recipients : List Recipient
  pub default_url : String

pub record Config : Type 0 where
  pub channels : Assoc Channel
  pub rules : List Rule
  pub defaults : Assoc (List String)
  pub groups : Assoc (List String)

-- `base.Dispatch`
pub record Dispatch : Type 0 where
  pub channel : String
  pub recipients : List String
  pub webhook_url : Option String

-- `x in xs`
abbrev pub mem : String → List String → Bool
mem x = any (λ y. str_eq y x)

unfoldable pub channel_enabled : Config → String → Bool
channel_enabled c name = elim (lookup name c.channels) [ none ↦ false | some spec ↦ spec.enabled ]

-- The members of one entry; an unknown group has none.
abbrev pub members : Config → Recipient → List String
members c (address a) = a ∷ []
members c (group alias) = elim (lookup alias c.groups) [ none ↦ [] | some ms ↦ ms ]

-- The inner loop: what is not in `seen` is appended.
unfoldable pub add_unseen : List String → List String → List String
add_unseen out [] = out
add_unseen out (m ∷ ms) = add_unseen (if mem m out then out else out ++ m ∷ []) ms

unfoldable pub expand : Config → List String → List Recipient → List String
unfolding add_unseen
expand c out [] = out
expand c out (r ∷ rs) = expand c (add_unseen out (members c r)) rs

-- `seen` always has the elements of `out`.
unfoldable pub resolve_recipients : Config → List Recipient → List String
unfolding expand
resolve_recipients c rs = expand c [] rs

unfoldable pub channel_recipients : Config → String → List String
unfolding resolve_recipients
channel_recipients c name =
    resolve_recipients c (elim (lookup name c.channels) [ none ↦ [] | some spec ↦ spec.recipients ])

unfoldable pub webhook_default_url : Config → String
webhook_default_url c = elim (lookup "webhook" c.channels) [
  | none ↦ ""
  | some spec ↦ spec.default_url
]

unfoldable pub rule_matches : String → String → Rule → Bool
rule_matches band attack_class rule = str_eq rule.band band && mem attack_class rule.attack_classes

-- The loop of `_match_rule`, from what matched so far.
unfoldable pub match_from : Option Rule → String → String → List Rule → Option Rule
unfolding rule_matches
match_from matched band attack_class [] = matched
match_from matched band attack_class (rule ∷ rules) =
    match_from (if rule_matches band attack_class rule then some rule else matched) band
      attack_class rules

unfoldable pub match_rule : List Rule → String → String → Option Rule
unfolding match_from
match_rule rules band attack_class = match_from none band attack_class rules

unfoldable pub selection : Config → String → String → Option Rule × List String
selection c band attack_class = elim (match_rule c.rules band attack_class) [
  | some rule ↦ (some rule, rule.channels)
  | none ↦ (none, elim (lookup band c.defaults) [ none ↦ [] | some names ↦ names ])
]

unfoldable pub selected_channels : Config → String → String → List String
selected_channels c band attack_class = (selection c band attack_class).1

unfoldable pub resolve_rule_recipients : Config → String → Option Rule → List String
unfolding channel_recipients
resolve_rule_recipients c channel none = channel_recipients c channel
resolve_rule_recipients c channel (some rule) = elim (lookup channel rule.recipients) [
  | none ↦ channel_recipients c channel
  | some override ↦ resolve_recipients c override
]

-- `url or None`
abbrev pub or_none : String → Option String
or_none url = if str_eq url "" then none else some url

abbrev pub rule_url : Config → Option Rule → Option String
rule_url c none = or_none (webhook_default_url c)
rule_url c (some rule) =
    if str_eq rule.webhook_url "" then or_none (webhook_default_url c) else some rule.webhook_url

unfoldable pub resolve_webhook_url : Config → String → Option Rule → Option String
unfolding webhook_default_url
resolve_webhook_url c channel rule = if str_eq channel "webhook" then rule_url c rule else none

-- `not recipients and not webhook_url`
abbrev pub has_target : List String → Option String → Bool
has_target [] none = false
has_target [] (some url) = not (str_eq url "")
has_target (r ∷ rs) url = true

-- One round of the loop of `resolve_dispatch`.
unfoldable pub route : Config → Option Rule → String → Option Dispatch
route c rule name =
    let recipients = resolve_rule_recipients c name rule in
    let webhook_url = resolve_webhook_url c name rule in
    if not (channel_enabled c name)
    then none
    else if has_target recipients webhook_url
    then some (record { channel = name; recipients = recipients; webhook_url = webhook_url })
    else none

abbrev pub cons? : Option Dispatch → List Dispatch → List Dispatch
cons? none ds = ds
cons? (some d) ds = d ∷ ds

unfoldable pub route_all : Config → Option Rule → List String → List Dispatch
route_all c rule [] = []
route_all c rule (name ∷ names) = cons? (route c rule name) (route_all c rule names)

unfoldable pub resolve_dispatch : Config → String → String → List Dispatch
resolve_dispatch c band attack_class =
    let (rule, names) = selection c band attack_class in route_all c rule names
