-- ===== src/Notify/Triggers/Routing.antt =====
-- Which rule wins, and what the dispatches of an alert are.
use transaction_monitoring_s.Prelude.{
  ◌≡◌, refl, inl, inr, String, Bool, true, false, Option, none, some, List, [], ◌∷◌, ◌++◌, arith,
  str_eq, eq_iff, ◌&&◌, any, if◌then◌else◌, All, Bool-cases, ◌||◌,
}
use transaction_monitoring_s.Notify.Triggers.{
  Rule, Config, Dispatch, mem, channel_enabled, rule_matches, match_from, match_rule, selection,
  selected_channels, route, route_all, resolve_dispatch, resolve_recipients, add_unseen, expand,
  has_target, members, Recipient, cons?, resolve_rule_recipients, resolve_webhook_url,
}

match_from-append :
    (o : Option Rule) (band cls : String) (xs ys : List Rule)
    → match_from o band cls (xs ++ ys) ≡ match_from (match_from o band cls xs) band cls ys
unfolding match_from
match_from-append o band cls [] ys = refl
match_from-append o band cls (x ∷ xs) ys =
    match_from-append (if rule_matches band cls x then some x else o) band cls xs ys

match_from-none :
    (o : Option Rule) (band cls : String) (rules : List Rule)
    → All (λ r. rule_matches band cls r ≡ false) rules
    → match_from o band cls rules ≡ o
unfolding match_from
match_from-none o band cls [] h = refl
match_from-none o band cls (r ∷ rules) h = rw h.0 (match_from-none o band cls rules h.1)

-- Of the rules that match, the last in file order is taken: the earlier ones have no effect, and
-- later ones that do not match have none either.
match_rule_last :
    (band cls : String) (earlier later : List Rule) (rule : Rule)
    → rule_matches band cls rule ≡ true
    → All (λ r. rule_matches band cls r ≡ false) later
    → match_rule (earlier ++ rule ∷ later) band cls ≡ some rule
unfolding match_rule
match_rule_last band cls earlier later rule hit miss =
    rw (match_from-append none band cls earlier (rule ∷ later))
      (unfold match_from in rw hit (match_from-none (some rule) band cls later miss))

-- No element twice.
abbrev pub Unique : List String → Type 0
Unique [] = Unit
Unique (x ∷ xs) = (mem x xs ≡ false) × Unique xs

mem-append : (x y : String) (xs : List String) → mem x (xs ++ y ∷ []) ≡ mem x xs || str_eq y x
mem-append x y [] = ground arith
mem-append x y (z ∷ xs) = ground (arith, mem-append x y xs)

Unique-append :
    (x : String) (xs : List String) → Unique xs → mem x xs ≡ false → Unique (xs ++ x ∷ [])
Unique-append x [] u h = (refl, tt)
Unique-append x (y ∷ ys) u h =
    ground (arith, Unique-append x ys u.1, mem-append y x ys, eq_iff x y, eq_iff y x)

add_unseen-Unique : (out ms : List String) → Unique out → Unique (add_unseen out ms)
unfolding add_unseen
add_unseen-Unique out [] u = u
add_unseen-Unique out (m ∷ ms) u = elim (Bool-cases (mem m out)) [
  | inl old ↦ rw old (add_unseen-Unique out ms u)
  | inr new ↦ rw new (add_unseen-Unique (out ++ m ∷ []) ms (Unique-append m out u new))
]

add_unseen-mem :
    (x : String) (out ms : List String) → mem x (add_unseen out ms) ≡ mem x out || mem x ms
unfolding add_unseen
add_unseen-mem x out [] = ground arith
add_unseen-mem x out (m ∷ ms) = elim (Bool-cases (mem m out)) [
  | inl old ↦ rw old (ground (arith, add_unseen-mem x out ms, eq_iff m x))
  | inr new ↦ rw new (ground (arith, add_unseen-mem x (out ++ m ∷ []) ms, mem-append x m out))
]

expand-Unique :
    (c : Config) (out : List String) (rs : List Recipient) → Unique out → Unique (expand c out rs)
unfolding expand
expand-Unique c out [] u = u
expand-Unique c out (r ∷ rs) u =
    expand-Unique c (add_unseen out (members c r)) rs (add_unseen-Unique out (members c r) u)

expand-mem :
    (c : Config) (x : String) (out : List String) (rs : List Recipient)
    → mem x (expand c out rs) ≡ mem x out || any (λ r. mem x (members c r)) rs
unfolding expand
expand-mem c x out [] = ground arith
expand-mem c x out (r ∷ rs) =
    ground
      (arith, expand-mem c x (add_unseen out (members c r)) rs, add_unseen-mem x out (members c r))

-- The resolved recipients are those of the entries, groups expanded, each once.
resolve_recipients_lem :
    (c : Config) (rs : List Recipient)
    → Unique (resolve_recipients c rs)
      × ((x : String) → mem x (resolve_recipients c rs) ≡ any (λ r. mem x (members c r)) rs)
unfolding resolve_recipients
resolve_recipients_lem c rs = (expand-Unique c [] rs tt, λ x. expand-mem c x [] rs)

-- A channel can deliver an alert: enabled, with recipients or a URL.
abbrev pub can_deliver : Config → Option Rule → String → Bool
can_deliver c rule name =
    channel_enabled c name
    && has_target (resolve_rule_recipients c name rule) (resolve_webhook_url c name rule)

abbrev pub dispatched : String → List Dispatch → Bool
dispatched name = any (λ d. str_eq d.channel name)

absorb : (a b : Bool) → (a || b && a) ≡ a
absorb true b = refl
absorb false true = refl
absorb false false = refl

cons?-dispatched :
    (c : Config) (rule : Option Rule) (name n : String) (ds : List Dispatch)
    → dispatched name (cons? (route c rule n) ds)
      ≡ (str_eq n name && can_deliver c rule n) || dispatched name ds
unfolding route
cons?-dispatched c rule name n ds = ground arith

route_all-dispatched :
    (c : Config) (rule : Option Rule) (name : String) (names : List String)
    → dispatched name (route_all c rule names) ≡ mem name names && can_deliver c rule name
unfolding route_all
route_all-dispatched c rule name [] = refl
route_all-dispatched c rule name (n ∷ names) =
    rw (cons?-dispatched, route_all-dispatched c rule name names)
      (elim (Bool-cases (str_eq n name)) [
        | inl same ↦
            rw (same, (eq_iff n name).0 same) (absorb (can_deliver c rule name) (mem name names))
        | inr other ↦ rw other
      ])

selection-rule :
    (c : Config) (band cls : String) → (selection c band cls).0 ≡ match_rule c.rules band cls
unfolding selection
selection-rule c band cls = ground arith

-- An alert goes to exactly the channels that the config selects for it and that can deliver; so no
-- dispatch at all means that none is selected, or that none of those selected can deliver.
pub resolve_dispatch-dispatched :
    (c : Config) (band cls name : String)
    → dispatched name (resolve_dispatch c band cls)
      ≡ mem name (selected_channels c band cls) && can_deliver c (match_rule c.rules band cls) name
unfolding resolve_dispatch selected_channels
resolve_dispatch-dispatched c band cls name = rw (
  route_all-dispatched c (selection c band cls).0 name (selection c band cls).1,
  selection-rule c band cls,
)
