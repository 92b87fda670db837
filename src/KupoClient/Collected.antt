-- ===== src/KupoClient/Collected.antt =====
-- The points that the loop of `address_tx_points` of backend/app/ingestion/kupo_client.py collects.
use transaction_monitoring_s.Prelude.{
  ◌≡◌, refl, String, true, Option, none, some, List, [], ◌∷◌, ◌++◌, any, str_eq, eq_iff, arith,
  Bool-cases, inl, inr, sym, ◌∙◌, ap,
}
use transaction_monitoring_s.KupoClient.{
  TxPoint, Match, usable, collect, collect_usable, collect_spent, collect_all, set_default, Spent,
}
use transaction_monitoring_s.KupoClient.Lookup.{
  or_else, point_of, Distinct, point_of-append, point_of-any, point_of-none,
}

-- The usable points of the matches, as they come: what a match creates, then what spends it.
abbrev pub one : Option TxPoint → List TxPoint
one none = []
one (some p) = p ∷ []

abbrev pub spent_points : Option Spent → List TxPoint
spent_points none = []
spent_points (some s) = one (usable s.transaction_id (some s.point))

abbrev pub points : List (Option Match) → List TxPoint
points [] = []
points (none ∷ found) = points found
points (some m ∷ found) =
    one (usable m.transaction_id m.created_at) ++ (spent_points m.spent_at ++ points found)

-- `acc'` has, besides the points of `acc`, the first of each new hash of `ps`.
pub record Adds (acc ps acc' : List TxPoint) : Type 0 where
  pub lookup : (h : String) → point_of h acc' ≡ or_else (point_of h acc) (point_of h ps)
  pub distinct : Distinct acc → Distinct acc'

or_else_assoc : (a b c : Option TxPoint) → or_else (or_else a b) c ≡ or_else a (or_else b c)
or_else_assoc none b c = refl
or_else_assoc (some p) b c = refl

or_else-none : (a : Option TxPoint) → or_else a none ≡ a
or_else-none none = refl
or_else-none (some p) = refl

Adds-none : (acc : List TxPoint) → Adds acc [] acc
Adds-none acc = record { lookup = λ h. sym (or_else-none (point_of h acc)); distinct = λ d. d }

Adds-append :
    {a b c : List TxPoint} (ps qs : List TxPoint) → Adds a ps b → Adds b qs c → Adds a (ps ++ qs) c
Adds-append {a} {b} {c} ps qs x y = record {
  lookup = λ h.
      y.lookup h
      ∙ ap (λ (o : Option TxPoint). or_else o (point_of h qs)) (x.lookup h)
      ∙ or_else_assoc (point_of h a) (point_of h ps) (point_of h qs)
      ∙ ap (or_else (point_of h a)) (sym (point_of-append h ps qs));
  distinct = λ d. y.distinct (x.distinct d);
}

snoc-Distinct :
    (p : TxPoint) (acc : List TxPoint)
    → point_of p.tx_hash acc ≡ none
    → Distinct acc
    → Distinct (acc ++ p ∷ [])
snoc-Distinct p [] e d = (refl, tt)
snoc-Distinct p (q ∷ acc) e d =
    let (apart, gone) = point_of-none p.tx_hash q acc e in
    (
      point_of-append q.tx_hash acc (p ∷ [])
          ∙ ground (arith, apart, d.0, eq_iff q.tx_hash p.tx_hash, eq_iff p.tx_hash q.tx_hash),
      snoc-Distinct p acc gone d.1,
    )

-- A hash that is there has a point.
known :
    (h : String) (acc : List TxPoint) (o : Option TxPoint)
    → any (λ q. str_eq q.tx_hash h) acc ≡ true
    → or_else (point_of h acc) o ≡ point_of h acc
known h [] o e = cc
known h (q ∷ acc) o e = elim (Bool-cases (str_eq q.tx_hash h)) [
  | inl f ↦ rw f refl
  | inr f ↦ rw f (known h acc o (ground (arith, e, f)))
]

set_default-Adds : (p : TxPoint) (acc : List TxPoint) → Adds acc (p ∷ []) (set_default p acc)
unfolding set_default
set_default-Adds p acc = elim (Bool-cases (any (λ q. str_eq q.tx_hash p.tx_hash) acc)) [
  | inr e ↦ rw e (record {
    lookup = λ h. point_of-append h acc (p ∷ []);
    distinct = λ d. snoc-Distinct p acc (point_of-any p.tx_hash acc e) d;
  })
  | inl e ↦ rw e (record {
    lookup = λ h. elim (Bool-cases (str_eq p.tx_hash h)) [
      | inr f ↦ rw f (sym (or_else-none (point_of h acc)))
      | inl f ↦
          let same : h ≡ p.tx_hash = sym ((eq_iff p.tx_hash h).0 f) in
          sym (known h acc _ (ap (λ (z : String). any (λ q. str_eq q.tx_hash z) acc) same ∙ e))
    ];
    distinct = λ d. d;
  })
]

collect_usable-Adds :
    (o : Option TxPoint) (acc : List TxPoint) → Adds acc (one o) (collect_usable o acc)
collect_usable-Adds none acc = Adds-none acc
collect_usable-Adds (some p) acc = set_default-Adds p acc

collect_spent-Adds :
    (s : Option Spent) (acc : List TxPoint) → Adds acc (spent_points s) (collect_spent acc s)
unfolding collect
collect_spent-Adds none acc = Adds-none acc
collect_spent-Adds (some s) acc = collect_usable-Adds _ acc

pub collect_all-Adds :
    (found : List (Option Match)) (acc : List TxPoint)
    → Adds acc (points found) (collect_all acc found)
unfolding collect_all collect
collect_all-Adds [] acc = Adds-none acc
collect_all-Adds (none ∷ found) acc = collect_all-Adds found acc
collect_all-Adds (some m ∷ found) acc =
    Adds-append _ _ (collect_usable-Adds _ acc)
      (Adds-append _ _ (collect_spent-Adds m.spent_at _) (collect_all-Adds found _))
