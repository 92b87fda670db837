-- ===== src/Lifecycle/Machine.antt =====
-- Which rows the statements can produce, and between which states they move a transaction.
use mathlib.Core.Option
use transaction_monitoring_s.Prelude.{
  ℕ, ◌*◌, ◌≡◌, refl, String, Bool, true, false, Option, none, some, [], arith, str_eq, eq_iff, ◌&&◌,
  if◌then◌else◌, is_some, inl, inr, Bool-cases,
}
use transaction_monitoring_s.Prelude.Assoc.{
  lookup, insert, map_rows, lookup-insert, lookup-map_rows, Distinct, insert-Distinct,
  map_rows-Distinct, survive, lookup-delete_rows, delete_rows-Distinct,
}
use transaction_monitoring_s.Lifecycle.{
  Status, pending, confirmed, rolled_back, dropped, Row, Table, Confirmation,
  upsert_lifecycle_pending, confirm_row, upsert_lifecycle_confirmed, roll_back_row,
  mark_lifecycle_rolled_back, drop_row, mark_dropped_pending_txs, prune_terminal_lifecycle,
  is_terminal, after_slot, is_confirmed, is_pending, seen_before, is_expired,
}

-- What the columns say of each state.
abbrev pub IsCoherent : Row → Type 0
IsCoherent r = StateOf r.status
  where
    StateOf : Status → Type 0
    StateOf pending =
        (is_some r.first_seen_at ≡ true)
        × (r.slot ≡ none)
        × (r.rolled_back_at ≡ none)
        × (r.dropped_at ≡ none)
    StateOf confirmed =
        (is_some r.slot ≡ true)
        × (is_some r.confirmed_at ≡ true)
        × (r.rolled_back_at ≡ none)
        × (is_some r.block_hash ≡ true)
    StateOf rolled_back =
        (is_some r.slot ≡ true)
        × (is_some r.confirmed_at ≡ true)
        × (is_some r.rolled_back_at ≡ true)
    StateOf dropped =
        (is_some r.first_seen_at ≡ true) × (r.slot ≡ none) × (is_some r.dropped_at ≡ true)

confirm_row-IsCoherent :
    (now : ℕ) (c : Confirmation) (o : Option Row) → IsCoherent (confirm_row now c o)
unfolding confirm_row
confirm_row-IsCoherent now c none = (refl, refl, refl, refl)
confirm_row-IsCoherent now c (some r) = (refl, refl, refl, refl)

roll_back_row-IsCoherent :
    (now s : ℕ) (n : String) (r : Row) → IsCoherent r → IsCoherent (roll_back_row now s n r)
unfolding roll_back_row
roll_back_row-IsCoherent now s n r h = ground arith

drop_row-IsCoherent :
    (now : ℕ) (n : String) (age : ℕ) (r : Row) → IsCoherent r → IsCoherent (drop_row now n age r)
unfolding drop_row
drop_row-IsCoherent now n age r h = ground arith

-- One statement on the table.
pub data Step : Table → Table → Type 0 where
  seen :
      (now : ℕ) (tx network : String) (at : ℕ) (t : Table)
      → Step t (upsert_lifecycle_pending now tx network at t)
  confirm : (now : ℕ) (c : Confirmation) (t : Table) → Step t (upsert_lifecycle_confirmed now c t)
  roll_back :
      (now slot : ℕ) (network : String) (t : Table)
      → Step t (mark_lifecycle_rolled_back now slot network t)
  drop :
      (now : ℕ) (network : String) (age : ℕ) (t : Table)
      → Step t (mark_dropped_pending_txs now network age t)
  prune :
      (now : ℕ) (network : String) (days : ℕ) (t : Table)
      → Step t (prune_terminal_lifecycle now network days t)

pub data Reach (s : Table) : Table → Type 0 where
  here : Reach s s
  next : {t u : Table} → Reach s t → Step t u → Reach s u

abbrev IsCoherent? : Option Row → Type 0
IsCoherent? none = Unit
IsCoherent? (some r) = IsCoherent r

-- One row for each transaction, each coherent.
pub record IsValid (t : Table) : Type 0 where
  pub distinct : Distinct t
  pub coherent : (k : String) → IsCoherent? (lookup k t)

coherent_map :
    (f : Row → Row)
    → ((r : Row) → IsCoherent r → IsCoherent (f r))
    → (o : Option Row) → IsCoherent? o
    → IsCoherent? (Option.map f o)
coherent_map f h none c = tt
coherent_map f h (some r) c = h r c

coherent_survive : (p : Row → Bool) (o : Option Row) → IsCoherent? o → IsCoherent? (survive p o)
coherent_survive p none c = tt
coherent_survive p (some r) c = ground arith

coherent_insert :
    (tx k : String) (r : Row) (o : Option Row)
    → IsCoherent r
    → IsCoherent? o
    → IsCoherent? (if str_eq tx k then some r else o)
coherent_insert tx k r o h c = elim (Bool-cases (str_eq tx k)) [ inl e ↦ rw e h | inr e ↦ rw e c ]

map_rows-IsValid :
    (f : Row → Row) (t : Table)
    → ((r : Row) → IsCoherent r → IsCoherent (f r))
    → IsValid t
    → IsValid (map_rows f t)
map_rows-IsValid f t h v = record {
  distinct = map_rows-Distinct f t v.distinct;
  coherent = λ k. rw (lookup-map_rows f k t) (coherent_map f h (lookup k t) (v.coherent k));
}

insert-IsValid :
    (tx : String) (r : Row) (t : Table) → IsCoherent r → IsValid t → IsValid (insert tx r t)
insert-IsValid tx r t h v = record {
  distinct = insert-Distinct tx r t v.distinct;
  coherent =
      λ k. rw (lookup-insert tx k r t) (coherent_insert tx k r (lookup k t) h (v.coherent k));
}

pub Step-IsValid : {t u : Table} → Step t u → IsValid t → IsValid u
Step-IsValid (seen now tx network at t) v = elim (Bool-cases (is_some (lookup tx t))) [
  | inl old ↦ unfold upsert_lifecycle_pending in rw old v
  | inr new ↦
      unfold upsert_lifecycle_pending in rw new (insert-IsValid tx _ t (refl, refl, refl, refl) v)
]
Step-IsValid (confirm now c t) v =
    unfold upsert_lifecycle_confirmed in
    insert-IsValid c.tx_id (confirm_row now c (lookup c.tx_id t)) t
      (confirm_row-IsCoherent now c (lookup c.tx_id t)) v
Step-IsValid (roll_back now slot network t) v =
    unfold mark_lifecycle_rolled_back in
    map_rows-IsValid (roll_back_row now slot network) t (roll_back_row-IsCoherent now slot network)
      v
Step-IsValid (drop now network age t) v =
    unfold mark_dropped_pending_txs in
    map_rows-IsValid (drop_row now network age) t (drop_row-IsCoherent now network age) v
Step-IsValid (prune now network days t) v =
    unfold prune_terminal_lifecycle in
    record {
      distinct = delete_rows-Distinct _ t v.distinct;
      coherent = λ k.
          rw (lookup-delete_rows _ k t v.distinct) (coherent_survive _ (lookup k t) (v.coherent k));
    }

-- After any statements in any order, from an empty table, there is one row for each transaction and
-- its columns agree with its state: a PENDING row has a first sighting and no slot; a CONFIRMED row
-- has its block, slot and time of confirmation and no rollback time; a ROLLED_BACK row has both
-- times and the slot; a DROPPED row has its first sighting, its drop time and no slot.
pub Reach-IsValid : {t : Table} → Reach [] t → IsValid t
Reach-IsValid here = record { distinct = tt; coherent = λ k. unfold lookup in tt }
Reach-IsValid (next r s) = Step-IsValid s (Reach-IsValid r)

abbrev pub status? : Option Row → Option Status
status? none = none
status? (some r) = some r.status

-- The statements by their kind.
pub data Statement : Type 0 where
  sighting confirmation rollback expiry pruning : Statement

unfoldable pub statement : {t u : Table} → Step t u → Statement
statement (seen now tx network at t) = sighting
statement (confirm now c t) = confirmation
statement (roll_back now slot network t) = rollback
statement (drop now network age t) = expiry
statement (prune now network days t) = pruning

-- The moves of one transaction that each statement may make.
pub data Moves : Statement → Option Status → Option Status → Type 0 where
  stays : (a : Statement) (s : Option Status) → Moves a s s
  sighted : Moves sighting none (some pending)
  mined : (s : Option Status) → Moves confirmation s (some confirmed)
  orphaned : Moves rollback (some confirmed) (some rolled_back)
  expired : Moves expiry (some pending) (some dropped)
  forgotten : (s : Status) → is_terminal s ≡ true → Moves pruning (some s) none

Moves-confirm :
    (now : ℕ) (c : Confirmation) (o : Option Row) (s : Option Status)
    → Moves confirmation s (status? (some (confirm_row now c o)))
unfolding confirm_row
Moves-confirm now c none s = mined s
Moves-confirm now c (some r) s = mined s

Moves-roll_back :
    (now slot : ℕ) (network : String) (o : Option Row)
    → Moves rollback (status? o) (status? (Option.map (roll_back_row now slot network) o))
unfolding roll_back_row
Moves-roll_back now slot network none = stays rollback none
Moves-roll_back now slot network (some r) =
    elim (Bool-cases
      (str_eq r.network network && after_slot slot r.slot && is_confirmed r.status)) [
        | inl hit ↦ let e : r.status ≡ confirmed = ground arith in rw (hit, e) orphaned
        | inr miss ↦ rw miss (stays rollback (some r.status))
      ]

Moves-drop :
    (now : ℕ) (network : String) (age : ℕ) (o : Option Row)
    → Moves expiry (status? o) (status? (Option.map (drop_row now network age) o))
unfolding drop_row
Moves-drop now network age none = stays expiry none
Moves-drop now network age (some r) =
    elim (Bool-cases (
      str_eq r.network network
      && is_pending r.status
      && seen_before now (age * 1000) r.first_seen_at)) [
        | inl hit ↦ let e : r.status ≡ pending = ground arith in rw (hit, e) expired
        | inr miss ↦ rw miss (stays expiry (some r.status))
      ]

Moves-prune :
    (now : ℕ) (network : String) (days : ℕ) (o : Option Row)
    → Moves pruning (status? o) (status? (survive (is_expired now network days) o))
Moves-prune now network days none = stays pruning none
Moves-prune now network days (some r) = elim (Bool-cases (is_expired now network days r)) [
  | inl hit ↦ rw hit (forgotten r.status (ground arith))
  | inr miss ↦ rw miss (stays pruning (some r.status))
]

Moves-seen :
    (tx k : String) (r : Row) (t : Table)
    → r.status ≡ pending
    → lookup tx t ≡ none
    → Moves sighting (status? (lookup k t)) (status? (if str_eq tx k then some r else lookup k t))
Moves-seen tx k r t p e = elim (Bool-cases (str_eq tx k)) [
  | inl same ↦ rw (same, p, ← (eq_iff tx k).0 same, e) sighted
  | inr other ↦ rw other (stays sighting _)
]

none_of_is_some : (o : Option Row) → is_some o ≡ false → o ≡ none
none_of_is_some o h = ground arith

-- On a table with one row for each transaction, a statement moves each transaction along an edge
-- of the state machine that is its own, or leaves its state: only a sighting makes one PENDING, and
-- one that was not there; only a confirmation makes one CONFIRMED; only a rollback makes one
-- ROLLED_BACK, and a CONFIRMED one; only the expiry makes one DROPPED, and a PENDING one; and only
-- the pruning deletes, and ROLLED_BACK and DROPPED ones.
pub Step-Moves :
    {t u : Table} (k : String) (step : Step t u)
    → Distinct t
    → Moves (statement step) (status? (lookup k t)) (status? (lookup k u))
unfolding statement
Step-Moves k (seen now tx network at t) d = elim (Bool-cases (is_some (lookup tx t))) [
  | inl old ↦ unfold upsert_lifecycle_pending in rw old (stays sighting _)
  | inr new ↦
      unfold upsert_lifecycle_pending in
      rw (new, lookup-insert) (Moves-seen tx k _ t refl (none_of_is_some (lookup tx t) new))
]
Step-Moves k (confirm now c t) d =
    unfold upsert_lifecycle_confirmed in
    rw lookup-insert (elim (Bool-cases (str_eq c.tx_id k)) [
      | inl same ↦ rw same (Moves-confirm now c (lookup c.tx_id t) _)
      | inr other ↦ rw other (stays confirmation _)
    ])
Step-Moves k (roll_back now slot network t) d =
    unfold mark_lifecycle_rolled_back in
    rw lookup-map_rows (Moves-roll_back now slot network (lookup k t))
Step-Moves k (drop now network age t) d =
    unfold mark_dropped_pending_txs in rw lookup-map_rows (Moves-drop now network age (lookup k t))
Step-Moves k (prune now network days t) d =
    unfold prune_terminal_lifecycle in
    rw (lookup-delete_rows _ k t d) (Moves-prune now network days (lookup k t))
