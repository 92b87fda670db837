-- ===== src/Lifecycle/Rollback.antt =====
-- What a rollback does to the lifecycle table.
use mathlib.Core.Option
use transaction_monitoring_s.Prelude.{
  ℕ, ◌≤◌, ◌≡◌, refl, String, Bool, Option, none, some, [], ◌∷◌, arith, str_eq, ◌&&◌, false,
}
use transaction_monitoring_s.Prelude.Assoc.{lookup, map_rows, lookup-map_rows}
use transaction_monitoring_s.Lifecycle.{
  Row, Table, roll_back_row, mark_lifecycle_rolled_back, after_slot, is_confirmed,
}

-- The row is on the abandoned part of a network's chain.
abbrev pub is_orphan : String → ℕ → Row → Bool
is_orphan network s r = str_eq r.network network && after_slot s r.slot && is_confirmed r.status

roll_back_row-canonical :
    (now s : ℕ) (network : String) (o : Option Row) {r : Row}
    → Option.map (roll_back_row now s network) o ≡ some r
    → is_orphan network s r ≡ false
unfolding roll_back_row
roll_back_row-canonical now s network none h = cc
roll_back_row-canonical now s network (some q) h = ground arith

-- After a rollback to slot `s` no row of the network is CONFIRMED at a later slot.
pub rollback-canonical :
    (now s : ℕ) (network k : String) (t : Table) {r : Row}
    → lookup k (mark_lifecycle_rolled_back now s network t) ≡ some r
    → is_orphan network s r ≡ false
unfolding mark_lifecycle_rolled_back
rollback-canonical now s network k t h =
    roll_back_row-canonical now s network (lookup k t) (rw lookup-map_rows at h)

roll_back_row_again :
    (now later s s' : ℕ) (network : String) (r : Row)
    → s ≤ s'
    → roll_back_row later s' network (roll_back_row now s network r) ≡ roll_back_row now s network r
unfolding roll_back_row
roll_back_row_again now later s s' network r h = ground arith

-- A rollback that the node sends again, or one to a later slot that follows it, changes nothing
-- more: no row is rolled back twice, and the rollback times stay those of the first.
rollback_again :
    (now later s s' : ℕ) (network : String) (t : Table)
    → s ≤ s'
    → mark_lifecycle_rolled_back later s' network (mark_lifecycle_rolled_back now s network t)
      ≡ mark_lifecycle_rolled_back now s network t
unfolding mark_lifecycle_rolled_back map_rows
rollback_again now later s s' network [] h = refl
rollback_again now later s s' network ((k, r) ∷ t) h =
    cc (roll_back_row_again now later s s' network r h, rollback_again now later s s' network t h)
