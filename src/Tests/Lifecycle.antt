-- ===== src/Tests/Lifecycle.antt =====
-- A transaction that is seen, confirmed, rolled back and confirmed again.
use mathlib.Core.Option
use transaction_monitoring_s.Prelude.Int.{pos}
use transaction_monitoring_s.Prelude.{◌≡◌, refl, none, some, [], ◌∷◌}
use transaction_monitoring_s.Prelude.Assoc
use transaction_monitoring_s.Prelude.Assoc.{lookup, insert, map_rows}
use transaction_monitoring_s.Lifecycle.{
  confirmed, rolled_back, Row, Table, Confirmation, upsert_lifecycle_pending,
  upsert_lifecycle_confirmed, batch_upsert_lifecycle_confirmed, confirm_row, roll_back_row,
  mark_lifecycle_rolled_back,
}
use transaction_monitoring_s.Lifecycle.Machine.{
  seen, confirm, roll_back, here, next, IsValid, Moves, rollback, statement, status?, Reach-IsValid,
  Step-Moves,
}
use transaction_monitoring_s.Lifecycle.Replay
use transaction_monitoring_s.Lifecycle.Replay.{find, confirm?, lookup-batch, batch_replay}

abbrev c1 : Confirmation
c1 = record {
  tx_id = "t1";
  network = "preprod";
  confirmed_at = 5000;
  block_hash = "b1";
  slot = 50;
  height = 7;
}

abbrev c2 : Confirmation
c2 = record c1 { tx_id = "t2" }

abbrev later1 : Confirmation
later1 = record c1 { confirmed_at = 9000 }

abbrev later2 : Confirmation
later2 = record c2 { confirmed_at = 9000 }

abbrev seen_t1 : Table
seen_t1 = upsert_lifecycle_pending 1000 "t1" "preprod" 1000 []

abbrev mined_t1 : Table
mined_t1 = upsert_lifecycle_confirmed 5000 c1 seen_t1

abbrev orphan_t1 : Table
orphan_t1 = mark_lifecycle_rolled_back 6000 40 "preprod" mined_t1

mined_t1-latency : Option.map (λ r. r.latency_ms) (lookup "t1" mined_t1) ≡ some (some (pos 4000))
unfolding upsert_lifecycle_confirmed upsert_lifecycle_pending confirm_row lookup insert
mined_t1-latency = refl

Reach-IsValid_example : IsValid orphan_t1
Reach-IsValid_example = Reach-IsValid (
    next (next (next here (seen 1000 "t1" "preprod" 1000 [])) (confirm 5000 c1 seen_t1))
      (roll_back 6000 40 "preprod" mined_t1))

mined_t1-Distinct : Assoc.Distinct mined_t1
mined_t1-Distinct =
    let valid =
      Reach-IsValid
        (next (next here (seen 1000 "t1" "preprod" 1000 [])) (confirm 5000 c1 seen_t1)) in
    valid.distinct

Step-Moves_example :
    Moves rollback (status? (lookup "t1" mined_t1)) (status? (lookup "t1" orphan_t1))
unfolding statement
Step-Moves_example = Step-Moves "t1" (roll_back 6000 40 "preprod" mined_t1) mined_t1-Distinct

-- The row of `c1` after the rollback.
abbrev orphan_row : Row
orphan_row = record {
  network = "preprod";
  status = rolled_back;
  first_seen_at = none;
  confirmed_at = some 5000;
  rolled_back_at = some 6000;
  dropped_at = none;
  block_hash = some "b1";
  slot = some 50;
  height = some 7;
  latency_ms = none;
  updated_at = 6000;
}

abbrev mined_row : Row
mined_row = record orphan_row { status = confirmed; rolled_back_at = none; updated_at = 5000 }

orphan_row_found :
    lookup "t1" (mark_lifecycle_rolled_back 6000 40 "preprod" (("t1", mined_row) ∷ []))
    ≡ some orphan_row
unfolding mark_lifecycle_rolled_back map_rows roll_back_row lookup
orphan_row_found = refl

block-Distinct : Replay.Distinct (c1 ∷ c2 ∷ [])
unfolding find
block-Distinct = (refl, (refl, tt))

replay-Distinct : Replay.Distinct (later1 ∷ later2 ∷ [])
unfolding find
replay-Distinct = (refl, (refl, tt))

batch_replay_example :
    lookup "t1" (
      batch_upsert_lifecycle_confirmed 9000
        (later1 ∷ later2 ∷ [])
        (batch_upsert_lifecycle_confirmed 5000 (c1 ∷ c2 ∷ []) seen_t1))
    ≡ lookup "t1" (batch_upsert_lifecycle_confirmed 9000 (later1 ∷ later2 ∷ []) seen_t1)
batch_replay_example =
    batch_replay 5000 9000 "t1" (c1 ∷ c2 ∷ []) (later1 ∷ later2 ∷ []) seen_t1 block-Distinct
      replay-Distinct (refl, refl, (refl, refl, tt))
