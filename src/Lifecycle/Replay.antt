-- ===== src/Lifecycle/Replay.antt =====
-- A block that is persisted again after a crash before its checkpoint.
use transaction_monitoring_s.Prelude.{
  ℕ, ◌≡◌, refl, String, Option, none, some, List, [], ◌∷◌, arith, str_eq, eq_iff, if◌then◌else◌,
}
use transaction_monitoring_s.Prelude.Assoc.{lookup, lookup-insert}
use transaction_monitoring_s.Lifecycle.{
  Row, Table, Confirmation, confirm_row, upsert_lifecycle_confirmed,
  batch_upsert_lifecycle_confirmed,
}

-- The confirmation of a transaction in a block.
unfoldable pub find : String → List Confirmation → Option Confirmation
find k [] = none
find k (c ∷ cs) = if str_eq c.tx_id k then some c else find k cs

-- A block names no transaction twice.
abbrev pub Distinct : List Confirmation → Type 0
Distinct [] = Unit
Distinct (c ∷ cs) = (find c.tx_id cs ≡ none) × Distinct cs

abbrev pub confirm? : ℕ → Option Confirmation → Option Row → Option Row
confirm? now none o = o
confirm? now (some c) o = some (confirm_row now c o)

lookup-upsert :
    (now : ℕ) (k : String) (c : Confirmation) (t : Table)
    → lookup k (upsert_lifecycle_confirmed now c t)
      ≡ (if str_eq c.tx_id k then some (confirm_row now c (lookup k t)) else lookup k t)
unfolding upsert_lifecycle_confirmed
lookup-upsert now k c t =
    ground
      (arith, lookup-insert c.tx_id k (confirm_row now c (lookup c.tx_id t)) t, eq_iff c.tx_id k)

-- The batch is, for each transaction, its own confirmation on its own row.
pub lookup-batch :
    (now : ℕ) (k : String) (cs : List Confirmation) (t : Table)
    → Distinct cs
    → lookup k (batch_upsert_lifecycle_confirmed now cs t) ≡ confirm? now (find k cs) (lookup k t)
unfolding batch_upsert_lifecycle_confirmed find
lookup-batch now k [] t d = refl
lookup-batch now k (c ∷ cs) t d = ground (
  arith,
  lookup-batch now k cs (upsert_lifecycle_confirmed now c t) d.1,
  lookup-upsert now k c t,
  eq_iff c.tx_id k,
)

-- The same transactions, perhaps at another time.
abbrev pub IsReplay : List Confirmation → List Confirmation → Type 0
IsReplay [] [] = Unit
IsReplay (c ∷ cs) (d ∷ ds) = (c.tx_id ≡ d.tx_id) × (c.network ≡ d.network) × IsReplay cs ds
IsReplay _ _ = ⊥

confirm_row_again :
    (now later : ℕ) (c d : Confirmation) (o : Option Row)
    → c.network ≡ d.network
    → confirm_row later d (some (confirm_row now c o)) ≡ confirm_row later d o
unfolding confirm_row
confirm_row_again now later c d o h = ground arith

confirm?_again :
    (now later : ℕ) (k : String) (cs ds : List Confirmation) (o : Option Row)
    → IsReplay cs ds
    → confirm? later (find k ds) (confirm? now (find k cs) o) ≡ confirm? later (find k ds) o
unfolding find
confirm?_again now later k [] [] o h = refl
confirm?_again now later k (c ∷ cs) (d ∷ ds) o h =
    ground (arith, confirm_row_again now later c d o h.1, confirm?_again now later k cs ds o h.2)
confirm?_again now later k [] (d ∷ ds) o h = absurd h
confirm?_again now later k (c ∷ cs) [] o h = absurd h

-- A block without a repeated transaction that is persisted a second time, at a later time and
-- perhaps in another block, leaves every row as if it had been persisted the second time only: the
-- first sighting, and the latency from it, survive the replay.
pub batch_replay :
    (now later : ℕ) (k : String) (cs ds : List Confirmation) (t : Table)
    → Distinct cs
    → Distinct ds
    → IsReplay cs ds
    → lookup k
        (batch_upsert_lifecycle_confirmed later ds (batch_upsert_lifecycle_confirmed now cs t))
      ≡ lookup k (batch_upsert_lifecycle_confirmed later ds t)
batch_replay now later k cs ds t dc dd h =
    rw
      (
        lookup-batch later k ds (batch_upsert_lifecycle_confirmed now cs t) dd,
        lookup-batch later k ds t dd,
        lookup-batch now k cs t dc,
      )
      (confirm?_again now later k cs ds (lookup k t) h)
