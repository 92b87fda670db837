-- ===== src/Tests/KupoClient.antt =====
-- An address with three transactions: one is listed twice, one has no header, and one is too new.
use transaction_monitoring_s.Prelude.{ℕ, String, ◌≡◌, refl, Option, none, some, List, [], ◌∷◌}
use transaction_monitoring_s.KupoClient.{
  TxPoint, Point, Match, matches, address_tx_points, newest_first, insert_point, collect_all,
  collect, set_default, point_fields,
}
use transaction_monitoring_s.KupoClient.Newest.{IsNewest, address_tx_points-IsNewest}

abbrev at : ℕ → Point
at slot = record { slot_no = some slot; header_hash = some "f" }

abbrev created : String → ℕ → Match
created h slot = record { transaction_id = some h; created_at = some (at slot); spent_at = none }

abbrev spent : Match
spent = record (created "a" 10) {
  spent_at = some (record { transaction_id = some "b"; point = at 20 });
}

abbrev headless : Match
headless = record (created "d" 15) {
  created_at = some (record { slot_no = some 15; header_hash = none });
}

abbrev found : List (Option Match)
found =
    some (created "a" 10)
    ∷ none
    ∷ some spent
    ∷ some headless
    ∷ some (created "c" 20)
    ∷ some (created "e" 30)
    ∷ []

abbrev point : String → ℕ → TxPoint
point h slot = record { tx_hash = h; slot = slot; header_hash = "f" }

newest_two :
    address_tx_points (some 2) (some 30) (matches found) ≡ some (point "c" 20 ∷ point "b" 20 ∷ [])
unfolding address_tx_points newest_first insert_point collect_all collect set_default point_fields
newest_two = refl

address_tx_points-IsNewest_example :
    (ps : List TxPoint) × (address_tx_points (some 2) (some 30) (matches found) ≡ some ps)
    × IsNewest (some 2) (some 30) found ps
address_tx_points-IsNewest_example = address_tx_points-IsNewest (some 2) (some 30) found
