-- ===== src/KupoClient.antt =====
-- Which transactions touched an address: backend/app/ingestion/kupo_client.py. The answers of Kupo
-- are arguments, with `none` for a field that is absent or of another type.
pub mod Lookup
pub mod Collected
pub mod Cut
pub mod Newest
use text.Mathlib.Text.{is_le}
use Prim.Native.String.{compare}
use transaction_monitoring_s.Prelude.{
  ℕ, zero, ◌-◌, String, Bool, true, false, Option, none, some, List, [], ◌∷◌, ◌++◌, keep, take, any,
  not, ltb, leb, ◌==◌, ◌&&◌, ◌||◌, if◌then◌else◌, str_eq,
}

pub record TxPoint : Type 0 where
  pub tx_hash : String
  pub slot : ℕ
  pub header_hash : String

-- Where one object of Kupo's stands: `created_at`, `spent_at` or a checkpoint.
pub record Point : Type 0 where
  pub slot_no : Option ℕ
  pub header_hash : Option String

pub record Spent : Type 0 where
  pub transaction_id : Option String
  pub point : Point

pub record Match : Type 0 where
  pub transaction_id : Option String
  pub created_at : Option Point
  pub spent_at : Option Spent

-- The request fails, the body is no list, or it is one; an entry may be no object.
pub data Answer : Type 0 where
  request_failed : Answer
  not_a_list : Answer
  matches : List (Option Match) → Answer

abbrev pub ChainPoint : Type 0
ChainPoint = ℕ × String

abbrev pub fields : Option ℕ → Option String → Option ChainPoint
fields (some slot) (some header) = if str_eq header "" then none else some (slot, header)
fields (some slot) none = none
fields none header = none

unfoldable pub point_fields : Option Point → Option ChainPoint
point_fields none = none
point_fields (some p) = fields p.slot_no p.header_hash

-- The first point of a hash stays.
unfoldable pub set_default : TxPoint → List TxPoint → List TxPoint
set_default p acc = if any (λ q. str_eq q.tx_hash p.tx_hash) acc then acc else acc ++ p ∷ []

-- The point of a hash, when both can be used.
abbrev pub tx_point : String → Option ChainPoint → Option TxPoint
tx_point h none = none
tx_point h (some (slot, header)) = some (record { tx_hash = h; slot = slot; header_hash = header })

abbrev pub usable : Option String → Option Point → Option TxPoint
usable none point = none
usable (some h) point = if str_eq h "" then none else tx_point h (point_fields point)

abbrev pub collect_usable : Option TxPoint → List TxPoint → List TxPoint
collect_usable none acc = acc
collect_usable (some p) acc = set_default p acc

unfoldable pub collect : List TxPoint → Option String → Option Point → List TxPoint
collect acc tx_hash point = collect_usable (usable tx_hash point) acc

abbrev pub collect_spent : List TxPoint → Option Spent → List TxPoint
collect_spent acc none = acc
collect_spent acc (some spent) = collect acc spent.transaction_id (some spent.point)

-- The loop over the matches.
unfoldable pub collect_all : List TxPoint → List (Option Match) → List TxPoint
collect_all acc [] = acc
collect_all acc (none ∷ found) = collect_all acc found
collect_all acc (some m ∷ found) =
    collect_all (collect_spent (collect acc m.transaction_id m.created_at) m.spent_at) found

-- `reverse=True` on the key `(p.slot, p.tx_hash)`.
abbrev pub is_before : TxPoint → TxPoint → Bool
is_before p q = ltb q.slot p.slot || (p.slot == q.slot && is_le (compare q.tx_hash p.tx_hash))

unfoldable pub insert_point : TxPoint → List TxPoint → List TxPoint
insert_point p [] = p ∷ []
insert_point p (q ∷ qs) =
    let rest = insert_point p qs in if is_before p q then p ∷ q ∷ qs else q ∷ rest

-- `sorted`, by insertion.
unfoldable pub newest_first : List TxPoint → List TxPoint
newest_first [] = []
newest_first (p ∷ ps) = insert_point p (newest_first ps)

abbrev pub is_below : Option ℕ → TxPoint → Bool
is_below none p = true
is_below (some bound) p = ltb p.slot bound

abbrev pub cut : Option ℕ → List TxPoint → List TxPoint
cut none ps = ps
cut (some max_txs) ps = take max_txs ps

-- `none` is a `KupoError`.
unfoldable pub address_tx_points : Option ℕ → Option ℕ → Answer → Option (List TxPoint)
address_tx_points max_txs created_before_slot request_failed = none
address_tx_points max_txs created_before_slot not_a_list = none
address_tx_points max_txs created_before_slot (matches found) =
    some (cut max_txs (keep (is_below created_before_slot) (newest_first (collect_all [] found))))

-- Kupo's checkpoints, by the slot that is asked for.
unfoldable pub ancestor_point : (ℕ → Option Point) → ℕ → Option ChainPoint
ancestor_point checkpoint before_slot =
    if before_slot == 0 then none else point_fields (checkpoint (before_slot - 1))
