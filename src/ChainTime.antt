-- ===== src/ChainTime.antt =====
-- `SlotTimeConverter` of backend/app/ingestion/chain_time.py, from the era summaries on; the shapes
-- of the JSON that `from_ogmios` reads are left out. Offsets, slot lengths and the system start are
-- milliseconds, the unit of `slotLength`.
pub mod Monotone
use transaction_monitoring_s.Prelude.{
  ℕ, ◌+◌, ◌-◌, ◌*◌, Bool, true, false, Option, none, some, List, [], ◌∷◌, leb, ltb, any, ◌&&◌, ◌||◌,
  if◌then◌else◌,
}
use transaction_monitoring_s.Prelude.Int.{ℤ, pos, negsuc}

-- The last summary's `end_slot` is the forecast horizon; none means unbounded.
pub record Era : Type 0 where
  pub start_slot : ℕ
  pub start_offset : ℕ
  pub slot_length : ℕ
  pub end_slot : Option ℕ

pub record SlotTimeConverter : Type 0 where
  pub system_start : ℕ
  pub eras : List Era

-- `sorted(eras, key=lambda e: e[0])`
unfoldable pub insert_era : Era → List Era → List Era
insert_era e [] = e ∷ []
insert_era e (f ∷ fs) =
    let rest = insert_era e fs in if leb e.start_slot f.start_slot then e ∷ f ∷ fs else f ∷ rest

unfoldable pub sort_eras : List Era → List Era
sort_eras [] = []
sort_eras (e ∷ es) = insert_era e (sort_eras es)

unfoldable pub init : ℕ → List Era → SlotTimeConverter
init system_start eras = record { system_start = system_start; eras = sort_eras eras }

-- `from_ogmios`, after the summaries are read: none if there is no era, or one whose slots have no
-- length.
unfoldable pub from_summaries : ℕ → List Era → Option SlotTimeConverter
from_summaries system_start [] = none
from_summaries system_start (e ∷ es) =
    if any (λ f. leb f.slot_length 0) (e ∷ es) then none else some (init system_start (e ∷ es))

-- The loop over the candidates, from the last one that began, kept with the eras after it.
unfoldable pub find_era : ℕ → Option (Era × List Era) → List Era → Option (Era × List Era)
find_era slot found [] = found
find_era slot found (e ∷ es) =
    let next = find_era slot (some (e, es)) es in if leb e.start_slot slot then next else found

-- `era is self._eras[-1] and end_slot is not None and slot >= end_slot`
abbrev pub is_past : ℕ → Option ℕ → List Era → Bool
is_past slot (some end) [] = leb end slot
is_past slot none [] = false
is_past slot end (e ∷ es) = false

abbrev pub time_in : ℕ → Era → ℕ
time_in slot e = e.start_offset + (slot - e.start_slot) * e.slot_length

unfoldable pub time_of : ℕ → ℕ → Option (Era × List Era) → Option ℕ
time_of system_start slot none = none
time_of system_start slot (some (e, later)) =
    if is_past slot e.end_slot later then none else some (system_start + time_in slot e)

unfoldable pub slot_to_utc : SlotTimeConverter → Option ℤ → Option ℕ
slot_to_utc c none = none
slot_to_utc c (some (negsuc n)) = none
slot_to_utc c (some (pos slot)) = time_of c.system_start slot (find_era slot none c.eras)
