-- ===== src/Tests/ChainTime.antt =====
-- Two eras, of 20 second slots and of one second slots.
use transaction_monitoring_s.Prelude.{◌≡◌, refl, none, some, [], ◌∷◌}
use transaction_monitoring_s.Prelude.Int.{pos}
use transaction_monitoring_s.ChainTime.{
  Era, SlotTimeConverter, find_era, time_of, slot_to_utc, from_summaries, init, sort_eras,
  insert_era,
}

abbrev byron : Era
byron = record { start_slot = 0; start_offset = 0; slot_length = 20_000; end_slot = some 100 }

abbrev shelley : Era
shelley = record {
  start_slot = 100;
  start_offset = 2_000_000;
  slot_length = 1000;
  end_slot = some 500;
}

abbrev converter : SlotTimeConverter
converter = record { system_start = 5; eras = byron ∷ shelley ∷ [] }

sorted : from_summaries 5 (shelley ∷ byron ∷ []) ≡ some converter
unfolding from_summaries init sort_eras insert_era
sorted = refl

early : slot_to_utc converter (some (pos 99)) ≡ some 1_980_005
unfolding slot_to_utc find_era time_of
early = refl

late : slot_to_utc converter (some (pos 101)) ≡ some 2_001_005
unfolding slot_to_utc find_era time_of
late = refl

beyond : slot_to_utc converter (some (pos 500)) ≡ none
unfolding slot_to_utc find_era time_of
beyond = refl
