-- ===== src/ChainTime/Monotone.antt =====
-- The converted times keep the order of the slots across the eras.
use transaction_monitoring_s.Prelude.{
  ℕ, ◌+◌, ◌-◌, ◌*◌, ◌≤◌, ◌<◌, ◌≡◌, refl, none, some, List, [], ◌∷◌, arith, leb, if◌then◌else◌,
  Bool-cases, inl, inr, leb→le,
}
use transaction_monitoring_s.Prelude.Int.{pos}
use transaction_monitoring_s.ChainTime.{
  Era, SlotTimeConverter, find_era, time_in, time_of, slot_to_utc,
}

-- Each era begins where the one before it has got to, and slots take time.
abbrev pub IsTimeline : Era → List Era → Type 0
IsTimeline e [] = 0 < e.slot_length
IsTimeline e (f ∷ fs) =
    (0 < e.slot_length)
    × (e.start_slot ≤ f.start_slot)
    × (f.start_offset ≡ e.start_offset + (f.start_slot - e.start_slot) * e.slot_length)
    × IsTimeline f fs

-- The time at a slot, from the first era on.
abbrev clock : ℕ → Era → List Era → ℕ
clock s e [] = time_in s e
clock s e (f ∷ fs) = let rest = clock s f fs in if leb f.start_slot s then rest else time_in s e

scale_lt : (a b n : ℕ) → a < b → 0 < n → a * n < b * n
scale_lt a b n h k = grind arith

time_in_lt :
    (s t : ℕ) (e : Era) → e.start_slot ≤ s → s < t → 0 < e.slot_length → time_in s e < time_in t e
time_in_lt s t e h k p =
    omega (arith, scale_lt (s - e.start_slot) (t - e.start_slot) e.slot_length (omega arith) p)

clock-ge :
    (s : ℕ) (e : Era) (es : List Era)
    → e.start_slot ≤ s
    → IsTimeline e es
    → e.start_offset ≤ clock s e es
clock-ge s e [] h l = omega arith
clock-ge s e (f ∷ fs) h l = ground (arith, clock-ge s f fs)

clock_lt :
    (s t : ℕ) (e : Era) (es : List Era)
    → e.start_slot ≤ s
    → s < t
    → IsTimeline e es
    → clock s e es < clock t e es
clock_lt s t e [] h k l = time_in_lt s t e h k l
clock_lt s t e (f ∷ fs) h k l = ground (
  arith,
  clock_lt s t f fs,
  time_in_lt s t e h k l.0,
  time_in_lt s f.start_slot e h,
  clock-ge t f fs,
)

time_of-none : (system_start s : ℕ) → time_of system_start s none ≡ none
unfolding time_of
time_of-none system_start s = refl

find_era-clock :
    (system_start s : ℕ) (e : Era) (es : List Era) {t : ℕ}
    → time_of system_start s (find_era s (some (e, es)) es) ≡ some t
    → t ≡ system_start + clock s e es
unfolding find_era time_of
find_era-clock system_start s e [] h = ground arith
find_era-clock system_start s e (f ∷ fs) {t} h = elim (Bool-cases (leb f.start_slot s)) [
  | inl b ↦ rw b (find_era-clock system_start s f fs (rw b at h))
  | inr b ↦
      let k : time_of system_start s (some (e, f ∷ fs)) ≡ some t = rw b at h in
      rw b (ground (arith, k))
]

-- A converted slot is the clock's reading.
slot_to_utc-clock :
    (c : SlotTimeConverter) (s : ℕ) (e : Era) (es : List Era) {t : ℕ}
    → c.eras ≡ e ∷ es
    → slot_to_utc c (some (pos s)) ≡ some t
    → (e.start_slot ≤ s) × (t ≡ c.system_start + clock s e es)
unfolding slot_to_utc find_era
slot_to_utc-clock c s e es {t} h k =
    let k' : slot_to_utc (record c { eras = e ∷ es }) (some (pos s)) ≡ some t = rw h at k in
    elim (Bool-cases (leb e.start_slot s)) [
      | inl b ↦ (leb→le e.start_slot s b, find_era-clock c.system_start s e es (rw b at k'))
      | inr b ↦ absurd (cc (time_of-none c.system_start s, rw b at k'))
    ]

-- On contiguous eras the conversion is strictly increasing, within an era and across eras: of two
-- slots that both convert, the later one has the later time.
pub slot_to_utc_lt :
    (c : SlotTimeConverter) (e : Era) (es : List Era) (s s' : ℕ) {t t' : ℕ}
    → c.eras ≡ e ∷ es
    → IsTimeline e es
    → s < s'
    → slot_to_utc c (some (pos s)) ≡ some t
    → slot_to_utc c (some (pos s')) ≡ some t'
    → t < t'
slot_to_utc_lt c e es s s' h l lt k k' =
    let (from, a) = slot_to_utc-clock c s e es h k in
    let (from', b) = slot_to_utc-clock c s' e es h k' in omega (arith, clock_lt s s' e es from lt l)
