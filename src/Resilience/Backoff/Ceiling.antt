-- ===== src/Resilience/Backoff/Ceiling.antt =====
-- The cap on the exponent changes no wait, and the waits are bounded.
use transaction_monitoring_s.Prelude.{
  ℕ, zero, suc, ◌+◌, ◌*◌, ◌/◌, ◌^◌, ◌≤◌, ◌<◌, ◌≡◌, min, true, false, ◌||◌, leb, arith,
}
use transaction_monitoring_s.Resilience.Backoff.{ExponentialBackoff, init, delay, wait}
use native.Mathlib.Decide.{dec_le}
use native.Mathlib.Nat.{pow-suc}

pow-pos : (n : ℕ) → 1 ≤ 2 ^ n
pow-pos zero = omega arith
pow-pos (suc n) = omega (arith, pow-suc 2 n, pow-pos n)

pow_mono : (m n : ℕ) → m ≤ n → 2 ^ m ≤ 2 ^ n
pow_mono zero n h = pow-pos n
pow_mono (suc m) zero h = absurd (omega arith)
pow_mono (suc m) (suc n) h = omega (arith, pow-suc 2 m, pow-suc 2 n, pow_mono m n (omega arith))

scale_mono : (b m n : ℕ) → m ≤ n → b * 2 ^ m ≤ b * 2 ^ n
scale_mono b m n h = let p = pow_mono m n h in grind arith

-- An exponent at which the maximum is reached may cap every larger one.
cap : (b m e n : ℕ) → m ≤ b * 2 ^ e → min (b * 2 ^ min n e) m ≡ min (b * 2 ^ n) m
cap b m e n h = elim (dec_le n e) [
  | yes p ↦ let q : min n e ≡ n = omega arith in rw q
  | no p ↦ let q : min n e ≡ e = omega arith in rw q (omega (arith, scale_mono b e n (omega arith)))
]

-- Documented behaviour of `ceil(log2(m / b))`.
abbrev pub IsCeilLog : (ℕ → ℕ → ℕ) → Type 0
IsCeilLog f = (m b : ℕ) → 0 < b → b < m → m ≤ b * 2 ^ f m b

-- `attempt` failed waits after a reset.
abbrev pub after : ℕ → ExponentialBackoff → ExponentialBackoff
after n b = record b { attempt = n }

-- If the ceiling of the logarithm is no less than the logarithm, the delay of any attempt is what
-- it would be with no cap on the exponent.
delay-uncapped :
    (ceil_log2 : ℕ → ℕ → ℕ) (base_delay max_delay jitter_factor n : ℕ)
    → IsCeilLog ceil_log2
    → delay (after n (init ceil_log2 base_delay max_delay jitter_factor))
      ≡ min (base_delay * 2 ^ n) max_delay
unfolding delay init
delay-uncapped ceil_log2 base_delay max_delay jitter_factor n h = elim (dec_le base_delay 0) [
  | yes p ↦ let z : base_delay ≡ 0 = omega arith in rw z (ground arith)
  | no p ↦ elim (dec_le max_delay base_delay) [
    | yes q ↦
        let t : (leb base_delay 0 || leb max_delay base_delay) ≡ true = ground arith in
        rw t (cap base_delay max_delay 0 n (omega arith))
    | no q ↦
        let t : (leb base_delay 0 || leb max_delay base_delay) ≡ false = ground arith in
        rw t (
          cap base_delay max_delay (ceil_log2 max_delay base_delay) n
            (h max_delay base_delay (omega arith) (omega arith)))
  ]
]

-- A draw of `random.uniform` lies between its arguments.
abbrev pub IsDraw : (ℕ → ℕ → ℕ) → Type 0
IsDraw f = (lo hi : ℕ) → lo ≤ hi → (lo ≤ f lo hi) × (f lo hi ≤ hi)

-- If the random draw keeps to its bounds, a wait sleeps at least the delay and at most the maximum
-- and its jitter, and the delay of the next attempt is no shorter.
wait_bounds :
    (uniform : ℕ → ℕ → ℕ) (b : ExponentialBackoff)
    → IsDraw uniform
    → (delay b ≤ (wait uniform b).1)
      × ((wait uniform b).1 ≤ b.max_delay + b.max_delay * b.jitter_factor / 100)
      × (delay b ≤ delay (wait uniform b).0)
unfolding wait
wait_bounds uniform b h =
    let d : delay b ≤ b.max_delay = unfold delay in omega arith in
    let m : delay b * b.jitter_factor ≤ b.max_delay * b.jitter_factor = grind arith in
    let u = h 0 (delay b * b.jitter_factor / 100) (omega arith) in
    (
      omega arith,
      omega arith,
      unfold delay in
          omega (
            arith,
            scale_mono b.base_delay (min b.attempt b.max_exponent)
                (min (b.attempt + 1) b.max_exponent) (omega arith),
          ),
    )
