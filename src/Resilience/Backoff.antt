-- ===== src/Resilience/Backoff.antt =====
-- `ExponentialBackoff` of backend/app/ingestion/resilience.py. Delays are natural numbers of one
-- fixed unit, and the jitter factor is in hundredths (0.3 is 30). `math.ceil(math.log2(q))` and
-- `random.uniform` are Python's: they are arguments, with the documented bounds as hypotheses
-- where a lemma needs them.
pub mod Ceiling
use transaction_monitoring_s.Prelude.{ℕ, ◌+◌, ◌*◌, ◌/◌, ◌^◌, min, leb, if◌then◌else◌, ◌||◌}

-- `_exponent_ceiling`; `ceil_log2 m b` is `math.ceil(math.log2(m / b))`.
unfoldable pub exponent_ceiling : (ℕ → ℕ → ℕ) → ℕ → ℕ → ℕ
exponent_ceiling ceil_log2 base_delay max_delay =
    if leb base_delay 0 || leb max_delay base_delay then 0 else ceil_log2 max_delay base_delay

pub record ExponentialBackoff : Type 0 where
  pub base_delay : ℕ
  pub max_delay : ℕ
  pub jitter_factor : ℕ
  pub attempt : ℕ
  pub max_exponent : ℕ

-- `__init__`
unfoldable pub init : (ℕ → ℕ → ℕ) → ℕ → ℕ → ℕ → ExponentialBackoff
unfolding exponent_ceiling
init ceil_log2 base_delay max_delay jitter_factor = record {
  base_delay = base_delay;
  max_delay = max_delay;
  jitter_factor = jitter_factor;
  attempt = 0;
  max_exponent = exponent_ceiling ceil_log2 base_delay max_delay;
}

-- The wait before the jitter.
unfoldable pub delay : ExponentialBackoff → ℕ
delay b = min (b.base_delay * 2 ^ min b.attempt b.max_exponent) b.max_delay

-- `wait`: the new state, and how long it slept; `uniform lo hi` is the draw.
unfoldable pub wait : (ℕ → ℕ → ℕ) → ExponentialBackoff → ExponentialBackoff × ℕ
unfolding delay
wait uniform b =
    let d = delay b in
    let jitter = uniform 0 (d * b.jitter_factor / 100) in
    (record b { attempt = b.attempt + 1 }, d + jitter)

unfoldable pub reset : ExponentialBackoff → ExponentialBackoff
reset b = record b { attempt = 0 }
