-- ===== src/Resilience/Breaker.antt =====
-- `CircuitBreaker` of backend/app/ingestion/resilience.py. The monotonic clock is read by the
-- caller and passed in; times are natural numbers of one fixed unit. Python's `now - t <= w` is
-- written `now ≤ t + w`, which is the same statement with no subtraction.
pub mod Trip
use transaction_monitoring_s.Prelude.{
  ℕ, ◌+◌, ◌≡◌, refl, Bool, true, false, List, [], ◌∷◌, ◌++◌, leb, length, keep, if◌then◌else◌,
}

-- `opened` is OPEN, a reserved word here.
pub data CircuitState : Type 0 where
  closed opened half_open : CircuitState

pub record CircuitBreaker : Type 0 where
  pub failure_threshold : ℕ
  pub failure_window : ℕ
  pub cooldown : ℕ
  pub state : CircuitState
  pub failures : List ℕ
  pub opened_at : ℕ

-- `__init__`
unfoldable pub init : ℕ → ℕ → ℕ → CircuitBreaker
init threshold window cooldown = record {
  failure_threshold = threshold;
  failure_window = window;
  cooldown = cooldown;
  state = closed;
  failures = [];
  opened_at = 0;
}

unfoldable pub can_attempt : ℕ → CircuitBreaker → CircuitBreaker × Bool
can_attempt now b = elim b.state [
  | closed ↦ (b, true)
  | opened ↦
      if leb (b.opened_at + b.cooldown) now
      then (record b { state = half_open }, true)
      else (b, false)
  | half_open ↦ (b, true)
]

-- The failures that are no older than the window.
unfoldable pub prune : ℕ → ℕ → List ℕ → List ℕ
prune now window = keep (λ t. leb now (t + window))

unfoldable pub record_failure : ℕ → CircuitBreaker → CircuitBreaker
unfolding prune
record_failure now b =
    let recent = prune now b.failure_window (b.failures ++ now ∷ []) in
    let kept = record b { failures = recent } in
    let tripped = record b { failures = recent; state = opened; opened_at = now } in
    elim b.state [
      | half_open ↦ tripped
      | _ ↦ if leb b.failure_threshold (length recent) then tripped else kept
    ]

unfoldable pub record_success : CircuitBreaker → CircuitBreaker
record_success b = record b { state = closed; failures = [] }
