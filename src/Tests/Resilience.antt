-- ===== src/Tests/Resilience.antt =====
-- The reconnect client, on an outage of three rounds.
use native.Mathlib.Nat.{pow-suc}
use transaction_monitoring_s.Prelude.{
  ℕ, zero, suc, ◌+◌, ◌^◌, ◌<◌, ◌≡◌, refl, false, List, [], ◌∷◌, arith,
}
use transaction_monitoring_s.Resilience.Breaker
use transaction_monitoring_s.Resilience.Breaker.{
  CircuitBreaker, closed, opened, half_open, can_attempt, record_failure,
}
use transaction_monitoring_s.Resilience.Backoff.{ExponentialBackoff}
use transaction_monitoring_s.Resilience.Reconnect.{
  Round, Client, session_raised, run_with_reconnect,
}
use transaction_monitoring_s.Resilience.Reconnect.Outage.{outage-opened}

lt_power : (m : ℕ) → m < 2 ^ m
lt_power zero = omega arith
lt_power (suc m) = omega (arith, pow-suc 2 m, lt_power m)

abbrev uniform : ℕ → ℕ → ℕ
uniform lo hi = hi

abbrev backoff : ExponentialBackoff
backoff = record {
  base_delay = 1;
  max_delay = 60;
  jitter_factor = 30;
  attempt = 3;
  max_exponent = 6;
}

-- A session that dies two units after its handshake.
abbrev dies : ℕ → Round
dies t = record {
  polled_at = t;
  session_start = t;
  outcome = session_raised;
  ended_at = t + 2;
  failed_at = t + 2;
}

abbrev outage : List Round
outage = dies 100 ∷ dies 105 ∷ dies 110 ∷ []

abbrev fresh : Client
fresh = record { breaker = Breaker.init 3 60 30; backoff = backoff; connected = false }

outage-opened_example :
    ((run_with_reconnect uniform 5 60 outage fresh).0.breaker.state ≡ opened)
    × ((run_with_reconnect uniform 5 60 outage fresh).0.backoff.attempt ≡ 6)
outage-opened_example =
    outage-opened uniform 5 60 100 3 60 30 outage fresh (omega arith) (omega arith) (omega arith)
      refl ((λ e. cc, omega arith), ((λ e. cc, omega arith), ((λ e. cc, omega arith), tt)))
      (ground arith)
