-- ===== src/Resilience/Reconnect/Outage.antt =====
-- What a run of the loop does through an outage.
use transaction_monitoring_s.Prelude.{
  ℕ, ◌+◌, ◌≤◌, ◌<◌, ◌≡◌, ◌≢◌, refl, ◌∙◌, false, List, [], ◌∷◌, arith, leb, length, map, All,
  if◌then◌else◌, length-map,
}
use transaction_monitoring_s.Resilience.Breaker
use transaction_monitoring_s.Resilience.Breaker.{
  CircuitBreaker, closed, opened, can_attempt, record_failure, record_success,
}
use transaction_monitoring_s.Resilience.Breaker.Trip.{
  fail_all, fail_all-state, InWindow, Burst, record_failure-Burst, length-record_failure,
  record_failure_config, init-Burst,
}
use transaction_monitoring_s.Resilience.Backoff.{wait, reset}
use transaction_monitoring_s.Resilience.Reconnect.{
  session_raised, session_returned, Round, Client, attempt, iterate, run_with_reconnect,
}

-- A round whose session dies before the stability threshold.
abbrev pub IsFast : ℕ → Round → Type 0
IsFast stable_reset r =
    (r.outcome ≢ session_returned) × (r.ended_at < r.session_start + stable_reset)

module _ (uniform : ℕ → ℕ → ℕ) (poll stable_reset : ℕ) where
  attempt-fast :
      (r : Round) (c : Client)
      → 0 < stable_reset
      → IsFast stable_reset r
      → ((attempt uniform poll stable_reset r c).0.breaker ≡ record_failure r.failed_at c.breaker)
        × ((attempt uniform poll stable_reset r c).0.connected ≡ false)
        × ((attempt uniform poll stable_reset r c).0.backoff ≡ (wait uniform c.backoff).0)
  unfolding attempt
  attempt-fast r c h f = ground arith

  -- The breaker grants the poll without a change.
  iterate-closed :
      (r : Round) (c : Client)
      → c.breaker.state ≡ closed
      → (iterate uniform poll stable_reset r c).0 ≡ (attempt uniform poll stable_reset r c).0
  unfolding iterate can_attempt
  iterate-closed r c h = ground arith

  closed_of_lt :
      (first : ℕ) (b : CircuitBreaker)
      → Burst first b
      → length b.failures < b.failure_threshold
      → b.state ≡ closed
  closed_of_lt first b u h = u.tally ∙ ground arith

  -- With a stability threshold, sessions that die fast count as failures although the handshake
  -- succeeds: through at most `failure_threshold` such rounds, failing inside one window, the
  -- breaker of a fresh client records every failure and the backoff grows by one each time.
  run-fast :
      (first : ℕ) (rs : List Round) (c : Client)
      → 0 < stable_reset
      → Burst first c.breaker
      → length c.breaker.failures + length rs ≤ c.breaker.failure_threshold
      → All (IsFast stable_reset) rs
      → InWindow first c.breaker.failure_window (map (λ r. r.failed_at) rs)
      → ((run_with_reconnect uniform poll stable_reset rs c).0.breaker
          ≡ fail_all (map (λ r. r.failed_at) rs) c.breaker)
        × ((run_with_reconnect uniform poll stable_reset rs c).0.backoff.attempt
            ≡ c.backoff.attempt + length rs)
  unfolding run_with_reconnect fail_all
  run-fast first [] c h u room fast times = (refl, omega arith)
  run-fast first (r ∷ rs) c h u room fast times =
      let b = c.breaker in
      let c' = (iterate uniform poll stable_reset r c).0 in
      let e = iterate-closed r c (closed_of_lt first b u (omega arith)) in
      let a = attempt-fast r c h fast.0 in
      let eb : c'.breaker ≡ record_failure r.failed_at b = rw e a.0 in
      let ek : c'.backoff.attempt ≡ c.backoff.attempt + 1 = rw (e, a.2) (unfold wait in refl) in
      let conf = record_failure_config r.failed_at b in
      let (ih, ik) =
        run-fast first rs c' h
          (rw eb (record_failure-Burst first r.failed_at b times.0.0 times.0.1 u))
          (rw (eb, conf.0)
            (omega (arith, length-record_failure first r.failed_at b times.0.0 times.0.1 u)))
          fast.1 (rw (eb, conf.1) times.1) in
      (rw (ih, eb), omega (arith, ik, ek))

  -- With a stability threshold and a fresh breaker, an outage of at most `threshold` rounds, in
  -- which every session dies fast and all failures lie in one window, opens the breaker exactly
  -- with the round number `threshold`, although every handshake may succeed, and each round adds
  -- one to the backoff's attempts.
  pub outage-opened :
      (first threshold window cooldown : ℕ) (rs : List Round) (c : Client)
      → 0 < stable_reset
      → 0 < threshold
      → length rs ≤ threshold
      → c.breaker ≡ Breaker.init threshold window cooldown
      → All (IsFast stable_reset) rs
      → InWindow first window (map (λ r. r.failed_at) rs)
      → ((run_with_reconnect uniform poll stable_reset rs c).0.breaker.state
          ≡ (if leb threshold (length rs) then opened else closed))
        × ((run_with_reconnect uniform poll stable_reset rs c).0.backoff.attempt
            ≡ c.backoff.attempt + length rs)
  outage-opened first threshold window cooldown rs c h ht room fresh fast times =
      let u : Burst first c.breaker = rw fresh (init-Burst first threshold window cooldown ht) in
      let (eb, ek) =
        run-fast first rs c h u (rw fresh (unfold Breaker.init in omega arith)) fast
          (rw fresh (unfold Breaker.init in times)) in
      (
        rw (eb, fresh)
            (fail_all-state first threshold window cooldown (map (λ r. r.failed_at) rs) ht times
              ∙ rw (length-map {0, 0} rs (λ r. r.failed_at))),
        ek,
      )

-- Closed, with at most one failure in memory.
abbrev pub IsQuiet : CircuitBreaker → Type 0
IsQuiet b = (b.state ≡ closed) × (length b.failures ≤ 1) × (2 ≤ b.failure_threshold)

module _ (uniform : ℕ → ℕ → ℕ) (poll : ℕ) where
  iterate-legacy :
      (r : Round) (c : Client)
      → r.outcome ≡ session_raised
      → IsQuiet c.breaker
      → IsQuiet (iterate uniform poll 0 r c).0.breaker
        × ((iterate uniform poll 0 r c).0.backoff.attempt ≡ 1)
  unfolding iterate attempt can_attempt record_success record_failure reset wait
  iterate-legacy r c h q = ground arith

  -- With no stability threshold the handshake counts as a success: after one or more sessions that
  -- all die after it, a closed breaker with a threshold of two or more and at most one failure in
  -- memory is still such a breaker, and the backoff is at its first step.
  legacy-IsQuiet :
      (r : Round) (rs : List Round) (c : Client)
      → IsQuiet c.breaker
      → r.outcome ≡ session_raised
      → All (λ q. q.outcome ≡ session_raised) rs
      → IsQuiet (run_with_reconnect uniform poll 0 (r ∷ rs) c).0.breaker
        × ((run_with_reconnect uniform poll 0 (r ∷ rs) c).0.backoff.attempt ≡ 1)
  unfolding run_with_reconnect
  legacy-IsQuiet r [] c q h hs = iterate-legacy r c h q
  legacy-IsQuiet r (s ∷ rs) c q h hs =
      legacy-IsQuiet s rs (iterate uniform poll 0 r c).0 (iterate-legacy r c h q).0 hs.0 hs.1
