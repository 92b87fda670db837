-- ===== src/Resilience/Breaker/Trip.antt =====
-- When the breaker trips, and what an open breaker refuses.
use transaction_monitoring_s.Prelude.{
  map, ◌≢◌, ◌∙◌, ap, ℕ, suc, ◌+◌, ◌≤◌, ◌<◌, ◌≡◌, refl, Bool, true, false, List, [], ◌∷◌, ◌++◌,
  arith, leb, length, All, if◌then◌else◌, length-append,
}
use transaction_monitoring_s.Resilience.Breaker.{
  CircuitBreaker, closed, opened, half_open, init, can_attempt, prune, record_failure,
}

-- Failures at the given times, in order.
unfoldable pub fail_all : List ℕ → CircuitBreaker → CircuitBreaker
fail_all [] b = b
fail_all (t ∷ ts) b = fail_all ts (record_failure t b)

-- Polls at the given times, in order.
unfoldable pub poll_all : List ℕ → CircuitBreaker → CircuitBreaker × List Bool
poll_all [] b = (b, [])
poll_all (t ∷ ts) b =
    let (b', granted) = can_attempt t b in let (b'', rest) = poll_all ts b' in (b'', granted ∷ rest)

-- The times lie in one window.
abbrev pub InWindow : ℕ → ℕ → List ℕ → Type 0
InWindow first window = All (λ t. (first ≤ t) × (t ≤ first + window))

prune-InWindow :
    (now window first : ℕ) (ts : List ℕ)
    → now ≤ first + window
    → InWindow first window ts
    → prune now window ts ≡ ts
unfolding prune
prune-InWindow now window first [] h w = refl
prune-InWindow now window first (t ∷ ts) h w =
    ground (arith, prune-InWindow now window first ts h w.1)

InWindow-append :
    (first window now : ℕ) (ts : List ℕ)
    → InWindow first window ts
    → first ≤ now
    → now ≤ first + window
    → InWindow first window (ts ++ now ∷ [])
InWindow-append first window now [] w h k = (omega arith, tt)
InWindow-append first window now (t ∷ ts) w h k = (w.0, InWindow-append first window now ts w.1 h k)

-- Open exactly when the recorded failures reach the threshold.
abbrev pub IsTally : CircuitBreaker → Type 0
IsTally b = b.state ≡ (if leb b.failure_threshold (length b.failures) then opened else closed)

record_failure_lem :
    (first now : ℕ) (b : CircuitBreaker)
    → InWindow first b.failure_window b.failures
    → first ≤ now
    → now ≤ first + b.failure_window
    → IsTally b
    → (record_failure now b).failures ≡ b.failures ++ now ∷ []
unfolding record_failure
record_failure_lem first now b w h k tally = ground (
  arith,
  prune-InWindow now b.failure_window first (b.failures ++ now ∷ []) k
      (InWindow-append first b.failure_window now b.failures w h k),
)

record_failure-IsTally :
    (first now : ℕ) (b : CircuitBreaker)
    → InWindow first b.failure_window b.failures
    → first ≤ now
    → now ≤ first + b.failure_window
    → IsTally b
    → IsTally (record_failure now b)
unfolding record_failure
record_failure-IsTally first now b w h k tally = ground (
  arith,
  prune-InWindow now b.failure_window first (b.failures ++ now ∷ []) k
      (InWindow-append first b.failure_window now b.failures w h k),
  length-append {0} b.failures (now ∷ []),
)

pub record_failure_config :
    (now : ℕ) (b : CircuitBreaker)
    → ((record_failure now b).failure_threshold ≡ b.failure_threshold)
      × ((record_failure now b).failure_window ≡ b.failure_window)
      × ((record_failure now b).cooldown ≡ b.cooldown)
unfolding record_failure
record_failure_config now b = ground arith

-- A breaker in the middle of a burst of failures that began at `first`.
pub record Burst (first : ℕ) (b : CircuitBreaker) : Type 0 where
  pub within : InWindow first b.failure_window b.failures
  pub tally : IsTally b

pub init-Burst :
    (first threshold window cooldown : ℕ)
    → 0 < threshold
    → Burst first (init threshold window cooldown)
unfolding init
init-Burst first threshold window cooldown h = record { within = tt; tally = ground arith }

module _ (first now : ℕ) (b : CircuitBreaker) (after : first ≤ now)
    (inside : now ≤ first + b.failure_window) (u : Burst first b) where
  pub record_failure-Burst : Burst first (record_failure now b)
  record_failure-Burst = record {
    within =
        rw
          (
            record_failure_lem first now b u.within after inside u.tally,
            (record_failure_config now b).1,
          )
          (InWindow-append first b.failure_window now b.failures u.within after inside);
    tally = record_failure-IsTally first now b u.within after inside u.tally;
  }

  pub length-record_failure : length (record_failure now b).failures ≡ suc (length b.failures)
  length-record_failure = omega (
    arith,
    ap length (record_failure_lem first now b u.within after inside u.tally),
    length-append {0} b.failures (now ∷ []),
  )

fail_all-Burst :
    (first : ℕ) (ts : List ℕ) (b : CircuitBreaker)
    → Burst first b
    → InWindow first b.failure_window ts
    → Burst first (fail_all ts b)
      × (length (fail_all ts b).failures ≡ length b.failures + length ts)
      × ((fail_all ts b).failure_threshold ≡ b.failure_threshold)
unfolding fail_all
fail_all-Burst first [] b u v = (u, omega arith, refl)
fail_all-Burst first (t ∷ ts) b u v =
    let c = record_failure_config t b in
    let (u', len, thr) =
      fail_all-Burst first ts (record_failure t b) (record_failure-Burst first t b v.0.0 v.0.1 u)
        (rw c.1 v.1) in
    (u', omega (arith, len, length-record_failure first t b v.0.0 v.0.1 u), thr ∙ c.0)

-- A burst of failures inside one window, from a fresh breaker, opens it exactly when there are at
-- least as many as the threshold; with fewer it stays closed.
pub fail_all-state :
    (first threshold window cooldown : ℕ) (ts : List ℕ)
    → 0 < threshold
    → InWindow first window ts
    → (fail_all ts (init threshold window cooldown)).state
      ≡ (if leb threshold (length ts) then opened else closed)
fail_all-state first threshold window cooldown ts h w =
    let (u, len, thr) =
      fail_all-Burst first ts (init threshold window cooldown)
        (init-Burst first threshold window cooldown h) (unfold init in w) in
    u.tally ∙ rw (len, thr) (unfold init in ground arith)

-- A poll before the end of the cooldown.
poll_all-opened :
    (ts : List ℕ) (b : CircuitBreaker)
    → b.state ≡ opened
    → All (λ t. t < b.opened_at + b.cooldown) ts
    → poll_all ts b ≡ (b, map (λ t. false) ts)
unfolding poll_all can_attempt
poll_all-opened [] b o h = refl
poll_all-opened (t ∷ ts) b o h = ground (arith, poll_all-opened ts b o h.1)

opened_at-record_failure :
    (now : ℕ) (b : CircuitBreaker)
    → b.state ≢ opened
    → (record_failure now b).state ≡ opened
    → (record_failure now b).opened_at ≡ now
unfolding record_failure
opened_at-record_failure now b shut trips = ground arith

can_attempt-late :
    (later : ℕ) (c : CircuitBreaker)
    → c.state ≡ opened
    → c.opened_at + c.cooldown ≤ later
    → can_attempt later c ≡ (record c { state = half_open }, true)
unfolding can_attempt
can_attempt-late later c o h = ground arith

record_failure-half_open :
    (t : ℕ) (b : CircuitBreaker)
    → b.state ≡ half_open
    → ((record_failure t b).state ≡ opened) × ((record_failure t b).opened_at ≡ t)
unfolding record_failure
record_failure-half_open t b h = ground arith

-- A failure that opens a breaker starts a full cooldown: polls before its end are all refused and
-- change nothing, the first poll after it is granted and half-opens the breaker, and a failed
-- probe opens it again, whatever the count, for a full cooldown from the failure.
record_failure-opened :
    (now : ℕ) (b : CircuitBreaker) (ts : List ℕ) (later probe_failed : ℕ)
    → b.state ≢ opened
    → (record_failure now b).state ≡ opened
    → All (λ t. t < now + b.cooldown) ts
    → now + b.cooldown ≤ later
    → (poll_all ts (record_failure now b) ≡ (record_failure now b, map (λ t. false) ts))
      × (can_attempt later (record_failure now b)
          ≡ (record (record_failure now b) { state = half_open }, true))
      × ((record_failure probe_failed (can_attempt later (record_failure now b)).0).state ≡ opened)
      × ((record_failure probe_failed (can_attempt later (record_failure now b)).0).opened_at
          ≡ probe_failed)
record_failure-opened now b ts later probe_failed shut trips early late =
    let c = record_failure now b in
    let at = opened_at-record_failure now b shut trips in
    let cool = (record_failure_config now b).2 in
    let granted = can_attempt-late later c trips (omega arith) in
    let again = record_failure-half_open probe_failed (can_attempt later c).0 (rw granted) in
    (poll_all-opened ts c trips (rw (at, cool) early), granted, again.0, again.1)
