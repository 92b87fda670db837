-- ===== src/Resilience/Reconnect.antt =====
-- `run_with_reconnect` and `_reset_if_stable` of backend/app/ingestion/resilience.py. One element
-- of the run is one round of the `while`: what the clock said at each reading and how `connect`
-- and `run_session` ended. The two `except` branches differ in their log line only.
pub mod Outage
use transaction_monitoring_s.Prelude.{
  ℕ, ◌+◌, Bool, true, false, List, [], ◌∷◌, ◌++◌, leb, if◌then◌else◌,
}
use transaction_monitoring_s.Resilience.Breaker
use transaction_monitoring_s.Resilience.Breaker.{CircuitBreaker}
use transaction_monitoring_s.Resilience.Backoff
use transaction_monitoring_s.Resilience.Backoff.{ExponentialBackoff}

-- How the `try` of a round ends.
pub data Outcome : Type 0 where
  connect_raised session_raised session_returned : Outcome

pub record Round : Type 0 where
  pub polled_at : ℕ
  pub session_start : ℕ
  pub outcome : Outcome
  pub ended_at : ℕ
  pub failed_at : ℕ

pub record Client : Type 0 where
  pub breaker : CircuitBreaker
  pub backoff : ExponentialBackoff
  pub connected : Bool

-- What the loop does outside its own state.
pub data Action : Type 0 where
  sleep : ℕ → Action
  connect : Action
  close : Action

-- A healthy session resets both parts.
abbrev pub recover : Client → Client
recover c = record c {
  breaker = Breaker.record_success c.breaker;
  backoff = Backoff.reset c.backoff;
}

unfoldable pub reset_if_stable : ℕ → Round → Client → Client × Bool
reset_if_stable stable_reset r c =
    if leb stable_reset 0
    then (c, false)
    else if leb (r.session_start + stable_reset) r.ended_at
    then (recover c, true)
    else (c, false)

module _ (uniform : ℕ → ℕ → ℕ) (poll stable_reset : ℕ) where
  -- The body of an `except`, then `close()` of the `finally`.
  unfoldable pub after_error : Round → Client → Client × List Action
  unfolding reset_if_stable
  after_error r c =
      let (c', self_healed) = reset_if_stable stable_reset r (record c { connected = false }) in
      let b = if self_healed then c'.breaker else Breaker.record_failure r.failed_at c'.breaker in
      let (backoff', total) = Backoff.wait uniform c'.backoff in
      (record c' { breaker = b; backoff = backoff' }, sleep total ∷ close ∷ [])

  -- After `connect()` returned: connected, and without a stability threshold a success.
  unfoldable pub after_connect : Client → Client
  after_connect c =
      if leb stable_reset 0
      then recover (record c { connected = true })
      else record c { connected = true }

  unfoldable pub attempt : Round → Client → Client × List Action
  unfolding after_error after_connect
  attempt r c = elim r.outcome [
    | connect_raised ↦ after_error r c
    | session_raised ↦ after_error r (after_connect c)
    | session_returned ↦ (after_connect c, close ∷ [])
  ]

  unfoldable pub iterate : Round → Client → Client × List Action
  unfolding attempt
  iterate r c =
      let (b, granted) = Breaker.can_attempt r.polled_at c.breaker in
      let (c', done) = attempt r (record c { breaker = b }) in
      if granted then (c', connect ∷ done) else (record c { breaker = b }, sleep poll ∷ [])

  unfoldable pub run_with_reconnect : List Round → Client → Client × List Action
  run_with_reconnect [] c = (c, [])
  run_with_reconnect (r ∷ rs) c =
      let (c', done) = iterate r c in
      let (c'', rest) = run_with_reconnect rs c' in (c'', done ++ rest)
