-- ===== src/RateLimit.antt =====
-- `RateLimiter` of backend/app/rate_limit.py: a sliding window for each identity key. Clock
-- readings are natural numbers of ticks, `resolution` of them to the second, so that the fraction
-- that `int` drops is modelled; windows are whole seconds, as in the source.
pub mod Window
pub mod Grants
pub mod Cleanup
pub mod Middleware
use transaction_monitoring_s.Prelude.{
  ℕ, ◌+◌, ◌-◌, ◌*◌, ◌/◌, String, Bool, true, false, Option, none, some, List, [], ◌∷◌, ◌++◌, leb,
  length, not, ◌||◌, if◌then◌else◌,
}
use transaction_monitoring_s.Prelude.Assoc.{Assoc, lookup, insert, delete_rows}

pub record RateLimiter : Type 0 where
  pub max_requests : ℕ
  pub window_seconds : ℕ
  pub windows : Assoc (List ℕ)

-- `__init__`
abbrev pub init : ℕ → ℕ → RateLimiter
init max_requests window_seconds = record {
  max_requests = max_requests;
  window_seconds = window_seconds;
  windows = [];
}

abbrev pub or_empty : Option (List ℕ) → List ℕ
or_empty none = []
or_empty (some w) = w

-- `self._windows[key]` of a defaultdict.
unfoldable pub window_of : String → Assoc (List ℕ) → List ℕ
window_of key m = or_empty (lookup key m)

-- `while window and window[0] <= cutoff: window.popleft()`, where `cutoff` is `now - window`.
unfoldable pub evict : ℕ → ℕ → List ℕ → List ℕ
evict now width [] = []
evict now width (t ∷ ts) =
    let rest = evict now width ts in if leb (t + width) now then rest else t ∷ ts

pub data Verdict : Type 0 where
  allowed : Verdict
  retry_after : ℕ → Verdict
  -- `window[0]` of an empty deque
  index_error : Verdict

-- `int(self.window_seconds - (now - window[0])) + 1`
unfoldable pub refusal : ℕ → ℕ → ℕ → List ℕ → Verdict
refusal resolution width now [] = index_error
refusal resolution width now (t ∷ ts) = retry_after ((t + width - now) / resolution + 1)

-- One key's part of `check`, on its deque.
unfoldable pub admit : ℕ → ℕ → ℕ → ℕ → List ℕ → List ℕ × Verdict
unfolding evict refusal
admit resolution max_requests width now window =
    let live = evict now width window in
    if leb max_requests (length live)
    then (live, refusal resolution width now live)
    else (live ++ now ∷ [], allowed)

-- `not dq or dq[-1] <= cutoff`
unfoldable pub is_stale : ℕ → ℕ → List ℕ → Bool
is_stale now width [] = true
is_stale now width (t ∷ []) = leb (t + width) now
is_stale now width (t ∷ u ∷ ts) = is_stale now width (u ∷ ts)

module _ (resolution : ℕ) where
  abbrev pub width : RateLimiter → ℕ
  width l = l.window_seconds * resolution

  unfoldable pub check : ℕ → String → RateLimiter → RateLimiter × Verdict
  unfolding admit window_of
  check now key l =
      let (w, v) = admit resolution l.max_requests (width l) now (window_of key l.windows) in
      (record l { windows = insert key w l.windows }, v)

  -- One pass of `_run_cleanup`.
  unfoldable pub cleanup : ℕ → RateLimiter → RateLimiter
  cleanup now l = record l { windows = delete_rows (is_stale now (width l)) l.windows }
