-- ===== src/RateLimit/Middleware.antt =====
-- `RateLimitMiddleware` of backend/app/rate_limit.py: which window a request counts in. The client's
-- address is `client_ip` of backend/app/net.py, as text.
pub mod Guesses
use transaction_monitoring_s.Prelude.{
  ℕ, String, Bool, true, false, Option, none, some, List, [], ◌∷◌, mem, str_eq, if◌then◌else◌,
}
use Prim.Native.String.{◌++◌ as append}
use transaction_monitoring_s.RateLimit.{
  RateLimiter, Verdict, allowed, retry_after, index_error, check,
}
use transaction_monitoring_s.Auth.Login.{is_valid_api_key}

-- `_EXEMPT_PATHS`
abbrev pub exempt_paths : List String
exempt_paths = "/" ∷ "/health" ∷ "/health/ready" ∷ "/docs" ∷ "/redoc" ∷ "/openapi.json" ∷ []

-- A request, with the limiter's clock when it arrives.
pub record HttpRequest : Type 0 where
  pub at : ℕ
  pub path : String
  pub api_key : Option String
  pub client_ip : Option String

abbrev pub or_unknown : Option String → String
or_unknown none = "unknown"
or_unknown (some ip) = if str_eq ip "" then "unknown" else ip

abbrev pub or_blank : Option String → String
or_blank none = ""
or_blank (some key) = key

-- The key of the window: a valid API key, or the address.
unfoldable pub identity : List String → HttpRequest → String
identity keys r =
    if is_valid_api_key keys r.api_key
    then or_blank r.api_key
    else append "ip:" (or_unknown r.client_ip)

-- Passed on, refused with 429, or an exception.
pub data Answer : Type 0 where
  passed failed : Answer
  too_many_requests : ℕ → Answer

abbrev pub answer : Verdict → Answer
answer allowed = passed
answer (retry_after seconds) = too_many_requests seconds
answer index_error = failed

unfoldable pub dispatch : ℕ → List String → HttpRequest → RateLimiter → RateLimiter × Answer
dispatch resolution keys r l =
    let (l', v) = check resolution r.at (identity keys r) l in
    if mem r.path exempt_paths then (l, passed) else (l', answer v)
