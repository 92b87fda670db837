-- ===== src/RateLimit/Middleware/Guesses.antt =====
-- How many guesses of an API key get past `RateLimitMiddleware` of backend/app/rate_limit.py.
use transaction_monitoring_s.Prelude.{
  ℕ, ◌+◌, ◌*◌, ◌≤◌, ◌≡◌, ◌∙◌, String, Bool, true, false, List, [], ◌∷◌, ◌++◌, mem, not, length,
  str_eq, ◌&&◌, if◌then◌else◌, arith, eq_iff, Bool-cases, inl, inr,
}
use Prim.Native.String.{◌++◌ as append}
use transaction_monitoring_s.Prelude.Assoc.{insert}
use transaction_monitoring_s.RateLimit.{
  RateLimiter, Verdict, allowed, retry_after, index_error, init, window_of, check,
}
use transaction_monitoring_s.RateLimit.Window.{live, grant}
use transaction_monitoring_s.RateLimit.Grants.{
  Request, Log, serve, serve_all, serve_all_bounded, window_of-insert, IsTimed, last_at,
}
use transaction_monitoring_s.Auth.Login.{is_valid_api_key}
use transaction_monitoring_s.RateLimit.Middleware.{
  HttpRequest, identity, Answer, passed, answer, dispatch, exempt_paths, or_unknown,
}

-- A request for a limited path from the address, whose API key is missing or wrong.
abbrev pub is_guess : List String → String → HttpRequest → Bool
is_guess keys ip r =
    not (mem r.path exempt_paths)
    && not (is_valid_api_key keys r.api_key)
    && str_eq (or_unknown r.client_ip) ip

abbrev is_passed : Answer → Bool
is_passed passed = true
is_passed _ = false

-- What a request adds to the passed guesses.
abbrev tally : Bool → ℕ → Answer → List ℕ
tally b t a = if b && is_passed a then t ∷ [] else []

length-live_snoc :
    (now width t : ℕ) (ts : List ℕ)
    → length (live now width (ts ++ t ∷ []))
      ≡ length (live now width ts) + length (live now width (t ∷ []))
length-live_snoc now width t [] = omega arith
length-live_snoc now width t (u ∷ ts) = ground (arith, length-live_snoc now width t ts)

tally-granted :
    (now width t : ℕ) (b : Bool) (key k : String) (v : Verdict) (log : Log)
    → (b ≡ true → str_eq key k ≡ true)
    → length (live now width (tally b t (answer v))) + length (live now width (window_of k log))
      ≤ length (live now width (window_of k (insert key (grant t v (window_of key log)) log)))
tally-granted now width t b key k allowed log h =
    rw (window_of-insert key k (window_of key log ++ t ∷ []) log)
      (ground (arith, h, eq_iff key k, length-live_snoc now width t (window_of k log)))
tally-granted now width t b key k (retry_after s) log h =
    rw (window_of-insert key k (window_of key log) log) (ground (arith, h, eq_iff key k))
tally-granted now width t b key k index_error log h =
    rw (window_of-insert key k (window_of key log) log) (ground (arith, h, eq_iff key k))

length-live_tally :
    (now width t : ℕ) (b : Bool) (a : Answer) (rest : List ℕ)
    → length (live now width (if b && is_passed a then t ∷ rest else rest))
      ≡ length (live now width (tally b t a)) + length (live now width rest)
length-live_tally now width t b a rest = ground arith

is_guess-limited :
    (keys : List String) (ip : String) (r : HttpRequest)
    → mem r.path exempt_paths ≡ false
    → is_guess keys ip r
      ≡ (not (is_valid_api_key keys r.api_key) && str_eq (or_unknown r.client_ip) ip)
is_guess-limited keys ip r e = rw e

guess-identity :
    (keys : List String) (ip : String) (r : HttpRequest)
    → is_guess keys ip r ≡ true
    → str_eq (identity keys r) (append "ip:" ip) ≡ true
unfolding identity
guess-identity keys ip r h =
    ground
      (arith, h, eq_iff (or_unknown r.client_ip) ip, eq_iff (append "ip:" ip) (append "ip:" ip))

module _ (resolution : ℕ) (keys : List String) where
  -- The times of the guesses that pass.
  unfoldable pub passed_guesses : String → List HttpRequest → RateLimiter → List ℕ
  passed_guesses ip [] l = []
  passed_guesses ip (r ∷ rs) l =
      let (l', a) = dispatch resolution keys r l in
      let rest = passed_guesses ip rs l' in
      if is_guess keys ip r && is_passed a then r.at ∷ rest else rest

  -- The requests as the limiter gets them.
  abbrev pub limited : List HttpRequest → List Request
  limited [] = []
  limited (r ∷ rs) =
      let rest = limited rs in
      if mem r.path exempt_paths then rest else record { at = r.at; key = identity keys r } ∷ rest

  guesses-granted :
      (now width : ℕ) (ip : String) (rs : List HttpRequest) (l : RateLimiter) (log : Log)
      → length (live now width (passed_guesses ip rs l))
          + length (live now width (window_of (append "ip:" ip) log))
        ≤ length (
            live now width
              (window_of (append "ip:" ip) (serve_all resolution (limited rs) (l, log)).1))
  unfolding passed_guesses serve_all serve dispatch identity
  guesses-granted now width ip [] l log = omega arith
  guesses-granted now width ip (r ∷ rs) l log = elim (Bool-cases (mem r.path exempt_paths)) [
    | inl e ↦ simp e (guesses-granted now width ip rs l log)
    | inr e ↦ simp e (
        let b = not (is_valid_api_key keys r.api_key) && str_eq (or_unknown r.client_ip) ip in
        let (l', v) = check resolution r.at (identity keys r) l in
        let log' = insert (identity keys r) (grant r.at v (window_of (identity keys r) log)) log in
        omega (
          arith,
          length-live_tally now width r.at b (answer v) (passed_guesses ip rs l'),
          tally-granted now width r.at b (identity keys r) (append "ip:" ip) v log
              (λ h. guess-identity keys ip r (is_guess-limited keys ip r e ∙ h)),
          guesses-granted now width ip rs l' log',
        ))
  ]

  -- Of requests whose limited ones are in the order of their times, whatever else is among them: at
  -- every time from the last of those on, the passed requests for limited paths from one address
  -- whose API key is missing or wrong number at most `max_requests` inside the window that ends
  -- there, whichever keys they try.
  pub guesses_bounded :
      (max_requests window_seconds : ℕ) (ip : String) (rs : List HttpRequest)
      → IsTimed resolution 0 (limited rs)
      → (now : ℕ) → last_at resolution 0 (limited rs) ≤ now
      → length (
          live now
            (window_seconds * resolution)
            (passed_guesses ip rs (init max_requests window_seconds)))
        ≤ max_requests
  guesses_bounded max_requests window_seconds ip rs timed now h = omega (
    arith,
    guesses-granted now (window_seconds * resolution) ip rs (init max_requests window_seconds) [],
    serve_all_bounded resolution max_requests window_seconds (limited rs) timed (append "ip:" ip)
        now h,
  )
