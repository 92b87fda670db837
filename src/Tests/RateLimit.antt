-- ===== src/Tests/RateLimit.antt =====
-- Two clients of a limiter of two requests in ten seconds, in tenths of a second.
use transaction_monitoring_s.Prelude.Assoc.{lookup, insert}
use transaction_monitoring_s.Auth.Login.{is_valid_api_key, match_keys}
use transaction_monitoring_s.RateLimit.Middleware.Guesses.{passed_guesses, guesses_bounded}
use transaction_monitoring_s.RateLimit.Middleware.{HttpRequest, dispatch, identity}
use transaction_monitoring_s.Prelude.{
  ℕ, ◌+◌, ◌*◌, ◌≤◌, ◌<◌, ◌≡◌, refl, ◌↔◌, ◌⊎◌, String, List, [], ◌∷◌, arith, length, some,
}
use transaction_monitoring_s.RateLimit.{
  RateLimiter, init, window_of, check, cleanup, allowed, retry_after,
}
use transaction_monitoring_s.RateLimit.Window.{live}
use transaction_monitoring_s.RateLimit.Grants.{Request, serve_all, serve_all_bounded}

abbrev requests : List Request
requests =
    record { at = 5; key = "a" }
    ∷ record { at = 7; key = "b" }
    ∷ record { at = 9; key = "a" }
    ∷ record { at = 30; key = "a" }
    ∷ []

serve_all_bounded_example :
    length (live 40 (10 * 10) (window_of "a" (serve_all 10 requests (init 2 10, [])).1)) ≤ 2
serve_all_bounded_example = serve_all_bounded 10 2 10 requests (ground arith) "a" 40 (omega arith)

-- The key `a` has used its window up, `b` has an old request.
abbrev full : RateLimiter
full = record {
  max_requests = 2;
  window_seconds = 10;
  windows = ("a", 5 ∷ 9 ∷ []) ∷ ("b", 1 ∷ []) ∷ [];
}

full-sorted : transaction_monitoring_s.RateLimit.Window.IsSortedTo 9 (window_of "a" full.windows)
unfolding window_of transaction_monitoring_s.Prelude.Assoc.lookup
full-sorted = ground arith

full-Distinct : transaction_monitoring_s.Prelude.Assoc.Distinct full.windows
unfolding transaction_monitoring_s.Prelude.Assoc.lookup
full-Distinct = (refl, (refl, tt))

-- Two guesses of one address and a request with the key.
abbrev attempts : List HttpRequest
attempts =
    record { at = 5; path = "/api/v1/archive"; api_key = some "guess1"; client_ip = some "1.2.3.4" }
    ∷ record {
      at = 6;
      path = "/api/v1/archive";
      api_key = some "guess2";
      client_ip = some "1.2.3.4";
    }
    ∷ record { at = 7; path = "/api/v1/archive"; api_key = some "k1"; client_ip = some "1.2.3.4" }
    ∷ []

guesses_bounded_example :
    length (live 40 (10 * 10) (passed_guesses 10 ("k1" ∷ []) "1.2.3.4" attempts (init 1 10))) ≤ 1
guesses_bounded_example =
    guesses_bounded 10 ("k1" ∷ []) 1 10 "1.2.3.4" attempts (ground arith) 40 (omega arith)

one_guess : passed_guesses 10 ("k1" ∷ []) "1.2.3.4" attempts (init 1 10) ≡ 5 ∷ []
unfolding passed_guesses is_valid_api_key match_keys dispatch check lookup insert identity
one_guess = refl
