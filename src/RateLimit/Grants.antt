-- ===== src/RateLimit/Grants.antt =====
-- What the limiter grants over a run of requests for any keys, and when a refused client may return.
use transaction_monitoring_s.Prelude.{
  ℕ, ◌+◌, ◌*◌, ◌≤◌, ◌<◌, ◌≡◌, ◌↔◌, ◌⊎◌, refl, ◌∙◌, String, List, [], ◌∷◌, arith, length, str_eq,
  if◌then◌else◌, Bool-cases, inl, inr,
}
use text.Mathlib.TextPositions.{eq_refl}
use transaction_monitoring_s.Prelude.Assoc.{Assoc, lookup, insert, lookup-insert}
use transaction_monitoring_s.RateLimit.{
  RateLimiter, init, window_of, admit, evict, check, width, allowed, retry_after,
}
use transaction_monitoring_s.RateLimit.Window.{
  live, Tracks, grant, Tracks-later, admit-Tracks, admit-allowed_iff, admit-cases, refusal_seconds,
  length-evict-le, refusal-admit, length-live-le,
}

pub window_of-insert :
    (k j : String) (w : List ℕ) (m : Assoc (List ℕ))
    → window_of j (insert k w m) ≡ (if str_eq k j then w else window_of j m)
unfolding window_of
window_of-insert k j w m = ground (arith, lookup-insert k j w m)

pub record Request : Type 0 where
  pub at : ℕ
  pub key : String

-- The grants of each key so far, oldest first.
abbrev pub Log : Type 0
Log = Assoc (List ℕ)

module _ (resolution : ℕ) where
  -- A request, and the log with what it was granted.
  unfoldable pub serve : Request → RateLimiter × Log → RateLimiter × Log
  unfolding check
  serve r (l, log) =
      let (l', v) = check resolution r.at r.key l in
      (l', insert r.key (grant r.at v (window_of r.key log)) log)

  unfoldable pub serve_all : List Request → RateLimiter × Log → RateLimiter × Log
  serve_all [] s = s
  serve_all (r ∷ rs) s = serve_all rs (serve r s)

  abbrev pub IsConsistent : ℕ → RateLimiter × Log → Type 0
  IsConsistent last (l, log) =
      (key : String)
      → Tracks l.max_requests (width resolution l) last (window_of key l.windows)
          (window_of key log)

  serve-IsConsistent :
      (last : ℕ) (r : Request) (s : RateLimiter × Log)
      → last ≤ r.at
      → IsConsistent last s
      → IsConsistent r.at (serve r s)
  unfolding serve
  serve-IsConsistent last r (l, log) h c key = elim (Bool-cases (str_eq r.key key)) [
    | inl e ↦
        rw (window_of-insert, window_of-insert, e)
          (admit-Tracks resolution l.max_requests (width resolution l) last r.at
            (window_of r.key l.windows) (window_of r.key log) h (c r.key))
    | inr ne ↦
        rw (window_of-insert, window_of-insert, ne)
          (Tracks-later l.max_requests (width resolution l) last r.at (window_of key l.windows)
            (window_of key log) h (c key))
  ]

  abbrev pub IsTimed : ℕ → List Request → Type 0
  IsTimed last [] = Unit
  IsTimed last (r ∷ rs) = (last ≤ r.at) × IsTimed r.at rs

  abbrev pub last_at : ℕ → List Request → ℕ
  last_at last [] = last
  last_at last (r ∷ rs) = last_at r.at rs

  pub serve_all-IsConsistent :
      (last : ℕ) (rs : List Request) (s : RateLimiter × Log)
      → IsTimed last rs
      → IsConsistent last s
      → IsConsistent (last_at last rs) (serve_all rs s)
  unfolding serve_all
  serve_all-IsConsistent last [] s h c = c
  serve_all-IsConsistent last (r ∷ rs) s h c =
      serve_all-IsConsistent r.at rs (serve r s) h.1 (serve-IsConsistent last r s h.0 c)

  serve_all_config :
      (rs : List Request) (s : RateLimiter × Log)
      → ((serve_all rs s).0.max_requests ≡ s.0.max_requests)
        × ((serve_all rs s).0.window_seconds ≡ s.0.window_seconds)
  unfolding serve_all serve
  serve_all_config [] s = (refl, refl)
  serve_all_config (r ∷ rs) (l, log) = serve_all_config rs (serve r (l, log))

  fresh-IsConsistent :
      (max_requests window_seconds : ℕ) → IsConsistent 0 (init max_requests window_seconds, [])
  unfolding window_of lookup
  fresh-IsConsistent max_requests window_seconds key = record {
    sorted = tt;
    agree = λ n h. refl;
    bounded = omega arith;
  }

  module _ (max_requests window_seconds : ℕ) (rs : List Request) (timed : IsTimed 0 rs)
      (key : String) where
    abbrev outcome : RateLimiter × Log
    outcome = serve_all rs (init max_requests window_seconds, [])

    -- For requests of all clients in the order of their times, however they interleave: at every
    -- time from the last request on, the grants of one key inside the window that ends there
    -- number at most `max_requests`.
    pub serve_all_bounded :
        (now : ℕ)
        → last_at 0 rs ≤ now
        → length (live now (window_seconds * resolution) (window_of key outcome.1)) ≤ max_requests
    serve_all_bounded now h =
        let t =
          serve_all-IsConsistent 0 rs (init max_requests window_seconds, []) timed
            (fresh-IsConsistent max_requests window_seconds) key in
        let e = serve_all_config rs (init max_requests window_seconds, []) in
        let b : length (live (last_at 0 rs) (window_seconds * resolution) (window_of key outcome.1))
            ≤ max_requests =
          rw (e.0, e.1) at t.bounded in
        omega (
          arith,
          b,
          length-live-le (last_at 0 rs) now (window_seconds * resolution) (window_of key outcome.1)
              h,
        )

  pub check-verdict :
      (now : ℕ) (key : String) (l : RateLimiter)
      → (check resolution now key l).1
        ≡ (admit resolution l.max_requests (width resolution l) now (window_of key l.windows)).1
  unfolding check
  check-verdict now key l = refl

  pub check-deque :
      (now : ℕ) (key : String) (l : RateLimiter)
      → (window_of key (check resolution now key l).0.windows
          ≡ (admit resolution l.max_requests (width resolution l) now (window_of key l.windows)).0)
        × ((check resolution now key l).0.max_requests ≡ l.max_requests)
        × (width resolution (check resolution now key l).0 ≡ width resolution l)
  unfolding check
  check-deque now key l = (rw (window_of-insert, eq_refl), refl, refl)

  check-allowed_of :
      (last now : ℕ) (key : String) (s : RateLimiter × Log)
      → last ≤ now
      → IsConsistent last s
      → ((check resolution now key s.0).1 ≡ allowed)
        ↔ (length (live now (width resolution s.0) (window_of key s.1)) < s.0.max_requests)
  check-allowed_of last now key s h c =
      rw (check-verdict, ← (c key).agree now h)
        (admit-allowed_iff resolution s.0.max_requests (width resolution s.0) last now
          (window_of key s.0.windows) (c key).sorted)

  -- After any run of requests in the order of their times, from a fresh limiter, a request at no
  -- earlier time is allowed exactly when fewer than `max_requests` earlier grants of its key lie
  -- in the window that ends at it: the deques stand for the whole history.
  pub check-allowed_iff :
      (max_requests window_seconds : ℕ) (rs : List Request) (now : ℕ) (key : String)
      → IsTimed 0 rs
      → last_at 0 rs ≤ now
      → ((check resolution now key (serve_all rs (init max_requests window_seconds, [])).0).1
          ≡ allowed)
        ↔ (length (
              live now
                (window_seconds * resolution)
                (window_of key (serve_all rs (init max_requests window_seconds, [])).1))
            < max_requests)
  check-allowed_iff max_requests window_seconds rs now key timed h =
      let e = serve_all_config rs (init max_requests window_seconds, []) in
      rw (e.0, e.1) at
        (check-allowed_of (last_at 0 rs) now key
          (serve_all rs (init max_requests window_seconds, [])) h
          (serve_all-IsConsistent 0 rs (init max_requests window_seconds, []) timed
            (fresh-IsConsistent max_requests window_seconds)))

  -- With a positive limit and resolution, and no more requests in the key's deque than the limit,
  -- a request is allowed, or refused with a positive whole number of seconds after which the key's
  -- next request, if none came between, is allowed.
  check_retry :
      (now : ℕ) (key : String) (l : RateLimiter)
      → 0 < resolution
      → 0 < l.max_requests
      → length (window_of key l.windows) ≤ l.max_requests
      → ((check resolution now key l).1 ≡ allowed)
        ⊎ ((seconds : ℕ) × (0 < seconds)
            × ((check resolution now key l).1 ≡ retry_after seconds)
            × ((check resolution (now + seconds * resolution) key (check resolution now key l).0).1
                ≡ allowed))
  check_retry now key l r m b =
      let w = window_of key l.windows in
      let wd = width resolution l in
      let d = check-deque now key l in
      elim (admit-cases resolution l.max_requests wd now w) [
        | inl ok ↦ inl (check-verdict now key l ∙ ok)
        | inr (left, said, full) ↦
            let (seconds, pos, e) =
              refusal_seconds resolution wd now (evict now wd w) (omega arith) in
            let retry =
              refusal-admit resolution l.max_requests wd now (now + seconds * resolution) seconds
                (evict now wd w) r (omega (arith, length-evict-le now wd w)) e (omega arith) in
            inr (
              seconds,
              pos,
              check-verdict now key l ∙ said ∙ e,
              rw (check-verdict, d.0, d.1, d.2, left) retry,
            )
      ]
