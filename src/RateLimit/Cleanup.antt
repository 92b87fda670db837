-- ===== src/RateLimit/Cleanup.antt =====
-- The background cleanup changes no later answer.
use transaction_monitoring_s.Prelude.{
  ℕ, ◌≤◌, ◌≡◌, refl, String, true, List, [], ◌∷◌, arith, Option, none, some, sym, ap, ◌∙◌,
}
use transaction_monitoring_s.Prelude.Assoc.{
  Assoc, lookup, Distinct, delete_rows, survive, lookup-delete_rows,
}
use transaction_monitoring_s.RateLimit.{
  RateLimiter, window_of, or_empty, evict, admit, check, width, is_stale, cleanup,
}
use transaction_monitoring_s.RateLimit.Window.{IsSortedTo}
use transaction_monitoring_s.RateLimit.Grants.{check-verdict, check-deque}

-- A stale deque is empty after any later eviction.
evict-stale :
    (now later wd last : ℕ) (w : List ℕ)
    → now ≤ later
    → IsSortedTo last w
    → is_stale now wd w ≡ true
    → evict later wd w ≡ []
unfolding evict is_stale
evict-stale now later wd last [] h s e = refl
evict-stale now later wd last (t ∷ []) h s e = ground arith
evict-stale now later wd last (t ∷ u ∷ ts) h s e =
    ground (arith, evict-stale now later wd last (u ∷ ts) h s.2 e)

evict-survive :
    (now later wd last : ℕ) (o : Option (List ℕ))
    → now ≤ later
    → IsSortedTo last (or_empty o)
    → evict later wd (or_empty (survive (is_stale now wd) o)) ≡ evict later wd (or_empty o)
unfolding evict
evict-survive now later wd last none h s = refl
evict-survive now later wd last (some w) h s = ground (arith, evict-stale now later wd last w h s)

-- Evicted, the deque that a key has after the cleanup is the one that it had before.
evict-delete_rows :
    (now later wd last : ℕ) (k : String) (m : Assoc (List ℕ))
    → Distinct m
    → now ≤ later
    → IsSortedTo last (window_of k m)
    → evict later wd (window_of k (delete_rows (is_stale now wd) m))
      ≡ evict later wd (window_of k m)
unfolding window_of
evict-delete_rows now later wd last k m d h s =
    rw (lookup-delete_rows (is_stale now wd) k m d)
      (evict-survive now later wd last (lookup k m) h s)

admit-evict :
    (resolution max_requests wd now : ℕ) (v w : List ℕ)
    → evict now wd v ≡ evict now wd w
    → admit resolution max_requests wd now v ≡ admit resolution max_requests wd now w
unfolding admit
admit-evict resolution max_requests wd now v w e = rw e

-- With one deque for each key, and the key's deque sorted, a pass of the cleanup is invisible to a
-- later request: the answer, and the deque that the request leaves for its key, are what they
-- would be without the pass.
pub check-cleanup :
    (resolution now later last : ℕ) (key : String) (l : RateLimiter)
    → Distinct l.windows
    → IsSortedTo last (window_of key l.windows)
    → now ≤ later
    → ((check resolution later key (cleanup resolution now l)).1 ≡ (check resolution later key l).1)
      × (window_of key (check resolution later key (cleanup resolution now l)).0.windows
          ≡ window_of key (check resolution later key l).0.windows)
check-cleanup resolution now later last key l d s h =
    let c = cleanup resolution now l in
    let a : admit resolution l.max_requests (width resolution l) later
          (window_of key (delete_rows (is_stale now (width resolution l)) l.windows))
        ≡ admit resolution l.max_requests (width resolution l) later (window_of key l.windows) =
      admit-evict resolution l.max_requests (width resolution l) later
        (window_of key (delete_rows (is_stale now (width resolution l)) l.windows))
        (window_of key l.windows)
        (evict-delete_rows now later (width resolution l) last key l.windows d h s) in
    (
      check-verdict resolution later key c
          ∙ unfold cleanup in ap (λ p. p.1) a ∙ sym (check-verdict resolution later key l),
      (check-deque resolution later key c).0
          ∙ unfold cleanup in ap (λ p. p.0) a ∙ sym (check-deque resolution later key l).0,
    )
