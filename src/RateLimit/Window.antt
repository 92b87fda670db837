-- ===== src/RateLimit/Window.antt =====
-- One key's deque: sorted, bounded, and what eviction leaves.
use transaction_monitoring_s.Prelude.{
  ℕ, ◌+◌, ◌-◌, ◌*◌, ◌/◌, ◌≤◌, ◌<◌, ◌≡◌, ◌≢◌, ◌↔◌, ◌⊎◌, refl, List, [], ◌∷◌, ◌++◌, arith, ltb,
  length, keep, All, length-append, length-keep-le, le→leb, lt→leb, keep-append, inl, inr, ◌∙◌, ap,
}
use native.Mathlib.Decide.{dec_le}
use transaction_monitoring_s.RateLimit.{evict, refusal, admit, Verdict, allowed, retry_after}

-- In order of time, none after `last`.
abbrev pub IsSortedTo : ℕ → List ℕ → Type 0
IsSortedTo last [] = Unit
IsSortedTo last (t ∷ ts) = (t ≤ last) × All (λ u. t ≤ u) ts × IsSortedTo last ts

-- The requests still inside the window at `now`.
abbrev pub live : ℕ → ℕ → List ℕ → List ℕ
live now width = keep (λ t. ltb now (t + width))

keep_above :
    (now width t : ℕ) (ts : List ℕ) → now < t + width → All (λ u. t ≤ u) ts → live now width ts ≡ ts
keep_above now width t [] h a = refl
keep_above now width t (u ∷ ts) h a = ground (arith, keep_above now width t ts h a.1)

-- On a sorted deque the `while` loop leaves exactly the live requests.
pub evict-eq-live :
    (now width last : ℕ) (ts : List ℕ) → IsSortedTo last ts → evict now width ts ≡ live now width ts
unfolding evict
evict-eq-live now width last [] s = refl
evict-eq-live now width last (t ∷ ts) s =
    ground (arith, evict-eq-live now width last ts s.2, keep_above now width t ts, s.1)

All-live :
    (now width t : ℕ) (ts : List ℕ) → All (λ u. t ≤ u) ts → All (λ u. t ≤ u) (live now width ts)
All-live now width t [] a = tt
All-live now width t (u ∷ ts) a = ground (arith, All-live now width t ts a.1)

pub IsSortedTo-live :
    (now width last : ℕ) (ts : List ℕ) → IsSortedTo last ts → IsSortedTo last (live now width ts)
IsSortedTo-live now width last [] s = tt
IsSortedTo-live now width last (t ∷ ts) s =
    ground (arith, IsSortedTo-live now width last ts s.2, All-live now width t ts s.1)

pub IsSortedTo-later :
    (last later : ℕ) (ts : List ℕ) → last ≤ later → IsSortedTo last ts → IsSortedTo later ts
IsSortedTo-later last later [] h s = tt
IsSortedTo-later last later (t ∷ ts) h s = (omega arith, s.1, IsSortedTo-later last later ts h s.2)

All-le-append :
    (last now t : ℕ) (ts : List ℕ)
    → All (λ u. t ≤ u) ts
    → t ≤ now
    → All (λ u. t ≤ u) (ts ++ now ∷ [])
All-le-append last now t [] a h = (h, tt)
All-le-append last now t (u ∷ ts) a h = (a.0, All-le-append last now t ts a.1 h)

pub IsSortedTo-append :
    (last now : ℕ) (ts : List ℕ) → last ≤ now → IsSortedTo last ts → IsSortedTo now (ts ++ now ∷ [])
IsSortedTo-append last now [] h s = (omega arith, tt, tt)
IsSortedTo-append last now (t ∷ ts) h s = (
  omega arith,
  All-le-append last now t ts s.1 (omega arith),
  IsSortedTo-append last now ts h s.2,
)

pub live-live :
    (now later width : ℕ) (ts : List ℕ)
    → now ≤ later
    → live later width (live now width ts) ≡ live later width ts
live-live now later width [] h = refl
live-live now later width (t ∷ ts) h = ground (arith, live-live now later width ts h)

pub length-live-le :
    (now later width : ℕ) (ts : List ℕ)
    → now ≤ later
    → length (live later width ts) ≤ length (live now width ts)
length-live-le now later width [] h = omega arith
length-live-le now later width (t ∷ ts) h = ground (arith, length-live-le now later width ts h)

-- One key's deque against the requests granted to it so far, at the time of the last request.
pub record Tracks (max_requests width last : ℕ) (window granted : List ℕ) : Type 0 where
  pub sorted : IsSortedTo last window
  pub agree : (now : ℕ) → last ≤ now → live now width window ≡ live now width granted
  pub bounded : length (live last width granted) ≤ max_requests

-- What one verdict adds to the grants.
abbrev pub grant : ℕ → Verdict → List ℕ → List ℕ
grant now allowed g = g ++ now ∷ []
grant now _ g = g

pub Tracks-later :
    (max_requests width last now : ℕ) (w g : List ℕ)
    → last ≤ now
    → Tracks max_requests width last w g
    → Tracks max_requests width now w g
Tracks-later max_requests width last now w g h t = record {
  sorted = IsSortedTo-later last now w h t.sorted;
  agree = λ n k. t.agree n (omega arith);
  bounded = let p = t.bounded in omega (arith, length-live-le last now width g h);
}

grant-refusal :
    (resolution width now : ℕ) (w g : List ℕ) → grant now (refusal resolution width now w) g ≡ g
unfolding refusal
grant-refusal resolution width now [] g = refl
grant-refusal resolution width now (t ∷ w) g = refl

refusal-ne-allowed :
    (resolution width now : ℕ) (w : List ℕ) → refusal resolution width now w ≢ allowed
unfolding refusal
refusal-ne-allowed resolution width now [] = λ e. cc
refusal-ne-allowed resolution width now (t ∷ w) = λ e. cc

-- A refused deque is what eviction left; the answer is its `refusal`.
pub admit-cases :
    (resolution max_requests width now : ℕ) (w : List ℕ)
    → ((admit resolution max_requests width now w).1 ≡ allowed)
      ⊎ (((admit resolution max_requests width now w).0 ≡ evict now width w)
          × ((admit resolution max_requests width now w).1
              ≡ refusal resolution width now (evict now width w))
          × (max_requests ≤ length (evict now width w)))
unfolding admit
admit-cases resolution max_requests width now w =
    elim (dec_le max_requests (length (evict now width w))) [
      | yes full ↦ inr (rw (le→leb _ _ full), rw (le→leb _ _ full), full)
      | no room ↦ inl (rw (lt→leb max_requests (length (evict now width w)) (omega arith)))
    ]

module _ (resolution max_requests width last now : ℕ) (w : List ℕ) (s : IsSortedTo last w) where
  pub admit_full :
      max_requests ≤ length (live now width w)
      → admit resolution max_requests width now w
        ≡ (live now width w, refusal resolution width now (live now width w))
  unfolding admit
  admit_full full = rw (evict-eq-live now width last w s, le→leb _ _ full)

  pub admit_room :
      length (live now width w) < max_requests
      → admit resolution max_requests width now w ≡ (live now width w ++ now ∷ [], allowed)
  unfolding admit
  admit_room room = rw (evict-eq-live now width last w s, lt→leb _ _ room)

module _ (resolution max_requests width last now : ℕ) (w g : List ℕ) (h : last ≤ now)
    (t : Tracks max_requests width last w g) where
  Tracks-live : Tracks max_requests width now (live now width w) g
  Tracks-live = record {
    sorted = IsSortedTo-live now width now w (IsSortedTo-later last now w h t.sorted);
    agree = λ n k. live-live now n width w k ∙ t.agree n (omega arith);
    bounded = (Tracks-later max_requests width last now w g h t).bounded;
  }

  Tracks-grant :
      length (live now width w) < max_requests
      → Tracks max_requests width now (live now width w ++ now ∷ []) (g ++ now ∷ [])
  Tracks-grant room = record {
    sorted = IsSortedTo-append now now (live now width w) (omega arith) Tracks-live.sorted;
    agree = λ n k. simp (keep-append, live-live now n width w k, t.agree n (omega arith));
    bounded =
        rw (keep-append, ← t.agree now h)
          (omega (
            arith,
            length-append {0} (live now width w) (live now width (now ∷ [])),
            length-keep-le {0} (λ u. ltb now (u + width)) (now ∷ []),
          ));
  }

  pub admit-Tracks :
      Tracks max_requests width now
        (admit resolution max_requests width now w).0
        (grant now (admit resolution max_requests width now w).1 g)
  admit-Tracks = elim (dec_le max_requests (length (live now width w))) [
    | yes full ↦
        rw (admit_full resolution max_requests width last now w t.sorted full, grant-refusal)
          Tracks-live
    | no room ↦
        rw (admit_room resolution max_requests width last now w t.sorted (omega arith))
          (Tracks-grant (omega arith))
  ]

pub length-evict-le : (now width : ℕ) (w : List ℕ) → length (evict now width w) ≤ length w
unfolding evict
length-evict-le now width [] = omega arith
length-evict-le now width (t ∷ ts) = ground (arith, length-evict-le now width ts)

le-div_up : (x r : ℕ) → 0 < r → x ≤ (x / r + 1) * r
le-div_up x r h = grind arith

-- The first request of a full deque leaves the window after `refusal` seconds, and makes room.
pub refusal-admit :
    (resolution max_requests width now later seconds : ℕ) (w : List ℕ)
    → 0 < resolution
    → length w ≤ max_requests
    → refusal resolution width now w ≡ retry_after seconds
    → now + seconds * resolution ≤ later
    → (admit resolution max_requests width later w).1 ≡ allowed
unfolding refusal admit evict
refusal-admit resolution max_requests width now later seconds [] r b e l = cc
refusal-admit resolution max_requests width now later seconds (t ∷ ts) r b e l =
    let q : seconds ≡ (t + width - now) / resolution + 1 = ground arith in
    let p = le-div_up (t + width - now) resolution r in
    let expired : t + width ≤ later = omega (arith, ap (λ (k : ℕ). k * resolution) q) in
    rw (
      le→leb _ _ expired,
      lt→leb max_requests (length (evict later width ts))
          (omega (arith, length-evict-le later width ts)),
    )

pub admit-allowed_iff :
    (resolution max_requests width last now : ℕ) (w : List ℕ)
    → IsSortedTo last w
    → ((admit resolution max_requests width now w).1 ≡ allowed)
      ↔ (length (live now width w) < max_requests)
admit-allowed_iff resolution max_requests width last now w s =
    elim (dec_le max_requests (length (live now width w))) [
      | yes full ↦ rw (admit_full resolution max_requests width last now w s full) (
        λ e. absurd (refusal-ne-allowed resolution width now (live now width w) e),
        λ h. absurd (omega arith),
      )
      | no room ↦
          rw (admit_room resolution max_requests width last now w s (omega arith))
            (λ e. omega arith, λ h. refl)
    ]

pub refusal_seconds :
    (resolution width now : ℕ) (w : List ℕ)
    → 0 < length w
    → (seconds : ℕ) × (0 < seconds) × (refusal resolution width now w ≡ retry_after seconds)
unfolding refusal
refusal_seconds resolution width now [] h = absurd (omega arith)
refusal_seconds resolution width now (t ∷ w) h =
    ((t + width - now) / resolution + 1, omega arith, refl)
