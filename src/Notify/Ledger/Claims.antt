-- ===== src/Notify/Ledger/Claims.antt =====
-- What the ledgers remember.
use mathlib.Core.Path.{subst}
use transaction_monitoring_s.Prelude.{
  ℕ, ◌+◌, ◌≤◌, ◌≡◌, refl, String, Bool, true, false, Option, none, some, arith, eq_iff, ◌&&◌, List,
  [], ◌∷◌, not, All, length,
}
use transaction_monitoring_s.Notify.Ledger.{
  band_rank, Claim, Key, key_eq, Claims, claim_notification, already_notified,
}

pub key_eq_refl : (k : Key) → key_eq k k ≡ true
unfolding key_eq
key_eq_refl k =
    ground (arith, eq_iff k.network k.network, eq_iff k.subject k.subject, eq_iff k.source k.source)

-- For a band that the system knows, a claim is won exactly when the read-only check would let the
-- alert through, and from then on the check answers yes for the band claimed.
pub claim-already_notified :
    (now : ℕ) (k : Key) (band : String) (m : Claims) {r : ℕ}
    → band_rank band ≡ some r
    → ((claim_notification now k band m).1 ≡ not (already_notified k band m))
      × (already_notified k band (claim_notification now k band m).0 ≡ true)
unfolding claim_notification already_notified
claim-already_notified now k band m h = ground (arith, key_eq_refl k)

-- Ranks that the claims of one key win, in a run of claims for any keys.
pub record Attempt : Type 0 where
  pub at : ℕ
  pub key : Key
  pub band : String

pub key_eq→eq : (a b : Key) → key_eq a b ≡ true → a ≡ b
unfolding key_eq
key_eq→eq a b h =
    ground (arith, eq_iff a.network b.network, eq_iff a.subject b.subject, eq_iff a.source b.source)

-- A won claim adds its rank.
abbrev pub tally : Bool → Option ℕ → List ℕ → List ℕ
tally true (some r) later = r ∷ later
tally _ _ later = later

unfoldable pub won : Key → List Attempt → Claims → List ℕ
won k [] m = []
won k (a ∷ rest) m =
    let (m', granted) = claim_notification a.at a.key a.band m in
    tally (granted && key_eq a.key k) (band_rank a.band) (won k rest m')

-- The least rank that a key can still win.
abbrev pub floor : Option Claim → ℕ
floor none = 0
floor (some c) = c.rank + 1

-- Strictly increasing, from `n`.
abbrev pub Rises : ℕ → List ℕ → Type 0
Rises n [] = Unit
Rises n (r ∷ rs) = (n ≤ r) × Rises (r + 1) rs

floor-granted :
    (now : ℕ) (k : Key) (band : String) (m : Claims) {r : ℕ}
    → band_rank band ≡ some r
    → (claim_notification now k band m).1 ≡ true
    → (floor (m k) ≤ r) × (floor ((claim_notification now k band m).0 k) ≡ r + 1)
unfolding claim_notification
floor-granted now k band m h g = ground (arith, key_eq_refl k)

-- A claim that is not won, or that is for another key, leaves a key's row.
claim-other :
    (now : ℕ) (j k : Key) (band : String) (m : Claims)
    → ((claim_notification now j band m).1 && key_eq j k) ≡ false
    → (claim_notification now j band m).0 k ≡ m k
unfolding claim_notification
claim-other now j k band m h = ground arith

claim-unknown :
    (now : ℕ) (j : Key) (band : String) (m : Claims)
    → band_rank band ≡ none
    → (claim_notification now j band m).0 ≡ m
unfolding claim_notification
claim-unknown now j band m h = ground arith

-- The same, where the key that wins is known by the test.
floor-won :
    (now : ℕ) (j k : Key) (band : String) (m : Claims) {r : ℕ}
    → band_rank band ≡ some r
    → ((claim_notification now j band m).1 && key_eq j k) ≡ true
    → (floor (m k) ≤ r) × (floor ((claim_notification now j band m).0 k) ≡ r + 1)
floor-won now j k band m {r} h g =
    let e : j ≡ k = key_eq→eq j k (ground arith) in
    subst (λ q. (floor (m q) ≤ r) × (floor ((claim_notification now j band m).0 q) ≡ r + 1)) e
      (floor-granted now j band m h (ground arith))

won-step :
    (a : Attempt) (k : Key) (m : Claims) (later : List ℕ) (g : Bool) (o : Option ℕ)
    → band_rank a.band ≡ o
    → ((claim_notification a.at a.key a.band m).1 && key_eq a.key k) ≡ g
    → Rises (floor ((claim_notification a.at a.key a.band m).0 k)) later
    → Rises (floor (m k)) (tally g o later)
won-step a k m later true (some r) h g rises =
    let (low, high) = floor-won a.at a.key k a.band m h g in (low, rw (← high) rises)
won-step a k m later true none h g rises = rw (← claim-unknown a.at a.key a.band m h) rises
won-step a k m later false none h g rises = rw (← claim-other a.at a.key k a.band m g) rises
won-step a k m later false (some r) h g rises = rw (← claim-other a.at a.key k a.band m g) rises

won-Rises-floor : (k : Key) (run : List Attempt) (m : Claims) → Rises (floor (m k)) (won k run m)
unfolding won
won-Rises-floor k [] m = tt
won-Rises-floor k (a ∷ rest) m =
    won-step a k m (won k rest (claim_notification a.at a.key a.band m).0) _ _ refl refl
      (won-Rises-floor k rest (claim_notification a.at a.key a.band m).0)

band_rank-le : (band : String) {r : ℕ} → band_rank band ≡ some r → r ≤ 3
unfolding band_rank
band_rank-le band h = ground arith

tally-le :
    (g : Bool) (o : Option ℕ) (later : List ℕ)
    → ((r : ℕ) → o ≡ some r → r ≤ 3)
    → All (λ r. r ≤ 3) later
    → All (λ r. r ≤ 3) (tally g o later)
tally-le true (some r) later b h = (b r refl, h)
tally-le true none later b h = h
tally-le false none later b h = h
tally-le false (some r) later b h = h

won-le : (k : Key) (run : List Attempt) (m : Claims) → All (λ r. r ≤ 3) (won k run m)
unfolding won
won-le k [] m = tt
won-le k (a ∷ rest) m =
    tally-le _ (band_rank a.band) _ (λ r h. band_rank-le a.band h)
      (won-le k rest (claim_notification a.at a.key a.band m).0)

length_of_Rises :
    (n : ℕ) (rs : List ℕ) → Rises n rs → All (λ r. r ≤ 3) rs → n ≤ 4 → length rs + n ≤ 4
length_of_Rises n [] h a b = omega arith
length_of_Rises n (r ∷ rs) h a b = omega (arith, length_of_Rises (r + 1) rs h.1 a.1 (omega arith))

-- Over any run of claims, for any keys, from empty ledgers and without a prune in between, the
-- claims that one key wins have strictly rising bands, and they are four at most.
pub won-Rises :
    (k : Key) (run : List Attempt)
    → Rises 0 (won k run (λ j. none)) × (length (won k run (λ j. none)) ≤ 4)
won-Rises k run =
    let rises = won-Rises-floor k run (λ j. none) in
    (
      rises,
      omega (
        arith,
        length_of_Rises 0 (won k run (λ j. none)) rises (won-le k run (λ j. none)) (omega arith),
      ),
    )
