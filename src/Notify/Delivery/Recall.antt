-- ===== src/Notify/Delivery/Recall.antt =====
-- No alert is lost by the dedup: what a suppressed or failed delivery leaves behind.
use transaction_monitoring_s.Prelude.{
  ℕ, ◌+◌, ◌*◌, ◌≤◌, ◌<◌, ◌≡◌, refl, ◌⊎◌, inl, inr, String, Bool, true, false, Option, none, some,
  arith, Bool-cases, Option-cases,
}
use transaction_monitoring_s.Notify.Ledger.{
  Claim, Key, Claims, band_rank, already_notified, already_notified_group,
}
use transaction_monitoring_s.Notify.DeadLetter.{Failed, find}
use transaction_monitoring_s.Notify.DeadLetter.Budget.{find-record_failed}
use transaction_monitoring_s.Notify.Delivery.{
  Env, Store, Alert, duplicate, failed, dispatch, effective_group, group_key, is_duplicate,
  is_collapsed, dead_letter, deliver_with_dedup, collapsed_by,
}

-- A claim that covers a band of this rank.
abbrev pub Covers : ℕ → Option Claim → Type 0
Covers r o = (c : Claim) × (o ≡ some c) × (r ≤ c.rank)

already_notified-Covers :
    (k : Key) (band : String) (m : Claims) {r : ℕ}
    → band_rank band ≡ some r
    → already_notified k band m ≡ true
    → Covers r (m k)
unfolding already_notified
already_notified-Covers k band m {r} h e = elim (Option-cases (m k)) [
  | inl absent ↦ absurd (ground arith)
  | inr (c, there) ↦ (c, there, ground arith)
]

-- A claim that covers the band and is younger than the window.
abbrev pub CoversNow : ℕ → ℕ → ℕ → Option Claim → Type 0
CoversNow now window_minutes r o =
    (c : Claim) × (o ≡ some c) × (r ≤ c.rank) × (now < c.notified_at + window_minutes * 60_000)

already_notified_group-CoversNow :
    (now : ℕ) (k : Key) (band : String) (w : ℕ) (m : Claims) {r : ℕ}
    → band_rank band ≡ some r
    → already_notified_group now k band w m ≡ true
    → CoversNow now w r (m k)
unfolding already_notified_group
already_notified_group-CoversNow now k band w m {r} h e = elim (Option-cases (m k)) [
  | inl absent ↦ absurd (ground arith)
  | inr (c, there) ↦ (c, there, ground arith, ground arith)
]

-- An open window that collapses the alert.
abbrev pub IsCollapsedBy : ℕ → ℕ → ℕ → Alert → Store → Type 0
IsCollapsedBy now window_minutes r a s =
    (g : String) × (effective_group window_minutes a ≡ some g)
    × CoversNow now window_minutes r (s.groups (group_key a.key g))

collapsed_by-IsCollapsedBy :
    (env : Env) (w : ℕ) (a : Alert) (s : Store) (o : Option String) {r : ℕ}
    → band_rank a.band ≡ some r
    → effective_group w a ≡ o
    → collapsed_by env w a s o ≡ true
    → IsCollapsedBy env.checked_at w r a s
collapsed_by-IsCollapsedBy env w a s none h o e = cc
collapsed_by-IsCollapsedBy env w a s (some g) h o e = (
  g,
  o,
  already_notified_group-CoversNow env.checked_at (group_key a.key g) a.band w s.groups h
      (ground arith),
)

-- An alert of a known band is suppressed only on evidence: a claim of its key covers the band, or,
-- with grouping on, a claim of its group covers the band and is younger than the window. The store
-- stays as it was.
pub duplicate-witness :
    (env : Env) (w : ℕ) (a : Alert) (record_failure : Bool) (s : Store) {r : ℕ}
    → band_rank a.band ≡ some r
    → (deliver_with_dedup env w a record_failure s).1 ≡ duplicate
    → (Covers r (s.alerts a.key) ⊎ IsCollapsedBy env.checked_at w r a s)
      × ((deliver_with_dedup env w a record_failure s).0 ≡ s)
unfolding deliver_with_dedup
duplicate-witness env w a record_failure s {r} h e = elim (Bool-cases (is_duplicate env a s)) [
  | inl yes' ↦ (
    inl (already_notified-Covers a.key a.band s.alerts h (unfold is_duplicate in ground arith)),
    rw yes',
  )
  | inr no' ↦ elim (Bool-cases (is_collapsed env w a s)) [
    | inl yes' ↦ (
      inr (
          collapsed_by-IsCollapsedBy env w a s (effective_group w a) h refl
            (unfold is_collapsed in yes')),
      rw (no', yes'),
    )
    | inr open' ↦ absurd (ground arith)
  ]
]

-- A delivery that no channel took leaves both ledgers as they were, so that the alert stays
-- eligible; where failures are recorded and the band is known, its key then has a dead letter at
-- least at its band.
pub failed-eligible :
    (env : Env) (w : ℕ) (a : Alert) (s : Store) {r : ℕ}
    → band_rank a.band ≡ some r
    → env.record_raises ≡ false
    → (deliver_with_dedup env w a true s).1 ≡ failed
    → ((deliver_with_dedup env w a true s).0.alerts ≡ s.alerts)
      × ((deliver_with_dedup env w a true s).0.groups ≡ s.groups)
      × ((f : Failed) × (find a.key (deliver_with_dedup env w a true s).0.failed ≡ some f)
          × (r ≤ f.rank))
unfolding deliver_with_dedup
failed-eligible env w a s h quiet e =
    let d : (is_duplicate env a s ≡ false)
        × (is_collapsed env w a s ≡ false)
        × (dispatch env.registry a.dispatches ≡ false) =
      (ground arith, ground arith, ground arith) in
    rw (d.0, d.1, d.2)
      (unfold dead_letter in
        rw quiet (
          refl,
          refl,
          find-record_failed env.recorded_at a.key a.band a.payload (effective_group w a) s.failed
              h,
        ))
