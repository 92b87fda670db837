-- ===== src/Notify/Delivery/Once.antt =====
-- An alert that was sent is not sent again, and an escalation always is.
use transaction_monitoring_s.Prelude.{
  ℕ, ◌≤◌, ◌<◌, ◌≡◌, refl, String, Bool, true, false, Option, none, some, arith,
}
use transaction_monitoring_s.Notify.Ledger.{
  Claim, Key, Claims, band_rank, already_notified, already_notified_group,
}
use transaction_monitoring_s.Notify.Ledger.Claims.{claim-already_notified}
use transaction_monitoring_s.Notify.Delivery.{
  Env, Store, Alert, duplicate, sent, dispatch, group_key, is_duplicate, collapsed_by,
  record_claims, deliver_with_dedup,
}

already_notified_mono :
    (k : Key) (band lower : String) (m : Claims) {r q : ℕ}
    → band_rank band ≡ some r
    → band_rank lower ≡ some q
    → q ≤ r
    → already_notified k band m ≡ true
    → already_notified k lower m ≡ true
unfolding already_notified
already_notified_mono k band lower m h l le e = ground arith

sent-dispatch :
    (env : Env) (w : ℕ) (a : Alert) (b : Bool) (s : Store)
    → (deliver_with_dedup env w a b s).1 ≡ sent
    → ((deliver_with_dedup env w a b s).0 ≡ record_claims env w a s)
      × (dispatch env.registry a.dispatches ≡ true)
unfolding deliver_with_dedup
sent-dispatch env w a b s e = ground arith

record_claims-notified :
    (env : Env) (w : ℕ) (a : Alert) (s : Store) {r : ℕ}
    → band_rank a.band ≡ some r
    → env.claim_raises ≡ false
    → already_notified a.key a.band (record_claims env w a s).alerts ≡ true
unfolding record_claims
record_claims-notified env w a s h quiet =
    rw quiet (claim-already_notified env.claimed_at a.key a.band s.alerts h).1

-- After a delivery of a known band that was sent and whose claim was written, a second one of the
-- same transaction and source, at the same or a lower known band, is a duplicate, whatever the
-- channels or the group would do, if its dedup check does not raise.
pub sent-once :
    (env next : Env) (w w' : ℕ) (a again : Alert) (b b' : Bool) (s : Store) {r q : ℕ}
    → band_rank a.band ≡ some r
    → band_rank again.band ≡ some q
    → q ≤ r
    → again.key ≡ a.key
    → env.claim_raises ≡ false
    → next.check_raises ≡ false
    → (deliver_with_dedup env w a b s).1 ≡ sent
    → (deliver_with_dedup next w' again b' (deliver_with_dedup env w a b s).0).1 ≡ duplicate
sent-once env next w w' a again b b' s h l le key quiet quiet' e =
    let s' = (deliver_with_dedup env w a b s).0 in
    let n : already_notified a.key a.band s'.alerts ≡ true =
      rw ((sent-dispatch env w a b s e).0) (record_claims-notified env w a s h quiet) in
    let n' : already_notified again.key again.band s'.alerts ≡ true =
      rw key (already_notified_mono a.key a.band again.band s'.alerts h l le n) in
    let d : is_duplicate next again s' ≡ true = unfold is_duplicate in ground arith in
    unfold deliver_with_dedup in rw d

-- A claim, if there is one, is below the band.
abbrev pub IsBelow : ℕ → Option Claim → Type 0
IsBelow r none = Unit
IsBelow r (some c) = c.rank < r

already_notified-below :
    (k : Key) (band : String) (m : Claims) {r : ℕ}
    → band_rank band ≡ some r
    → IsBelow r (m k)
    → already_notified k band m ≡ false
unfolding already_notified
already_notified-below k band m h below = ground arith

already_notified_group-below :
    (now : ℕ) (k : Key) (band : String) (w : ℕ) (m : Claims) {r : ℕ}
    → band_rank band ≡ some r
    → IsBelow r (m k)
    → already_notified_group now k band w m ≡ false
unfolding already_notified_group
already_notified_group-below now k band w m h below = ground arith

-- The claim of the group, if grouping is on.
abbrev pub group_claim : Alert → Store → Option String → Option Claim
group_claim a s none = none
group_claim a s (some g) = s.groups (group_key a.key g)

collapsed_by-below :
    (env : Env) (w : ℕ) (a : Alert) (s : Store) (o : Option String) {r : ℕ}
    → band_rank a.band ≡ some r
    → IsBelow r (group_claim a s o)
    → collapsed_by env w a s o ≡ false
collapsed_by-below env w a s none h below = refl
collapsed_by-below env w a s (some g) h below =
    rw (already_notified_group-below env.checked_at (group_key a.key g) a.band w s.groups h below)
      (ground arith)
