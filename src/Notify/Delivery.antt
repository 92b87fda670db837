-- ===== src/Notify/Delivery.antt =====
-- `_deliver_with_dedup` of backend/app/notifications/__init__.py and `dispatch` of
-- backend/app/notifications/dispatcher.py. What the outside does during one delivery (the channels,
-- the database errors, the clock at each statement) is an `Env`; the audit row and the log lines
-- are left out.
pub mod Recall
pub mod Once
use transaction_monitoring_s.Prelude.{
  ℕ, String, Bool, true, false, Option, none, some, List, [], ◌∷◌, leb, ◌&&◌, not, any,
  if◌then◌else◌,
}
use transaction_monitoring_s.Notify.Ledger.{
  Key, Claims, already_notified, already_notified_group, claim_notification,
  claim_notification_group,
}
use transaction_monitoring_s.Notify.DeadLetter.{Failed, record_failed_notification}
use transaction_monitoring_s.Notify.Triggers.{Dispatch}

-- What `channel.send` does: returns a result, or raises (a timeout included).
pub data Send : Type 0 where
  ok : Send
  skipped : Send
  not_ok : Send
  raises : Send

pub record Channel : Type 0 where
  pub is_enabled : Bool
  pub handles : Bool
  pub send : Send

-- `registry.get_channel`
abbrev pub Registry : Type 0
Registry = String → Option Channel

abbrev pub is_ok : Send → Bool
is_ok ok = true
is_ok _ = false

-- `_send_one`, as far as its result says that the payload was delivered or not.
unfoldable pub send_one : Registry → Dispatch → Send
send_one registry d = elim (registry d.channel) [
  | none ↦ skipped
  | some c ↦
      if not c.is_enabled
      then skipped
      else if not c.handles
      then skipped
      else elim c.send [ raises ↦ not_ok | ok ↦ ok | skipped ↦ skipped | not_ok ↦ not_ok ]
]

-- True iff a channel delivered; of no dispatches none did.
unfoldable pub dispatch : Registry → List Dispatch → Bool
dispatch registry = any (λ d. is_ok (send_one registry d))

pub record Env : Type 0 where
  pub registry : Registry
  pub check_raises : Bool
  pub group_check_raises : Bool
  pub record_raises : Bool
  pub claim_raises : Bool
  pub group_claim_raises : Bool
  pub checked_at : ℕ
  pub recorded_at : ℕ
  pub claimed_at : ℕ

pub record Store : Type 0 where
  pub alerts : Claims
  pub groups : Claims
  pub failed : List Failed

-- One alert, as `_deliver_with_dedup` is called with it.
pub record Alert : Type 0 where
  pub key : Key
  pub band : String
  pub payload : String
  pub dispatches : List Dispatch
  pub group : Option String

-- `DELIVER_DUPLICATE`, `DELIVER_SENT`, `DELIVER_FAILED`
pub data Status : Type 0 where
  duplicate sent failed : Status

-- The group of an alert, if grouping is on.
abbrev pub effective_group : ℕ → Alert → Option String
effective_group window_minutes a = if leb window_minutes 0 then none else a.group

abbrev pub group_key : Key → String → Key
group_key k g = record k { subject = g }

-- The two reads before the delivery. A read that raises suppresses nothing.
unfoldable pub is_duplicate : Env → Alert → Store → Bool
is_duplicate env a s = not env.check_raises && already_notified a.key a.band s.alerts

abbrev pub collapsed_by : Env → ℕ → Alert → Store → Option String → Bool
collapsed_by env window_minutes a s none = false
collapsed_by env window_minutes a s (some g) =
    not env.group_check_raises
    && already_notified_group env.checked_at (group_key a.key g) a.band window_minutes s.groups

unfoldable pub is_collapsed : Env → ℕ → Alert → Store → Bool
is_collapsed env window_minutes a s =
    collapsed_by env window_minutes a s (effective_group window_minutes a)

-- The writes after a delivery, and after a failed one.
unfoldable pub record_claims : Env → ℕ → Alert → Store → Store
record_claims env window_minutes a s =
    let alerts' =
      if env.claim_raises
      then s.alerts
      else (claim_notification env.claimed_at a.key a.band s.alerts).0 in
    let groups' : Claims = elim (effective_group window_minutes a) [
      | none ↦ s.groups
      | some g ↦
          if env.group_claim_raises
          then s.groups
          else claim_notification_group env.claimed_at (group_key a.key g) a.band s.groups
    ] in
    record s { alerts = alerts'; groups = groups' }

unfoldable pub dead_letter : Env → ℕ → Alert → Bool → Store → Store
dead_letter env window_minutes a record_failure s =
    if record_failure && not env.record_raises
    then record s {
      failed =
          record_failed_notification env.recorded_at a.key a.band a.payload
            (effective_group window_minutes a) s.failed;
    }
    else s

unfoldable pub deliver_with_dedup : Env → ℕ → Alert → Bool → Store → Store × Status
deliver_with_dedup env window_minutes a record_failure s =
    if is_duplicate env a s
    then (s, duplicate)
    else if is_collapsed env window_minutes a s
    then (s, duplicate)
    else if dispatch env.registry a.dispatches
    then (record_claims env window_minutes a s, sent)
    else (dead_letter env window_minutes a record_failure s, failed)
