-- ===== src/Notify/Retry.antt =====
-- `_retry_tick` of backend/app/tasks/notifications.py: the sweep over the dead letters that are
-- due. `ImmediateAlert.model_validate` is pydantic's: an argument that gives the attack class of
-- the payloads that validate.
pub mod Withdrawal
use transaction_monitoring_s.Prelude.{
  ℕ, String, Bool, false, Option, none, some, List, [], ◌∷◌, if◌then◌else◌,
}
use transaction_monitoring_s.Notify.DeadLetter.{
  Failed, count_failed_attempt, delete_failed_notification, due_failed_notifications,
}
use transaction_monitoring_s.Notify.Triggers.{Config, Dispatch, resolve_dispatch, selected_channels}
use transaction_monitoring_s.Notify.Delivery
use transaction_monitoring_s.Notify.Delivery.{
  Store, Alert, Status, failed, sent, duplicate, deliver_with_dedup,
}

-- The outside while one row is processed: `recount_raises` is the count in the `except`.
pub record Env : Type 0 where
  pub delivery : Delivery.Env
  pub delete_raises : Bool
  pub count_raises : Bool
  pub recount_raises : Bool
  pub counted_at : ℕ

pub record Sweep : Type 0 where
  pub config : Config
  pub window_minutes : ℕ
  pub max_attempts : ℕ
  pub attack_class_of : String → Option String

-- The alert that is delivered again.
abbrev pub alert_of : Failed → List Dispatch → Alert
alert_of row ds = record {
  key = row.key;
  band = row.band;
  payload = row.payload;
  dispatches = ds;
  group = row.group;
}

module _ (sweep : Sweep) (env : Env) (row : Failed) where
  unfoldable pub counted : Store → Store
  counted s = record s {
    failed = count_failed_attempt sweep.max_attempts env.counted_at row s.failed;
  }

  -- The body of the `except`.
  unfoldable pub rescue : Store → Store
  rescue s = if env.recount_raises then s else counted s

  unfoldable pub count : Store → Store
  count s = if env.count_raises then rescue s else counted s

  unfoldable pub withdraw : Store → Store
  withdraw s =
      if env.delete_raises
      then rescue s
      else record s { failed = delete_failed_notification row.key s.failed }

  -- What follows the second delivery.
  unfoldable pub settle_row : Store × Status → Store
  settle_row (s, failed) = count s
  settle_row (s, sent) = withdraw s
  settle_row (s, duplicate) = withdraw s

  -- By the dispatches, and the channels that the config selects.
  unfoldable pub retry_routed : List Dispatch → List String → Store → Store
  retry_routed [] [] s = withdraw s
  retry_routed [] (n ∷ ns) s = count s
  retry_routed (d ∷ ds) ns s =
      settle_row
        (deliver_with_dedup env.delivery sweep.window_minutes (alert_of row (d ∷ ds)) false s)

  -- By the attack class of the payload, if it validates.
  unfoldable pub retry_payload : Option String → Store → Store
  retry_payload none s = rescue s
  retry_payload (some cls) s =
      retry_routed (resolve_dispatch sweep.config row.band cls)
        (selected_channels sweep.config row.band cls) s

  unfoldable pub retry_row : Store → Store
  retry_row s = retry_payload (sweep.attack_class_of row.payload) s

-- The rows in order; each is processed in its own `Env`, and the sweep ends with the rows.
unfoldable pub retry_rows : Sweep → (Failed → Env) → List Failed → Store → Store
retry_rows sweep envs [] s = s
retry_rows sweep envs (row ∷ rows) s = retry_rows sweep envs rows (retry_row sweep (envs row) row s)

unfoldable pub retry_tick : Sweep → (Failed → Env) → ℕ → ℕ → ℕ → Store → Store
retry_tick sweep envs base_backoff limit now s =
    retry_rows sweep envs (due_failed_notifications base_backoff limit now s.failed) s
