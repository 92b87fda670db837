-- ===== src/Tests/Delivery.antt =====
-- One alert that is delivered, escalates, fails and is retried.
use transaction_monitoring_s.Prelude.Assoc.{lookup}
use transaction_monitoring_s.Prelude.{◌≡◌, refl, ◌⊎◌, true, false, none, some, [], ◌∷◌, arith}
use transaction_monitoring_s.Notify.Ledger.{
  already_notified_group, band_rank, already_notified, key_eq,
}
use transaction_monitoring_s.Notify.DeadLetter.{
  by_age, insert_by_age, mark_failed_attempt, update, count_failed_attempt,
  due_failed_notifications, is_due,
}
use transaction_monitoring_s.Notify.Triggers.{
  selection, match_from, route_all, route, resolve_rule_recipients, channel_recipients, expand,
  add_unseen, resolve_webhook_url, webhook_default_url, channel_enabled, match_rule, rule_matches,
  resolve_recipients, resolve_dispatch, selected_channels,
}
use transaction_monitoring_s.Notify.Delivery
use transaction_monitoring_s.Notify.Delivery.{
  Env, Store, Alert, duplicate, sent, failed, Send, ok, not_ok, dispatch, effective_group,
  is_duplicate, is_collapsed, record_claims, dead_letter, send_one, deliver_with_dedup,
}
use transaction_monitoring_s.Notify.Delivery.Recall.{Covers, IsCollapsedBy, duplicate-witness}
use transaction_monitoring_s.Notify.Retry
use transaction_monitoring_s.Notify.Retry.{
  Sweep, retry_row, retry_tick, retry_rows, retry_payload, retry_routed, settle_row, count, counted,
}
use transaction_monitoring_s.Notify.Retry.Withdrawal.{IsKept, IsSettled, retry_row-IsKept}
use transaction_monitoring_s.Notify.Delivery.Once.{sent-once}
use transaction_monitoring_s.Tests.Notify.{key, no_claims, spent, config, high, spent-found}

abbrev sends : Send → Delivery.Registry
sends s name = some (record { is_enabled = true; handles = true; send = s })

abbrev env : Send → Env
env s = record {
  registry = sends s;
  check_raises = false;
  group_check_raises = false;
  record_raises = false;
  claim_raises = false;
  group_claim_raises = false;
  checked_at = 100;
  recorded_at = 110;
  claimed_at = 120;
}

abbrev empty : Store
empty = record { alerts = no_claims; groups = no_claims; failed = [] }

abbrev alert : Alert
alert = record {
  key = key;
  band = "High";
  payload = "{}";
  dispatches = record { channel = "email"; recipients = "a@x" ∷ []; webhook_url = none } ∷ [];
  group = some "g1";
}

-- The store in which the alert's band is claimed already.
abbrev claimed : Store
claimed = record {
  alerts = λ k. some (record { rank = 2; notified_at = 50 });
  groups = no_claims;
  failed = [];
}

claimed-duplicate : (deliver_with_dedup (env ok) 15 alert true claimed).1 ≡ duplicate
unfolding deliver_with_dedup is_duplicate already_notified band_rank
claimed-duplicate = refl

duplicate-witness_example :
    (Covers 2 (claimed.alerts key) ⊎ IsCollapsedBy 100 15 2 alert claimed)
    × ((deliver_with_dedup (env ok) 15 alert true claimed).0 ≡ claimed)
duplicate-witness_example = duplicate-witness (env ok) 15 alert true claimed high claimed-duplicate

empty-failed : (deliver_with_dedup (env not_ok) 15 alert true empty).1 ≡ failed
unfolding deliver_with_dedup is_duplicate is_collapsed already_notified dispatch send_one band_rank
    already_notified_group
empty-failed = refl

empty-sent : (deliver_with_dedup (env ok) 15 alert true empty).1 ≡ sent
unfolding deliver_with_dedup is_duplicate is_collapsed already_notified dispatch send_one band_rank
    already_notified_group
empty-sent = refl

sent-once_example :
    (deliver_with_dedup
      (env ok)
      15
      alert
      true
      (deliver_with_dedup (env ok) 15 alert true empty).0).1
    ≡ duplicate
sent-once_example =
    sent-once (env ok) (env ok) 15 15 alert alert true true empty high high (omega arith) refl refl
      refl empty-sent

abbrev sweep : Sweep
sweep = record {
  config = config;
  window_minutes = 15;
  max_attempts = 6;
  attack_class_of = λ payload. some "sandwich";
}

abbrev retry_env : Retry.Env
retry_env = record {
  delivery = env not_ok;
  delete_raises = false;
  count_raises = false;
  recount_raises = false;
  counted_at = 300;
}

abbrev failing : Store
failing = record empty { failed = spent ∷ [] }

retry_row-IsKept_example :
    IsKept sweep spent (retry_row sweep retry_env spent failing)
    ⊎ IsSettled sweep retry_env spent failing
retry_row-IsKept_example = retry_row-IsKept sweep retry_env spent failing spent-found

-- The sweep finds the row due, and its third failure is counted.
retry_tick-counted :
    (retry_tick sweep
      (λ row. retry_env)
      60
      10
      500
      (record empty { failed = record spent { attempts = 2; abandoned = false } ∷ [] })).failed
    ≡ record spent { attempts = 3; abandoned = false; last_attempt_at = 300 } ∷ []
unfolding retry_tick retry_rows retry_row retry_payload retry_routed settle_row count counted
    due_failed_notifications by_age insert_by_age is_due count_failed_attempt mark_failed_attempt
    update key_eq deliver_with_dedup is_duplicate is_collapsed already_notified dispatch send_one
    band_rank dead_letter resolve_dispatch selection match_rule match_from rule_matches route_all
    route resolve_rule_recipients channel_recipients resolve_recipients expand add_unseen
    resolve_webhook_url webhook_default_url channel_enabled lookup selected_channels
    already_notified_group
retry_tick-counted = refl
