-- ===== src/Tests/Notify.antt =====
-- Claims, dead letters and routes of one alert.
use transaction_monitoring_s.Prelude.{
  ◌≤◌, ◌≡◌, refl, true, false, none, some, List, [], ◌∷◌, arith, length,
}
use transaction_monitoring_s.Notify.Ledger.{Key, Claims, band_rank, claim_notification, key_eq}
use transaction_monitoring_s.Notify.Ledger.Claims.{Attempt, won, Rises, won-Rises}
use transaction_monitoring_s.Notify.DeadLetter.{
  Failed, find, record_failed_notification, count_failed_attempt,
}
use transaction_monitoring_s.Notify.DeadLetter.Budget.{escalation_budget}
use transaction_monitoring_s.Notify.Triggers.{address, group, Rule, Config}

abbrev pub key : Key
key = record { network = "preprod"; subject = "t1"; source = "scorer" }

abbrev pub no_claims : Claims
no_claims k = none

pub high : band_rank "High" ≡ some 2
unfolding band_rank
high = refl

pub critical : band_rank "Critical" ≡ some 3
unfolding band_rank
critical = refl

abbrev run : List Attempt
run =
    record { at = 1; key = key; band = "High" }
    ∷ record { at = 2; key = key; band = "High" }
    ∷ record { at = 3; key = key; band = "Critical" }
    ∷ []

run-won : won key run no_claims ≡ 2 ∷ 3 ∷ []
unfolding won claim_notification band_rank key_eq
run-won = refl

won-Rises_example : Rises 0 (won key run no_claims) × (length (won key run no_claims) ≤ 4)
won-Rises_example = won-Rises key run

abbrev pub spent : Failed
spent = record {
  key = key;
  band = "High";
  rank = 2;
  group = none;
  payload = "{}";
  attempts = 5;
  abandoned = true;
  first_failed_at = 10;
  last_attempt_at = 90;
}

pub spent-found : find key (spent ∷ []) ≡ some spent
unfolding find key_eq
spent-found = refl

escalation_budget_example :
    (g : Failed) × (find key (record_failed_notification 100 key "Critical" "{}" none (spent ∷ []))
      ≡ some g)
    × (g.attempts ≡ spent.attempts)
    × (g.abandoned ≡ false)
    × ((h : Failed) × (find key (
            count_failed_attempt 5 200 g
              (record_failed_notification 100 key "Critical" "{}" none (spent ∷ [])))
          ≡ some h)
        × (h.abandoned ≡ true))
escalation_budget_example =
    escalation_budget 5 100 200 "Critical" "{}" none spent (spent ∷ []) critical (omega arith)
      spent-found (omega arith)

abbrev rule : Rule
rule = record {
  band = "High";
  attack_classes = "sandwich" ∷ [];
  channels = "email" ∷ [];
  recipients = [];
  webhook_url = "";
}

abbrev pub config : Config
config = record {
  channels =
      (
        "email",
        record { enabled = true; recipients = group "ops" ∷ address "a@x" ∷ []; default_url = "" },
      )
      ∷ [];
  rules = record rule { band = "Moderate" } ∷ rule ∷ record rule { band = "Critical" } ∷ [];
  defaults = [];
  groups = ("ops", "a@x" ∷ "b@x" ∷ []) ∷ [];
}
