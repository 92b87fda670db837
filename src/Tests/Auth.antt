-- ===== src/Tests/Auth.antt =====
-- Two admins and a reviewer, one magic link, and what becomes of them.
use transaction_monitoring_s.Prelude.{
  ◌+◌, ◌≤◌, ltb, ◌≡◌, refl, String, false, Option, none, some, List, [], ◌∷◌, if◌then◌else◌,
}
use transaction_monitoring_s.Prelude.Assoc.{
  lookup, insert, remove, Distinct, count_where, delete_rows,
}
use transaction_monitoring_s.Auth.{
  admin, reviewer, active, login, UserRow, TokenRow, SessionRow, Db, Settings, Role, TokenPurpose,
}
use transaction_monitoring_s.Auth.Tokens.{issue_token, consume_token}
use transaction_monitoring_s.Auth.Tokens.Budget
use transaction_monitoring_s.Auth.Tokens.Budget.{redemptions, redemptions_bounded}
use transaction_monitoring_s.Auth.Sessions.{logged_in, lookup_session, delete_all_sessions_for_user}
use transaction_monitoring_s.Auth.Users.{ok, delete_user, delete_target, admin_remains, delete_row}
use transaction_monitoring_s.Auth.Users.LastAdmin
use transaction_monitoring_s.Auth.Users.LastAdmin.{
  calls, IsAdministered, calls-IsAdministered, has_admin,
}
use transaction_monitoring_s.Auth.Users.Deleted.{logs_in, names, delete_user-revokes}
use transaction_monitoring_s.Auth.Login.{verify, current_user}
use transaction_monitoring_s.Auth.Login.Opened.{opened, requests, verify-current_user}

abbrev user : String → Role → UserRow
user email role = record {
  email = email;
  full_name = email;
  role = role;
  status = active;
  last_login_at = none;
}

abbrev token : TokenRow
token = record {
  user_id = "u3";
  purpose = login;
  expires_at = 900;
  consumed_at = none;
  redemptions_remaining = 2;
}

abbrev session : Option String → SessionRow
session from = record {
  user_id = "u2";
  expires_at = 5000;
  user_agent = none;
  ip = none;
  created_by_token_hash = from;
}

abbrev db : Db
db = record {
  users = ("u1", user "a@x" admin) ∷ ("u2", user "b@x" admin) ∷ ("u3", user "c@x" reviewer) ∷ [];
  magic_link_tokens = ("h1", token) ∷ [];
  user_sessions = ("s1", session (some "h0")) ∷ ("s2", session (some "h0")) ∷ [];
}

abbrev settings : Settings
settings = record { magic_link_ttl = 600; magic_link_max_redemptions = 3; session_ttl = 1000 }

tokens-Distinct : Distinct db.magic_link_tokens
unfolding lookup
tokens-Distinct = (refl, tt)

sessions-Distinct : Distinct db.user_sessions
unfolding lookup
sessions-Distinct = (refl, (refl, tt))

-- Three clicks on a link that allows two.
abbrev clicks : List Budget.Call
clicks =
    Budget.consume 100 "h1" none ∷ Budget.consume 101 "h1" none ∷ Budget.consume 102 "h1" none ∷ []

redemptions_bounded_example : redemptions settings "h1" clicks db ≤ Budget.budget_of "h1" db
redemptions_bounded_example = redemptions_bounded settings "h1" clicks db tokens-Distinct tt

three_clicks : redemptions settings "h1" clicks db ≡ 2
unfolding redemptions Budget.call Budget.redeems lookup insert consume_token
three_clicks = refl

db-IsAdministered : IsAdministered db
unfolding lookup has_admin
db-IsAdministered = (refl, (refl, (refl, (refl, tt))))

-- Each admin demotes the other; the second demotion is refused.
abbrev demotions : List LastAdmin.Call
demotions = LastAdmin.update "u1" reviewer "u2" ∷ LastAdmin.update "u2" reviewer "u1" ∷ []

calls-IsAdministered_example : IsAdministered (calls (λ s. s) settings demotions db)
calls-IsAdministered_example = calls-IsAdministered (λ s. s) settings demotions db db-IsAdministered

abbrev reissued : Db
reissued = record db {
  magic_link_tokens = ("h2", record token { expires_at = 800; redemptions_remaining = 3 }) ∷ [];
}

reissue : issue_token settings 200 "u3" login "h2" db ≡ some reissued
unfolding issue_token lookup insert delete_rows
reissue = refl

found_token : lookup "h1" db.magic_link_tokens ≡ some token
unfolding lookup
found_token = refl

found_user : lookup "u3" db.users ≡ some (user "c@x" reviewer)
unfolding lookup
found_user = refl

fresh_session : lookup "s9" db.user_sessions ≡ none
unfolding lookup
fresh_session = refl

verify-current_user_example :
    ((verify settings 100 none none "h1" "s9" db).0 ≡ ok "s9")
    × ((current_user 700
          (some "s9")
          (requests "s9" (200 ∷ 300 ∷ []) (verify settings 100 none none "h1" "s9" db).1)).0
        ≡ (if ltb 700 (100 + 1000)
            then some (record {
              id = "u3";
              user = logged_in 100 (user "c@x" reviewer);
              session_id = "s9";
              session = record (opened settings 100 none none "h1" "u3") {
                created_by_token_hash = none;
              };
            })
            else none))
verify-current_user_example =
    verify-current_user settings 100 none none "h1" "s9" token (user "c@x" reviewer) db found_token
      refl found_user refl fresh_session refl sessions-Distinct (200 ∷ 300 ∷ []) 700

abbrev without_u2 : Db
without_u2 = record {
  users = ("u1", user "a@x" admin) ∷ ("u3", user "c@x" reviewer) ∷ [];
  magic_link_tokens = ("h1", token) ∷ [];
  user_sessions = [];
}

deleted : delete_user "u1" "u2" db ≡ ok without_u2
unfolding delete_user delete_target lookup remove delete_rows admin_remains count_where delete_row
    delete_all_sessions_for_user
deleted = refl

delete_user-revokes_example :
    ((sid : String) → logs_in "u2" (lookup_session 10 sid without_u2) ≡ false)
    × ((h : String) (expected : Option TokenPurpose)
        → names "u2" (consume_token 10 h expected without_u2).0 ≡ false)
delete_user-revokes_example =
    delete_user-revokes "u1" "u2" db without_u2 sessions-Distinct tokens-Distinct deleted 10
