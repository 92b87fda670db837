-- ===== src/Auth/Users.antt =====
-- User management by admins, backend/app/api/users.py. The mail of an invite, whose errors are
-- caught, is left out; what is left of it is the token that is issued.
pub mod LastAdmin
pub mod Deleted
use transaction_monitoring_s.Prelude.{
  ℕ, String, Bool, true, false, Option, none, some, List, [], ◌∷◌, str_eq, ◌==◌, not, ◌&&◌, ◌||◌,
  is_some, if◌then◌else◌,
}
use transaction_monitoring_s.Prelude.Assoc.{Assoc, lookup, insert, remove, delete_rows, count_where}
use transaction_monitoring_s.Auth.{
  Role, admin, UserRow, UserStatus, pending, is_admin, is_disabled, is_pending, TokenPurpose,
  invite, Db, Settings, TokenRow, or_same,
}
use transaction_monitoring_s.Auth.Tokens.{issue_token}
use transaction_monitoring_s.Auth.Sessions.{delete_all_sessions_for_user}

-- The status codes that the handlers raise.
pub data HttpError : Type 0 where
  bad_request unauthorized forbidden not_found conflict internal_error : HttpError

-- A handler's response; an error rolls its transaction back.
pub data Response (A : Type 0) : Type 0 where
  ok : A → Response A
  raised : HttpError → Response A

-- `role = 'Admin' AND status <> 'disabled' AND id <> $1`
abbrev pub is_other_admin : String → String → UserRow → Bool
is_other_admin user_id id u =
    is_admin u.role && not (is_disabled u.status) && not (str_eq id user_id)

-- Whether `_assert_admin_remains` passes.
unfoldable pub admin_remains : String → Db → Bool
admin_remains user_id db = not (count_where (is_other_admin user_id) db.users == 0)

-- `_issue_invite_email`, whose errors change nothing.
unfoldable pub issue_invite : Settings → ℕ → String → String → Db → Db
issue_invite settings now user_id token_hash db =
    or_same (issue_token settings now user_id invite token_hash db) db

module _ (lower : String → String) where
  abbrev pub has_email : String → String → UserRow → Bool
  has_email email id u = str_eq (lower u.email) (lower email)

  -- The INSERT raises on a taken id.
  unfoldable pub create_user :
      Settings → ℕ → String → String → Role → String → String → Db → Response Db
  create_user settings now email full_name role user_id token_hash db =
      if not (count_where (has_email email) db.users == 0)
      then raised conflict
      else if is_some (lookup user_id db.users)
      then raised internal_error
      else ok (
          issue_invite settings now user_id token_hash (record db {
            users =
                insert user_id
                  (record {
                    email = email;
                    full_name = full_name;
                    role = role;
                    status = pending;
                    last_login_at = none;
                  })
                  db.users;
          }))

-- By the target's row.
unfoldable pub set_role : Role → String → Option UserRow → Db → Response Db
set_role role user_id none db = raised not_found
set_role role user_id (some u) db =
    if is_admin u.role && not (is_admin role) && not (admin_remains user_id db)
    then raised bad_request
    else ok (record db { users = insert user_id (record u { role = role }) db.users })

unfoldable pub update_user : String → Role → String → Db → Response Db
unfolding set_role
update_user admin_id role user_id db =
    if str_eq user_id admin_id
    then raised bad_request
    else set_role role user_id (lookup user_id db.users) db

-- The row with its tokens and sessions, which the foreign keys take along.
unfoldable pub delete_row : String → Db → Db
delete_row user_id db = record db {
  users = remove user_id db.users;
  magic_link_tokens = delete_rows (λ r. str_eq r.user_id user_id) db.magic_link_tokens;
  user_sessions = delete_rows (λ r. str_eq r.user_id user_id) db.user_sessions;
}

unfoldable pub delete_target : String → Option UserRow → Db → Response Db
delete_target user_id none db = raised not_found
delete_target user_id (some u) db =
    if is_admin u.role && not (admin_remains user_id db)
    then raised bad_request
    else ok (delete_row user_id (delete_all_sessions_for_user user_id db).1)

unfoldable pub delete_user : String → String → Db → Response Db
unfolding delete_target
delete_user admin_id user_id db =
    if str_eq user_id admin_id
    then raised bad_request
    else delete_target user_id (lookup user_id db.users) db

unfoldable pub resend_to : Settings → ℕ → String → String → Option UserRow → Db → Response Db
resend_to settings now user_id token_hash none db = raised not_found
resend_to settings now user_id token_hash (some u) db =
    if not (is_pending u.status)
    then raised bad_request
    else ok (issue_invite settings now user_id token_hash db)

unfoldable pub resend_invite : Settings → ℕ → String → String → Db → Response Db
resend_invite settings now user_id token_hash db =
    resend_to settings now user_id token_hash (lookup user_id db.users) db
