-- ===== src/Auth/Sessions.antt =====
-- Opaque sessions, backend/app/auth/sessions.py.
use transaction_monitoring_s.Prelude.{
  ℕ, ◌+◌, String, Bool, Option, none, some, ltb, str_eq, not, ◌&&◌, is_some, if◌then◌else◌,
}
use transaction_monitoring_s.Prelude.Assoc.{Assoc, lookup, insert, remove, delete_rows, count_where}
use transaction_monitoring_s.Auth.{
  UserRow, active, is_disabled, is_pending, SessionRow, Db, Settings,
}

-- `last_login_at = now()`, and a pending user becomes active.
abbrev pub logged_in : ℕ → UserRow → UserRow
logged_in now u = record u {
  last_login_at = some now;
  status = if is_pending u.status then active else u.status;
}

-- By the user's row: one transaction, which raises on a missing user or a taken id.
unfoldable pub create_session_for :
    Settings
    → ℕ
    → String
    → Option String
    → Option String
    → Option String
    → String
    → Option UserRow
    → Db
    → Option Db
create_session_for settings now user_id user_agent ip token_hash session_id none db = none
create_session_for settings now user_id user_agent ip token_hash session_id (some u) db =
    if is_some (lookup session_id db.user_sessions)
    then none
    else some (record db {
      user_sessions =
          insert session_id
            (record {
              user_id = user_id;
              expires_at = now + settings.session_ttl;
              user_agent = user_agent;
              ip = ip;
              created_by_token_hash = token_hash;
            })
            db.user_sessions;
      users = insert user_id (logged_in now u) db.users;
    })

unfoldable pub create_session :
    Settings → ℕ → String → Option String → Option String → Option String → String → Db → Option Db
unfolding create_session_for
create_session settings now user_id user_agent ip token_hash session_id db =
    create_session_for settings now user_id user_agent ip token_hash session_id
      (lookup user_id db.users) db

-- The joined row: the user's id and row, the session's id and row.
pub record Login : Type 0 where
  pub id : String
  pub user : UserRow
  pub session_id : String
  pub session : SessionRow

-- `s.expires_at > now() AND u.status <> 'disabled'`, by the user's row and by the session's.
unfoldable pub join_user : ℕ → String → SessionRow → Option UserRow → Option Login
join_user now session_id s none = none
join_user now session_id s (some u) =
    if ltb now s.expires_at && not (is_disabled u.status)
    then some (record { id = s.user_id; user = u; session_id = session_id; session = s })
    else none

unfoldable pub join_row : ℕ → String → Option SessionRow → Assoc UserRow → Option Login
unfolding join_user
join_row now session_id none users = none
join_row now session_id (some s) users = join_user now session_id s (lookup s.user_id users)

unfoldable pub lookup_session : ℕ → String → Db → Option Login
unfolding join_row
lookup_session now session_id db =
    if str_eq session_id ""
    then none
    else join_row now session_id (lookup session_id db.user_sessions) db.users

unfoldable pub delete_session : String → Db → Db
delete_session session_id db =
    if str_eq session_id ""
    then db
    else record db { user_sessions = remove session_id db.user_sessions }

abbrev pub is_of : String → SessionRow → Bool
is_of user_id s = str_eq s.user_id user_id

unfoldable pub delete_all_sessions_for_user : String → Db → ℕ × Db
delete_all_sessions_for_user user_id db = (
  count_where (λ k. is_of user_id) db.user_sessions,
  record db { user_sessions = delete_rows (is_of user_id) db.user_sessions },
)

abbrev pub is_past : ℕ → SessionRow → Bool
is_past now s = ltb s.expires_at now

unfoldable pub purge_expired_sessions : ℕ → Db → ℕ × Db
purge_expired_sessions now db = (
  count_where (λ k. is_past now) db.user_sessions,
  record db { user_sessions = delete_rows (is_past now) db.user_sessions },
)
