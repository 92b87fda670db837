-- ===== src/Auth/Login.antt =====
-- Login by magic link, backend/app/api/auth.py, and the guards of the routes:
-- backend/app/auth/deps.py and backend/app/auth/api_key.py. `lower` and `strip` are Python's, and
-- `hash_token` is SHA-256 in hex. Mails and cookies' flags are left out.
pub mod Guards
pub mod Revoked
pub mod Opened
use transaction_monitoring_s.Prelude.{
  ℕ, String, Bool, true, false, Option, none, some, List, [], ◌∷◌, str_eq, not, ◌&&◌, ◌||◌, is_some,
  if◌then◌else◌,
}
use transaction_monitoring_s.Prelude.Assoc.{Assoc, lookup}
use transaction_monitoring_s.RateLimit.{RateLimiter, Verdict, allowed, check}
use transaction_monitoring_s.Auth.{
  Role, UserRow, is_admin, is_disabled, is_active, TokenPurpose, login, SessionRow, Db, Settings,
  or_same,
}
use transaction_monitoring_s.Auth.Tokens.{issue_token, consume_token, claim_session_token}
use transaction_monitoring_s.Auth.Sessions.{Login, create_session, lookup_session, delete_session}
use transaction_monitoring_s.Auth.Users.{
  HttpError, bad_request, unauthorized, forbidden, internal_error, Response, ok, raised,
}

-- `WHERE lower(email) = lower($1) AND status = 'active' LIMIT 1`
unfoldable pub find_active : (String → String) → String → Assoc UserRow → Option String
find_active lower email [] = none
find_active lower email ((id, u) ∷ rows) =
    let rest = find_active lower email rows in
    if str_eq (lower u.email) (lower email) && is_active u.status then some id else rest

-- The token of the user that was found; an exception changes nothing.
unfoldable pub send_link : Settings → ℕ → String → Option String → Db → Db
send_link settings now token_hash none db = db
send_link settings now token_hash (some user_id) db =
    or_same (issue_token settings now user_id login token_hash db) db

unfoldable pub if_allowed : Verdict → Db → Db → Db
if_allowed allowed db' db = db'
if_allowed _ db' db = db

-- `request_link`, whose response is the same in every case; `tick` is the limiter's clock.
unfoldable pub request_link :
    (String → String)
    → (String → String)
    → ℕ
    → Settings
    → ℕ
    → ℕ
    → String
    → String
    → RateLimiter × Db
    → RateLimiter × Db
request_link lower strip resolution settings tick now email token_hash (limiter, db) =
    let (limiter', verdict) = check resolution tick (strip (lower email)) limiter in
    (
      limiter',
      if_allowed verdict (send_link settings now token_hash (find_active lower email db.users) db)
          db,
    )

-- The session of a redeemed token.
unfoldable pub start_session : Option Db → String → Db → Response String × Db
start_session none session_id db = (raised internal_error, db)
start_session (some db') session_id db = (ok session_id, db')

-- By the user's row: a user who is gone or disabled is refused.
unfoldable pub verify_user :
    Settings
    → ℕ
    → Option String
    → Option String
    → String
    → String
    → String
    → Option UserRow
    → Db
    → Response String × Db
unfolding start_session
verify_user settings now user_agent ip token_hash session_id user_id none db =
    (raised bad_request, db)
verify_user settings now user_agent ip token_hash session_id user_id (some u) db =
    if is_disabled u.status
    then (raised bad_request, db)
    else start_session
        (create_session settings now user_id user_agent ip (some token_hash) session_id db)
        session_id db

-- By what the token's redemption returns.
unfoldable pub verify_redeemed :
    Settings
    → ℕ
    → Option String
    → Option String
    → String
    → String
    → Option String × Db
    → Response String × Db
unfolding verify_user
verify_redeemed settings now user_agent ip token_hash session_id (none, db) =
    (raised bad_request, db)
verify_redeemed settings now user_agent ip token_hash session_id (some user_id, db) =
    verify_user settings now user_agent ip token_hash session_id user_id (lookup user_id db.users)
      db

-- With the new session's id, which the cookie gets.
unfoldable pub verify :
    Settings → ℕ → Option String → Option String → String → String → Db → Response String × Db
unfolding verify_redeemed
verify settings now user_agent ip token_hash session_id db =
    verify_redeemed settings now user_agent ip token_hash session_id
      (consume_token now token_hash none db)

-- `if user and user.get("created_by_token_hash")`
unfoldable pub claim : String → Option String → Db → Db
claim session_id none db = db
claim session_id (some h) db = if str_eq h "" then db else (claim_session_token session_id h db).1

-- `user["created_by_token_hash"] = None` of a login that was claimed.
abbrev pub unclaimed : Option String → Option String
unclaimed none = none
unclaimed (some h) = if str_eq h "" then some h else none

unfoldable pub claim_login : Option Login → Db → Option Login × Db
unfolding claim
claim_login none db = (none, db)
claim_login (some l) db = (
  some (record l {
    session = record l.session {
      created_by_token_hash = unclaimed l.session.created_by_token_hash;
    };
  }),
  claim l.session_id l.session.created_by_token_hash db,
)

-- By the session cookie.
unfoldable pub current_user : ℕ → Option String → Db → Option Login × Db
unfolding claim_login
current_user now none db = (none, db)
current_user now (some session_id) db = claim_login (lookup_session now session_id db) db

abbrev pub require_user : Option Login → Response Login
require_user none = raised unauthorized
require_user (some l) = ok l

abbrev pub require_admin : Option Login → Response Login
require_admin none = raised unauthorized
require_admin (some l) = if is_admin l.user.role then ok l else raised forbidden

-- `logout`, by the session cookie.
unfoldable pub logout : Option String → Db → Db
logout none db = db
logout (some session_id) db = delete_session session_id db

-- `_valid_keys` is empty in dev mode.
abbrev pub is_dev_mode : List String → Bool
is_dev_mode [] = true
is_dev_mode (k ∷ keys) = false

-- The loop of `is_valid_api_key`, which runs to the end. Keys and candidates are ASCII texts, as
-- `hmac.compare_digest` asks of two strings.
unfoldable pub match_keys : String → List String → Bool → Bool
match_keys candidate [] matched = matched
match_keys candidate (k ∷ keys) matched =
    match_keys candidate keys (if str_eq candidate k then true else matched)

unfoldable pub is_valid_api_key : List String → Option String → Bool
is_valid_api_key keys none = false
is_valid_api_key keys (some candidate) =
    if str_eq candidate "" || is_dev_mode keys then false else match_keys candidate keys false

-- Who a request is.
pub data Principal : Type 0 where
  dev_mode : Principal
  api_key : String → Principal
  session : String → Principal

abbrev pub or_blank : Option String → String
or_blank none = ""
or_blank (some s) = s

-- By the session: any user.
abbrev pub as_session : Option Login × Db → Response Principal × Db
as_session (none, db) = (raised unauthorized, db)
as_session (some l, db) = (ok (session l.id), db)

-- By the session: an admin.
abbrev pub as_admin : Option Login × Db → Response Principal × Db
as_admin (none, db) = (raised unauthorized, db)
as_admin (some l, db) = (if is_admin l.user.role then ok (session l.id) else raised forbidden, db)

-- The order in which the guards try the credentials: dev mode, the key, the session cookie.
unfoldable pub by_key :
    List String → Option String → Response Principal × Db → Db → Response Principal × Db
by_key keys key by_session db =
    if is_dev_mode keys
    then (ok dev_mode, db)
    else if is_valid_api_key keys key
    then (ok (api_key (or_blank key)), db)
    else by_session

unfoldable pub verify_api_key :
    List String → ℕ → Option String → Option String → Db → Response Principal × Db
verify_api_key keys now key cookie db = by_key keys key (as_session (current_user now cookie db)) db

unfoldable pub require_admin_or_api_key :
    List String → ℕ → Option String → Option String → Db → Response Principal × Db
require_admin_or_api_key keys now key cookie db =
    by_key keys key (as_admin (current_user now cookie db)) db
