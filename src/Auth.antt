-- ===== src/Auth.antt =====
-- Authentication, backend/app/auth and backend/app/api: the tables `users`, `magic_link_tokens` and
-- `user_sessions` of backend/app/auth/schema.py, and the outcome of a request's handler. Times are
-- microseconds. Fresh ids and tokens, which `secrets` and `uuid` draw, are arguments.
pub mod Tokens
pub mod Sessions
pub mod Users
pub mod Login
use transaction_monitoring_s.Prelude.{ℕ, String, Bool, true, false, Option, none, some}
use transaction_monitoring_s.Prelude.Assoc.{Assoc}

pub data Role : Type 0 where
  admin reviewer : Role

pub data UserStatus : Type 0 where
  pending active disabled : UserStatus

-- `invite` or `login`
pub data TokenPurpose : Type 0 where
  invite login : TokenPurpose

pub record UserRow : Type 0 where
  pub email : String
  pub full_name : String
  pub role : Role
  pub status : UserStatus
  pub last_login_at : Option ℕ

pub record TokenRow : Type 0 where
  pub user_id : String
  pub purpose : TokenPurpose
  pub expires_at : ℕ
  pub consumed_at : Option ℕ
  pub redemptions_remaining : ℕ

pub record SessionRow : Type 0 where
  pub user_id : String
  pub expires_at : ℕ
  pub user_agent : Option String
  pub ip : Option String
  pub created_by_token_hash : Option String

-- Each table by its primary key: the id, the token's hash, the session's id.
pub record Db : Type 0 where
  pub users : Assoc UserRow
  pub magic_link_tokens : Assoc TokenRow
  pub user_sessions : Assoc SessionRow

pub record Settings : Type 0 where
  pub magic_link_ttl : ℕ
  pub magic_link_max_redemptions : ℕ
  pub session_ttl : ℕ

abbrev pub is_admin : Role → Bool
is_admin admin = true
is_admin reviewer = false

abbrev pub is_disabled : UserStatus → Bool
is_disabled disabled = true
is_disabled _ = false

abbrev pub is_pending : UserStatus → Bool
is_pending pending = true
is_pending _ = false

abbrev pub is_active : UserStatus → Bool
is_active active = true
is_active _ = false

abbrev pub purpose_eq : TokenPurpose → TokenPurpose → Bool
purpose_eq invite invite = true
purpose_eq login login = true
purpose_eq _ _ = false

-- The tables after a statement, or as they were if it raised.
abbrev pub or_same : Option Db → Db → Db
or_same none db = db
or_same (some db') db = db'
