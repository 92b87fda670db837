-- ===== src/Auth/Login/Guards.antt =====
-- Whom the guards of backend/app/auth/api_key.py and backend/app/auth/deps.py let in.
use transaction_monitoring_s.Prelude.{
  ℕ, ◌≡◌, refl, ◌∙◌, ap, String, Bool, true, false, Option, none, some, List, [], ◌∷◌, str_eq, not,
  ◌&&◌, ◌||◌, is_some, mem, if◌then◌else◌, arith,
}
use transaction_monitoring_s.Auth.{is_admin, Db}
use transaction_monitoring_s.Auth.Sessions.{Login, lookup_session}
use transaction_monitoring_s.Auth.Users.{Response, ok, raised}
use transaction_monitoring_s.Auth.Login.{
  is_dev_mode, match_keys, is_valid_api_key, by_key, as_session, as_admin, current_user,
  claim_login, verify_api_key, require_admin_or_api_key,
}

abbrev pub is_ok : {A : Type 0} → Response A → Bool
is_ok (ok a) = true
is_ok (raised e) = false

-- Whether the cookie is a session's, and whether it is an admin's.
abbrev pub is_session : ℕ → Option String → Db → Bool
is_session now none db = false
is_session now (some id) db = is_some (lookup_session now id db)

abbrev is_admins : Option Login → Bool
is_admins none = false
is_admins (some l) = is_admin l.user.role

abbrev pub is_admin_session : ℕ → Option String → Db → Bool
is_admin_session now none db = false
is_admin_session now (some id) db = is_admins (lookup_session now id db)

-- Whether a key is one of the configured keys.
abbrev pub is_known_key : List String → Option String → Bool
is_known_key keys none = false
is_known_key keys (some k) = not (str_eq k "") && mem k keys

match_keys-mem :
    (k : String) (keys : List String) (b : Bool) → match_keys k keys b ≡ (b || mem k keys)
unfolding match_keys
match_keys-mem k [] b = ground arith
match_keys-mem k (x ∷ keys) b =
    ground (arith, match_keys-mem k keys (if str_eq k x then true else b))

is_valid_api_key-known :
    (keys : List String) (key : Option String) → is_valid_api_key keys key ≡ is_known_key keys key
unfolding is_valid_api_key
is_valid_api_key-known keys none = refl
is_valid_api_key-known [] (some k) = ground arith
is_valid_api_key-known (x ∷ keys) (some k) = ground (arith, match_keys-mem k (x ∷ keys) false)

by_key-ok :
    (keys : List String) (key : Option String) (r : Response _ × Db) (db : Db)
    → is_ok (by_key keys key r db).0 ≡ (is_dev_mode keys || is_known_key keys key || is_ok r.0)
unfolding by_key
by_key-ok keys key r db = ground (arith, is_valid_api_key-known keys key)

as_session-ok : (o : Option Login) (db : Db) → is_ok (as_session (claim_login o db)).0 ≡ is_some o
unfolding claim_login
as_session-ok none db = refl
as_session-ok (some l) db = refl

as_admin-ok : (o : Option Login) (db : Db) → is_ok (as_admin (claim_login o db)).0 ≡ is_admins o
unfolding claim_login
as_admin-ok none db = refl
as_admin-ok (some l) db = ground arith

session-ok :
    (now : ℕ) (cookie : Option String) (db : Db)
    → (is_ok (as_session (current_user now cookie db)).0 ≡ is_session now cookie db)
      × (is_ok (as_admin (current_user now cookie db)).0 ≡ is_admin_session now cookie db)
unfolding current_user
session-ok now none db = (refl, refl)
session-ok now (some id) db =
    (as_session-ok (lookup_session now id db) db, as_admin-ok (lookup_session now id db) db)

-- A request passes `verify_api_key` exactly in dev mode, with one of the keys, or with a session
-- that resolves, and `require_admin_or_api_key` exactly in dev mode, with one of the keys, or with
-- a session that resolves to an admin.
pub guards-ok :
    (keys : List String) (now : ℕ) (key cookie : Option String) (db : Db)
    → (is_ok (verify_api_key keys now key cookie db).0
        ≡ (is_dev_mode keys || is_known_key keys key || is_session now cookie db))
      × (is_ok (require_admin_or_api_key keys now key cookie db).0
          ≡ (is_dev_mode keys || is_known_key keys key || is_admin_session now cookie db))
unfolding verify_api_key require_admin_or_api_key
guards-ok keys now key cookie db = (
  by_key-ok keys key (as_session (current_user now cookie db)) db
      ∙ ap (λ b. is_dev_mode keys || is_known_key keys key || b) (session-ok now cookie db).0,
  by_key-ok keys key (as_admin (current_user now cookie db)) db
      ∙ ap (λ b. is_dev_mode keys || is_known_key keys key || b) (session-ok now cookie db).1,
)
