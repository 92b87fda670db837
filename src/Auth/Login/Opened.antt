-- ===== src/Auth/Login/Opened.antt =====
-- From a magic link to a session, and back again: `verify` of backend/app/api/auth.py and
-- `current_user` of backend/app/auth/deps.py.
use transaction_monitoring_s.Prelude.{
  ℕ, ◌+◌, ltb, ◌≡◌, refl, ◌∙◌, ap, String, true, false, Option, none, some, str_eq, if◌then◌else◌,
  arith, eq_iff, Bool, List, [], ◌∷◌, Bool-cases, Option-cases, inl, inr,
}
use transaction_monitoring_s.Prelude.Assoc.{
  Assoc, lookup, insert, lookup-insert, Distinct, insert-Distinct, delete_where-Distinct,
}
use transaction_monitoring_s.Auth.{UserRow, is_disabled, SessionRow, TokenRow, Db, Settings}
use transaction_monitoring_s.Auth.Tokens.{
  is_redeemable, redeemed, consume_token, consume_row, is_sibling, clear_reference,
  claim_session_token,
}
use transaction_monitoring_s.Auth.Sessions.{
  Login, create_session, create_session_for, lookup_session, join_row, join_user, logged_in,
}
use transaction_monitoring_s.Auth.Users.{ok}
use transaction_monitoring_s.Auth.Login.Revoked.{claim-lookup}
use transaction_monitoring_s.Auth.Login.{
  verify, verify_redeemed, verify_user, start_session, current_user, claim_login, claim, unclaimed,
}

-- The session that `verify` starts.
abbrev pub opened : Settings → ℕ → Option String → Option String → String → String → SessionRow
opened settings now user_agent ip h user_id = record {
  user_id = user_id;
  expires_at = now + settings.session_ttl;
  user_agent = user_agent;
  ip = ip;
  created_by_token_hash = some h;
}

-- The tables after a `verify` that succeeds.
abbrev pub after_login :
    Settings → ℕ → Option String → Option String → String → String → TokenRow → UserRow → Db → Db
after_login settings now user_agent ip h sid r u db = record {
  users = insert r.user_id (logged_in now u) db.users;
  magic_link_tokens = insert h (redeemed now r) db.magic_link_tokens;
  user_sessions = insert sid (opened settings now user_agent ip h r.user_id) db.user_sessions;
}

verify-after_login :
    (settings : Settings) (now : ℕ) (ua ip : Option String) (h sid : String) (r : TokenRow)
    (u : UserRow) (db : Db)
    → lookup h db.magic_link_tokens ≡ some r
    → is_redeemable now none r ≡ true
    → lookup r.user_id db.users ≡ some u
    → is_disabled u.status ≡ false
    → lookup sid db.user_sessions ≡ none
    → verify settings now ua ip h sid db ≡ (ok sid, after_login settings now ua ip h sid r u db)
unfolding verify verify_redeemed verify_user start_session consume_token consume_row create_session
    create_session_for
verify-after_login settings now ua ip h sid r u db token redeemable user enabled fresh =
    simp (token, redeemable, user, enabled, fresh) refl

-- The login that `current_user` returns.
abbrev claimed : Option Login → Option Login
claimed none = none
claimed (some l) = some (record l {
  session = record l.session { created_by_token_hash = unclaimed l.session.created_by_token_hash };
})

claim_login-claimed : (o : Option Login) (db : Db) → (claim_login o db).0 ≡ claimed o
unfolding claim_login
claim_login-claimed none db = refl
claim_login-claimed (some l) db = refl

claimed-if :
    (b : Bool) (l : Login)
    → claimed (if b then some l else none) ≡ (if b then claimed (some l) else none)
claimed-if true l = refl
claimed-if false l = refl

logged_in-enabled :
    (now : ℕ) (u : UserRow)
    → is_disabled u.status ≡ false
    → is_disabled (logged_in now u).status ≡ false
logged_in-enabled now u h = ground (arith, h)

abbrev login_of : String → SessionRow → UserRow → Login
login_of sid s u = record { id = s.user_id; user = u; session_id = sid; session = s }

lookup_session-found :
    (t : ℕ) (sid : String) (s : SessionRow) (u : UserRow) (db : Db)
    → str_eq sid "" ≡ false
    → lookup sid db.user_sessions ≡ some s
    → lookup s.user_id db.users ≡ some u
    → is_disabled u.status ≡ false
    → lookup_session t sid db ≡ (if ltb t s.expires_at then some (login_of sid s u) else none)
unfolding lookup_session join_row join_user
lookup_session-found t sid s u db named at user enabled =
    simp (named, at, user) (ground (arith, enabled))

-- The tables after requests with the session's cookie, at the times of the list.
unfoldable pub requests : String → List ℕ → Db → Db
requests sid [] db = db
requests sid (t ∷ ts) db = requests sid ts (current_user t (some sid) db).1

unclaimed_again : (c : Option String) → unclaimed (unclaimed c) ≡ unclaimed c
unclaimed_again none = refl
unclaimed_again (some h) = ground arith

-- The session is there, linked to its token or no more, and its user too.
record IsOpen (sid : String) (s : SessionRow) (u : UserRow) (db : Db) : Type 0 where
  distinct : Distinct db.user_sessions
  link : Option String
  linked : unclaimed link ≡ unclaimed s.created_by_token_hash
  at : lookup sid db.user_sessions ≡ some (record s { created_by_token_hash = link })
  user : lookup s.user_id db.users ≡ some u

module _ (sid : String) (s : SessionRow) (u : UserRow) (named : str_eq sid "" ≡ false)
    (enabled : is_disabled u.status ≡ false) where
  claim_at-Distinct :
      (o : Option SessionRow) (rows : Assoc SessionRow)
      → Distinct rows
      → Distinct (clear_reference sid o rows)
  unfolding clear_reference
  claim_at-Distinct none rows d = d
  claim_at-Distinct (some r) rows d = elim (Option-cases r.created_by_token_hash) [
    | inl e ↦ rw e d
    | inr (h, e) ↦ rw e (insert-Distinct sid _ rows d)
  ]

  claim-IsOpen :
      (db : Db) (link : Option String)
      → unclaimed link ≡ unclaimed s.created_by_token_hash
      → Distinct db.user_sessions
      → lookup sid db.user_sessions ≡ some (record s { created_by_token_hash = link })
      → lookup s.user_id db.users ≡ some u
      → IsOpen sid s u (claim sid link db)
  unfolding claim
  claim-IsOpen db none same d at user = record {
    distinct = d;
    link = none;
    linked = same;
    at = at;
    user = user;
  }
  claim-IsOpen db (some h) same d at user = elim (Bool-cases (str_eq h "")) [
    | inl e ↦ rw e (record { distinct = d; link = some h; linked = same; at = at; user = user })
    | inr e ↦ rw e (record {
      distinct =
          unfold claim_session_token in
          claim_at-Distinct _ _ (delete_where-Distinct (is_sibling sid h) db.user_sessions d);
      link = none;
      linked = ground (arith, e, same);
      at = claim-lookup sid h sid db d ∙ rw at (ground (arith, eq_iff sid sid));
      user = unfold claim_session_token in user;
    })
  ]

  -- What the cookie gives at a time.
  abbrev login_at : ℕ → Option Login
  login_at t =
      if ltb t s.expires_at
      then some
          (login_of sid (record s { created_by_token_hash = unclaimed s.created_by_token_hash }) u)
      else none

  current_user-IsOpen :
      (t : ℕ) (db : Db)
      → IsOpen sid s u db
      → ((current_user t (some sid) db).0 ≡ login_at t)
        × IsOpen sid s u (current_user t (some sid) db).1
  unfolding current_user
  current_user-IsOpen t db o =
      let found =
        lookup_session-found t sid (record s { created_by_token_hash = o.link }) u db named o.at
          o.user enabled in
      elim (Bool-cases (ltb t s.expires_at)) [
        | inr e ↦ rw found (rw e (unfold claim_login in (refl, o)))
        | inl e ↦ rw found (
            rw e (
              unfold claim_login in
              (rw o.linked refl, claim-IsOpen db o.link o.linked o.distinct o.at o.user)))
      ]

  requests-IsOpen :
      (ts : List ℕ) (db : Db) → IsOpen sid s u db → IsOpen sid s u (requests sid ts db)
  unfolding requests
  requests-IsOpen [] db o = o
  requests-IsOpen (t ∷ ts) db o = requests-IsOpen ts _ (current_user-IsOpen t db o).1

after_login-IsOpen :
    (settings : Settings) (now : ℕ) (ua ip : Option String) (h sid : String) (r : TokenRow)
    (u : UserRow) (db : Db)
    → Distinct db.user_sessions
    → IsOpen sid
        (opened settings now ua ip h r.user_id)
        (logged_in now u)
        (after_login settings now ua ip h sid r u db)
after_login-IsOpen settings now ua ip h sid r u db d = record {
  distinct = insert-Distinct sid _ db.user_sessions d;
  link = some h;
  linked = refl;
  at =
      lookup-insert sid sid (opened settings now ua ip h r.user_id) db.user_sessions
      ∙ ground (arith, eq_iff sid sid);
  user =
      lookup-insert r.user_id r.user_id (logged_in now u) db.users
      ∙ ground (arith, eq_iff r.user_id r.user_id);
}

-- For a redeemable token of a user who is there and not disabled, and a session id that is new and
-- not blank, `verify` opens that session. While nothing but requests with its cookie touches the
-- tables, after any number of them the cookie logs in as the user until the session expires, and
-- from then on as nobody.
pub verify-current_user :
    (settings : Settings) (now : ℕ) (ua ip : Option String) (h sid : String) (r : TokenRow)
    (u : UserRow) (db : Db)
    → lookup h db.magic_link_tokens ≡ some r
    → is_redeemable now none r ≡ true
    → lookup r.user_id db.users ≡ some u
    → is_disabled u.status ≡ false
    → lookup sid db.user_sessions ≡ none
    → str_eq sid "" ≡ false
    → Distinct db.user_sessions
    → (ts : List ℕ) (t : ℕ)
    → ((verify settings now ua ip h sid db).0 ≡ ok sid)
      × ((current_user t (some sid) (requests sid ts (verify settings now ua ip h sid db).1)).0 ≡ (
          if ltb t (now + settings.session_ttl)
          then some (record {
            id = r.user_id;
            user = logged_in now u;
            session_id = sid;
            session = record (opened settings now ua ip h r.user_id) {
              created_by_token_hash = unclaimed (some h);
            };
          })
          else none))
verify-current_user settings now ua ip h sid r u db token redeemable user enabled fresh named d ts
      t =
    let done =
      verify-after_login settings now ua ip h sid r u db token redeemable user enabled fresh in
    let s = opened settings now ua ip h r.user_id in
    let on = logged_in-enabled now u enabled in
    let start = after_login-IsOpen settings now ua ip h sid r u db d in
    let open_still = requests-IsOpen sid s (logged_in now u) named on ts _ start in
    (
      ap (λ x. x.0) done,
      ap (λ x. (current_user t (some sid) (requests sid ts x.1)).0) done
          ∙ (current_user-IsOpen sid s (logged_in now u) named on t _ open_still).0,
    )
