-- ===== src/Auth/Users/LastAdmin.antt =====
-- The system keeps an admin: the guard of backend/app/api/users.py over any calls. The advisory lock
-- runs the calls one after the other.
use transaction_monitoring_s.Prelude.{
  ℕ, ◌≡◌, refl, String, Bool, true, false, Option, none, some, List, [], ◌∷◌, ◌==◌, str_eq, not,
  ◌&&◌, ◌||◌, is_some, if◌then◌else◌, arith, eq_iff, Bool-cases, inl, inr,
}
use transaction_monitoring_s.Prelude.Assoc.{
  Assoc, lookup, insert, remove, count_where, Distinct, insert-Distinct, remove-Distinct,
  remove-absent,
}
use transaction_monitoring_s.Auth.{
  Role, invite, pending, UserRow, is_admin, is_disabled, Db, Settings, is_pending,
}
use transaction_monitoring_s.Auth.Tokens.Budget.{issue_token-either}
use transaction_monitoring_s.Auth.Sessions.{delete_all_sessions_for_user}
use transaction_monitoring_s.Auth.Users.{
  Response, ok, raised, is_other_admin, admin_remains, issue_invite, create_user, set_role,
  update_user, delete_row, delete_target, delete_user, resend_invite, resend_to, has_email,
  HttpError, bad_request, conflict, internal_error,
}

-- An admin who is not disabled.
abbrev pub is_active_admin : UserRow → Bool
is_active_admin u = is_admin u.role && not (is_disabled u.status)

unfoldable pub has_admin : Assoc UserRow → Bool
has_admin [] = false
has_admin ((k, u) ∷ rows) = is_active_admin u || has_admin rows

-- A call of an admin's; the one that calls is the first argument where the handler reads it.
pub data Call : Type 0 where
  create : ℕ → String → String → Role → String → String → Call
  update : String → Role → String → Call
  delete : String → String → Call
  resend : ℕ → String → String → Call

-- The tables after a handler; an error rolls its transaction back.
abbrev pub after : Response Db → Db → Db
after (ok db') db = db'
after (raised e) db = db

unfoldable pub call : (String → String) → Settings → Call → Db → Db
call lower settings (create now email name role id h) db =
    after (create_user lower settings now email name role id h db) db
call lower settings (update who role id) db = after (update_user who role id db) db
call lower settings (delete who id) db = after (delete_user who id db) db
call lower settings (resend now id h) db = after (resend_invite settings now id h db) db

unfoldable pub calls : (String → String) → Settings → List Call → Db → Db
calls lower settings [] db = db
calls lower settings (c ∷ cs) db = calls lower settings cs (call lower settings c db)

has_admin-count :
    (id : String) (rows : Assoc UserRow)
    → not (count_where (is_other_admin id) rows == 0) ≡ true
    → has_admin rows ≡ true
unfolding has_admin count_where
has_admin-count id [] h = ground arith
has_admin-count id ((k, v) ∷ rows) h = ground (arith, has_admin-count id rows)

-- Another admin outlives a new row, and the deletion of the row.
has_admin-insert :
    (id : String) (u : UserRow) (rows : Assoc UserRow)
    → not (count_where (is_other_admin id) rows == 0) ≡ true
    → has_admin (insert id u rows) ≡ true
unfolding has_admin insert count_where
has_admin-insert id u [] h = ground arith
has_admin-insert id u ((k, v) ∷ rows) h = elim (Bool-cases (str_eq k id)) [
  | inl e ↦ simp e (ground (arith, e, h, has_admin-count id rows))
  | inr e ↦ simp e (ground (arith, e, h, has_admin-insert id u rows))
]

has_admin-remove :
    (id : String) (rows : Assoc UserRow)
    → not (count_where (is_other_admin id) rows == 0) ≡ true
    → has_admin (remove id rows) ≡ true
unfolding has_admin remove count_where
has_admin-remove id [] h = ground arith
has_admin-remove id ((k, v) ∷ rows) h = elim (Bool-cases (str_eq k id)) [
  | inl e ↦ simp e (ground (arith, e, h, has_admin-remove id rows))
  | inr e ↦ simp e (ground (arith, e, h, has_admin-remove id rows))
]

-- A row that is as good as the one it replaces, if there is one.
has_admin-replace :
    (id : String) (u : UserRow) (rows : Assoc UserRow)
    → ((old : UserRow)
        → lookup id rows ≡ some old
        → is_active_admin old ≡ true
        → is_active_admin u ≡ true)
    → has_admin rows ≡ true
    → has_admin (insert id u rows) ≡ true
unfolding has_admin insert lookup
has_admin-replace id u [] r h = ground arith
has_admin-replace id u ((k, v) ∷ rows) r h = elim (Bool-cases (str_eq k id)) [
  | inl e ↦ simp e (ground (arith, e, h, r v (rw e)))
  | inr e ↦ simp e (elim (Bool-cases (is_active_admin v)) [
    | inl a ↦ ground (arith, a)
    | inr a ↦ ground (arith, a, h, has_admin-replace id u rows (λ old at. r old (rw (e, at))))
  ])
]

-- The deletion of a row that is no admin's.
has_admin-rest :
    (id : String) (u : UserRow) (rows : Assoc UserRow)
    → Distinct rows
    → lookup id rows ≡ some u
    → is_active_admin u ≡ false
    → has_admin rows ≡ true
    → has_admin (remove id rows) ≡ true
unfolding has_admin remove lookup
has_admin-rest id u [] d at none_of h = ground arith
has_admin-rest id u ((k, v) ∷ rows) d at none_of h = elim (Bool-cases (str_eq k id)) [
  | inl e ↦ simp e (ground (arith, e, at, none_of, h, d.0, eq_iff k id, remove-absent id rows))
  | inr e ↦ simp e (ground (arith, e, at, none_of, h, has_admin-rest id u rows d.1))
]

-- Some admin is not disabled, and no user has two rows.
abbrev pub IsAdministered : Db → Type 0
IsAdministered db = (has_admin db.users ≡ true) × Distinct db.users

issue_invite-users :
    (settings : Settings) (now : ℕ) (id h : String) (db : Db)
    → (issue_invite settings now id h db).users ≡ db.users
unfolding issue_invite
issue_invite-users settings now id h db =
    issue_token-either (λ db'. db'.users ≡ db.users) settings now id invite h db refl refl

issue_invite-IsAdministered :
    (settings : Settings) (now : ℕ) (id h : String) (db : Db)
    → IsAdministered db
    → IsAdministered (issue_invite settings now id h db)
issue_invite-IsAdministered settings now id h db a =
    simp (issue_invite-users settings now id h db) a

-- A guard that raises keeps the tables.
guarded :
    (b : Bool) (e : HttpError) (r : Response Db) (db : Db)
    → IsAdministered db
    → (b ≡ false → IsAdministered (after r db))
    → IsAdministered (after (if b then raised e else r) db)
guarded true e r db a f = a
guarded false e r db a f = f refl

create_user-IsAdministered :
    (lower : String → String) (settings : Settings) (now : ℕ) (email name : String) (role : Role)
    (id h : String) (db : Db)
    → IsAdministered db
    → IsAdministered (after (create_user lower settings now email name role id h db) db)
unfolding create_user
create_user-IsAdministered lower settings now email name role id h db a =
    let row : UserRow = record {
      email = email;
      full_name = name;
      role = role;
      status = pending;
      last_login_at = none;
    } in
    let db' : Db = record db { users = insert id row db.users } in
    let created : Response Db = ok (issue_invite settings now id h db') in
    let known = is_some (lookup id db.users) in
    guarded (not (count_where (has_email lower email) db.users == 0)) conflict
      (if known then raised internal_error else created) db a
      (λ e. guarded known internal_error created db a (λ f.
        issue_invite-IsAdministered settings now id h db' (
          has_admin-replace id row db.users (λ old at. ground (arith, f, at)) a.0,
          insert-Distinct id row db.users a.1,
        )))

set_role-IsAdministered :
    (role : Role) (id : String) (o : Option UserRow) (db : Db)
    → lookup id db.users ≡ o
    → IsAdministered db
    → IsAdministered (after (set_role role id o db) db)
unfolding set_role admin_remains
set_role-IsAdministered role id none db at a = a
set_role-IsAdministered role id (some u) db at a =
    let row : UserRow = record u { role = role } in
    guarded (is_admin u.role && not (is_admin role) && not (admin_remains id db)) bad_request
      (ok (record db { users = insert id row db.users })) db a
      (λ f. (
        elim (Bool-cases (not (count_where (is_other_admin id) db.users == 0))) [
          | inl e ↦ has_admin-insert id row db.users e
          | inr e ↦
              has_admin-replace id row db.users (λ old there. ground (arith, there, at, e, f)) a.0
        ],
        insert-Distinct id row db.users a.1,
      ))

delete_target-IsAdministered :
    (id : String) (o : Option UserRow) (db : Db)
    → lookup id db.users ≡ o
    → IsAdministered db
    → IsAdministered (after (delete_target id o db) db)
unfolding delete_target admin_remains delete_row delete_all_sessions_for_user
delete_target-IsAdministered id none db at a = a
delete_target-IsAdministered id (some u) db at a =
    guarded (is_admin u.role && not (admin_remains id db)) bad_request
      (ok (delete_row id (delete_all_sessions_for_user id db).1)) db a
      (λ f. (
        elim (Bool-cases (not (count_where (is_other_admin id) db.users == 0))) [
          | inl e ↦ has_admin-remove id db.users e
          | inr e ↦ has_admin-rest id u db.users a.1 at (ground (arith, e, f)) a.0
        ],
        remove-Distinct id db.users a.1,
      ))

resend_to-IsAdministered :
    (settings : Settings) (now : ℕ) (id h : String) (o : Option UserRow) (db : Db)
    → IsAdministered db
    → IsAdministered (after (resend_to settings now id h o db) db)
unfolding resend_to
resend_to-IsAdministered settings now id h none db a = a
resend_to-IsAdministered settings now id h (some u) db a =
    guarded (not (is_pending u.status)) bad_request (ok (issue_invite settings now id h db)) db a
      (λ f. issue_invite-IsAdministered settings now id h db a)

call-IsAdministered :
    (lower : String → String) (settings : Settings) (c : Call) (db : Db)
    → IsAdministered db
    → IsAdministered (call lower settings c db)
unfolding call update_user delete_user resend_invite
call-IsAdministered lower settings (create now email name role id h) db a =
    create_user-IsAdministered lower settings now email name role id h db a
call-IsAdministered lower settings (update who role id) db a =
    guarded (str_eq id who) bad_request (set_role role id (lookup id db.users) db) db a
      (λ f. set_role-IsAdministered role id (lookup id db.users) db refl a)
call-IsAdministered lower settings (delete who id) db a =
    guarded (str_eq id who) bad_request (delete_target id (lookup id db.users) db) db a
      (λ f. delete_target-IsAdministered id (lookup id db.users) db refl a)
call-IsAdministered lower settings (resend now id h) db a =
    resend_to-IsAdministered settings now id h (lookup id db.users) db a

-- From tables in which some admin is not disabled and no user has two rows, whatever the admins
-- create, promote, demote, delete and invite, in whatever order, that stays so.
pub calls-IsAdministered :
    (lower : String → String) (settings : Settings) (cs : List Call) (db : Db)
    → IsAdministered db
    → IsAdministered (calls lower settings cs db)
unfolding calls
calls-IsAdministered lower settings [] db a = a
calls-IsAdministered lower settings (c ∷ cs) db a =
    calls-IsAdministered lower settings cs _ (call-IsAdministered lower settings c db a)
