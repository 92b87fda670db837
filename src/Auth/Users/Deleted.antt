-- ===== src/Auth/Users/Deleted.antt =====
-- What is left of a user that `delete_user` of backend/app/api/users.py deletes.
use transaction_monitoring_s.Prelude.{
  ℕ, ◌≡◌, refl, ◌∙◌, sym, ap, String, Bool, false, Option, none, some, str_eq, not, ◌&&◌, arith,
  Bool-cases, inl, inr, Option-cases,
}
use transaction_monitoring_s.Prelude.Assoc.{
  Assoc, lookup, remove, Distinct, delete_rows, survive, lookup-delete_rows, delete_rows-Distinct,
}
use transaction_monitoring_s.Auth.{UserRow, is_admin, SessionRow, TokenRow, TokenPurpose, Db}
use transaction_monitoring_s.Auth.Tokens.{consume_token, consume_row}
use transaction_monitoring_s.Auth.Sessions.{
  Login, lookup_session, join_row, join_user, is_of, delete_all_sessions_for_user,
}
use transaction_monitoring_s.Auth.Users.{
  Response, ok, raised, delete_user, delete_target, delete_row, admin_remains,
}

-- Whether a login, and a redemption, is the user's.
abbrev pub logs_in : String → Option Login → Bool
logs_in id none = false
logs_in id (some l) = str_eq l.id id

abbrev pub names : String → Option String → Bool
names id none = false
names id (some x) = str_eq x id

abbrev emptied : String → Db → Db
emptied id db = delete_row id (delete_all_sessions_for_user id db).1

abbrev of_response : Response Db → Db → Db
of_response (ok db') db = db'
of_response (raised e) db = db

delete_target-emptied :
    (id : String) (o : Option UserRow) (db db' : Db)
    → delete_target id o db ≡ ok db'
    → db' ≡ emptied id db
unfolding delete_target
delete_target-emptied id none db db' e = cc
delete_target-emptied id (some u) db db' e =
    elim (Bool-cases (is_admin u.role && not (admin_remains id db))) [
      | inl f ↦ cc
      | inr f ↦ ap (λ r. of_response r db) (sym e) ∙ simp f refl
    ]

delete_user-emptied :
    (who id : String) (db db' : Db) → delete_user who id db ≡ ok db' → db' ≡ emptied id db
unfolding delete_user
delete_user-emptied who id db db' e = elim (Bool-cases (str_eq id who)) [
  | inl f ↦ cc
  | inr f ↦ delete_target-emptied id (lookup id db.users) db db' (rw f at e)
]

join_row-emptied :
    (now : ℕ) (sid id : String) (o : Option SessionRow) (users : Assoc UserRow)
    → logs_in id (join_row now sid (survive (λ r. str_eq r.user_id id) o) users) ≡ false
unfolding join_row join_user
join_row-emptied now sid id none users = refl
join_row-emptied now sid id (some s) users = elim (Bool-cases (str_eq s.user_id id)) [
  | inl e ↦ simp e refl
  | inr e ↦ simp e (elim (Option-cases (lookup s.user_id users)) [
    | inl f ↦ simp f refl
    | inr (u, f) ↦ simp f (ground (arith, e))
  ])
]

consume_row-emptied :
    (now : ℕ) (h id : String) (expected : Option TokenPurpose) (o : Option TokenRow) (db : Db)
    → names id (consume_row now h expected (survive (λ r. str_eq r.user_id id) o) db).0 ≡ false
unfolding consume_row
consume_row-emptied now h id expected none db = refl
consume_row-emptied now h id expected (some r) db = elim (Bool-cases (str_eq r.user_id id)) [
  | inl e ↦ simp e refl
  | inr e ↦ simp e (ground (arith, e))
]

-- On tables without a key twice, once a user is deleted, no session cookie logs in as the user and
-- no magic link is redeemed for the user, at any time.
pub delete_user-revokes :
    (who id : String) (db db' : Db)
    → Distinct db.user_sessions
    → Distinct db.magic_link_tokens
    → delete_user who id db ≡ ok db'
    → (now : ℕ)
    → ((sid : String) → logs_in id (lookup_session now sid db') ≡ false)
      × ((h : String) (expected : Option TokenPurpose)
          → names id (consume_token now h expected db').0 ≡ false)
unfolding lookup_session consume_token delete_row delete_all_sessions_for_user
delete_user-revokes who id db db' d c e now =
    let same = delete_user-emptied who id db db' e in
    let mine : SessionRow → Bool = λ r. str_eq r.user_id id in
    let left = delete_rows (is_of id) db.user_sessions in
    (
      λ sid.
          ap (λ x. logs_in id (lookup_session now sid x)) same ∙ elim (Bool-cases (str_eq sid "")) [
            | inl f ↦ simp f refl
            | inr f ↦ simp f (
                ap (λ o. logs_in id (join_row now sid o (remove id db.users)))
                  (lookup-delete_rows mine sid left
                    (delete_rows-Distinct (is_of id) db.user_sessions d))
                ∙ join_row-emptied now sid id (lookup sid left) (remove id db.users))
          ],
      λ h expected.
          ap (λ x. names id (consume_token now h expected x).0) same
          ∙ ap (λ o. names id (consume_row now h expected o (emptied id db)).0)
              (lookup-delete_rows (λ r. str_eq r.user_id id) h db.magic_link_tokens c)
          ∙ consume_row-emptied now h id expected (lookup h db.magic_link_tokens) (emptied id db),
    )
