-- ===== src/Auth/Login/Revoked.antt =====
-- What the claim of a session, a new token and the deletion of a user take away:
-- backend/app/auth/tokens.py and backend/app/api/users.py.
use transaction_monitoring_s.Prelude.{
  ℕ, ◌+◌, ltb, ◌≡◌, refl, ◌∙◌, sym, ap, String, Bool, true, false, Option, none, some, str_eq, not,
  ◌&&◌, ◌||◌, is_some, if◌then◌else◌, arith, eq_iff, Option-cases, Bool-cases, inl, inr,
}
use transaction_monitoring_s.Prelude.Assoc.{
  Assoc, lookup, insert, Distinct, delete_where, lookup-insert, lookup-delete_where, delete_rows,
  survive_at, survive, lookup-delete_rows,
}
use transaction_monitoring_s.Auth.{
  SessionRow, TokenRow, TokenPurpose, purpose_eq, Db, Settings, or_same,
}
use transaction_monitoring_s.Auth.Tokens.{
  is_sibling, clear_reference, claim_session_token, is_outstanding, issue_token, consume_token,
  consume_row,
}

-- The row of the session that claims, without its reference.
abbrev pub unlinked : Option SessionRow → Option SessionRow
unlinked none = none
unlinked (some s) = some (record s { created_by_token_hash = none })

lookup-clear_reference :
    (sid get : String) (o : Option SessionRow) (rows : Assoc SessionRow)
    → lookup sid rows ≡ o
    → lookup get (clear_reference sid o rows)
      ≡ (if str_eq sid get then unlinked o else lookup get rows)
unfolding clear_reference
lookup-clear_reference sid get none rows e = ground (arith, e, eq_iff sid get)
lookup-clear_reference sid get (some s) rows e = elim (Option-cases s.created_by_token_hash) [
  | inl f ↦
      ground
        (arith, f, e, eq_iff sid get, ap (λ c. some (record s { created_by_token_hash = c })) f)
  | inr (h, f) ↦ simp f (lookup-insert sid get (record s { created_by_token_hash = none }) rows)
]

survive_at-own : (sid h : String) (o : Option SessionRow) → survive_at (is_sibling sid h) sid o ≡ o
survive_at-own sid h none = refl
survive_at-own sid h (some s) = ground (arith, eq_iff sid sid)

-- On a table without a session twice, after a session has claimed its token, it is there without
-- its link if it was there, every other session that is linked to the token is gone, and the rest
-- are as they were.
pub claim-lookup :
    (sid h get : String) (db : Db)
    → Distinct db.user_sessions
    → lookup get (claim_session_token sid h db).1.user_sessions ≡ (
        if str_eq sid get
        then unlinked (lookup get db.user_sessions)
        else survive_at (is_sibling sid h) get (lookup get db.user_sessions))
unfolding claim_session_token
claim-lookup sid h get db d =
    let kept = delete_where (is_sibling sid h) db.user_sessions in
    let own : lookup sid kept ≡ lookup sid db.user_sessions =
      lookup-delete_where (is_sibling sid h) sid db.user_sessions d
      ∙ survive_at-own sid h (lookup sid db.user_sessions) in
    lookup-clear_reference sid get (lookup sid kept) kept refl
    ∙ ground
        (arith, own, lookup-delete_where (is_sibling sid h) get db.user_sessions d, eq_iff sid get)

-- Whether a row is of the user and the purpose.
abbrev pub is_users : String → TokenPurpose → Option TokenRow → Bool
is_users user purpose none = false
is_users user purpose (some r) = str_eq r.user_id user && purpose_eq r.purpose purpose

unredeemable :
    (now : ℕ) (h user : String) (purpose : TokenPurpose) (expected : Option TokenPurpose)
    (o : Option TokenRow) (db : Db)
    → is_users user purpose o ≡ true
    → (consume_row now h expected (survive (is_outstanding user purpose) o) db).0 ≡ none
unfolding consume_row
unredeemable now h user purpose expected none db e = cc
unredeemable now h user purpose expected (some r) db e = elim (Option-cases r.consumed_at) [
  | inl f ↦ ground (arith, e, f)
  | inr (at, f) ↦ ground (arith, e, f)
]

abbrev issued : Settings → ℕ → String → TokenPurpose → TokenRow
issued settings now user purpose = record {
  user_id = user;
  purpose = purpose;
  expires_at = now + settings.magic_link_ttl;
  consumed_at = none;
  redemptions_remaining = settings.magic_link_max_redemptions;
}

issue_token-tokens :
    (settings : Settings) (now : ℕ) (user : String) (purpose : TokenPurpose) (k : String)
    (db db' : Db)
    → issue_token settings now user purpose k db ≡ some db'
    → db'.magic_link_tokens
      ≡ insert k
          (issued settings now user purpose)
          (delete_rows (is_outstanding user purpose) db.magic_link_tokens)
unfolding issue_token
issue_token-tokens settings now user purpose k db db' e =
    elim (Bool-cases (
      is_some (lookup k (delete_rows (is_outstanding user purpose) db.magic_link_tokens))
      || not (is_some (lookup user db.users)))) [
        | inl f ↦ cc
        | inr f ↦ ap (λ o. (or_same o db).magic_link_tokens) (sym e) ∙ simp f refl
      ]

-- On a table without a hash twice, once `issue_token` has issued a token, it is redeemed until its
-- time to live is over, if it allows a redemption at all, and no other token of the user for that
-- purpose is redeemed any more, at any time.
pub issue_token-only :
    (settings : Settings) (now : ℕ) (user : String) (purpose : TokenPurpose) (k : String)
    (db db' : Db)
    → Distinct db.magic_link_tokens
    → issue_token settings now user purpose k db ≡ some db'
    → (t : ℕ) (expected : Option TokenPurpose)
    → ((consume_token t k none db').0 ≡ (
        if ltb t (now + settings.magic_link_ttl) && ltb 0 settings.magic_link_max_redemptions
        then some user
        else none))
      × ((h : String)
          → str_eq k h ≡ false
          → is_users user purpose (lookup h db.magic_link_tokens) ≡ true
          → (consume_token t h expected db').0 ≡ none)
unfolding consume_token consume_row
issue_token-only settings now user purpose k db db' d e t expected =
    let tokens = issue_token-tokens settings now user purpose k db db' e in
    let kept = delete_rows (is_outstanding user purpose) db.magic_link_tokens in
    let new = issued settings now user purpose in
    let at : lookup k db'.magic_link_tokens ≡ some new =
      ap (lookup k) tokens ∙ lookup-insert k k new kept ∙ ground (arith, eq_iff k k) in
    (
      ap (λ o. (consume_row t k none o db').0) at ∙ ground arith,
      λ h other of_user.
          ap (λ o. (consume_row t h expected o db').0)
            (ap (lookup h) tokens
              ∙ lookup-insert k h new kept
              ∙ rw (
                other,
                lookup-delete_rows (is_outstanding user purpose) h db.magic_link_tokens d,
              ))
          ∙ unredeemable t h user purpose expected (lookup h db.magic_link_tokens) db' of_user,
    )
