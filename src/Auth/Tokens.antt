-- ===== src/Auth/Tokens.antt =====
-- Magic-link tokens, backend/app/auth/tokens.py. The tables hold hashes only, so the functions take
-- the hash of a token.
pub mod Budget
use transaction_monitoring_s.Prelude.{
  ℕ, ◌+◌, ◌-◌, String, Bool, true, false, Option, none, some, ltb, leb, str_eq, not, ◌&&◌, ◌||◌,
  is_some, if◌then◌else◌,
}
use transaction_monitoring_s.Prelude.Assoc.{
  Assoc, lookup, insert, delete_rows, delete_where, count_where,
}
use transaction_monitoring_s.Auth.{TokenPurpose, purpose_eq, TokenRow, SessionRow, Db, Settings}

-- `user_id = $1 AND purpose = $2 AND consumed_at IS NULL`
abbrev pub is_outstanding : String → TokenPurpose → TokenRow → Bool
is_outstanding user_id purpose r =
    str_eq r.user_id user_id && purpose_eq r.purpose purpose && not (is_some r.consumed_at)

-- One transaction: the DELETE, then the INSERT, which raises on a taken hash or a missing user.
unfoldable pub issue_token : Settings → ℕ → String → TokenPurpose → String → Db → Option Db
issue_token settings now user_id purpose token_hash db =
    let outstanding = delete_rows (is_outstanding user_id purpose) db.magic_link_tokens in
    if is_some (lookup token_hash outstanding) || not (is_some (lookup user_id db.users))
    then none
    else some (record db {
      magic_link_tokens =
          insert token_hash
            (record {
              user_id = user_id;
              purpose = purpose;
              expires_at = now + settings.magic_link_ttl;
              consumed_at = none;
              redemptions_remaining = settings.magic_link_max_redemptions;
            })
            outstanding;
    })

-- `$2::text IS NULL OR purpose = $2`
abbrev pub fits : Option TokenPurpose → TokenPurpose → Bool
fits none purpose = true
fits (some expected) purpose = purpose_eq purpose expected

-- The WHERE clause of `consume_token`.
abbrev pub is_redeemable : ℕ → Option TokenPurpose → TokenRow → Bool
is_redeemable now expected r =
    fits expected r.purpose
    && not (is_some r.consumed_at)
    && ltb now r.expires_at
    && ltb 0 r.redemptions_remaining

-- The SET clause.
abbrev pub redeemed : ℕ → TokenRow → TokenRow
redeemed now r = record r {
  redemptions_remaining = r.redemptions_remaining - 1;
  consumed_at = if leb (r.redemptions_remaining - 1) 0 then some now else r.consumed_at;
}

-- By the row of the hash.
unfoldable pub consume_row :
    ℕ → String → Option TokenPurpose → Option TokenRow → Db → Option String × Db
consume_row now token_hash expected none db = (none, db)
consume_row now token_hash expected (some r) db =
    if is_redeemable now expected r
    then (
      some r.user_id,
      record db { magic_link_tokens = insert token_hash (redeemed now r) db.magic_link_tokens },
    )
    else (none, db)

unfoldable pub consume_token : ℕ → String → Option TokenPurpose → Db → Option String × Db
unfolding consume_row
consume_token now token_hash expected db =
    consume_row now token_hash expected (lookup token_hash db.magic_link_tokens) db

-- `created_by_token_hash = $1`
abbrev pub is_from : String → Option String → Bool
is_from token_hash none = false
is_from token_hash (some h) = str_eq h token_hash

abbrev pub is_sibling : String → String → String → SessionRow → Bool
is_sibling session_id token_hash id r =
    is_from token_hash r.created_by_token_hash && not (str_eq id session_id)

-- `SET created_by_token_hash = NULL WHERE session_id = $1 AND created_by_token_hash IS NOT NULL`
unfoldable pub clear_reference : String → Option SessionRow → Assoc SessionRow → Assoc SessionRow
clear_reference session_id none rows = rows
clear_reference session_id (some r) rows =
    if is_some r.created_by_token_hash
    then insert session_id (record r { created_by_token_hash = none }) rows
    else rows

-- With the number of the sibling sessions that it deletes.
unfoldable pub claim_session_token : String → String → Db → ℕ × Db
claim_session_token session_id token_hash db =
    let kept = delete_where (is_sibling session_id token_hash) db.user_sessions in
    (
      count_where (is_sibling session_id token_hash) db.user_sessions,
      record db { user_sessions = clear_reference session_id (lookup session_id kept) kept },
    )

-- `expires_at < now() OR consumed_at IS NOT NULL`
abbrev pub is_spent : ℕ → TokenRow → Bool
is_spent now r = ltb r.expires_at now || is_some r.consumed_at

unfoldable pub purge_expired_tokens : ℕ → Db → ℕ × Db
purge_expired_tokens now db = (
  count_where (λ k. is_spent now) db.magic_link_tokens,
  record db { magic_link_tokens = delete_rows (is_spent now) db.magic_link_tokens },
)
