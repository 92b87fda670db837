-- ===== src/Auth/Tokens/Budget.antt =====
-- How often a magic link is redeemed, whatever the calls of backend/app/auth/tokens.py are.
use transaction_monitoring_s.Prelude.{
  ℕ, suc, ◌+◌, ◌≤◌, ◌≡◌, refl, String, Bool, false, Option, none, some, List, [], ◌∷◌, str_eq, not,
  ◌&&◌, ◌||◌, is_some, if◌then◌else◌, arith, eq_iff, Bool-cases, inl, inr,
}
use transaction_monitoring_s.Prelude.Assoc.{
  lookup, insert, delete_rows, lookup-insert, lookup-delete_rows, Distinct, survive,
  insert-Distinct, delete_rows-Distinct,
}
use transaction_monitoring_s.Auth.{TokenPurpose, TokenRow, Db, Settings, or_same}
use transaction_monitoring_s.Auth.Tokens.{
  is_outstanding, issue_token, is_redeemable, redeemed, consume_row, consume_token, is_spent,
  purge_expired_tokens,
}

-- The redemptions that a row still allows, at any time.
abbrev pub budget : Option TokenRow → ℕ
budget none = 0
budget (some r) = r.redemptions_remaining

abbrev pub budget_of : String → Db → ℕ
budget_of h db = budget (lookup h db.magic_link_tokens)

-- A call that touches the tokens, with its time; `raised` keeps the tables as they were.
pub data Call : Type 0 where
  issue : ℕ → String → TokenPurpose → String → Call
  consume : ℕ → String → Option TokenPurpose → Call
  purge : ℕ → Call

unfoldable pub call : Settings → Call → Db → Db
call settings (issue now user purpose h) db =
    or_same (issue_token settings now user purpose h db) db
call settings (consume now h expected) db = (consume_token now h expected db).1
call settings (purge now) db = (purge_expired_tokens now db).1

-- Whether the call redeems the token of the hash.
unfoldable pub redeems : String → Call → Db → Bool
redeems h (consume now k expected) db = str_eq k h && is_some (consume_token now k expected db).0
redeems h _ db = false

-- The redemptions of a token over a sequence of calls.
unfoldable pub redemptions : Settings → String → List Call → Db → ℕ
redemptions settings h [] db = 0
redemptions settings h (c ∷ cs) db =
    let rest = redemptions settings h cs (call settings c db) in
    if redeems h c db then suc rest else rest

-- No call issues the token of the hash again.
abbrev pub Unissued : String → List Call → Type 0
Unissued h [] = Unit
Unissued h (issue now user purpose k ∷ cs) = (str_eq k h ≡ false) × Unissued h cs
Unissued h (_ ∷ cs) = Unissued h cs

budget-survive : (p : TokenRow → Bool) (o : Option TokenRow) → budget (survive p o) ≤ budget o
budget-survive p none = omega arith
budget-survive p (some r) = ground arith

spend-consume :
    (now : ℕ) (k : String) (expected : Option TokenPurpose) (o : Option TokenRow) (h : String)
    (db : Db)
    → lookup k db.magic_link_tokens ≡ o
    → budget_of h (consume_row now k expected o db).1
        + (if str_eq k h && is_some (consume_row now k expected o db).0 then 1 else 0)
      ≤ budget_of h db
unfolding consume_row
spend-consume now k expected none h db e = ground arith
spend-consume now k expected (some r) h db e =
    ground (arith, e, lookup-insert k h (redeemed now r) db.magic_link_tokens, eq_iff k h)

-- What the two outcomes of `issue_token` have in common.
pub issue_token-either :
    (P : Db → Type 0) (settings : Settings) (now : ℕ) (user : String) (purpose : TokenPurpose)
    (k : String) (db : Db)
    → P db
    → P (record db {
      magic_link_tokens =
          insert k
            (record {
              user_id = user;
              purpose = purpose;
              expires_at = now + settings.magic_link_ttl;
              consumed_at = none;
              redemptions_remaining = settings.magic_link_max_redemptions;
            })
            (delete_rows (is_outstanding user purpose) db.magic_link_tokens);
    })
    → P (or_same (issue_token settings now user purpose k db) db)
unfolding issue_token
issue_token-either P settings now user purpose k db old new =
    elim (Bool-cases (
      is_some (lookup k (delete_rows (is_outstanding user purpose) db.magic_link_tokens))
      || not (is_some (lookup user db.users)))) [ inl e ↦ simp e old | inr e ↦ simp e new ]

consume_row-Distinct :
    (now : ℕ) (k : String) (expected : Option TokenPurpose) (o : Option TokenRow) (db : Db)
    → Distinct db.magic_link_tokens
    → Distinct (consume_row now k expected o db).1.magic_link_tokens
unfolding consume_row
consume_row-Distinct now k expected none db d = d
consume_row-Distinct now k expected (some r) db d =
    elim (Bool-cases (is_redeemable now expected r)) [
      | inl e ↦ simp e (insert-Distinct k (redeemed now r) db.magic_link_tokens d)
      | inr e ↦ simp e d
    ]

call-Distinct :
    (settings : Settings) (c : Call) (db : Db)
    → Distinct db.magic_link_tokens
    → Distinct (call settings c db).magic_link_tokens
unfolding call consume_token purge_expired_tokens
call-Distinct settings (issue now user purpose k) db d =
    issue_token-either (λ db'. Distinct db'.magic_link_tokens) settings now user purpose k db d
      (insert-Distinct k _ _
        (delete_rows-Distinct (is_outstanding user purpose) db.magic_link_tokens d))
call-Distinct settings (consume now k expected) db d = consume_row-Distinct now k expected _ db d
call-Distinct settings (purge now) db d = delete_rows-Distinct (is_spent now) db.magic_link_tokens d

spend-call :
    (settings : Settings) (h : String) (c : Call) (cs : List Call) (db : Db)
    → Distinct db.magic_link_tokens
    → Unissued h (c ∷ cs)
    → budget_of h (call settings c db) + (if redeems h c db then 1 else 0) ≤ budget_of h db
unfolding call redeems consume_token purge_expired_tokens
spend-call settings h (issue now user purpose k) cs db d u =
    issue_token-either (λ db'. budget_of h db' + 0 ≤ budget_of h db) settings now user purpose k db
      (omega arith)
      (ground (
        arith,
        lookup-insert k h
            (record {
              user_id = user;
              purpose = purpose;
              expires_at = now + settings.magic_link_ttl;
              consumed_at = none;
              redemptions_remaining = settings.magic_link_max_redemptions;
            })
            (delete_rows (is_outstanding user purpose) db.magic_link_tokens),
        lookup-delete_rows (is_outstanding user purpose) h db.magic_link_tokens d,
        budget-survive (is_outstanding user purpose) (lookup h db.magic_link_tokens),
        u.0,
      ))
spend-call settings h (consume now k expected) cs db d u = spend-consume now k expected _ h db refl
spend-call settings h (purge now) cs db d u = ground (
  arith,
  lookup-delete_rows (is_spent now) h db.magic_link_tokens d,
  budget-survive (is_spent now) (lookup h db.magic_link_tokens),
)

Unissued-rest : (h : String) (c : Call) (cs : List Call) → Unissued h (c ∷ cs) → Unissued h cs
Unissued-rest h (issue now user purpose k) cs u = u.1
Unissued-rest h (consume now k expected) cs u = u
Unissued-rest h (purge now) cs u = u

-- Over any calls of which none issues the token again, from a table without two rows of one hash, a
-- token is redeemed at most as often as its row allows at the start, and never without a row.
pub redemptions_bounded :
    (settings : Settings) (h : String) (cs : List Call) (db : Db)
    → Distinct db.magic_link_tokens
    → Unissued h cs
    → redemptions settings h cs db ≤ budget_of h db
unfolding redemptions
redemptions_bounded settings h [] db d u = omega arith
redemptions_bounded settings h (c ∷ cs) db d u = ground (
  arith,
  spend-call settings h c cs db d u,
  redemptions_bounded settings h cs (call settings c db) (call-Distinct settings c db d)
      (Unissued-rest h c cs u),
)
