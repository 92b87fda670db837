-- ===== src/Notify/Ledger.antt =====
-- The dedup ledgers `notified_alerts` and `notified_alert_groups` of backend/app/db/postgres.py.
-- A table is a function of its primary key. Times are milliseconds; `now` is the time of the
-- statement.
pub mod Claims
use transaction_monitoring_s.Prelude.{
  ℕ, ◌+◌, ◌*◌, max, String, Bool, true, false, Option, none, some, ltb, leb, str_eq, ◌&&◌,
  if◌then◌else◌,
}

-- `_BAND_RANK.get(band, -1)`; `none` is the -1 of an unknown band.
unfoldable pub band_rank : String → Option ℕ
band_rank band =
    if str_eq band "Informational"
    then some 0
    else if str_eq band "Moderate"
    then some 1
    else if str_eq band "High"
    then some 2
    else if str_eq band "Critical"
    then some 3
    else none

-- A row of either table.
pub record Claim : Type 0 where
  pub rank : ℕ
  pub notified_at : ℕ

-- (network, tx_hash, source), or (network, group_key, source)
pub record Key : Type 0 where
  pub network : String
  pub subject : String
  pub source : String

unfoldable pub key_eq : Key → Key → Bool
key_eq a b = str_eq a.network b.network && str_eq a.subject b.subject && str_eq a.source b.source

abbrev pub Claims : Type 0
Claims = Key → Option Claim

abbrev pub put : Key → Claim → Claims → Claims
put k c m j = if key_eq k j then some c else m j

-- `INSERT … ON CONFLICT DO UPDATE … WHERE band_rank < EXCLUDED.band_rank`
unfoldable pub claim_notification : ℕ → Key → String → Claims → Claims × Bool
claim_notification now k band m = elim (band_rank band) [
  | none ↦ (m, false)
  | some r ↦ elim (m k) [
    | none ↦ (put k (record { rank = r; notified_at = now }) m, true)
    | some c ↦
        if ltb c.rank r
        then (put k (record { rank = r; notified_at = now }) m, true)
        else (m, false)
  ]
]

unfoldable pub already_notified : Key → String → Claims → Bool
already_notified k band m = elim (band_rank band) [
  | none ↦ true
  | some r ↦ elim (m k) [ none ↦ false | some c ↦ leb r c.rank ]
]

-- `notified_at > NOW() - window`, written without the subtraction; a window of 0 minutes is the
-- source's `window_minutes <= 0`.
unfoldable pub already_notified_group : ℕ → Key → String → ℕ → Claims → Bool
already_notified_group now k band window_minutes m =
    if leb window_minutes 0 then false else elim (band_rank band) [
      | none ↦ false
      | some r ↦ elim (m k) [
        | none ↦ false
        | some c ↦ leb r c.rank && ltb now (c.notified_at + window_minutes * 60_000)
      ]
    ]

unfoldable pub claim_notification_group : ℕ → Key → String → Claims → Claims
claim_notification_group now k band m = elim (band_rank band) [
  | none ↦ m
  | some r ↦ elim (m k) [
    | none ↦ put k (record { rank = r; notified_at = now }) m
    | some c ↦ put k (record { rank = max c.rank r; notified_at = now }) m
  ]
]

-- The prunes; a claim that stays keeps its row.
unfoldable pub prune_notified_alerts : ℕ → ℕ → Claims → Claims
prune_notified_alerts now older_than_days m k = elim (m k) [
  | none ↦ none
  | some c ↦
      if ltb (c.notified_at + older_than_days * 86_400_000) now && str_eq k.source "scorer"
      then none
      else some c
]

unfoldable pub prune_notified_alert_groups : ℕ → ℕ → Claims → Claims
prune_notified_alert_groups now older_than_days m k = elim (m k) [
  | none ↦ none
  | some c ↦ if ltb (c.notified_at + older_than_days * 86_400_000) now then none else some c
]
