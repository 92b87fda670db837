-- ===== src/Notify/Retry/Withdrawal.antt =====
-- Why a dead letter leaves the table, and what else the sweep can do to it.
use transaction_monitoring_s.Prelude.{
  ℕ, ◌+◌, ◌≡◌, ◌≢◌, refl, ◌⊎◌, inl, inr, String, false, Option, none, some, List, [], ◌∷◌, arith,
  leb, Bool-cases,
}
use transaction_monitoring_s.Notify.DeadLetter.{Failed, find}
use transaction_monitoring_s.Notify.DeadLetter.Budget.{count_failed_attempt_lem}
use transaction_monitoring_s.Notify.Triggers.{Dispatch, resolve_dispatch, selected_channels}
use transaction_monitoring_s.Notify.Delivery.{
  Store, Alert, Status, failed, sent, duplicate, deliver_with_dedup, dead_letter, record_claims,
}
use transaction_monitoring_s.Notify.Delivery
use transaction_monitoring_s.Notify.Retry.{
  Env, Sweep, alert_of, counted, rescue, count, settle_row, retry_routed, retry_payload, retry_row,
}

-- The sweep files no second dead letter.
deliver-kept :
    (env : Delivery.Env) (w : ℕ) (a : Alert) (s : Store)
    → (deliver_with_dedup env w a false s).0.failed ≡ s.failed
unfolding deliver_with_dedup dead_letter record_claims
deliver-kept env w a s = ground arith

-- The row is there still: as it was, or with one more attempt, abandoned if that was the last.
abbrev pub IsKept : Sweep → Failed → Store → Type 0
IsKept sweep row s =
    (g : Failed) × (find row.key s.failed ≡ some g)
    × ((g ≡ row)
        ⊎ ((g.attempts ≡ row.attempts + 1)
            × (g.abandoned ≡ leb sweep.max_attempts (row.attempts + 1))))

-- The alert is routed nowhere, or was delivered or claimed.
abbrev pub IsSettled : Sweep → Env → Failed → Store → Type 0
IsSettled sweep env row s =
    (cls : String) × (sweep.attack_class_of row.payload ≡ some cls)
    × ((selected_channels sweep.config row.band cls ≡ [])
        ⊎ ((deliver_with_dedup env.delivery sweep.window_minutes
              (alert_of row (resolve_dispatch sweep.config row.band cls)) false s).1
            ≢ failed))

module _ (sweep : Sweep) (env : Env) (row : Failed) where
  counted-IsKept :
      (s : Store) → find row.key s.failed ≡ some row → IsKept sweep row (counted sweep env row s)
  unfolding counted
  counted-IsKept s h =
      let (g, e, attempts, abandoned, late) =
        count_failed_attempt_lem sweep.max_attempts 1 env.counted_at env.counted_at row s.failed h
          (omega arith) in
      (g, e, inr (attempts, abandoned))

  rescue-IsKept :
      (s : Store) → find row.key s.failed ≡ some row → IsKept sweep row (rescue sweep env row s)
  unfolding rescue
  rescue-IsKept s h = elim (Bool-cases env.recount_raises) [
    | inl e ↦ simp e (row, h, inl refl)
    | inr e ↦ simp e (counted-IsKept s h)
  ]

  count-IsKept :
      (s : Store) → find row.key s.failed ≡ some row → IsKept sweep row (count sweep env row s)
  unfolding count
  count-IsKept s h = elim (Bool-cases env.count_raises) [
    | inl e ↦ simp e (rescue-IsKept s h)
    | inr e ↦ simp e (counted-IsKept s h)
  ]

  settle_row-IsKept :
      (p : Store × Status)
      → find row.key p.0.failed ≡ some row
      → IsKept sweep row (settle_row sweep env row p) ⊎ (p.1 ≢ failed)
  unfolding settle_row
  settle_row-IsKept (s, failed) h = inl (count-IsKept s h)
  settle_row-IsKept (s, sent) h = inr (λ e. cc)
  settle_row-IsKept (s, duplicate) h = inr (λ e. cc)

  retry_routed-IsKept :
      (ds : List Dispatch) (ns : List String) (s : Store)
      → find row.key s.failed ≡ some row
      → IsKept sweep row (retry_routed sweep env row ds ns s)
        ⊎ ((ns ≡ [])
            ⊎ ((deliver_with_dedup env.delivery sweep.window_minutes (alert_of row ds) false s).1
                ≢ failed))
  unfolding retry_routed
  retry_routed-IsKept [] [] s h = inr (inl refl)
  retry_routed-IsKept [] (n ∷ ns) s h = inl (count-IsKept s h)
  retry_routed-IsKept (d ∷ ds) ns s h =
      let p =
        deliver_with_dedup env.delivery sweep.window_minutes (alert_of row (d ∷ ds)) false s in
      elim (settle_row-IsKept p
        (rw (deliver-kept env.delivery sweep.window_minutes (alert_of row (d ∷ ds)) s) h)) [
          | inl k ↦ inl k
          | inr f ↦ inr (inr f)
        ]

  retry_payload-IsKept :
      (o : Option String) (s : Store)
      → sweep.attack_class_of row.payload ≡ o
      → find row.key s.failed ≡ some row
      → IsKept sweep row (retry_payload sweep env row o s) ⊎ IsSettled sweep env row s
  unfolding retry_payload
  retry_payload-IsKept none s e h = inl (rescue-IsKept s h)
  retry_payload-IsKept (some cls) s e h =
      elim (retry_routed-IsKept (resolve_dispatch sweep.config row.band cls)
        (selected_channels sweep.config row.band cls) s h) [
          | inl k ↦ inl k
          | inr f ↦ inr (cls, e, f)
        ]

  -- Whatever fails while the sweep processes a dead letter: the letter is still there afterwards,
  -- unchanged or with one attempt more and abandoned exactly if the attempts are used up; or its
  -- payload validates, and the config selects no channel for the alert or the second delivery did
  -- not fail.
  pub retry_row-IsKept :
      (s : Store)
      → find row.key s.failed ≡ some row
      → IsKept sweep row (retry_row sweep env row s) ⊎ IsSettled sweep env row s
  unfolding retry_row
  retry_row-IsKept s h = retry_payload-IsKept (sweep.attack_class_of row.payload) s refl h
