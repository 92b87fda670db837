-- ===== src/ChainSync/Insert/Attempts.antt =====
-- What the insert retries promise: which attempts decide, and how long they wait.
use transaction_monitoring_s.Prelude.{
  ℕ, zero, suc, ◌*◌, ◌≤◌, ◌≡◌, refl, min, max, Bool, false, ◌||◌, length, All, arith, sym,
}
use transaction_monitoring_s.ChainSync.Insert.{Settings, insert_from, insert_block_with_retry}

-- Some of the `n` attempts from number `a` on is taken.
abbrev pub some_attempt : (ℕ → Bool) → ℕ → ℕ → Bool
some_attempt answers a zero = false
some_attempt answers a (suc n) = answers a || some_attempt answers (suc a) n

insert_from_lem :
    (answers : ℕ → Bool) (cap a delay left : ℕ)
    → (insert_from answers cap a delay left).is_persisted ≡ some_attempt answers a left
unfolding insert_from
insert_from_lem answers cap a delay zero = refl
insert_from_lem answers cap a delay (suc zero) = ground arith
insert_from_lem answers cap a delay (suc (suc left)) =
    ground (arith, insert_from_lem answers cap (suc a) (min (delay * 2) cap) (suc left))

-- The block is persisted iff ClickHouse takes one of the attempts 1 to
-- CLICKHOUSE_INSERT_MAX_RETRIES.
pub insert-persisted_iff :
    (s : Settings) (answers : ℕ → Bool)
    → (insert_block_with_retry s answers).is_persisted ≡ some_attempt answers 1 s.insert_max_retries
unfolding insert_block_with_retry
insert-persisted_iff s answers =
    insert_from_lem answers s.insert_retry_max_delay 1 s.insert_retry_base_delay
      s.insert_max_retries

insert_from-sleeps :
    (answers : ℕ → Bool) (cap a delay bound left : ℕ)
    → delay ≤ bound
    → cap ≤ bound
    → (length (insert_from answers cap a delay (suc left)).sleeps ≤ left)
      × All (λ d. d ≤ bound) (insert_from answers cap a delay (suc left)).sleeps
unfolding insert_from
insert_from-sleeps answers cap a delay bound zero h k = (omega arith, tt)
insert_from-sleeps answers cap a delay bound (suc left) h k =
    ground (
      arith,
      insert_from-sleeps answers cap (suc a) (min (delay * 2) cap) bound left (omega arith) k,
    )

-- With `n` + 1 attempts there are at most `n` pauses, and none is longer than the larger of the
-- base delay and the cap.
insert-sleeps_bounds :
    (s : Settings) (answers : ℕ → Bool) (n : ℕ)
    → s.insert_max_retries ≡ suc n
    → (length (insert_block_with_retry s answers).sleeps ≤ n)
      × All
          (λ d. d ≤ max s.insert_retry_base_delay s.insert_retry_max_delay)
          (insert_block_with_retry s answers).sleeps
unfolding insert_block_with_retry
insert-sleeps_bounds s answers n h =
    let bounds =
      insert_from-sleeps answers s.insert_retry_max_delay 1 s.insert_retry_base_delay
        (max s.insert_retry_base_delay s.insert_retry_max_delay) n (omega arith) (omega arith) in
    rw (sym h) at bounds
