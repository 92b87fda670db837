-- ===== src/ChainSync/Insert.antt =====
-- `_insert_block_with_retry` of backend/app/ingestion/ogmios_client.py: the attempts, as a loop on
-- how many are left, and the pauses between them.
pub mod Attempts
use transaction_monitoring_s.Prelude.{
  ℕ, zero, suc, ◌*◌, min, Bool, true, false, List, [], ◌∷◌, if◌then◌else◌,
}

pub record Settings : Type 0 where
  pub insert_max_retries : ℕ
  pub insert_retry_base_delay : ℕ
  pub insert_retry_max_delay : ℕ

pub record Tried : Type 0 where
  pub is_persisted : Bool
  pub sleeps : List ℕ

-- `for attempt in range(attempt, max_attempts + 1)`, where `left` values remain. `answers` says
-- which attempts ClickHouse takes.
unfoldable pub insert_from : (ℕ → Bool) → ℕ → ℕ → ℕ → ℕ → Tried
insert_from answers cap attempt delay zero = record { is_persisted = false; sleeps = [] }
insert_from answers cap attempt delay (suc zero) = record {
  is_persisted = answers attempt;
  sleeps = [];
}
insert_from answers cap attempt delay (suc (suc left)) =
    let rest = insert_from answers cap (suc attempt) (min (delay * 2) cap) (suc left) in
    if answers attempt
    then record { is_persisted = true; sleeps = [] }
    else record { is_persisted = rest.is_persisted; sleeps = delay ∷ rest.sleeps }

unfoldable pub insert_block_with_retry : Settings → (ℕ → Bool) → Tried
insert_block_with_retry s answers =
    insert_from answers s.insert_retry_max_delay 1 s.insert_retry_base_delay s.insert_max_retries
