-- ===== src/ChainSync/Health.antt =====
-- `pipeline_state` of backend/app/ingestion/ogmios_client.py. An age past a threshold is written
-- as a time plus the threshold before now; all are of one unit.
pub mod Down
use transaction_monitoring_s.Prelude.{
  ℕ, ◌+◌, Bool, true, false, Option, none, some, ltb, ◌||◌, if◌then◌else◌,
}
use transaction_monitoring_s.Resilience.Breaker.{CircuitState, closed, opened, half_open}

pub data PipelineState : Type 0 where
  up degraded down : PipelineState

pub record Thresholds : Type 0 where
  pub block_age_degraded : ℕ
  pub block_age_down : ℕ
  pub startup_grace : ℕ

abbrev pub is_half_open : CircuitState → Bool
is_half_open half_open = true
is_half_open _ = false

-- The breaker is not open; by the time of the last block.
unfoldable pub block_state : Thresholds → CircuitState → Option ℕ → ℕ → ℕ → PipelineState
block_state th cb none started_at now =
    if ltb now (started_at + th.startup_grace) then up else degraded
block_state th cb (some t) started_at now =
    if ltb (t + th.block_age_down) now
    then down
    else if ltb (t + th.block_age_degraded) now || is_half_open cb
    then degraded
    else up

unfoldable pub pipeline_state : Thresholds → CircuitState → Option ℕ → ℕ → ℕ → PipelineState
pipeline_state th opened last_block_at started_at now = down
pipeline_state th closed last_block_at started_at now =
    block_state th closed last_block_at started_at now
pipeline_state th half_open last_block_at started_at now =
    block_state th half_open last_block_at started_at now
