-- ===== src/ChainSync/Health/Down.antt =====
-- When the pipeline is reported as DOWN.
use transaction_monitoring_s.Prelude.{
  ℕ, ◌+◌, ◌<◌, ◌≡◌, refl, ◌↔◌, ◌⊎◌, inl, inr, Option, none, some, arith,
}
use transaction_monitoring_s.Resilience.Breaker.{CircuitState, closed, opened, half_open}
use transaction_monitoring_s.ChainSync.Health.{Thresholds, down, block_state, pipeline_state}

-- The last block is older than the threshold.
abbrev pub IsStalled : Thresholds → Option ℕ → ℕ → Type 0
IsStalled th last now = (t : ℕ) × (last ≡ some t) × (t + th.block_age_down < now)

block_state-down_iff :
    (th : Thresholds) (cb : CircuitState) (last : Option ℕ) (started_at now : ℕ)
    → (block_state th cb last started_at now ≡ down) ↔ IsStalled th last now
unfolding block_state
block_state-down_iff th cb none started_at now = (λ h. absurd (ground arith), λ (t, e, lt). cc)
block_state-down_iff th cb (some s) started_at now =
    (λ h. (s, refl, ground arith), λ (t, e, lt). ground arith)

-- The pipeline is DOWN exactly when its breaker is open or its last block is older than the
-- threshold; so a client that never saw a block is not DOWN while its breaker is not open, however
-- long ago it started.
pub pipeline_state-down_iff :
    (th : Thresholds) (cb : CircuitState) (last : Option ℕ) (started_at now : ℕ)
    → (pipeline_state th cb last started_at now ≡ down) ↔ ((cb ≡ opened) ⊎ IsStalled th last now)
unfolding pipeline_state
pipeline_state-down_iff th opened last started_at now = (λ h. inl refl, λ h. refl)
pipeline_state-down_iff th closed last started_at now =
    let (there, back) = block_state-down_iff th closed last started_at now in
    (λ h. inr (there h), λ h. elim h [ inl e ↦ cc | inr s ↦ back s ])
pipeline_state-down_iff th half_open last started_at now =
    let (there, back) = block_state-down_iff th half_open last started_at now in
    (λ h. inr (there h), λ h. elim h [ inl e ↦ cc | inr s ↦ back s ])
