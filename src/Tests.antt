-- ===== src/Tests.antt =====
-- Runs of the models on concrete inputs, and the theorems at such inputs.
mod Resilience
mod RateLimit
mod Lifecycle
mod Mempool
mod Auth
mod Net
mod KupoClient
mod Leader
mod Plutus
mod Enrich
mod Bech32
mod Notify
mod Delivery
mod ChainSync
mod Quarantine
mod Backfill
mod ChainTime
