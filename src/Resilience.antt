-- ===== src/Resilience.antt =====
-- backend/app/ingestion/resilience.py: reconnecting to Ogmios.
pub mod Backoff
pub mod Breaker
pub mod Reconnect
