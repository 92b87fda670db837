-- ===== src/Notify.antt =====
-- backend/app/notifications and the notification tables of backend/app/db/postgres.py: which
-- alerts are delivered where, once each, and what becomes of those that no channel took.
pub mod Ledger
pub mod DeadLetter
pub mod Triggers
pub mod Delivery
pub mod Retry
