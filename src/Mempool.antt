-- ===== src/Mempool.antt =====
-- The mempool monitor of backend/app/ingestion/mempool_monitor.py, and the collision rows it
-- writes by backend/app/db/postgres.py.
pub mod Pending
pub mod Collisions
pub mod Monitor
pub mod Loop
pub mod Client
