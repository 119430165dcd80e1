-- ===== src/Alerting/Batcher.antt =====
-- The batcher that writes alerts to the database (backend/src/alerting/db_batcher.rs).
pub mod Fingerprint
pub mod Merge
pub mod Flush
pub mod Grouping
pub mod Draining
