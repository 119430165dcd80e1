-- ===== src/Alerting.antt =====
-- Alerts on their way to the database (backend/src/alerting).
pub mod Batcher
pub mod Manager
pub mod Worker
