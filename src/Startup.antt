-- ===== src/Startup.antt =====
-- What the program starts beside its web server (backend/src/main.rs).
pub mod Indexer
pub mod Retention
pub mod Tasks
pub mod Dispatch
