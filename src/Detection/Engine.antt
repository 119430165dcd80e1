-- ===== src/Detection/Engine.antt =====
-- The engine (backend/src/detection/engine.rs): its rule index, its counters and the processing of
-- one log.
pub mod Index
pub mod Stats
pub mod Process
