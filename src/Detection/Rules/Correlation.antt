-- ===== src/Detection/Rules/Correlation.antt =====
-- Sequences of events in one group (backend/src/detection/rules/correlation.rs). The state of a
-- group lives in the cache under a key of its own, and a sorted set indexes the keys in use.
pub mod State
pub mod Evaluate
pub mod Keys
pub mod Bounded
pub mod MakeRoom
pub mod Save
pub mod Capped
pub mod Stages
