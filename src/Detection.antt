-- ===== src/Detection.antt =====
-- The detection engine (backend/src/detection) with the log normaliser that its conditions read.
pub mod Normalization
pub mod Evaluator
pub mod Cache
pub mod Rules
pub mod CompiledRule
pub mod Engine
