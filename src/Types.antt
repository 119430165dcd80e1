-- ===== src/Types.antt =====
-- The data that the components exchange (backend/src/types).
pub mod Json
pub mod Log
pub mod Tag
pub mod Alert
pub mod Ecs
pub mod External
