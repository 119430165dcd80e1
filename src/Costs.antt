-- ===== src/Costs.antt =====
-- The cost controller of log ingestion (backend/src/costs.rs).
pub mod Policy
pub mod Keys
pub mod Classify
pub mod Decide
pub mod Usage
pub mod Laws
