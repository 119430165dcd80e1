-- ===== src/Detection/Rules.antt =====
-- The rules (backend/src/detection/rules) and their sum, the compiled rule.
pub mod BruteForce
pub mod PortScan
pub mod Malware
pub mod Generic
pub mod Correlation
pub mod Laws
