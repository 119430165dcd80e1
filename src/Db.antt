-- ===== src/Db.antt =====
-- Services behind the program (backend/src/db).
pub mod Counters
pub mod Elastic
pub mod RefreshTokens
pub mod RateLimits
