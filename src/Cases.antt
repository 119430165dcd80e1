-- ===== src/Cases.antt =====
-- Cases, in which people follow an alert (backend/src/db/models/case.rs, and the cases in
-- backend/src/db/postgres.rs): their data, and what is read from and written to the database.
pub mod Data
pub mod Store
pub mod Open
