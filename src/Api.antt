-- ===== src/Api.antt =====
-- The web interface (backend/src/api): the answers of its handlers, the quota of a tenant and the
-- handlers themselves.
pub mod Handler
pub mod Tenant
pub mod Ingest
pub mod Audit
pub mod Cases
pub mod Live
pub mod Rules
pub mod Compliance
pub mod AuditTrail
pub mod Packs
pub mod SignIn
pub mod Costs
pub mod Health
pub mod Reliability
