-- ===== src/Auth.antt =====
-- Who may do what (backend/src/auth and backend/src/api/middleware): the keys that tokens are
-- checked with, the claims in a token and the token in a request.
pub mod Jwks
pub mod Claims
pub mod Middleware
pub mod Users
