-- ===== src/Api.antt =====
-- internal/api: the middleware that authenticates a request (Auth) and the validation of the bodies
-- that describe jobs (Requests), and the routes of one job (Tenants).
pub mod Auth
pub mod Requests
pub mod Tenants
