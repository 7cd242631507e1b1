-- ===== src/Api.antt =====
-- src/api.rs: the HTTP API of the server.
pub mod Cookie
pub mod State
pub mod Reclaimer
pub mod Status
pub mod Handlers
pub mod Router
