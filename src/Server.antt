-- ===== src/Server.antt =====
-- src/server: the routes of requests to models.
pub mod Routing
pub mod Sse
pub mod Auth
pub mod Sources
pub mod Bodies
pub mod Dispatch
pub mod Scopes
