-- ===== src/Http.antt =====
-- C_Server: an HTTP 1.0 server.
pub mod Data
pub mod Request
pub mod Response
pub mod Handler
pub mod Setup
mod Tests
