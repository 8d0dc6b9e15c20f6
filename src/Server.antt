-- ===== src/Server.antt =====
-- The server's own jobs: crates/server.
pub mod Schedule
