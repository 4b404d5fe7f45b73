-- ===== src/Security.antt =====
-- src/security.rs.
pub mod Replay
pub mod Connection
