-- ===== src/Server.antt =====
-- src/server.rs.
pub mod Limits
pub mod Respond
pub mod Requests
pub mod Queries
pub mod Wakes
pub mod Host
pub mod Entry
pub mod Ledger
pub mod Cooldown
pub mod Rate
pub mod Keyed
pub mod Permits
