-- ===== src/Tests.antt =====
-- Concrete runs: each theorem that has conditions is applied where they hold.
mod Protocol
mod Ledger
mod Limits
mod Connection
mod Client
mod Routes
mod Settings
mod Permits
mod Wakes
mod Queries
mod Asked
mod Progress
