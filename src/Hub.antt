-- ===== src/Hub.antt =====
-- The hub (hub/).
pub mod Schema
pub mod Rows
pub mod Accounts
pub mod Push
pub mod Lease
pub mod Ack
pub mod Observe
pub mod Direct
pub mod Http
pub mod Replies
pub mod Api
pub mod Server
pub mod Invariant
pub mod History
pub mod Sample
mod Tests
