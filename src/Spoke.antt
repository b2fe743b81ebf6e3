-- ===== src/Spoke.antt =====
-- The spoke (spoke/).
pub mod State
pub mod Outbound
pub mod World
pub mod Inbound
pub mod Watch
pub mod Tick
pub mod Main
pub mod Mirror
pub mod Call
pub mod Queue
pub mod HubHttp
pub mod Focus
pub mod Local
pub mod Fake
mod Runs
mod Tests
