-- ===== src/Service.antt =====
-- src/service.rs: the service that holds the update state. Each child is a part of it.
pub mod State
pub mod Version
pub mod Clear
pub mod Stop
pub mod Live
pub mod Start
pub mod Confirm
pub mod Process
pub mod Requests
pub mod Periodic
