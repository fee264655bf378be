-- ===== src/Automation.antt =====
-- The coordinators of gui/app that start agent runs by themselves, as functions on a snapshot of the
-- board and on the answers of the services that they call.
pub mod Tasks
pub mod Capacity
pub mod Filter
pub mod Implement
pub mod Scan
pub mod Workers
pub mod Wip
pub mod Gates
pub mod Order
pub mod Arguments
pub mod Query
pub mod Pulls
pub mod Turns
