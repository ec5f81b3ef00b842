-- ===== src/Server.antt =====
-- packages/rust/armonik/src/server: the traits of the handlers and the servers that are made of them.
pub mod Sessions
pub mod Partitions
pub mod Applications
pub mod Tasks
pub mod Results
pub mod Agent
pub mod Submitter
pub mod Worker
pub mod Versions
pub mod Auth
pub mod HealthChecks
pub mod Events
