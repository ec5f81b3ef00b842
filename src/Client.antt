-- ===== src/Client.antt =====
-- The services of packages/rust/armonik/src/client, and what they make with the servers of
-- packages/rust/armonik/src/server.
pub mod Results
pub mod Submitter
pub mod Maps
mod Tests
mod ServiceTests
mod MapsTests
mod Handlers
pub mod Sessions
pub mod Partitions
pub mod Applications
pub mod Tasks
pub mod Agent
pub mod Worker
pub mod Versions
pub mod Auth
pub mod HealthChecks
mod Streams
mod StreamTests
mod OpeningTests
pub mod Opening
pub mod Events
