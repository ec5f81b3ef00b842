-- ===== src/Objects.antt =====
-- packages/rust/armonik/src/objects: the client's types and their conversions to the messages of the
-- protocol, which prost generates from Protos/V1.
pub mod Codes
pub mod Enums
pub mod Convert
pub mod Filters
pub mod Submitter
pub mod DataChunk
pub mod TaskOptions
pub mod Agent
pub mod Results
pub mod Tasks
mod Tests
pub mod Sessions
pub mod Partitions
pub mod Applications
pub mod StatusCount
pub mod Count
pub mod Worker
pub mod Versions
pub mod Auth
pub mod HealthChecks
pub mod Events
