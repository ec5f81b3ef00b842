-- ===== src/Objects/Agent.antt =====
-- packages/rust/armonik/src/objects/agent.
pub mod CreateTasks
pub mod NotifyResultData
pub mod SubmitTasks
pub mod Metadata
pub mod CreateResults
pub mod CreateMetadata
pub mod Requests
