-- ===== src/Objects/Submitter.antt =====
-- packages/rust/armonik/src/objects/submitter.
pub mod TaskFilter
pub mod SessionFilter
pub mod CreateTasks
pub mod TryGetResult
pub mod TaskStatuses
pub mod ResultStatuses
pub mod Sessions
pub mod Wait
