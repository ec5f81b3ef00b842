-- ===== src/Objects/Results.antt =====
-- packages/rust/armonik/src/objects/results
pub mod Raw
pub mod Upload
pub mod Field
pub mod Filter
pub mod ListResults
pub mod OwnerTaskId
pub mod Create
pub mod CreateMetadata
pub mod Requests
pub mod Import
