-- ===== src/Objects/Tasks.antt =====
-- packages/rust/armonik/src/objects/tasks: the messages of the service of tasks.
pub mod Summary
pub mod Raw
pub mod Field
pub mod Filter
pub mod ListRequests
pub mod Listed
pub mod Requests
pub mod Submit
pub mod ResultIds
