-- ===== src/Objects/Applications.antt =====
-- packages/rust/armonik/src/objects/applications: the messages of the service of applications.
pub mod Field
pub mod Filter
pub mod ListRequests
