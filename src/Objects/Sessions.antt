-- ===== src/Objects/Sessions.antt =====
-- packages/rust/armonik/src/objects/sessions: the messages of the service of sessions.
pub mod Field
pub mod Filter
pub mod Raw
pub mod ListRequests
pub mod Requests
