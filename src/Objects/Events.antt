-- ===== src/Objects/Events.antt =====
-- packages/rust/armonik/src/objects/events: the messages of the service of events.
pub mod Update
pub mod Subscribe
