-- ===== src/Objects/Partitions.antt =====
-- packages/rust/armonik/src/objects/partitions: the messages of the service of partitions.
pub mod Field
pub mod Filter
pub mod ListRequests
