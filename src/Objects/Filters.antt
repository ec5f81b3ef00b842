-- ===== src/Objects/Filters.antt =====
-- packages/rust/armonik/src/objects/filters: what the filters of every service share.
pub mod Condition
pub mod Formula
pub mod Kinds
