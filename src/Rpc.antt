-- ===== src/Rpc.antt =====
-- One remote call: the generic halves of packages/rust/armonik/src/client/mod.rs and of
-- packages/rust/armonik/src/server/mod.rs, and what they make together. What happens on the other
-- side changes a state, which every call takes and returns.
pub mod Calls
pub mod Unary
pub mod Streams
pub mod Delivery
pub mod Replies
