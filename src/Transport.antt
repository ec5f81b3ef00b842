-- ===== src/Transport.antt =====
-- The crate armonik-transport (packages/rust/armonik-transport/src): options from the
-- environment, their validation, and the connection that they describe.
pub mod Env
pub mod External
pub mod Error
pub mod Args
pub mod Options
pub mod RateLimit
pub mod Identity
pub mod Override
pub mod Config
pub mod Accepted
pub mod Connect
pub mod Toy
mod Tests
