-- ===== src/Policy.antt =====
-- src/policy.rs: the policy engine.
mod Config
pub mod Tables
pub mod Check
pub mod Bitmap
pub mod Roles
pub mod Defaults
pub mod Load
pub use Config.*
