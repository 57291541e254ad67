-- ===== src/Namespace.antt =====
-- src/namespace.rs: delegation of bpf() to a user namespace.
pub mod Host
pub mod Options
pub mod Delegate
pub mod Mounts
