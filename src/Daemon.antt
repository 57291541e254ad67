-- ===== src/Daemon.antt =====
-- src/main.rs: the proxy daemon.
pub mod Groups
pub mod System
pub mod Syscall
pub mod Handler
pub mod Server
pub mod Start
