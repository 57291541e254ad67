-- ===== src/Tests.antt =====
-- Runs of the model on the inputs of the source's own tests, and each theorem at a concrete input.
mod Sample
mod Policies
mod Bitmaps
mod Hooks
mod Machine
mod Daemon
mod Namespaces
mod Mounts
mod CommandLine
mod Startup
mod Server
mod Tasks
mod Proxy
