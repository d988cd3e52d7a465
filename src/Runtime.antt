-- ===== src/Runtime.antt =====
-- The runtime: what happens to a process while it runs (src/bpg/runtime).
pub mod Events
pub mod Replay
pub mod Payload
pub mod Orchestrator
pub mod Adapter
