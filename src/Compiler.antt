-- ===== src/Compiler.antt =====
-- The compiler: what turns a process description into an execution plan (src/bpg/compiler).
pub mod Topology
pub mod Patching
pub mod Types
pub mod Schema
pub mod Cycles
pub mod Config
pub mod Plan
