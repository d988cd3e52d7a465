-- ===== src/Audit.antt =====
-- Audit capture: what of an event is stored, and the hash-chained ledger (src/bpg/audit).
pub mod Redaction
pub mod Event
pub mod Samples
pub mod Policy
pub mod Ledger
