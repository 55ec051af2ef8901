-- ===== src/Target.antt =====
-- internal/target: access to the machines that are converged.
pub mod Kinds
pub mod Mem
pub mod Identity
