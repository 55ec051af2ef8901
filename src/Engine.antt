-- ===== src/Engine.antt =====
-- internal/engine.
pub mod Countdown
pub mod StepGraph
pub mod Steps
pub mod Duplicates
pub mod OpGraph
pub mod OpRun
pub mod Cycles
pub mod Hooks
pub mod Planning
pub mod Deploys
