-- ===== src/Tests.antt =====
-- Runs of the definitions, and the theorems at concrete inputs.
mod Steps
mod Ops
mod Cycles
mod Lexing
mod Identities
mod Hooking
mod Planning
mod Ordering
mod Values
mod MemTargets
mod Redacting
mod Typing
mod Deploying
mod Parsing
mod Scoping
mod Positions
