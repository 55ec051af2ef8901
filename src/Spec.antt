-- ===== src/Spec.antt =====
-- internal/spec: resources (resource.go), and of a planned step and an op (execution.go) what the
-- engine schedules by.
pub mod Resource
pub mod Execution
pub mod Checksum
