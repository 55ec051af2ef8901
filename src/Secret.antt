-- ===== src/Secret.antt =====
-- internal/secret: redactor.go. The context that carries a redactor is not modelled.
pub mod Redactor
pub mod Replace
pub mod Safe
