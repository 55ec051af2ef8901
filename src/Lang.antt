-- ===== src/Lang.antt =====
-- internal/lang: the configuration language.
pub mod Token
pub mod Lex
pub mod Types
pub mod Parse
pub mod Scope
pub mod Position
