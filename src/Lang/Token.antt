-- ===== src/Lang/Token.antt =====
-- internal/lang/token/token.go.
use scampi.Base.{ℕ, Bool, true, false, Option, none, some, List, [], ◌∷◌, Bytes, bytes_eq, lookup}

pub data Kind : Type 0 where
  illegal eof semi : Kind
  ident int_lit string_lit string_beg string_cont string_end : Kind
  string_multi string_multi_beg string_multi_cont string_multi_end : Kind
  linterp rinterp : Kind
  module_kw import_kw let_kw func_kw decl_kw type_kw enum_kw for_kw in_kw if_kw else_kw : Kind
  return_kw true_kw false_kw none_kw self_kw pub_kw : Kind
  plus minus star slash percent equals neq lt gt leq geq and or bang : Kind
  assign colon dot question at_sign : Kind
  lbrace rbrace lbrack rbrack lparen rparen comma : Kind

-- Byte offsets in the source, the second one exclusive.
pub record Token : Type 0 where
  pub kind : Kind
  pub pos : ℕ
  pub end : ℕ

abbrev pub is_eof : Kind → Bool
is_eof eof = true
is_eof _ = false

unfoldable pub ends_statement : Kind → Bool
ends_statement ident = true
ends_statement int_lit = true
ends_statement string_lit = true
ends_statement string_end = true
ends_statement string_multi = true
ends_statement string_multi_end = true
ends_statement true_kw = true
ends_statement false_kw = true
ends_statement none_kw = true
ends_statement self_kw = true
ends_statement return_kw = true
ends_statement rbrace = true
ends_statement rbrack = true
ends_statement rparen = true
ends_statement _ = false

abbrev pub keywords : List (Bytes × Kind)
keywords =
    (b'm' ∷ b'o' ∷ b'd' ∷ b'u' ∷ b'l' ∷ b'e' ∷ [], module_kw)
    ∷ (b'i' ∷ b'm' ∷ b'p' ∷ b'o' ∷ b'r' ∷ b't' ∷ [], import_kw)
    ∷ (b'l' ∷ b'e' ∷ b't' ∷ [], let_kw)
    ∷ (b'f' ∷ b'u' ∷ b'n' ∷ b'c' ∷ [], func_kw)
    ∷ (b'd' ∷ b'e' ∷ b'c' ∷ b'l' ∷ [], decl_kw)
    ∷ (b't' ∷ b'y' ∷ b'p' ∷ b'e' ∷ [], type_kw)
    ∷ (b'e' ∷ b'n' ∷ b'u' ∷ b'm' ∷ [], enum_kw)
    ∷ (b'f' ∷ b'o' ∷ b'r' ∷ [], for_kw)
    ∷ (b'i' ∷ b'n' ∷ [], in_kw)
    ∷ (b'i' ∷ b'f' ∷ [], if_kw)
    ∷ (b'e' ∷ b'l' ∷ b's' ∷ b'e' ∷ [], else_kw)
    ∷ (b'r' ∷ b'e' ∷ b't' ∷ b'u' ∷ b'r' ∷ b'n' ∷ [], return_kw)
    ∷ (b't' ∷ b'r' ∷ b'u' ∷ b'e' ∷ [], true_kw)
    ∷ (b'f' ∷ b'a' ∷ b'l' ∷ b's' ∷ b'e' ∷ [], false_kw)
    ∷ (b'n' ∷ b'o' ∷ b'n' ∷ b'e' ∷ [], none_kw)
    ∷ (b's' ∷ b'e' ∷ b'l' ∷ b'f' ∷ [], self_kw)
    ∷ (b'p' ∷ b'u' ∷ b'b' ∷ [], pub_kw)
    ∷ []

abbrev pub or_ident : Option Kind → Kind
or_ident none = ident
or_ident (some k) = k

-- `Lookup`.
unfoldable pub keyword : Bytes → Kind
keyword s = or_ident (lookup s keywords)
