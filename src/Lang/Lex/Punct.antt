-- ===== src/Lang/Lex/Punct.antt =====
-- internal/lang/lex/lex.go: `scanPunct`.
use scampi.Base.{
  ℕ, ◌+◌, ◌-◌, true, Option, none, some, List, [], ◌∷◌, ◌==◌, if◌then◌else◌, Bytes, lookup, nat_eq,
}
use scampi.Lang.Token.{
  Kind, Token, rinterp, plus, minus, star, slash, percent, equals, neq, lt, gt, leq, geq, and, or,
  bang, assign, colon, dot, question, at_sign, lbrace, rbrace, lbrack, rbrack, lparen, rparen,
  comma,
}
use scampi.Lang.Lex.{Lexer, InterpFrame, advance, emit}

-- The byte after the first one; 0 at the end of the source.
abbrev pub peek : Bytes → ℕ
peek [] = 0
peek (n ∷ r) = n

-- What the braces of an interpolation make of the byte: its end, or a new count of braces.
pub data Framed : Type 0 where
  closes : Token → Lexer → Framed
  counts : Lexer → Framed

abbrev pub close_interp : InterpFrame → List InterpFrame → Lexer → Token × Lexer
close_interp f fs l =
    emit rinterp l.pos (l.pos + 1)
      (record (advance 1 l) { interp = fs; resuming_string = true; resuming_multi = f.multi })

abbrev pub as_closes : Token × Lexer → Framed
as_closes (tok, l) = closes tok l

abbrev pub frame_byte : ℕ → List InterpFrame → Lexer → Framed
frame_byte c [] l = counts l
frame_byte c (f ∷ fs) l =
    if c == b'{'
    then counts (record l { interp = record f { braces = f.braces + 1 } ∷ fs })
    else if c == b'}'
    then if f.braces == 1
      then as_closes (close_interp f fs l)
      else counts (record l { interp = record f { braces = f.braces - 1 } ∷ fs })
    else counts l

abbrev pub single_bytes : List (ℕ × Kind)
single_bytes =
    (b'+', plus)
    ∷ (b'-', minus)
    ∷ (b'*', star)
    ∷ (b'/', slash)
    ∷ (b'%', percent)
    ∷ (b'=', assign)
    ∷ (b'!', bang)
    ∷ (b'<', lt)
    ∷ (b'>', gt)
    ∷ (b':', colon)
    ∷ (b'.', dot)
    ∷ (b'?', question)
    ∷ (b'@', at_sign)
    ∷ (b',', comma)
    ∷ (b'{', lbrace)
    ∷ (b'}', rbrace)
    ∷ (b'[', lbrack)
    ∷ (b']', rbrack)
    ∷ (b'(', lparen)
    ∷ (b')', rparen)
    ∷ []

-- A byte that a second one may follow, with that byte.
abbrev pub double_bytes : List (ℕ × (ℕ × Kind))
double_bytes =
    (b'=', (b'=', equals))
    ∷ (b'!', (b'=', neq))
    ∷ (b'<', (b'=', leq))
    ∷ (b'>', (b'=', geq))
    ∷ (b'&', (b'&', and))
    ∷ (b'|', (b'|', or))
    ∷ []

abbrev pub of_length {ℓ} : {A : Type ℓ} → ℕ → Option A → Option (A × ℕ)
of_length n none = none
of_length n (some k) = some (k, n)

abbrev pub double_kind : Option (ℕ × Kind) → ℕ → Option Kind
double_kind none p = none
double_kind (some (second, k)) p = if p == second then some k else none

abbrev pub either_kind : Option Kind → Option Kind → Option (Kind × ℕ)
either_kind (some k) single = some (k, 2)
either_kind none single = of_length 1 single

-- The kind, and how many bytes it takes: two bytes go before one.
abbrev pub punct_kind : ℕ → ℕ → Option (Kind × ℕ)
punct_kind c p = either_kind (double_kind (lookup c double_bytes) p) (lookup c single_bytes)

abbrev pub emit_punct : Option (Kind × ℕ) → Lexer → Option (Token × Lexer)
emit_punct none l = none
emit_punct (some (k, n)) l = some (emit k l.pos (l.pos + n) (advance n l))

-- `scanPunct`: when it finds no token, the lexer is the one that it has left.
abbrev pub punct_or : ℕ → ℕ → (Lexer → Token × Lexer) → Lexer → Token × Lexer
punct_or c p other l = elim (emit_punct (punct_kind c p) l) [ some r ↦ r | none ↦ other l ]

abbrev pub scan_framed : ℕ → ℕ → (Lexer → Token × Lexer) → Framed → Token × Lexer
scan_framed c p other (closes tok l) = (tok, l)
scan_framed c p other (counts l) = punct_or c p other l

unfoldable pub scan_punct : ℕ → Bytes → (Lexer → Token × Lexer) → Lexer → Token × Lexer
scan_punct c r other l = scan_framed c (peek r) other (frame_byte c l.interp l)
