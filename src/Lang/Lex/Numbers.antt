-- ===== src/Lang/Lex/Numbers.antt =====
-- internal/lang/lex/lex.go: `scanNumber` and `scanDigits`.
use scampi.Base.{ℕ, Bool, ◌||◌, Option, none, some, [], ◌∷◌, ◌==◌, if◌then◌else◌, Bytes}
use scampi.Lang.Token.{Token, illegal, int_lit}
use scampi.Lang.Lex.{
  Lexer, invalid_number, advance, emit, add_err, skip_while, next_is, is_digit, is_ident_cont,
  is_hex_digit, is_bin_digit, is_oct_digit,
}

abbrev pub bad_number : ℕ → Lexer → Token × Lexer
bad_number start l = emit illegal start l.pos (add_err invalid_number start l.pos l)

-- A literal must not run on into an identifier.
abbrev pub end_number : ℕ → Lexer → Token × Lexer
end_number start l =
    if next_is is_ident_cont l.rest
    then bad_number start (skip_while is_ident_cont l)
    else emit int_lit start l.pos l

abbrev pub scan_digits : ℕ → (ℕ → Bool) → Lexer → Token × Lexer
scan_digits start pred l =
    let m = skip_while pred l in if m.pos == l.pos then bad_number start m else end_number start m

-- The digits that a prefix announces.
abbrev pub base_digits : Bytes → Option (ℕ → Bool)
base_digits [] = none
base_digits (c ∷ []) = none
base_digits (c ∷ x ∷ r) =
    if c == b'0'
    then if x == b'x' || x == b'X'
      then some is_hex_digit
      else if x == b'b' || x == b'B'
      then some is_bin_digit
      else if x == b'o' || x == b'O'
      then some is_oct_digit
      else none
    else none

abbrev pub scan_base : Option (ℕ → Bool) → Lexer → Token × Lexer
scan_base none l = end_number l.pos (skip_while is_digit l)
scan_base (some pred) l = scan_digits l.pos pred (advance 2 l)

unfoldable pub scan_number : Lexer → Token × Lexer
scan_number l = scan_base (base_digits l.rest) l
