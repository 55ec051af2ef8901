-- ===== src/Lang/Lex/Next.antt =====
-- internal/lang/lex/lex.go: `Next`.
use scampi.Base.{
  ℕ, suc, ◌+◌, false, ◌||◌, Option, none, some, [], ◌∷◌, ◌==◌, if◌then◌else◌, length, Bytes,
}
use scampi.Lang.Token.{Token, semi, eof, illegal, ends_statement}
use scampi.Lang.Lex.{
  Lexer, invalid_char, advance, emit, add_err, is_ident_start, is_digit, scan_ident,
}
use scampi.Lang.Lex.Blanks.{skip_blanks}
use scampi.Lang.Lex.Numbers.{scan_number}
use scampi.Lang.Lex.Strings.{scan_segment, enter_string}
use scampi.Lang.Lex.Punct.{scan_punct}

-- An unknown byte.
abbrev pub scan_unknown : Lexer → Token × Lexer
scan_unknown l =
    emit illegal l.pos (l.pos + 1) (add_err invalid_char l.pos (l.pos + 1) (advance 1 l))

abbrev pub at_end : Lexer → Token × Lexer
at_end l = if ends_statement l.prev then emit semi l.pos l.pos l else emit eof l.pos l.pos l

abbrev pub scan_byte : ℕ → Bytes → Lexer → Token × Lexer
scan_byte c r l =
    if is_ident_start c
    then scan_ident l
    else if is_digit c
    then scan_number l
    else if c == b'"' || c == b'`'
    then enter_string c l
    else scan_punct c r scan_unknown l

abbrev pub scan_token : Bytes → Lexer → Token × Lexer
scan_token [] l = at_end l
scan_token (c ∷ r) l = scan_byte c r l

abbrev pub after_blanks : Option (Option Token × Lexer) → Option (Token × Lexer)
after_blanks none = none
after_blanks (some (some tok, l)) = some (tok, l)
after_blanks (some (none, l)) = some (scan_token l.rest l)

-- `none` means that the fuel of `skip_blanks` ran out.
unfoldable pub next : Lexer → Option (Token × Lexer)
next l =
    if l.has_pending
    then some (l.pending, record l { has_pending = false })
    else if l.resuming_string
    then some (
        scan_segment false l.resuming_multi
          (record l { resuming_string = false; resuming_multi = false }))
    else after_blanks (skip_blanks (suc (length l.rest)) l)
