-- ===== src/Tests/Lexing.antt =====
-- internal/lang/lex: the tokens of small sources.
use scampi.Base.{
  ℕ, zero, suc, ◌+◌, ◌*◌, ◌≤◌, ◌≡◌, refl, Option, none, some, List, [], ◌∷◌, length, Bytes,
}
use scampi.Lang.Token.{
  Kind, Token, eof, semi, ident, let_kw, assign, int_lit, string_beg, linterp, rinterp, string_end,
  illegal, keyword, ends_statement, lbrace, rbrace,
}
use scampi.Lang.Lex.{Lexer, new_lexer, u32, run_length, scan_ident}
use scampi.Lang.Lex.Blanks.{skip_blanks, scan_block}
use scampi.Lang.Lex.Numbers.{scan_number}
use scampi.Lang.Lex.Strings.{scan_segment, scan_text}
use scampi.Lang.Lex.Punct.{scan_punct}
use scampi.Lang.Lex.Next.{next}
use scampi.Lang.Lex.Reading.{Stream, Reads, next-Reads, new_lexer-IsLexed}

unfold_all : Unit {0}
unfolding next skip_blanks scan_block scan_number scan_segment scan_text scan_punct scan_ident
    run_length keyword ends_statement
unfold_all = tt

abbrev and_kinds : (Lexer → List Kind) → Option (Token × Lexer) → List Kind
and_kinds more none = []
and_kinds more (some (tok, l)) = tok.kind ∷ more l

-- The kinds of the first `n` tokens.
abbrev kinds : ℕ → Lexer → List Kind
kinds zero l = []
kinds (suc n) l = and_kinds (kinds n) (next l)

-- `let x = 0x1f`, a comment within a comment, and a newline.
abbrev binding : Bytes
binding =
    b'l' ∷ b'e' ∷ b't' ∷ b' ' ∷ b'x' ∷ b' ' ∷ b'=' ∷ b' ' ∷ b'0' ∷ b'x' ∷ b'1' ∷ b'f' ∷ b'/' ∷ b'*'
    ∷ b'/' ∷ b'*' ∷ b'*' ∷ b'/' ∷ b'*' ∷ b'/' ∷ b'\n' ∷ []

binding_tokens : kinds 6 (new_lexer binding) ≡ let_kw ∷ ident ∷ assign ∷ int_lit ∷ semi ∷ eof ∷ []
unfolding unfold_all
binding_tokens = refl

-- `"a${ {b} }"`
abbrev text : Bytes
text = b'"' ∷ b'a' ∷ b'$' ∷ b'{' ∷ b' ' ∷ b'{' ∷ b'b' ∷ b'}' ∷ b' ' ∷ b'}' ∷ b'"' ∷ []

text_tokens :
    kinds 9 (new_lexer text)
    ≡ string_beg ∷ linterp ∷ lbrace ∷ ident ∷ rbrace ∷ rinterp ∷ string_end ∷ semi ∷ eof ∷ []
unfolding unfold_all
text_tokens = refl

-- A semicolon in the source is no terminator.
semicolon_tokens : kinds 2 (new_lexer (b';' ∷ [])) ≡ illegal ∷ eof ∷ []
unfolding unfold_all
semicolon_tokens = refl

new_lexer-IsLexed_example :
    (toks : List Token) × (m : Lexer) × Stream (new_lexer text) toks m
    × (length toks ≤ 4 * length text + 1)
    × (m.pos ≡ length text)
    × (next m ≡ some (record { kind = eof; pos = u32 m.pos; end = u32 m.pos }, m))
new_lexer-IsLexed_example = new_lexer-IsLexed text

next-Reads_example : Reads (new_lexer text)
next-Reads_example = next-Reads (new_lexer text) (λ h. cc) tt
