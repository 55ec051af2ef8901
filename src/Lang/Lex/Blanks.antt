-- ===== src/Lang/Lex/Blanks.antt =====
-- internal/lang/lex/lex.go: `skipWSAndComments` and `skipBlockComment`.
use scampi.Base.{
  ℕ, zero, suc, ◌+◌, ◌-◌, Bool, true, false, not, ◌&&◌, ◌||◌, Option, none, some, [], ◌∷◌, ◌++◌,
  ◌==◌, if◌then◌else◌, ltb, take, Bytes,
}
use scampi.Lang.Token.{Token, semi, ends_statement}
use scampi.Lang.Lex.{Lexer, unterminated_comment, u32, advance, emit, add_err, skip_while}

-- What the loop over a block comment reads: `depth` is 0 unless the source has ended.
pub record Block : Type 0 where
  pub depth : ℕ
  pub saw_newline : Bool
  pub count : ℕ

abbrev pub further : ℕ → Block → Block
further n b = record b { count = n + b.count }

unfoldable pub scan_block : ℕ → Bool → Bytes → Block
scan_block zero saw r = record { depth = 0; saw_newline = saw; count = 0 }
scan_block (suc d) saw [] = record { depth = suc d; saw_newline = saw; count = 0 }
scan_block (suc d) saw (c ∷ []) = further 1 (scan_block (suc d) (saw || c == b'\n') [])
scan_block (suc d) saw (c ∷ n ∷ r) = elim (c == b'/' && n == b'*') [
  | true ↦ further 2 (scan_block (suc (suc d)) saw r)
  | false ↦ elim (c == b'*' && n == b'/') [
    | true ↦ further 2 (scan_block d saw r)
    | false ↦ further 1 (scan_block (suc d) (saw || c == b'\n') (n ∷ r))
  ]
]

-- One turn of the loop: it goes on, or the function returns, with a token or without one.
pub data Turn : Type 0 where
  again : Lexer → Turn
  halt : Option Token → Lexer → Turn

abbrev pub note_comment : Lexer → Lexer → Lexer
note_comment from l = record l {
  comments =
      l.comments
      ++ record { text = take (l.pos - from.pos) from.rest; start = u32 from.pos; end = u32 l.pos }
        ∷ [];
}

-- Whether a newline ends a statement here.
abbrev pub at_statement : Lexer → Bool
at_statement l = ends_statement l.prev && elim l.interp [ [] ↦ true | ◌∷◌ f fs ↦ false ]

abbrev pub halt_with : Token × Lexer → Turn
halt_with (tok, l) = halt (some tok) l

-- `skipBlockComment`, where `l` stands before the comment.
abbrev pub block_comment : Lexer → Turn
block_comment from =
    let b = scan_block 1 false (advance 2 from).rest in
    let l = advance b.count (advance 2 from) in
    let l' = if ltb 0 b.depth then add_err unterminated_comment from.pos l.pos l else l in
    let l'' = note_comment from l' in
    if b.saw_newline && at_statement l''
    then halt_with (emit semi l''.pos l''.pos l'')
    else again l''

abbrev pub line_comment : Lexer → Turn
line_comment from = again (note_comment from (skip_while (λ c. not (c == b'\n')) (advance 2 from)))

abbrev pub newline : Lexer → Turn
newline l =
    if at_statement l
    then halt_with (let (tok, m) = emit semi l.pos (l.pos + 1) l in (tok, advance 1 m))
    else again (advance 1 l)

abbrev pub slash_turn : Bytes → Lexer → Turn
slash_turn [] l = halt none l
slash_turn (n ∷ r) l =
    if n == b'/' then line_comment l else if n == b'*' then block_comment l else halt none l

abbrev pub turn : Bytes → Lexer → Turn
turn [] l = halt none l
turn (c ∷ r) l =
    if c == b' ' || (c == b'\t' || c == b'\r')
    then again (advance 1 l)
    else if c == b'\n'
    then newline l
    else if c == b'/'
    then slash_turn r l
    else halt none l

-- The loop of `skipWSAndComments`, on fuel; `none` means that the fuel ran out.
unfoldable pub skip_blanks : ℕ → Lexer → Option (Option Token × Lexer)
skip_blanks zero l = none
skip_blanks (suc fuel) l = elim (turn l.rest l) [
  | again m ↦ skip_blanks fuel m
  | halt tok m ↦ some (tok, m)
]
