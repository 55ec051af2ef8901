-- ===== src/Lang/Lex/Strings.antt =====
-- internal/lang/lex/lex.go: `enterString`, `scanStringSegment`, `segmentKind`.
use scampi.Base.{
  ℕ, ◌+◌, Bool, true, false, not, ◌&&◌, ◌||◌, List, [], ◌∷◌, ◌++◌, ◌==◌, if◌then◌else◌, Bytes,
}
use scampi.Lang.Token.{
  Kind, Token, string_lit, string_beg, string_cont, string_end, string_multi, string_multi_beg,
  string_multi_cont, string_multi_end, linterp,
}
use scampi.Lang.Lex.{
  Lexer, LexError, invalid_escape, unterminated_string, u32, advance, emit, add_err,
}

abbrev pub is_valid_escape : ℕ → Bool
is_valid_escape c =
    c == b'n'
    || (c == b't'
        || (c == b'r' || (c == b'\\' || (c == b'"' || (c == b'`' || (c == b'$' || c == b'0'))))))

abbrev pub segment_kind : Bool → Bool → Bool → Kind
segment_kind true true true = string_multi
segment_kind true true false = string_lit
segment_kind true false true = string_multi_beg
segment_kind true false false = string_beg
segment_kind false true true = string_multi_end
segment_kind false true false = string_end
segment_kind false false true = string_multi_cont
segment_kind false false false = string_cont

pub data SegmentEnd : Type 0 where
  at_interp at_closer at_newline at_source_end : SegmentEnd

-- What the loop of `scanStringSegment` reads.
pub record Segment : Type 0 where
  pub count : ℕ
  pub ending : SegmentEnd
  pub errs : List LexError

abbrev pub further : ℕ → List LexError → Segment → Segment
further n es t = record t { count = n + t.count; errs = es ++ t.errs }

abbrev pub stop : SegmentEnd → Segment
stop e = record { count = 0; ending = e; errs = [] }

abbrev pub escape_err : ℕ → ℕ → List LexError
escape_err start end = record { kind = invalid_escape; start = u32 start; end = u32 end } ∷ []

pub data Branch : Type 0 where
  backslash dollar closer newline plain : Branch

-- The cases of the `switch`, in their order.
abbrev pub branch : Bool → ℕ → Branch
branch multi c =
    if c == b'\\'
    then backslash
    else if c == b'$'
    then dollar
    else if c == (if multi then b'`' else b'"')
    then closer
    else if c == b'\n' && not multi
    then newline
    else plain

unfoldable pub scan_text : Bool → ℕ → Bytes → Segment
scan_text multi pos [] = stop at_source_end
scan_text multi pos (c ∷ []) = elim (branch multi c) [
  | backslash ↦ further 1 (escape_err pos (pos + 1)) (stop at_source_end)
  | dollar ↦ further 1 [] (stop at_source_end)
  | closer ↦ stop at_closer
  | newline ↦ stop at_newline
  | plain ↦ further 1 [] (stop at_source_end)
]
scan_text multi pos (c ∷ n ∷ r) = elim (branch multi c) [
  | backslash ↦
      further 2 (if not multi && not (is_valid_escape n) then escape_err pos (pos + 2) else [])
        (scan_text multi (pos + 2) r)
  | dollar ↦ elim (n == b'{') [
    | true ↦ stop at_interp
    | false ↦ further 1 [] (scan_text multi (pos + 1) (n ∷ r))
  ]
  | closer ↦ stop at_closer
  | newline ↦ stop at_newline
  | plain ↦ further 1 [] (scan_text multi (pos + 1) (n ∷ r))
]

-- `${`: its token waits for the next call.
abbrev pub open_interp : Bool → Lexer → Lexer
open_interp multi l = record (advance 2 l) {
  interp = record { braces = 1; multi = multi } ∷ l.interp;
  pending = record { kind = linterp; pos = u32 l.pos; end = u32 (l.pos + 2) };
  has_pending = true;
  prev = linterp;
}

-- The span of the error begins at the byte before the segment, `start - 1` in 32 bits.
abbrev pub unterminated : ℕ → Lexer → Lexer
unterminated start l = add_err unterminated_string (u32 start + 4294967295) l.pos l

abbrev pub end_segment : SegmentEnd → Bool → Bool → ℕ → Lexer → Token × Lexer
end_segment at_interp fresh multi start l =
    emit (segment_kind fresh false multi) start l.pos (open_interp multi l)
end_segment at_closer fresh multi start l =
    emit (segment_kind fresh true multi) start l.pos (advance 1 l)
end_segment at_newline fresh multi start l =
    emit (segment_kind fresh true multi) start l.pos (unterminated start l)
end_segment at_source_end fresh multi start l =
    emit (segment_kind fresh true multi) start l.pos (unterminated start l)

unfoldable pub scan_segment : Bool → Bool → Lexer → Token × Lexer
scan_segment fresh multi l =
    let t = scan_text multi l.pos l.rest in
    end_segment t.ending fresh multi l.pos (record (advance t.count l) { errs = l.errs ++ t.errs })

abbrev pub enter_string : ℕ → Lexer → Token × Lexer
enter_string c l = scan_segment true (c == b'`') (advance 1 l)
