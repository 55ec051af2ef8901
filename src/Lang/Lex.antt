-- ===== src/Lang/Lex.antt =====
-- internal/lang/lex/lex.go: the lexer's state, and the ways in which it moves over the source.
pub mod Blanks
pub mod Numbers
pub mod Strings
pub mod Punct
pub mod Next
pub mod Progress
pub mod Literals
pub mod Skipping
pub mod Scanning
pub mod Reading
use scampi.Base.{
  ℕ, suc, ◌+◌, ◌%◌, Bool, true, false, not, ◌&&◌, ◌||◌, Option, none, some, List, [], ◌∷◌, ◌++◌,
  ◌==◌, if◌then◌else◌, leb, length, take, drop, Bytes,
}
use scampi.Lang.Token.{Kind, Token, illegal, keyword}

-- The conversion `uint32(n)`.
abbrev pub u32 : ℕ → ℕ
u32 n = n % 4294967296

pub record Comment : Type 0 where
  pub text : Bytes
  pub start : ℕ
  pub end : ℕ

pub data ErrKind : Type 0 where
  invalid_char unterminated_string unterminated_comment invalid_escape invalid_number : ErrKind

pub record LexError : Type 0 where
  pub kind : ErrKind
  pub start : ℕ
  pub end : ℕ

pub record InterpFrame : Type 0 where
  pub braces : ℕ
  pub multi : Bool

-- `rest` is `src[pos:]`. The head of `interp` is the top of the stack.
pub record Lexer : Type 0 where
  pub rest : Bytes
  pub pos : ℕ
  pub prev : Kind
  pub comments : List Comment
  pub interp : List InterpFrame
  pub pending : Token
  pub has_pending : Bool
  pub resuming_string : Bool
  pub resuming_multi : Bool
  pub errs : List LexError

-- `New`: the other fields have their zero values.
abbrev pub new_lexer : Bytes → Lexer
new_lexer src = record {
  rest = src;
  pos = 0;
  prev = illegal;
  comments = [];
  interp = [];
  pending = record { kind = illegal; pos = 0; end = 0 };
  has_pending = false;
  resuming_string = false;
  resuming_multi = false;
  errs = [];
}

-- `l.pos += n`.
abbrev pub advance : ℕ → Lexer → Lexer
advance n l = record l { rest = drop n l.rest; pos = l.pos + n }

abbrev pub emit : Kind → ℕ → ℕ → Lexer → Token × Lexer
emit k start end l = (record { kind = k; pos = u32 start; end = u32 end }, record l { prev = k })

abbrev pub add_err : ErrKind → ℕ → ℕ → Lexer → Lexer
add_err k start end l = record l {
  errs = l.errs ++ record { kind = k; start = u32 start; end = u32 end } ∷ [];
}

-- How many bytes a loop `for l.pos < len(l.src) && p(l.src[l.pos])` passes over.
unfoldable pub run_length : (ℕ → Bool) → Bytes → ℕ
run_length p [] = 0
run_length p (c ∷ r) = let n = run_length p r in if p c then suc n else 0

abbrev pub skip_while : (ℕ → Bool) → Lexer → Lexer
skip_while p l = advance (run_length p l.rest) l

-- `l.pos < len(l.src) && p(l.src[l.pos])`.
abbrev pub next_is : (ℕ → Bool) → Bytes → Bool
next_is p [] = false
next_is p (c ∷ r) = p c

abbrev pub between : ℕ → ℕ → ℕ → Bool
between a b c = leb a c && leb c b

abbrev pub is_ident_start : ℕ → Bool
is_ident_start c = between b'a' b'z' c || between b'A' b'Z' c || c == b'_'

abbrev pub is_digit : ℕ → Bool
is_digit c = between b'0' b'9' c

abbrev pub is_ident_cont : ℕ → Bool
is_ident_cont c = is_ident_start c || is_digit c

abbrev pub is_hex_digit : ℕ → Bool
is_hex_digit c = is_digit c || between b'a' b'f' c || between b'A' b'F' c

abbrev pub is_bin_digit : ℕ → Bool
is_bin_digit c = c == b'0' || c == b'1'

abbrev pub is_oct_digit : ℕ → Bool
is_oct_digit c = between b'0' b'7' c

-- `scanIdent`.
unfoldable pub scan_ident : Lexer → Token × Lexer
scan_ident l =
    let n = run_length is_ident_cont l.rest in
    emit (keyword (take n l.rest)) l.pos (l.pos + n) (advance n l)
