-- ===== src/Lang/Parse.antt =====
-- internal/lang/parse: the state of the parser, and type expressions (types.go). The lexer stands for the
-- tokens that it is still going to return; after them it returns its last token, `stop`, for ever.
pub mod Grammar
pub mod Ends
pub mod Accepts
use scampi.Base.{
  ℕ, zero, suc, ◌-◌, Bool, true, false, not, ◌&&◌, ◌||◌, Option, none, some, List, [], ◌∷◌, ◌++◌,
  Bytes, ◌==◌, if◌then◌else◌, length, take, drop,
}
use scampi.Lang.Token.{Kind, Token, eof, ident, dot, lbrack, rbrack, comma, question, is_eof}

pub record Span : Type 0 where
  pub start : ℕ
  pub end : ℕ

-- Of an error, its span and the kind of token that was expected; `none` for generic arguments on
-- a dotted name.
pub record ParseError : Type 0 where
  pub span : Span
  pub want : Option Kind

-- `cur`, `peek` and what follows are the tokens.
pub record Parser : Type 0 where
  pub source : Bytes
  pub tokens : List Token
  pub stop : Token
  pub errs : List ParseError

abbrev pub head_or : Token → List Token → Token
head_or stop [] = stop
head_or stop (t ∷ ts) = t

abbrev pub cur : Parser → Token
cur p = head_or p.stop p.tokens

abbrev pub advance_tokens : Parser → Parser
advance_tokens p = record p { tokens = drop 1 p.tokens }

abbrev pub token_span : Token → Span
token_span t = record { start = t.pos; end = t.end }

abbrev pub add_error : Span → Option Kind → Parser → Parser
add_error span want p = record p { errs = p.errs ++ record { span = span; want = want } ∷ [] }

-- The tests of `cur.Kind`.
abbrev pub is_ident : Kind → Bool
is_ident ident = true
is_ident _ = false

abbrev pub is_dot : Kind → Bool
is_dot dot = true
is_dot _ = false

abbrev pub is_lbrack : Kind → Bool
is_lbrack lbrack = true
is_lbrack _ = false

abbrev pub is_rbrack : Kind → Bool
is_rbrack rbrack = true
is_rbrack _ = false

abbrev pub is_comma : Kind → Bool
is_comma comma = true
is_comma _ = false

abbrev pub is_question : Kind → Bool
is_question question = true
is_question _ = false

-- `expect(token.RBrack, …)`
unfoldable pub expect_rbrack : Parser → Token × Parser
expect_rbrack p =
    if is_rbrack (cur p).kind
    then (cur p, advance_tokens p)
    else (cur p, add_error (token_span (cur p)) (some rbrack) p)

pub record Ident : Type 0 where
  pub name : Bytes
  pub span : Span

-- `src[tok.Pos:tok.End]`
abbrev pub text_of : Bytes → Token → Bytes
text_of src t = take (t.end - t.pos) (drop t.pos src)

abbrev pub ident_of : Bytes → Token → Ident
ident_of src t = record { name = text_of src t; span = token_span t }

unfoldable pub parse_ident : Parser → Option Ident × Parser
parse_ident p =
    if is_ident (cur p).kind
    then (some (ident_of p.source (cur p)), advance_tokens p)
    else (none, add_error (token_span (cur p)) (some ident) p)

pub record DottedName : Type 0 where
  pub parts : List Ident
  pub span : Span

-- After an identifier, or where none was found.
abbrev pub with_part : (Parser → List Ident × Parser) → Option Ident × Parser → List Ident × Parser
with_part next (none, q) = ([], q)
with_part next (some i, q) = (i ∷ (next q).0, (next q).1)

-- The loop of `parseDottedName`, which takes a token in each turn. Without fuel no token is left.
unfoldable pub parse_parts : ℕ → Parser → List Ident × Parser
parse_parts zero p = ([], p)
parse_parts (suc fuel) p = elim (is_dot (cur p).kind) [
  | false ↦ ([], p)
  | true ↦ with_part (parse_parts fuel) (parse_ident (advance_tokens p))
]

abbrev pub last_end : Ident → List Ident → ℕ
last_end i [] = i.span.end
last_end i (j ∷ js) = last_end j js

abbrev pub dotted : Ident → List Ident → DottedName
dotted i more = record {
  parts = i ∷ more;
  span = record { start = i.span.start; end = last_end i more };
}

abbrev pub with_first : Option Ident × Parser → Option (Ident × List Ident) × Parser
with_first (none, q) = (none, q)
with_first (some i, q) =
    (some (i, (parse_parts (length q.tokens) q).0), (parse_parts (length q.tokens) q).1)

unfoldable pub parse_dotted_name : Parser → Option (Ident × List Ident) × Parser
unfolding parse_ident parse_parts
parse_dotted_name p = with_first (parse_ident p)

mutual
  pub data TypeExpr : Type 0 where
    named_type : DottedName → Span → TypeExpr
    generic_type : Ident → TypeExprs → Span → TypeExpr
    optional_type : TypeExpr → Span → TypeExpr

  pub data TypeExprs : Type 0 where
    no_types : TypeExprs
    more_types : TypeExpr → TypeExprs → TypeExprs

module _ {ℓ κ} {A : Type ℓ} {B : Type κ} where
  -- The parser goes on, unless its fuel has run out.
  abbrev pub go_further : Option A → (A → Option B) → Option B
  go_further none f = none
  go_further (some a) f = f a

-- After an argument, or where none was found.
abbrev pub with_arg :
    (Parser → Option (TypeExprs × Parser)) → Option TypeExpr × Parser → Option (TypeExprs × Parser)
with_arg next (none, q) = some (no_types, q)
with_arg next (some a, q) = go_further (next q) (λ s. some (more_types a s.0, s.1))

-- The loop over the arguments of a generic type.
unfoldable pub parse_args :
    (Parser → Option (Option TypeExpr × Parser)) → ℕ → Parser → Option (TypeExprs × Parser)
parse_args parse zero p = none
parse_args parse (suc fuel) p = elim (is_rbrack (cur p).kind || is_eof (cur p).kind) [
  | true ↦ some (no_types, p)
  | false ↦ elim (is_comma (cur p).kind) [
    | true ↦ parse_args parse fuel (advance_tokens p)
    | false ↦ go_further (parse p) (with_arg (parse_args parse fuel))
  ]
]

-- The check that precedes the arguments.
abbrev pub check_simple : Ident → List Ident → Parser → Parser
check_simple i [] p = p
check_simple i (j ∷ js) p = add_error (dotted i (j ∷ js)).span none p

-- `Optional suffix`
abbrev pub with_question : ℕ → TypeExpr × Parser → Option TypeExpr × Parser
with_question start r =
    if is_question (cur r.1).kind
    then (
      some (optional_type r.0 (record { start = start; end = (cur r.1).end })),
      advance_tokens r.1,
    )
    else (some r.0, r.1)

abbrev pub close_generic : Ident → TypeExprs × Parser → TypeExpr × Parser
close_generic i r =
    let (end_tok, q) = expect_rbrack r.1 in
    (generic_type i r.0 (record { start = i.span.start; end = end_tok.end }), q)

abbrev pub finish_generic : Ident → TypeExprs × Parser → Option TypeExpr × Parser
finish_generic i r = with_question i.span.start (close_generic i r)

abbrev pub finish_named : Ident → List Ident → Parser → Option TypeExpr × Parser
finish_named i more q =
    with_question i.span.start (named_type (dotted i more) (dotted i more).span, q)

-- What stands inside the brackets.
abbrev pub inside_brackets : Ident → List Ident → Parser → Parser
inside_brackets i more q = advance_tokens (check_simple i more q)

abbrev pub with_name :
    (Parser → Option (Option TypeExpr × Parser))
    → Option (Ident × List Ident) × Parser
    → Option (Option TypeExpr × Parser)
with_name parse (none, q) = some (none, q)
with_name parse (some (i, more), q) = elim (is_lbrack (cur q).kind) [
  | true ↦
      go_further
        (parse_args parse (suc (length (inside_brackets i more q).tokens))
          (inside_brackets i more q))
        (λ r. some (finish_generic i r))
  | false ↦ some (finish_named i more q)
]

-- `parseTypeExpr`; `none` means that the fuel ran out. The arguments are parsed with one unit less.
unfoldable pub parse_type_expr : ℕ → Parser → Option (Option TypeExpr × Parser)
unfolding parse_dotted_name parse_args expect_rbrack
parse_type_expr zero p = none
parse_type_expr (suc fuel) p = with_name (parse_type_expr fuel) (parse_dotted_name p)

-- With fuel for all tokens.
unfoldable pub parse_type : Parser → Option (Option TypeExpr × Parser)
unfolding parse_type_expr
parse_type p = parse_type_expr (suc (length p.tokens)) p
