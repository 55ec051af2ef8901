-- ===== src/Lang/Parse/Ends.antt =====
-- The type parser ends: its fuel is enough, and a type that it returns took a token.
use scampi.Base.{
  ℕ, zero, suc, ◌≤◌, ◌<◌, ◌≡◌, refl, ap, ◌∙◌, inl, inr, true, false, ◌||◌, Option, none, some, List,
  [], ◌∷◌, length, length-drop, arith, Bool-cases, List-cases,
}
use scampi.Lang.Token.{Kind, is_eof}
use scampi.Lang.Parse.{
  Parser, Ident, TypeExpr, TypeExprs, more_types, named_type, cur, advance_tokens, is_ident, is_dot,
  is_lbrack, is_rbrack, is_comma, is_question, expect_rbrack, parse_ident, with_part, with_first,
  with_arg, with_name, finish_generic, inside_brackets, parse_parts, parse_dotted_name, dotted,
  go_further, parse_args, check_simple, with_question, close_generic, parse_type_expr, parse_type,
}

-- `q` has no more tokens left than `p`, and the same lexer's end.
pub record Follows (p q : Parser) : Type 0 where
  pub shorter : length q.tokens ≤ length p.tokens
  pub same_stop : q.stop ≡ p.stop

Follows-refl : (p : Parser) → Follows p p
Follows-refl p = record { shorter = omega arith; same_stop = refl }

Follows-trans : (p q r : Parser) → Follows p q → Follows q r → Follows p r
Follows-trans p q r f g = record {
  shorter = omega (arith, f.shorter, g.shorter);
  same_stop = g.same_stop ∙ f.same_stop;
}

advance_tokens-Follows : (p : Parser) → Follows p (advance_tokens p)
advance_tokens-Follows p = record {
  shorter = omega (arith, length-drop 1 p.tokens);
  same_stop = refl;
}

advance_tokens-lt :
    (p : Parser)
    → is_eof p.stop.kind ≡ true
    → is_eof (cur p).kind ≡ false
    → length (advance_tokens p).tokens < length p.tokens
advance_tokens-lt p ends here = elim (List-cases p.tokens) [
  | inl e ↦ absurd (ground arith)
  | inr (t, ts, e) ↦ omega (arith, length-drop 1 p.tokens, ap length e)
]

parse_ident-Follows : (p : Parser) → Follows p (parse_ident p).1
unfolding parse_ident
parse_ident-Follows p = elim (Bool-cases (is_ident (cur p).kind)) [
  | inl e ↦ rw (e) (advance_tokens-Follows p)
  | inr e ↦ rw (e) record { shorter = omega arith; same_stop = refl }
]

is_ident-is_eof : (k : Kind) → is_ident k ≡ true → is_eof k ≡ false
is_ident-is_eof k h = ground arith

parse_ident-lt :
    (p : Parser) (i : Ident)
    → is_eof p.stop.kind ≡ true
    → (parse_ident p).0 ≡ some i
    → length (parse_ident p).1.tokens < length p.tokens
unfolding parse_ident
parse_ident-lt p i ends h = elim (Bool-cases (is_ident (cur p).kind)) [
  | inl e ↦ rw (e) (advance_tokens-lt p ends (is_ident-is_eof (cur p).kind e))
  | inr e ↦ absurd (ground arith)
]

with_part-Follows :
    (next : Parser → List Ident × Parser) (r : Option Ident × Parser)
    → ((q : Parser) → Follows q (next q).1)
    → Follows r.1 (with_part next r).1
with_part-Follows next (none, q) good = Follows-refl q
with_part-Follows next (some i, q) good = good q

parse_parts-Follows : (fuel : ℕ) (p : Parser) → Follows p (parse_parts fuel p).1
unfolding parse_parts
parse_parts-Follows zero p = Follows-refl p
parse_parts-Follows (suc fuel) p = elim (Bool-cases (is_dot (cur p).kind)) [
  | inr e ↦ rw (parse_parts, e) (Follows-refl p)
  | inl e ↦
      let a = advance_tokens p in
      rw (parse_parts, e)
        (Follows-trans p a (with_part (parse_parts fuel) (parse_ident a)).1
          (advance_tokens-Follows p)
          (Follows-trans a (parse_ident a).1 (with_part (parse_parts fuel) (parse_ident a)).1
            (parse_ident-Follows a)
            (with_part-Follows (parse_parts fuel) (parse_ident a) (parse_parts-Follows fuel))))
]

-- A name takes a token.
abbrev Names : Parser → Option (Ident × List Ident) × Parser → Type 0
Names p (none, q) = Follows p q
Names p (some x, q) = Follows p q × (length q.tokens < length p.tokens)

with_first-Names :
    (p : Parser) (r : Option Ident × Parser)
    → Follows p r.1
    → ((i : Ident) → r.0 ≡ some i → length r.1.tokens < length p.tokens)
    → Names p (with_first r)
with_first-Names p (none, q) f lt = f
with_first-Names p (some i, q) f lt =
    let g = parse_parts-Follows (length q.tokens) q in
    (Follows-trans p q _ f g, omega (arith, lt i refl, g.shorter))

parse_dotted_name-Names : (p : Parser) → is_eof p.stop.kind ≡ true → Names p (parse_dotted_name p)
unfolding parse_dotted_name
parse_dotted_name-Names p ends =
    with_first-Names p (parse_ident p) (parse_ident-Follows p) (λ i e. parse_ident-lt p i ends e)

-- What a call of the type parser returns.
abbrev pub Taken : Parser → Option TypeExpr × Parser → Type 0
Taken p (none, q) = Follows p q
Taken p (some t, q) = Follows p q × (length q.tokens < length p.tokens)

abbrev pub Returns : Parser → Option (Option TypeExpr × Parser) → Type 0
Returns p none = ⊥
Returns p (some r) = Taken p r

abbrev ReturnsArgs : Parser → Option (TypeExprs × Parser) → Type 0
ReturnsArgs p none = ⊥
ReturnsArgs p (some r) = Follows p r.1

ReturnsArgs-after :
    (p q : Parser) (o : Option (TypeExprs × Parser))
    → Follows p q
    → ReturnsArgs q o
    → ReturnsArgs p o
ReturnsArgs-after p q none f a = a
ReturnsArgs-after p q (some r) f a = Follows-trans p q r.1 f a

ReturnsArgs-cons :
    (p : Parser) (t : TypeExpr) (o : Option (TypeExprs × Parser))
    → ReturnsArgs p o
    → ReturnsArgs p (go_further o (λ s. some (more_types t s.0, s.1)))
ReturnsArgs-cons p t none a = a
ReturnsArgs-cons p t (some r) a = a

-- After a call of the type parser, the loop over the arguments goes on with fewer tokens.
with_arg-ReturnsArgs :
    (p : Parser) (next : Parser → Option (TypeExprs × Parser))
    (o : Option (Option TypeExpr × Parser))
    → Returns p o
    → ((q : Parser) → Follows p q → length q.tokens < length p.tokens → ReturnsArgs q (next q))
    → ReturnsArgs p (go_further o (with_arg next))
with_arg-ReturnsArgs p next none a good = a
with_arg-ReturnsArgs p next (some (none, q)) a good = a
with_arg-ReturnsArgs p next (some (some t, q)) a good =
    ReturnsArgs-after p q (go_further (next q) (λ s. some (more_types t s.0, s.1))) a.0
      (ReturnsArgs-cons q t (next q) (good q a.0 a.1))

module _ (parse : Parser → Option (Option TypeExpr × Parser)) (room : ℕ)
    (good : (p : Parser)
      → is_eof p.stop.kind ≡ true
      → length p.tokens < room
      → Returns p (parse p)) where
  parse_args-ReturnsArgs :
      (fuel : ℕ) (p : Parser)
      → is_eof p.stop.kind ≡ true
      → length p.tokens < room
      → length p.tokens < fuel
      → ReturnsArgs p (parse_args parse fuel p)
  unfolding parse_args
  parse_args-ReturnsArgs zero p ends low h = absurd (omega arith)
  parse_args-ReturnsArgs (suc fuel) p ends low h =
      elim (Bool-cases (is_rbrack (cur p).kind || is_eof (cur p).kind)) [
        | inl e ↦ rw (ReturnsArgs, e) (Follows-refl p)
        | inr e ↦ elim (Bool-cases (is_comma (cur p).kind)) [
          | inl c ↦
              let a = advance_tokens p in
              let less = advance_tokens-lt p ends (ground arith) in
              rw (ReturnsArgs, e, c)
                (ReturnsArgs-after p a (parse_args parse fuel a) (advance_tokens-Follows p)
                  (parse_args-ReturnsArgs fuel a ends (omega (arith, less)) (omega (arith, less))))
          | inr c ↦
              rw (ReturnsArgs, e, c)
                (with_arg-ReturnsArgs p (parse_args parse fuel) (parse p) (good p ends low)
                  (λ q f lt.
                    parse_args-ReturnsArgs fuel q (rw (f.same_stop) ends) (omega (arith, lt))
                      (omega (arith, lt))))
        ]
      ]

expect_rbrack-Follows : (p : Parser) → Follows p (expect_rbrack p).1
unfolding expect_rbrack
expect_rbrack-Follows p = elim (Bool-cases (is_rbrack (cur p).kind)) [
  | inl e ↦ rw (e) (advance_tokens-Follows p)
  | inr e ↦ rw (e) record { shorter = omega arith; same_stop = refl }
]

check_simple-Follows :
    (i : Ident) (more : List Ident) (q : Parser) → Follows q (check_simple i more q)
check_simple-Follows i [] q = Follows-refl q
check_simple-Follows i (j ∷ js) q = record { shorter = omega arith; same_stop = refl }

with_question-Taken :
    (p : Parser) (start : ℕ) (r : TypeExpr × Parser)
    → Follows p r.1
    → length r.1.tokens < length p.tokens
    → Taken p (with_question start r)
with_question-Taken p start r f lt = elim (Bool-cases (is_question (cur r.1).kind)) [
  | inr e ↦ rw (Taken, e) (f, lt)
  | inl e ↦
      let g = advance_tokens-Follows r.1 in
      rw (Taken, e) (Follows-trans p r.1 _ f g, omega (arith, lt, g.shorter))
]

finish_generic-Returns :
    (p q : Parser) (i : Ident) (o : Option (TypeExprs × Parser))
    → Follows p q
    → length q.tokens < length p.tokens
    → ReturnsArgs q o
    → Returns p (go_further o (λ r. some (finish_generic i r)))
finish_generic-Returns p q i none f lt a = a
finish_generic-Returns p q i (some r) f lt a =
    let e = expect_rbrack-Follows r.1 in
    with_question-Taken p i.span.start (close_generic i r)
      (Follows-trans p q _ f (Follows-trans q r.1 _ a e)) (omega (arith, lt, a.shorter, e.shorter))

with_name-Returns :
    (p : Parser) (parse : Parser → Option (Option TypeExpr × Parser))
    (r : Option (Ident × List Ident) × Parser)
    → is_eof p.stop.kind ≡ true
    → ((q : Parser)
        → is_eof q.stop.kind ≡ true
        → length q.tokens < length p.tokens
        → Returns q (parse q))
    → Names p r
    → Returns p (with_name parse r)
with_name-Returns p parse (none, q) ends good n = n
with_name-Returns p parse (some (i, more), q) ends good n =
    elim (Bool-cases (is_lbrack (cur q).kind)) [
      | inr e ↦
          rw (Returns, e)
            (with_question-Taken p i.span.start (named_type (dotted i more) (dotted i more).span, q)
              n.0 n.1)
      | inl e ↦
          let c = check_simple i more q in
          let a = inside_brackets i more q in
          let to_c = check_simple-Follows i more q in
          let f = Follows-trans q c a to_c (advance_tokens-Follows c) in
          let to_a = Follows-trans p q a n.0 f in
          let less : length a.tokens < length p.tokens = omega (arith, n.1, f.shorter) in
          rw (Returns, e)
            (finish_generic-Returns p a i (parse_args parse (suc (length a.tokens)) a) to_a less (
              parse_args-ReturnsArgs parse (length p.tokens) good (suc (length a.tokens)) a
                (rw (to_a.same_stop) ends) less (omega arith)))
    ]

pub parse_type_expr-Returns :
    (fuel : ℕ) (p : Parser)
    → is_eof p.stop.kind ≡ true
    → length p.tokens < fuel
    → Returns p (parse_type_expr fuel p)
unfolding parse_type_expr
parse_type_expr-Returns zero p ends h = absurd (omega arith)
parse_type_expr-Returns (suc fuel) p ends h =
    with_name-Returns p (parse_type_expr fuel) (parse_dotted_name p) ends
      (λ q e lt. parse_type_expr-Returns fuel q e (omega (arith, lt)))
      (parse_dotted_name-Names p ends)

-- Where the lexer ends with an end-of-file token, the parser of type expressions returns on any tokens,
-- and it has taken a token if it returns a type.
pub parse_type_total :
    (p : Parser)
    → is_eof p.stop.kind ≡ true
    → (o : Option TypeExpr) × (q : Parser) × (parse_type p ≡ some (o, q))
      × ((t : TypeExpr) → o ≡ some t → length q.tokens < length p.tokens)
unfolding parse_type
parse_type_total p ends =
    unpack (parse_type_expr (suc (length p.tokens)) p)
      (parse_type_expr-Returns (suc (length p.tokens)) p ends (omega arith))
  where
    unpack :
        (r : Option (Option TypeExpr × Parser))
        → Returns p r
        → (o : Option TypeExpr) × (q : Parser) × (r ≡ some (o, q))
          × ((t : TypeExpr) → o ≡ some t → length q.tokens < length p.tokens)
    unpack none a = absurd a
    unpack (some (none, q)) a = (none, q, refl, λ t e. cc)
    unpack (some (some t, q)) a = (some t, q, refl, λ u e. a.1)
