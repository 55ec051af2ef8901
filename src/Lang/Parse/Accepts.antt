-- ===== src/Lang/Parse/Accepts.antt =====
-- The type parser accepts what the grammar allows, and returns the type that it spells.
use scampi.Base.{
  ℕ, zero, suc, ◌≤◌, ◌<◌, ◌≡◌, refl, subst, true, false, ◌||◌, Option, some, List, ◌∷◌, length,
  arith,
}
use scampi.Lang.Token.{Kind, Token, is_eof}
use scampi.Lang.Parse.{
  Parser, Ident, TypeExpr, TypeExprs, no_types, more_types, head_or, ident_of, is_ident, is_dot,
  is_lbrack, is_rbrack, is_comma, expect_rbrack, parse_ident, with_name, parse_parts,
  parse_dotted_name, go_further, parse_args, with_question, parse_type_expr, parse_type,
}
use scampi.Lang.Parse.Grammar.{
  SpellsParts, last, further_part, SpellsType, plain, questioned, SpellsPlain, name, generic,
  SpellsArgs, no_args, one_arg, more_args,
}
use scampi.Lang.Parse.Ends.{Returns, parse_type_expr-Returns}

module _ (p : Parser) where
  -- The parser at other tokens.
  abbrev pub at : List Token → Parser
  at ts = record p { tokens = ts }

  parse_ident-at :
      (t : Token) (ts : List Token)
      → is_ident t.kind ≡ true
      → parse_ident (at (t ∷ ts)) ≡ (some (ident_of p.source t), at ts)
  unfolding parse_ident
  parse_ident-at t ts e = rw (e) refl

  parse_parts-SpellsParts :
      (fuel : ℕ) {ts rest : List Token} {more : List Ident}
      → SpellsParts p.source p.stop ts rest more
      → length ts ≤ fuel
      → parse_parts fuel (at ts) ≡ (more, at rest)
  unfolding parse_parts
  parse_parts-SpellsParts zero (last e) h = refl
  parse_parts-SpellsParts (suc fuel) (last e) h = rw (e) refl
  parse_parts-SpellsParts zero (further_part d i s) h = absurd (omega (arith, h))
  parse_parts-SpellsParts (suc fuel) (further_part {t} {ts} d i s) h =
      rw (d, parse_ident-at t ts i, parse_parts-SpellsParts fuel s (omega (arith, h))) refl

  parse_dotted_name-SpellsParts :
      (n : Token) (ts : List Token) {rest : List Token} {more : List Ident}
      → is_ident n.kind ≡ true
      → SpellsParts p.source p.stop ts rest more
      → parse_dotted_name (at (n ∷ ts)) ≡ (some (ident_of p.source n, more), at rest)
  unfolding parse_dotted_name
  parse_dotted_name-SpellsParts n ts i s =
      rw (parse_ident-at n ts i, parse_parts-SpellsParts (length ts) s (omega arith)) refl

  expect_rbrack-at :
      (r : Token) (rest : List Token)
      → is_rbrack r.kind ≡ true
      → expect_rbrack (at (r ∷ rest)) ≡ (r, at rest)
  unfolding expect_rbrack
  expect_rbrack-at r rest e = rw (e) refl

  SpellsPlain-head :
      {start : ℕ} {ts rest : List Token} {t : TypeExpr}
      → SpellsPlain p.source p.stop start ts rest t
      → is_ident (head_or p.stop ts).kind ≡ true
  SpellsPlain-head (name i s l) = i
  SpellsPlain-head (generic i l s r) = i

  SpellsType-head :
      {ts rest : List Token} {t : TypeExpr}
      → SpellsType p.source p.stop ts rest t
      → is_ident (head_or p.stop ts).kind ≡ true
  SpellsType-head (plain s e) = SpellsPlain-head s
  SpellsType-head (questioned s e) = SpellsPlain-head s

  is_ident-is_other :
      (k : Kind) → is_ident k ≡ true → ((is_rbrack k || is_eof k) ≡ false) × (is_comma k ≡ false)
  is_ident-is_other k e = (ground arith, ground arith)

  is_comma-is_other : (k : Kind) → is_comma k ≡ true → (is_rbrack k || is_eof k) ≡ false
  is_comma-is_other k e = ground arith

  is_lbrack-is_dot : (k : Kind) → is_lbrack k ≡ true → is_dot k ≡ false
  is_lbrack-is_dot k e = ground arith

  module _ (parse : Parser → Option (Option TypeExpr × Parser)) (room : ℕ)
      (good : (ts rest : List Token) (t : TypeExpr)
        → SpellsType p.source p.stop ts rest t
        → length ts < room
        → (parse (at ts) ≡ some (some t, at rest)) × (length rest < length ts)) where
    parse_args_stop :
        (fuel : ℕ) (r : Token) (rest : List Token)
        → is_rbrack r.kind ≡ true
        → parse_args parse (suc fuel) (at (r ∷ rest)) ≡ some (no_types, at (r ∷ rest))
    unfolding parse_args
    parse_args_stop fuel r rest e = rw (e) refl

    parse_args_comma :
        (fuel : ℕ) (c : Token) (us : List Token)
        → is_comma c.kind ≡ true
        → parse_args parse (suc fuel) (at (c ∷ us)) ≡ parse_args parse fuel (at us)
    unfolding parse_args
    parse_args_comma fuel c us e = rw (is_comma-is_other c.kind e, e) refl

    parse_args_type :
        (fuel : ℕ) (ts rest : List Token) (t : TypeExpr)
        → SpellsType p.source p.stop ts rest t
        → length ts < room
        → parse_args parse (suc fuel) (at ts)
          ≡ go_further (parse_args parse fuel (at rest)) (λ s. some (more_types t s.0, s.1))
    unfolding parse_args
    parse_args_type fuel ts rest t s low =
        let o = is_ident-is_other (head_or p.stop ts).kind (SpellsType-head s) in
        rw (o.0, o.1, (good ts rest t s low).0) refl

    parse_args-SpellsArgs :
        (fuel : ℕ) (ts : List Token) {rest : List Token} {args : TypeExprs}
        → SpellsArgs p.source p.stop ts rest args
        → length ts < room
        → length ts < fuel
        → parse_args parse fuel (at ts) ≡ some (args, at rest)
    parse_args-SpellsArgs zero ts s low h = absurd (omega (arith, h))
    parse_args-SpellsArgs (suc fuel) ts (no_args {r} {rest} e) low h = parse_args_stop fuel r rest e
    parse_args-SpellsArgs (suc zero) ts (one_arg {r} {rest = rest} {t = t} s e) low h =
        absurd (omega (arith, h, (good ts (r ∷ rest) t s low).1))
    parse_args-SpellsArgs (suc (suc fuel)) ts (one_arg {r} {rest = rest} {t = t} s e) low h =
        rw (parse_args_type (suc fuel) ts (r ∷ rest) t s low, parse_args_stop fuel r rest e) refl
    parse_args-SpellsArgs (suc zero) ts (more_args {c} {us = us} {t = t} s e a) low h =
        absurd (omega (arith, h, (good ts (c ∷ us) t s low).1))
    parse_args-SpellsArgs (suc (suc fuel)) ts (more_args {c} {us = us} {t = t} s e a) low h =
        let lt = (good ts (c ∷ us) t s low).1 in
        rw
          (
            parse_args_type (suc fuel) ts (c ∷ us) t s low,
            parse_args_comma fuel c us e,
            parse_args-SpellsArgs fuel us a (omega (arith, lt, low)) (omega (arith, lt, h)),
          )
          refl

    with_name-SpellsPlain :
        (start : ℕ) (ts rest : List Token) (t : TypeExpr)
        → SpellsPlain p.source p.stop start ts rest t
        → length ts ≤ room
        → with_name parse (parse_dotted_name (at ts)) ≡ some (with_question start (t, at rest))
    with_name-SpellsPlain start ts rest t (name {n} {ts = us} i s l) low =
        rw (parse_dotted_name-SpellsParts n us i s, l) refl
    with_name-SpellsPlain start ts rest t (generic {n} {l} {r} {ts = us} i b s e) low =
        rw
          (
            parse_dotted_name-SpellsParts n (l ∷ us) i (last (is_lbrack-is_dot l.kind b)),
            b,
            parse_args-SpellsArgs (suc (length us)) us s (omega (arith, low)) (omega arith),
            expect_rbrack-at r rest e,
          )
          refl

    with_name-SpellsType :
        (ts rest : List Token) (t : TypeExpr)
        → SpellsType p.source p.stop ts rest t
        → length ts ≤ room
        → with_name parse (parse_dotted_name (at ts)) ≡ some (some t, at rest)
    with_name-SpellsType ts rest t (plain {start} s e) low =
        rw (with_name-SpellsPlain start ts rest t s low, e) refl
    with_name-SpellsType ts rest t (questioned {start} {q} {t = u} s e) low =
        rw (with_name-SpellsPlain start ts (q ∷ rest) u s low, e) refl

  parse_type_expr-SpellsType :
      (fuel : ℕ) (ts rest : List Token) (t : TypeExpr)
      → is_eof p.stop.kind ≡ true
      → SpellsType p.source p.stop ts rest t
      → length ts < fuel
      → parse_type_expr fuel (at ts) ≡ some (some t, at rest)
  unfolding parse_type_expr
  parse_type_expr-SpellsType zero ts rest t ends s h = absurd (omega (arith, h))
  parse_type_expr-SpellsType (suc fuel) ts rest t ends s h =
      with_name-SpellsType (parse_type_expr fuel) fuel
        (λ us rest u r low.
          let e = parse_type_expr-SpellsType fuel us rest u ends r low in
          (e, (subst (Returns (at us)) e (parse_type_expr-Returns fuel (at us) ends low)).1))
        ts rest t s (omega (arith, h))

-- Where the lexer ends with an end-of-file token and the grammar of type expressions reads the tokens of the
-- parser as the type `t`, up to the tokens `rest`, the parser returns `t`, reports no error and stands before
-- `rest`. The grammar has dotted names, `?`, and arguments in brackets with single commas between them.
pub parse_type-SpellsType :
    (p : Parser) (rest : List Token) (t : TypeExpr)
    → is_eof p.stop.kind ≡ true
    → SpellsType p.source p.stop p.tokens rest t
    → parse_type p ≡ some (some t, record p { tokens = rest })
unfolding parse_type
parse_type-SpellsType p rest t ends s =
    parse_type_expr-SpellsType p (suc (length p.tokens)) p.tokens rest t ends s (omega arith)
