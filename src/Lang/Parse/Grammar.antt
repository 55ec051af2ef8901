-- ===== src/Lang/Parse/Grammar.antt =====
-- The grammar of type expressions, as relations between the tokens before and after one.
use scampi.Base.{ℕ, ◌≡◌, true, false, List, [], ◌∷◌, Bytes}
use scampi.Lang.Token.{Token}
use scampi.Lang.Parse.{
  Ident, TypeExpr, TypeExprs, no_types, more_types, named_type, generic_type, optional_type,
  head_or, is_ident, is_dot, is_lbrack, is_rbrack, is_comma, is_question, ident_of, dotted,
}

-- `.name.name`, up to a token that is no dot.
pub data SpellsParts (src : Bytes) (stop : Token)
    : List Token → List Token → List Ident → Type 0 where
  last :
      {rest : List Token}
      → is_dot (head_or stop rest).kind ≡ false
      → SpellsParts src stop rest rest []
  further_part :
      {d t : Token} {ts rest : List Token} {more : List Ident}
      → is_dot d.kind ≡ true
      → is_ident t.kind ≡ true
      → SpellsParts src stop ts rest more
      → SpellsParts src stop (d ∷ t ∷ ts) rest (ident_of src t ∷ more)

mutual
  -- A type, with or without `?`.
  pub data SpellsType (src : Bytes) (stop : Token)
      : List Token → List Token → TypeExpr → Type 0 where
    plain :
        {start : ℕ} {ts rest : List Token} {t : TypeExpr}
        → SpellsPlain src stop start ts rest t
        → is_question (head_or stop rest).kind ≡ false
        → SpellsType src stop ts rest t
    questioned :
        {start : ℕ} {q : Token} {ts rest : List Token} {t : TypeExpr}
        → SpellsPlain src stop start ts (q ∷ rest) t
        → is_question q.kind ≡ true
        → SpellsType src stop ts rest (optional_type t (record { start = start; end = q.end }))

  -- A name, or a name with arguments in brackets; a type starts at `start`.
  pub data SpellsPlain (src : Bytes) (stop : Token)
      : ℕ → List Token → List Token → TypeExpr → Type 0 where
    name :
        {n : Token} {ts rest : List Token} {more : List Ident}
        → is_ident n.kind ≡ true
        → SpellsParts src stop ts rest more
        → is_lbrack (head_or stop rest).kind ≡ false
        → SpellsPlain src stop n.pos
            (n ∷ ts)
            rest
            (named_type (dotted (ident_of src n) more) (dotted (ident_of src n) more).span)
    generic :
        {n l r : Token} {ts rest : List Token} {args : TypeExprs}
        → is_ident n.kind ≡ true
        → is_lbrack l.kind ≡ true
        → SpellsArgs src stop ts (r ∷ rest) args
        → is_rbrack r.kind ≡ true
        → SpellsPlain src stop n.pos
            (n ∷ l ∷ ts)
            rest
            (generic_type (ident_of src n) args (record { start = n.pos; end = r.end }))

  -- Types with commas between them, and perhaps one behind the last, up to the bracket.
  pub data SpellsArgs (src : Bytes) (stop : Token)
      : List Token → List Token → TypeExprs → Type 0 where
    no_args :
        {r : Token} {rest : List Token}
        → is_rbrack r.kind ≡ true
        → SpellsArgs src stop (r ∷ rest) (r ∷ rest) no_types
    one_arg :
        {r : Token} {ts rest : List Token} {t : TypeExpr}
        → SpellsType src stop ts (r ∷ rest) t
        → is_rbrack r.kind ≡ true
        → SpellsArgs src stop ts (r ∷ rest) (more_types t no_types)
    more_args :
        {c : Token} {ts us rest : List Token} {t : TypeExpr} {args : TypeExprs}
        → SpellsType src stop ts (c ∷ us) t
        → is_comma c.kind ≡ true
        → SpellsArgs src stop us rest args
        → SpellsArgs src stop ts rest (more_types t args)
