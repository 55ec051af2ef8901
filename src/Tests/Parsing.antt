-- ===== src/Tests/Parsing.antt =====
-- internal/lang/parse/types.go: `map[k, a.b?]?` and a type that lacks its bracket.
use scampi.Base.{◌≡◌, refl, Option, some, List, [], ◌∷◌, Bytes, ◌<◌, length}
use scampi.Lang.Token.{Token, eof, ident, dot, lbrack, rbrack, comma, question}
use scampi.Lang.Parse.{
  Parser, TypeExpr, no_types, more_types, named_type, generic_type, optional_type, Ident, dotted,
  parse_type,
}
use scampi.Lang.Parse.Grammar.{
  last, further_part, plain, questioned, name, generic, one_arg, more_args,
}
use scampi.Lang.Parse.Accepts.{parse_type-SpellsType}
use scampi.Lang.Parse.Ends.{parse_type_total}

-- `map[k,a.b?]?`
abbrev text : Bytes
text = 109 ∷ 97 ∷ 112 ∷ 91 ∷ 107 ∷ 44 ∷ 97 ∷ 46 ∷ 98 ∷ 63 ∷ 93 ∷ 63 ∷ []

abbrev ending : Token
ending = record { kind = eof; pos = 12; end = 12 }

abbrev map_name : Token
map_name = record { kind = ident; pos = 0; end = 3 }

abbrev key_name : Token
key_name = record { kind = ident; pos = 4; end = 5 }

abbrev value_tokens : List Token
value_tokens =
    record { kind = ident; pos = 6; end = 7 }
    ∷ record { kind = dot; pos = 7; end = 8 }
    ∷ record { kind = ident; pos = 8; end = 9 }
    ∷ record { kind = question; pos = 9; end = 10 }
    ∷ []

abbrev unclosed : List Token
unclosed =
    map_name
    ∷ record { kind = lbrack; pos = 3; end = 4 }
    ∷ key_name
    ∷ record { kind = comma; pos = 5; end = 6 }
    ∷ value_tokens

abbrev closed : List Token
closed =
    map_name
    ∷ record { kind = lbrack; pos = 3; end = 4 }
    ∷ key_name
    ∷ record { kind = comma; pos = 5; end = 6 }
    ∷ record { kind = ident; pos = 6; end = 7 }
    ∷ record { kind = dot; pos = 7; end = 8 }
    ∷ record { kind = ident; pos = 8; end = 9 }
    ∷ record { kind = question; pos = 9; end = 10 }
    ∷ record { kind = rbrack; pos = 10; end = 11 }
    ∷ record { kind = question; pos = 11; end = 12 }
    ∷ []

abbrev parser_of : List Token → Parser
parser_of ts = record { source = text; tokens = ts; stop = ending; errs = [] }

abbrev first_ident : Ident
first_ident = record { name = 97 ∷ []; span = record { start = 6; end = 7 } }

abbrev second_ident : Ident
second_ident = record { name = 98 ∷ []; span = record { start = 8; end = 9 } }

abbrev key_ident : Ident
key_ident = record { name = 107 ∷ []; span = record { start = 4; end = 5 } }

abbrev map_ident : Ident
map_ident = record { name = 109 ∷ 97 ∷ 112 ∷ []; span = record { start = 0; end = 3 } }

abbrev key_type : TypeExpr
key_type = named_type (dotted key_ident []) (record { start = 4; end = 5 })

abbrev value_type : TypeExpr
value_type =
    optional_type
      (named_type (dotted first_ident (second_ident ∷ [])) (record { start = 6; end = 9 }))
      (record { start = 6; end = 10 })

abbrev map_type : TypeExpr
map_type =
    optional_type
      (generic_type map_ident (more_types key_type (more_types value_type no_types))
        (record { start = 0; end = 11 }))
      (record { start = 0; end = 12 })

closed_test : parse_type (parser_of closed) ≡ some (some map_type, parser_of [])
unfolding parse_type
closed_test = refl

parse_type-SpellsType_example : parse_type (parser_of closed) ≡ some (some map_type, parser_of [])
parse_type-SpellsType_example = parse_type-SpellsType (parser_of closed) [] map_type refl (
    questioned
      (generic refl refl
        (more_args (plain (name refl (last refl) refl) refl) refl
          (one_arg (questioned (name refl (further_part refl refl (last refl)) refl) refl) refl))
        refl)
      refl)

parse_type_total_example :
    (o : Option TypeExpr) × (q : Parser) × (parse_type (parser_of unclosed) ≡ some (o, q))
    × ((t : TypeExpr) → o ≡ some t → length q.tokens < length unclosed)
parse_type_total_example = parse_type_total (parser_of unclosed) refl
