-- ===== src/Tests/Positions.antt =====
-- internal/lang/token/pos.go: positions in `a`, a line end, `é` in two bytes, `b`.
use scampi.Base.{◌≡◌, refl, true, [], ◌∷◌, Bytes, arith}
use scampi.Lang.Parse.{Span}
use scampi.Lang.Position.{resolve, resolve_span, more_bytes}
use scampi.Lang.Position.Spans.{is_boundary, resolve_span-resolve}

abbrev two_lines : Bytes
two_lines = 97 ∷ 10 ∷ 195 ∷ 169 ∷ 98 ∷ []

abbrev accent : Span
accent = record { start = 2; end = 9 }

accent_start : resolve two_lines 4 ≡ record { line = 2; col = 2; offset = 4 }
unfolding resolve more_bytes
accent_start = refl

past_the_end : resolve two_lines 9 ≡ record { line = 2; col = 3; offset = 5 }
unfolding resolve more_bytes
past_the_end = refl

-- From the middle of a rune, `ResolveSpan` counts one column more than `Resolve`.
inside_rune :
    (resolve_span two_lines (record { start = 3; end = 5 })).1
    ≡ record { line = 2; col = 4; offset = 5 }
unfolding resolve_span resolve more_bytes
inside_rune = refl

accent_start-is_boundary : is_boundary 0 2 two_lines ≡ true
unfolding more_bytes
accent_start-is_boundary = refl

resolve_span-resolve_example :
    resolve_span two_lines accent
    ≡ (resolve two_lines 2, record (resolve two_lines 9) { offset = 9 })
resolve_span-resolve_example =
    resolve_span-resolve two_lines accent (omega arith) accent_start-is_boundary
