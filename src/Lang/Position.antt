-- ===== src/Lang/Position.antt =====
-- internal/lang/token/pos.go: byte offsets as lines and columns. A loop over the offsets `i` runs down the source
-- that is left, `source[i:]`, with the number of bytes up to its end; in the loops that step by runes,
-- `skip` bytes of the last rune are still to be passed.
pub mod Scans
pub mod Spans
use scampi.Base.{
  ℕ, zero, suc, ◌+◌, ◌-◌, Bool, true, false, ◌&&◌, List, [], ◌∷◌, Bytes, ◌==◌, ltb, leb,
  if◌then◌else◌, length, drop,
}
use scampi.Lang.Parse.{Span}

pub record Pos : Type 0 where
  pub line : ℕ
  pub col : ℕ
  pub offset : ℕ

abbrev pub starts : ℕ → ℕ → Bytes → Bool
starts low high [] = false
starts low high (c ∷ s) = leb low c && leb c high

-- The bounds of the second byte of a rune, by its first.
abbrev pub low_three : ℕ → ℕ
low_three c = if c == 224 then 160 else 128

abbrev pub high_three : ℕ → ℕ
high_three c = if c == 237 then 159 else 191

abbrev pub low_four : ℕ → ℕ
low_four c = if c == 240 then 144 else 128

abbrev pub high_four : ℕ → ℕ
high_four c = if c == 244 then 143 else 191

abbrev pub two_bytes : Bytes → ℕ
two_bytes s = if starts 128 191 s then 1 else 0

abbrev pub three_bytes : ℕ → Bytes → ℕ
three_bytes c s =
    if starts (low_three c) (high_three c) s && starts 128 191 (drop 1 s) then 2 else 0

abbrev pub four_bytes : ℕ → Bytes → ℕ
four_bytes c s =
    if starts (low_four c) (high_four c) s && starts 128 191 (drop 1 s) && starts 128 191 (drop 2 s)
    then 3
    else 0

-- One less than the size of `utf8.DecodeRune`, for a source that begins with `c`.
unfoldable pub more_bytes : ℕ → Bytes → ℕ
more_bytes c s =
    if ltb c 194
    then 0
    else if ltb c 224
    then two_bytes s
    else if ltb c 240
    then three_bytes c s
    else if ltb c 245
    then four_bytes c s
    else 0

-- The scan for line ends, from `i` on.
unfoldable pub scan_lines : ℕ → ℕ → ℕ × ℕ → Bytes → ℕ × ℕ
scan_lines left i r [] = r
scan_lines zero i r (c ∷ s) = r
scan_lines (suc left) i r (c ∷ s) =
    scan_lines left (i + 1) (if c == 10 then (r.0 + 1, i + 1) else r) s

-- The scan of a line for runes.
unfoldable pub count_runes : ℕ → ℕ → Bytes → ℕ
count_runes skip left [] = 0
count_runes (suc skip) left (c ∷ s) = count_runes skip (left - 1) s
count_runes zero zero (c ∷ s) = 0
count_runes zero (suc left) (c ∷ s) = 1 + count_runes (more_bytes c s) left s

abbrev pub clamp : ℕ → Bytes → ℕ
clamp offset source = if ltb (length source) offset then length source else offset

abbrev pub position : ℕ × ℕ → ℕ → Bytes → Pos
position r offset source = record {
  line = r.0;
  col = 1 + count_runes 0 (offset - r.1) (drop r.1 source);
  offset = offset;
}

unfoldable pub resolve : Bytes → ℕ → Pos
unfolding scan_lines count_runes
resolve source offset =
    let at = clamp offset source in position (scan_lines at 0 (1, 0) source) at source

-- The scan from `s.Start` to `s.End`.
unfoldable pub scan_on : ℕ → ℕ → ℕ × ℕ → Bytes → ℕ × ℕ
unfolding more_bytes
scan_on skip left r [] = r
scan_on (suc skip) left r (c ∷ s) = scan_on skip (left - 1) r s
scan_on zero zero r (c ∷ s) = r
scan_on zero (suc left) r (c ∷ s) =
    let next_line = scan_on 0 left (r.0 + 1, 1) s in
    let next_col = scan_on (more_bytes c s) left (r.0, r.1 + 1) s in
    if c == 10 then next_line else next_col

unfoldable pub resolve_span : Bytes → Span → Pos × Pos
unfolding resolve scan_on
resolve_span source s =
    let start = resolve source s.start in
    let r = scan_on 0 (s.end - s.start) (start.line, start.col) (drop s.start source) in
    (start, record { line = r.0; col = r.1; offset = s.end })
