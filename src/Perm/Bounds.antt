-- ===== src/Perm/Bounds.antt =====
-- What holds of every permission that is parsed.
use mathlib.Core.Option.{some-injective}
use scampi.Base.{
  ℕ, ◌+◌, ◌<◌, ◌≡◌, refl, sym, ap, ◌∙◌, inl, inr, true, false, some, List, [], ◌∷◌, arith, Bytes,
  Option-cases, length, drop, all, map, IsDistinct, contains, ok,
}
use scampi.Perm.{
  Posix, parse_uint, try_octal, try_ls, split_commas, is_class, is_clause, posix_re, letter_bits,
  posix_clause, posix_clauses, try_posix, parse_perm,
}

try_octal-lt : (s : Bytes) (m : ℕ) → try_octal s ≡ some m → m < 512
unfolding try_octal
try_octal-lt s m h = ground (arith, Option-cases (parse_uint 0 s))

try_ls-lt : (s : Bytes) (m : ℕ) → try_ls s ≡ some m → m < 512
unfolding try_ls
try_ls-lt (r ∷ w ∷ x ∷ r' ∷ w' ∷ x' ∷ r'' ∷ w'' ∷ x'' ∷ []) m h = ground arith
try_ls-lt _ m h = ground arith

try_posix-lt : (s : Bytes) (m : ℕ) → try_posix s ≡ some m → m < 512
unfolding try_posix
try_posix-lt s m h =
    ground (arith, Option-cases (posix_clauses (record { seen = []; mode = 0 }) (split_commas s)))

-- A mode that is returned has the nine permission bits only.
pub parse_perm-lt : (s : Bytes) (m : ℕ) → parse_perm s ≡ ok m → m < 512
unfolding parse_perm
parse_perm-lt s m h = ground (
  arith,
  Option-cases (try_octal s),
  try_octal-lt s m,
  Option-cases (try_ls s),
  try_ls-lt s m,
  Option-cases (try_posix s),
  try_posix-lt s m,
)

-- The class of a clause.
abbrev pub who_of : Bytes → ℕ
who_of [] = 0
who_of (c ∷ s) = c

-- A turn sees one class that was not seen.
pub posix_clause-seen :
    (p q : Posix) (c : Bytes)
    → posix_clause p c ≡ some q
    → (contains p.seen (who_of c) ≡ false) × (q.seen ≡ who_of c ∷ p.seen)
unfolding posix_clause
posix_clause-seen p q [] h = cc
posix_clause-seen p q (who ∷ rest) h = ground (arith, Option-cases (letter_bits 0 (drop 1 rest)))

pub posix_clauses-cons :
    (p q : Posix) (c : Bytes) (cs : List Bytes)
    → posix_clauses p (c ∷ cs) ≡ some q
    → (r : Posix) × (posix_clause p c ≡ some r) × (posix_clauses r cs ≡ some q)
unfolding posix_clauses
posix_clauses-cons p q c cs h = elim (Option-cases (posix_clause p c)) [
  | inl e ↦ ground arith
  | inr (r, e) ↦ (r, e, ground arith)
]

pub posix_clauses_end : (p q : Posix) → posix_clauses p [] ≡ some q → p ≡ q
unfolding posix_clauses
posix_clauses_end p q h = some-injective _ _ h

posix_clauses-length :
    (p q : Posix) (cs : List Bytes)
    → posix_clauses p cs ≡ some q
    → length q.seen ≡ length p.seen + length cs
unfolding posix_clauses
posix_clauses-length p q [] h = ground arith
posix_clauses-length p q (c ∷ cs) h =
    let (r, e, rest) = posix_clauses-cons p q c cs h in
    ground (arith, posix_clause-seen p r c e, posix_clauses-length r q cs rest)

-- The clauses are checked to be clauses.
pub is_clause-who_of : (c : Bytes) → is_clause c ≡ true → is_class (who_of c) ≡ true
is_clause-who_of [] h = cc
is_clause-who_of (w ∷ []) h = cc
is_clause-who_of (w ∷ e ∷ s) h = ground arith

distinct3 :
    (a b c : ℕ)
    → contains (a ∷ []) b ≡ false
    → contains (b ∷ a ∷ []) c ≡ false
    → IsDistinct (a ∷ b ∷ c ∷ [])
distinct3 a b c hb hc = ground arith

pub all_three :
    (a b c : Bytes)
    → all is_clause (a ∷ b ∷ c ∷ []) ≡ true
    → (is_clause a ≡ true) × (is_clause b ≡ true) × (is_clause c ≡ true)
all_three a b c h = ground arith

three_classes :
    (a b c : ℕ)
    → is_class a ≡ true
    → is_class b ≡ true
    → is_class c ≡ true
    → IsDistinct (a ∷ b ∷ c ∷ [])
    → (who : ℕ) → is_class who ≡ true
    → contains (a ∷ b ∷ c ∷ []) who ≡ true
three_classes a b c ha hb hc d who h = ground arith

pub three_clauses :
    (p : Posix) (cs : List Bytes)
    → all is_clause cs ≡ true
    → posix_clauses (record { seen = []; mode = 0 }) cs ≡ some p
    → length p.seen ≡ 3
    → (length cs ≡ 3)
      × IsDistinct (map who_of cs)
      × ((who : ℕ) → is_class who ≡ true → contains (map who_of cs) who ≡ true)
three_clauses p (a ∷ b ∷ c ∷ []) re h n =
    let (p1, e1, h1) = posix_clauses-cons _ p a (b ∷ c ∷ []) h in
    let (p2, e2, h2) = posix_clauses-cons p1 p b (c ∷ []) h1 in
    let (p3, e3, h3) = posix_clauses-cons p2 p c [] h2 in
    let (new1, seen1) = posix_clause-seen _ p1 a e1 in
    let (new2, seen2) = posix_clause-seen p1 p2 b e2 in
    let (new3, seen3) = posix_clause-seen p2 p3 c e3 in
    let here2 : contains (who_of a ∷ []) (who_of b) ≡ false =
      ap (λ s. contains s (who_of b)) (sym seen1) ∙ new2 in
    let here3 : contains (who_of b ∷ who_of a ∷ []) (who_of c) ≡ false =
      ap (λ s. contains s (who_of c)) (ap (λ s. who_of b ∷ s) (sym seen1) ∙ sym seen2) ∙ new3 in
    let (ra, rb, rc) = all_three a b c re in
    let distinct = distinct3 (who_of a) (who_of b) (who_of c) here2 here3 in
    (
      refl,
      distinct,
      three_classes (who_of a) (who_of b) (who_of c) (is_clause-who_of a ra) (is_clause-who_of b rb)
          (is_clause-who_of c rc) distinct,
    )
three_clauses p [] re h n = absurd (omega (arith, n, posix_clauses-length _ p _ h))
three_clauses p (a ∷ []) re h n = absurd (omega (arith, n, posix_clauses-length _ p _ h))
three_clauses p (a ∷ b ∷ []) re h n = absurd (omega (arith, n, posix_clauses-length _ p _ h))
three_clauses p (a ∷ b ∷ c ∷ d ∷ r) re h n = absurd (omega (arith, n, posix_clauses-length _ p _ h))

-- A text in the third format that is accepted has three clauses, one for each of the classes `u`,
-- `g` and `o`: the regular expression alone would let a class be repeated or left out.
pub try_posix-classes :
    (s : Bytes) (m : ℕ)
    → try_posix s ≡ some m
    → (length (split_commas s) ≡ 3)
      × IsDistinct (map who_of (split_commas s))
      × ((who : ℕ) → is_class who ≡ true → contains (map who_of (split_commas s)) who ≡ true)
unfolding try_posix posix_re
try_posix-classes s m h =
    elim (Option-cases (posix_clauses (record { seen = []; mode = 0 }) (split_commas s))) [
      | inl e ↦ ground arith
      | inr (p, e) ↦ three_clauses p (split_commas s) (ground arith) e (ground arith)
    ]
