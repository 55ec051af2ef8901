-- ===== src/Perm.antt =====
-- internal/perm/perm.go. A `fs.FileMode` is its number; `& fs.ModePerm` keeps the low nine bits.
-- The regular expressions, which match ASCII bytes only, are tests by clauses.
pub mod Formats
pub mod Bounds
pub mod Letters
pub mod Texts
pub mod Exact
use Prim.Native.Nat.{bit_or, ◌^◌}
use scampi.Base.{
  ℕ, ◌+◌, ◌-◌, ◌*◌, ◌%◌, Bool, true, false, not, ◌&&◌, ◌||◌, Option, none, some, List, [], ◌∷◌,
  Bytes, nat_eq, ◌==◌, ltb, leb, if◌then◌else◌, length, drop, all, contains, lookup, Result, ok,
  err,
}

abbrev pub mode_perm : ℕ → ℕ
mode_perm v = v % 512

abbrev is_octal_digit : ℕ → Bool
is_octal_digit c = leb b'0' c && leb c b'7'

-- `^0[0-7]{3}$`
unfoldable pub octal_re : Bytes → Bool
octal_re (z ∷ a ∷ b ∷ c ∷ []) =
    z == b'0' && is_octal_digit a && is_octal_digit b && is_octal_digit c
octal_re _ = false

-- `strconv.ParseUint(s, 8, 32)`, behind the digits that were read
abbrev fits32 : ℕ → Option ℕ
fits32 v = if ltb v (2 ^ 32) then some v else none

unfoldable pub parse_uint : ℕ → Bytes → Option ℕ
parse_uint v [] = fits32 v
parse_uint v (c ∷ s) =
    let rest = parse_uint (v * 8 + (c - b'0')) s in if is_octal_digit c then rest else none

abbrev masked : Option ℕ → Option ℕ
masked none = none
masked (some v) = some (mode_perm v)

unfoldable pub try_octal : Bytes → Option ℕ
try_octal s = if octal_re s then masked (parse_uint 0 s) else none

abbrev is_flag : ℕ → ℕ → Bool
is_flag letter c = c == letter || c == b'-'

abbrev is_triple : ℕ → ℕ → ℕ → Bool
is_triple r w x = is_flag b'r' r && is_flag b'w' w && is_flag b'x' x

-- The bits of the three bytes at one offset.
unfoldable pub triple_bits : ℕ → ℕ → ℕ → ℕ
triple_bits r w x =
    let read = if r == b'r' then bit_or 0 4 else 0 in
    let write = if w == b'w' then bit_or read 2 else read in
    if x == b'x' then bit_or write 1 else write

-- `lsRe` asks for nine bytes; the loop goes over three offsets and shifts.
unfoldable pub try_ls : Bytes → Option ℕ
unfolding triple_bits
try_ls (r ∷ w ∷ x ∷ r' ∷ w' ∷ x' ∷ r'' ∷ w'' ∷ x'' ∷ []) =
    let user = bit_or 0 (triple_bits r w x * 2 ^ 6) in
    let group = bit_or user (triple_bits r' w' x' * 2 ^ 3) in
    let mode = bit_or group (triple_bits r'' w'' x'') in
    if is_triple r w x && is_triple r' w' x' && is_triple r'' w'' x''
    then some (mode_perm mode)
    else none
try_ls _ = none

abbrev cons_head : ℕ → List Bytes → List Bytes
cons_head c [] = (c ∷ []) ∷ []
cons_head c (s ∷ rest) = (c ∷ s) ∷ rest

-- `strings.SplitSeq(s, ",")`
unfoldable pub split_commas : Bytes → List Bytes
split_commas [] = [] ∷ []
split_commas (c ∷ s) =
    let rest = split_commas s in if c == b',' then [] ∷ rest else cons_head c rest

abbrev pub is_class : ℕ → Bool
is_class c = c == b'u' || c == b'g' || c == b'o'

abbrev is_letter : ℕ → Bool
is_letter c = c == b'r' || c == b'w' || c == b'x'

-- `(u|g|o)=[rwx]*`
abbrev pub is_clause : Bytes → Bool
is_clause (who ∷ eq ∷ letters) = is_class who && eq == b'=' && all is_letter letters
is_clause _ = false

-- `posixRe`: clauses that are separated by commas.
unfoldable pub posix_re : Bytes → Bool
unfolding split_commas
posix_re s = all is_clause (split_commas s)

-- The loop over `c[2:]`.
unfoldable pub letter_bits : ℕ → Bytes → Option ℕ
letter_bits bits [] = some bits
letter_bits bits (r ∷ s) =
    let read = letter_bits (bit_or bits 4) s in
    let write = letter_bits (bit_or bits 2) s in
    let execute = letter_bits (bit_or bits 1) s in
    if r == b'r' then read else if r == b'w' then write else if r == b'x' then execute else none

abbrev or_zero : Option ℕ → ℕ
or_zero none = 0
or_zero (some n) = n

abbrev shifts : List (ℕ × ℕ)
shifts = (b'u', 6) ∷ (b'g', 3) ∷ (b'o', 0) ∷ []

unfoldable pub shift_of : ℕ → ℕ
shift_of who = or_zero (lookup who shifts)

-- The classes that were seen, and the mode.
pub record Posix : Type 0 where
  pub seen : List ℕ
  pub mode : ℕ

abbrev add_bits : Posix → ℕ → Option ℕ → Option Posix
add_bits p who none = none
add_bits p who (some bits) =
    some (record { seen = who ∷ p.seen; mode = bit_or p.mode (bits * 2 ^ shift_of who) })

-- One turn of the loop over the clauses. The regular expression gives each two bytes at least.
unfoldable pub posix_clause : Posix → Bytes → Option Posix
unfolding letter_bits shift_of
posix_clause p [] = none
posix_clause p (who ∷ rest) =
    if contains p.seen who then none else add_bits p who (letter_bits 0 (drop 1 rest))

abbrev and_then : Option Posix → (Posix → Option Posix) → Option Posix
and_then none f = none
and_then (some p) f = f p

unfoldable pub posix_clauses : Posix → List Bytes → Option Posix
unfolding posix_clause
posix_clauses p [] = some p
posix_clauses p (c ∷ cs) = and_then (posix_clause p c) (λ q. posix_clauses q cs)

abbrev all_seen : Option Posix → Option ℕ
all_seen none = none
all_seen (some p) = if length p.seen == 3 then some (mode_perm p.mode) else none

unfoldable pub try_posix : Bytes → Option ℕ
unfolding posix_re posix_clauses split_commas
try_posix s =
    if posix_re s
    then all_seen (posix_clauses (record { seen = []; mode = 0 }) (split_commas s))
    else none

pub record InvalidPermission : Type 0 where
  pub value : Bytes

abbrev pub or_else : Option ℕ → Result InvalidPermission ℕ → Result InvalidPermission ℕ
or_else none next = next
or_else (some m) next = ok m

-- The span of the error is not modelled.
unfoldable pub parse_perm : Bytes → Result InvalidPermission ℕ
parse_perm s =
    or_else (try_octal s) (or_else (try_ls s) (or_else (try_posix s) (err (record { value = s }))))
