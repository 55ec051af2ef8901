-- ===== src/Perm/Formats.antt =====
-- The three formats of a permission, written down independently, and what parsing makes of them.
use Prim.Native.Nat.{◌^◌}
use scampi.Base.{
  ℕ, zero, suc, ◌+◌, ◌/◌, ◌%◌, ◌<◌, ◌≡◌, refl, Bool, true, false, ◌&&◌, [], ◌∷◌, ◌++◌, arith, Bytes,
  ◌==◌, ==_iff, if◌then◌else◌, Result, ok, err,
}
use scampi.Perm.{
  InvalidPermission, octal_re, parse_uint, try_octal, triple_bits, try_ls, split_commas, posix_re,
  letter_bits, shift_of, posix_clause, posix_clauses, try_posix, parse_perm,
}

abbrev bit : ℕ → ℕ → Bool
bit m k = m / 2 ^ k % 2 == 1

-- The mode in four octal digits.
abbrev pub octal_text : ℕ → Bytes
octal_text m = b'0' ∷ (b'0' + m / 64) ∷ (b'0' + m / 8 % 8) ∷ (b'0' + m % 8) ∷ []

abbrev flag : ℕ → ℕ → ℕ → ℕ
flag m k letter = if bit m k then letter else b'-'

-- As `ls` writes the mode.
abbrev pub ls_text : ℕ → Bytes
ls_text m =
    flag m 8 b'r'
    ∷ flag m 7 b'w'
    ∷ flag m 6 b'x'
    ∷ flag m 5 b'r'
    ∷ flag m 4 b'w'
    ∷ flag m 3 b'x'
    ∷ flag m 2 b'r'
    ∷ flag m 1 b'w'
    ∷ flag m 0 b'x'
    ∷ []

abbrev letter : ℕ → ℕ → ℕ → Bytes
letter m k c = if bit m k then c ∷ [] else []

-- The clause of one class, whose bits stand at `k`.
abbrev pub clause_text : ℕ → ℕ → ℕ → Bytes
clause_text m who k = who ∷ b'=' ∷ letter m (k + 2) b'r' ++ letter m (k + 1) b'w' ++ letter m k b'x'

abbrev pub posix_text : ℕ → Bytes
posix_text m = clause_text m b'u' 6 ++ b',' ∷ clause_text m b'g' 3 ++ b',' ∷ clause_text m b'o' 0

-- The same clauses from the last to the first.
abbrev pub posix_reversed : ℕ → Bytes
posix_reversed m =
    clause_text m b'o' 0 ++ b',' ∷ clause_text m b'g' 3 ++ b',' ∷ clause_text m b'u' 6

abbrev is_ok : ℕ → Result InvalidPermission ℕ → Bool
is_ok m (ok v) = v == m
is_ok m (err e) = false

is_ok_iff : (m : ℕ) (r : Result InvalidPermission ℕ) → is_ok m r ≡ true → r ≡ ok m
is_ok_iff m (ok v) h = ground (arith, ==_iff v m)
is_ok_iff m (err e) h = cc

reads : ℕ → Bool
unfolding octal_re parse_uint try_octal triple_bits try_ls split_commas posix_re letter_bits
    shift_of posix_clause posix_clauses try_posix parse_perm
reads m =
    is_ok m (parse_perm (octal_text m))
    && is_ok m (parse_perm (ls_text m))
    && is_ok m (parse_perm (posix_text m))
    && is_ok m (parse_perm (posix_reversed m))

-- Every value below `n`, by running the test.
abbrev pub every : (ℕ → Bool) → ℕ → Bool
every p zero = true
every p (suc n) = p n && every p n

pub every-lt : (p : ℕ → Bool) (n m : ℕ) → every p n ≡ true → m < n → p m ≡ true
every-lt p zero m h lt = absurd (omega arith)
every-lt p (suc n) m h lt = ground (arith, every-lt p n m)

reads_below : every reads 512 ≡ true
unfolding octal_re parse_uint try_octal triple_bits try_ls split_commas posix_re letter_bits
    shift_of posix_clause posix_clauses try_posix parse_perm reads
reads_below = refl

and_split :
    (a b c d : Bool) → (a && b && c && d) ≡ true → (a ≡ true) × (b ≡ true) × (c ≡ true) × (d ≡ true)
and_split a b c d h = ground arith

-- A mode of nine bits is parsed back from each of its three formats, and from the clauses of the
-- third one in the opposite order.
pub parse_perm-ls_text :
    (m : ℕ)
    → m < 512
    → (parse_perm (octal_text m) ≡ ok m)
      × (parse_perm (ls_text m) ≡ ok m)
      × (parse_perm (posix_text m) ≡ ok m)
      × (parse_perm (posix_reversed m) ≡ ok m)
unfolding reads
parse_perm-ls_text m lt =
    let (o, l, x, y) = and_split _ _ _ _ (every-lt reads 512 m reads_below lt) in
    (is_ok_iff m _ o, is_ok_iff m _ l, is_ok_iff m _ x, is_ok_iff m _ y)
