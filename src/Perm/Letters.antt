-- ===== src/Perm/Letters.antt =====
-- internal/perm/perm.go: the bits that a clause of the third format grants, and where they come to stand.
use mathlib.Core.Option.{some-injective}
use Prim.Native.Nat.{bit_or, ◌^◌}
use scampi.Base.{
  ℕ, ◌+◌, ◌*◌, ◌/◌, ◌%◌, ◌<◌, ◌≡◌, refl, sym, ap, ◌∙◌, inl, inr, Bool, true, false, ◌&&◌, ◌||◌,
  none, some, [], ◌∷◌, arith, Bytes, ◌==◌, if◌then◌else◌, contains, Option-cases, Bool-cases,
}
use scampi.Perm.{Posix, is_class, letter_bits, shift_of, posix_clause}
use scampi.Perm.Formats.{every, every-lt}

abbrev pub number : Bool → Bool → Bool → ℕ
number r w x = (if r then 4 else 0) + (if w then 2 else 0) + (if x then 1 else 0)

-- The bits of a text of the letters `r`, `w` and `x`, which may come more than once.
abbrev pub grants : Bytes → ℕ
grants s = number (contains s b'r') (contains s b'w') (contains s b'x')

-- Where the three bits of a class stand in a mode.
abbrev pub place : ℕ → ℕ
place who = if who == b'u' then 64 else if who == b'g' then 8 else 1

or_read : (r w x : Bool) → bit_or (number r w x) 4 ≡ number true w x
or_read true true true = refl
or_read true true false = refl
or_read true false true = refl
or_read true false false = refl
or_read false true true = refl
or_read false true false = refl
or_read false false true = refl
or_read false false false = refl

or_write : (r w x : Bool) → bit_or (number r w x) 2 ≡ number r true x
or_write true true true = refl
or_write true true false = refl
or_write true false true = refl
or_write true false false = refl
or_write false true true = refl
or_write false true false = refl
or_write false false true = refl
or_write false false false = refl

or_execute : (r w x : Bool) → bit_or (number r w x) 1 ≡ number r w true
or_execute true true true = refl
or_execute true true false = refl
or_execute true false true = refl
or_execute true false false = refl
or_execute false true true = refl
or_execute false true false = refl
or_execute false false true = refl
or_execute false false false = refl

pub number-lt : (r w x : Bool) → number r w x < 8
number-lt r w x = ground arith

letter_nil : (b : ℕ) → letter_bits b [] ≡ some b
unfolding letter_bits
letter_nil b = refl

letter_read :
    (b c : ℕ) (s : Bytes) → (c == b'r') ≡ true → letter_bits b (c ∷ s) ≡ letter_bits (bit_or b 4) s
unfolding letter_bits
letter_read b c s e = rw (e) refl

letter_write :
    (b c : ℕ) (s : Bytes)
    → (c == b'r') ≡ false
    → (c == b'w') ≡ true
    → letter_bits b (c ∷ s) ≡ letter_bits (bit_or b 2) s
unfolding letter_bits
letter_write b c s f e = rw (f, e) refl

letter_execute :
    (b c : ℕ) (s : Bytes)
    → (c == b'r') ≡ false
    → (c == b'w') ≡ false
    → (c == b'x') ≡ true
    → letter_bits b (c ∷ s) ≡ letter_bits (bit_or b 1) s
unfolding letter_bits
letter_execute b c s f g e = rw (f, g, e) refl

letter_other :
    (b c : ℕ) (s : Bytes)
    → (c == b'r') ≡ false
    → (c == b'w') ≡ false
    → (c == b'x') ≡ false
    → letter_bits b (c ∷ s) ≡ none
unfolding letter_bits
letter_other b c s f g e = rw (f, g, e) refl

number-same : (r w x r' w' x' : Bool) → r ≡ r' → w ≡ w' → x ≡ x' → number r w x ≡ number r' w' x'
number-same r w x r' w' x' e f g = rw (e, f, g) refl

letter_bits-number :
    (r w x : Bool) (s : Bytes) (v : ℕ)
    → letter_bits (number r w x) s ≡ some v
    → v ≡ number (r || contains s b'r') (w || contains s b'w') (x || contains s b'x')
letter_bits-number r w x [] v h = ground (arith, letter_nil (number r w x), h)
letter_bits-number r w x (c ∷ s) v h = elim (Bool-cases (c == b'r')) [
  | inl e ↦
      letter_bits-number true w x s v (
        ap (λ b. letter_bits b s) (sym (or_read r w x))
        ∙ sym (letter_read (number r w x) c s e)
        ∙ h)
      ∙ number-same (true || contains s b'r') (w || contains s b'w') (x || contains s b'x')
          (r || contains (c ∷ s) b'r') (w || contains (c ∷ s) b'w') (x || contains (c ∷ s) b'x')
          (ground (arith, e)) (ground (arith, e)) (ground (arith, e))
  | inr f ↦ elim (Bool-cases (c == b'w')) [
    | inl e ↦
        letter_bits-number r true x s v (
          ap (λ b. letter_bits b s) (sym (or_write r w x))
          ∙ sym (letter_write (number r w x) c s f e)
          ∙ h)
        ∙ number-same (r || contains s b'r') (true || contains s b'w') (x || contains s b'x')
            (r || contains (c ∷ s) b'r') (w || contains (c ∷ s) b'w') (x || contains (c ∷ s) b'x')
            (ground (arith, e)) (ground (arith, e)) (ground (arith, e))
    | inr g ↦ elim (Bool-cases (c == b'x')) [
      | inl e ↦
          letter_bits-number r w true s v (
            ap (λ b. letter_bits b s) (sym (or_execute r w x))
            ∙ sym (letter_execute (number r w x) c s f g e)
            ∙ h)
          ∙ number-same (r || contains s b'r') (w || contains s b'w') (true || contains s b'x')
              (r || contains (c ∷ s) b'r') (w || contains (c ∷ s) b'w') (x || contains (c ∷ s) b'x')
              (ground (arith, e)) (ground (arith, e)) (ground (arith, e))
      | inr e ↦ absurd (ground (arith, letter_other (number r w x) c s f g e, h))
    ]
  ]
]

pub letter_bits-grants : (s : Bytes) (v : ℕ) → letter_bits 0 s ≡ some v → v ≡ grants s
letter_bits-grants s v h = letter_bits-number false false false s v h

pub grants-lt : (s : Bytes) → grants s < 8
grants-lt s = number-lt (contains s b'r') (contains s b'w') (contains s b'x')

abbrev pub merged : ℕ → ℕ → ℕ → ℕ → ℕ → ℕ → ℕ
merged p q r i j k = bit_or (bit_or (bit_or 0 (i * p)) (j * q)) (k * r) % 512

abbrev pub stands : ℕ → ℕ → ℕ → ℕ → ℕ → ℕ → Bool
stands p q r i j k =
    merged p q r i j k / p % 8 == i
    && merged p q r i j k / q % 8 == j
    && merged p q r i j k / r % 8 == k

abbrev all_stand : ℕ → ℕ → ℕ → Bool
all_stand p q r = every (λ i. every (λ j. every (λ k. stands p q r i j k) 8) 8) 8

ordered : ℕ → ℕ → ℕ → Bool
ordered p q r = all_stand p q r

in_any_order :
    (ordered 64 8 1 ≡ true)
    × (ordered 64 1 8 ≡ true)
    × (ordered 8 64 1 ≡ true)
    × (ordered 8 1 64 ≡ true)
    × (ordered 1 64 8 ≡ true)
    × (ordered 1 8 64 ≡ true)
unfolding ordered
in_any_order = (refl, refl, refl, refl, refl, refl)

places-ordered :
    (a b c : ℕ)
    → is_class a ≡ true
    → is_class b ≡ true
    → is_class c ≡ true
    → (a == b) ≡ false
    → (a == c) ≡ false
    → (b == c) ≡ false
    → ordered (place a) (place b) (place c) ≡ true
places-ordered a b c x y z ab ac bc = ground (arith, in_any_order, x, y, z, ab, ac, bc)

shift_of-place : (who : ℕ) → is_class who ≡ true → 2 ^ shift_of who ≡ place who
unfolding shift_of
shift_of-place who c = elim (Bool-cases (who == b'u')) [
  | inl e ↦ let is : who ≡ b'u' = ground (arith, e) in rw (is) refl
  | inr f ↦ elim (Bool-cases (who == b'g')) [
    | inl e ↦ let is : who ≡ b'g' = ground (arith, e) in rw (is) refl
    | inr g ↦ let is : who ≡ b'o' = ground (arith, f, g, c) in rw (is) refl
  ]
]

-- The three bits of each of three classes stand in the mode that is merged from them.
all_stand-lt :
    (p q r i j k : ℕ) → all_stand p q r ≡ true → i < 8 → j < 8 → k < 8 → stands p q r i j k ≡ true
all_stand-lt p q r i j k h a b c =
    every-lt (λ k. stands p q r i j k) 8 k
      (every-lt (λ j. every (λ k. stands p q r i j k) 8) 8 j
        (every-lt (λ i. every (λ j. every (λ k. stands p q r i j k) 8) 8) 8 i h a) b)
      c

posix_clause-some :
    (p : Posix) (who eq v : ℕ) (s : Bytes)
    → contains p.seen who ≡ false
    → letter_bits 0 s ≡ some v
    → posix_clause p (who ∷ eq ∷ s)
      ≡ some (record { seen = who ∷ p.seen; mode = bit_or p.mode (v * 2 ^ shift_of who) })
unfolding posix_clause
posix_clause-some p who eq v s f e = rw (f, e) refl

posix_clause-none :
    (p q : Posix) (who eq : ℕ) (s : Bytes)
    → posix_clause p (who ∷ eq ∷ s) ≡ some q
    → (contains p.seen who ≡ false) × (v : ℕ) × (letter_bits 0 s ≡ some v)
unfolding posix_clause
posix_clause-none p q who eq s h = elim (Option-cases (letter_bits 0 s)) [
  | inl e ↦ absurd (ground (arith, h, e, Bool-cases (contains p.seen who)))
  | inr (v, e) ↦ (ground (arith, h, Bool-cases (contains p.seen who)), v, e)
]

-- A turn adds the bits of its clause at the place of its class.
pub posix_clause-mode :
    (p q : Posix) (who eq : ℕ) (s : Bytes)
    → posix_clause p (who ∷ eq ∷ s) ≡ some q
    → is_class who ≡ true
    → q.mode ≡ bit_or p.mode (grants s * place who)
posix_clause-mode p q who eq s h c =
    let (f, v, e) = posix_clause-none p q who eq s h in
    let made = some-injective _ _ (sym h ∙ posix_clause-some p who eq v s f e) in
    ap (λ (t : Posix). t.mode) made
    ∙ ap (λ n. bit_or p.mode (n * 2 ^ shift_of who)) (letter_bits-grants s v e)
    ∙ ap (λ n. bit_or p.mode (grants s * n)) (shift_of-place who c)

pub merged_stands :
    (a b c i j k : ℕ)
    → is_class a ≡ true
    → is_class b ≡ true
    → is_class c ≡ true
    → (a == b) ≡ false
    → (a == c) ≡ false
    → (b == c) ≡ false
    → i < 8
    → j < 8
    → k < 8
    → stands (place a) (place b) (place c) i j k ≡ true
unfolding ordered
merged_stands a b c i j k x y z ab ac bc li lj lk =
    all_stand-lt (place a) (place b) (place c) i j k (places-ordered a b c x y z ab ac bc) li lj lk
