-- ===== src/Perm/Texts.antt =====
-- internal/perm/perm.go: the first two formats accept nothing but the texts of modes.
use scampi.Base.{
  ℕ, ◌+◌, ◌-◌, ◌*◌, ◌/◌, ◌%◌, ◌<◌, ◌≡◌, refl, sym, ap, ◌∙◌, Bool, true, false, ◌&&◌, ◌||◌, some, [],
  ◌∷◌, ◌++◌, arith, Bytes, bytes_beq, bytes_beq_iff, ◌==◌, if◌then◌else◌,
}
use scampi.Perm.{octal_re, parse_uint, try_octal, try_ls}
use scampi.Perm.Formats.{every, every-lt, octal_text, ls_text}
use scampi.Perm.Letters.{number, number-lt}

octal_digits :
    (z a b c m : ℕ)
    → try_octal (z ∷ a ∷ b ∷ c ∷ []) ≡ some m
    → (u v w : ℕ) × (u < 8)
      × (v < 8)
      × (w < 8)
      × (z ≡ 48)
      × (a ≡ 48 + u)
      × (b ≡ 48 + v)
      × (c ≡ 48 + w)
      × (m ≡ u * 64 + v * 8 + w)
unfolding try_octal octal_re parse_uint
octal_digits z a b c m h = (
  a - 48,
  b - 48,
  c - 48,
  ground (arith, h),
  ground (arith, h),
  ground (arith, h),
  ground (arith, h),
  ground (arith, h),
  ground (arith, h),
  ground (arith, h),
  ground (arith, h),
)

list4 :
    (a b c d a' b' c' d' : ℕ)
    → a ≡ a'
    → b ≡ b'
    → c ≡ c'
    → d ≡ d'
    → a ∷ b ∷ c ∷ d ∷ [] ≡ a' ∷ b' ∷ c' ∷ d' ∷ []
list4 a b c d a' b' c' d' e f g h = rw (e, f, g, h) refl

pub try_octal-octal_text : (s : Bytes) (m : ℕ) → try_octal s ≡ some m → s ≡ octal_text m
unfolding try_octal octal_re
try_octal-octal_text (z ∷ a ∷ b ∷ c ∷ []) m h =
    let (u, v, w, lu, lv, lw, ez, ea, eb, ec, em) = octal_digits z a b c m h in
    list4 z a b c 48 (48 + m / 64) (48 + m / 8 % 8) (48 + m % 8) ez (omega arith) (omega arith)
      (omega arith)
try_octal-octal_text _ m h = ground arith

number_bits :
    (r w x : Bool)
    → ((number r w x / 4 % 2 == 1) ≡ r)
      × ((number r w x / 2 % 2 == 1) ≡ w)
      × ((number r w x % 2 == 1) ≡ x)
number_bits true true true = (refl, refl, refl)
number_bits true true false = (refl, refl, refl)
number_bits true false true = (refl, refl, refl)
number_bits true false false = (refl, refl, refl)
number_bits false true true = (refl, refl, refl)
number_bits false true false = (refl, refl, refl)
number_bits false false true = (refl, refl, refl)
number_bits false false false = (refl, refl, refl)

-- A byte that is its letter or a dash, by the bit of a mode.
abbrev shown : ℕ → ℕ → ℕ
shown b letter = if b == 1 then letter else b'-'

shown_by :
    (c letter b : ℕ)
    → (c == letter || c == b'-') ≡ true
    → (b == 1) ≡ (c == letter)
    → c ≡ shown b letter
shown_by c letter b h e = ground (arith, h, e)

abbrev text_of : ℕ → Bytes
text_of t = shown (t / 4 % 2) b'r' ∷ shown (t / 2 % 2) b'w' ∷ shown (t % 2) b'x' ∷ []

abbrev of_triple : ℕ → ℕ → ℕ → ℕ
of_triple r w x = number (r == b'r') (w == b'w') (x == b'x')

abbrev are_flags : ℕ → ℕ → ℕ → Bool
are_flags r w x = (r == b'r' || r == b'-') && (w == b'w' || w == b'-') && (x == b'x' || x == b'-')

triple-text_of : (r w x : ℕ) → are_flags r w x ≡ true → r ∷ w ∷ x ∷ [] ≡ text_of (of_triple r w x)
triple-text_of r w x h =
    let (er, ew, ex) = number_bits (r == b'r') (w == b'w') (x == b'x') in
    let t = of_triple r w x in
    rw
      (
        ← shown_by r b'r' (t / 4 % 2) (ground (arith, h)) er,
        ← shown_by w b'w' (t / 2 % 2) (ground (arith, h)) ew,
        ← shown_by x b'x' (t % 2) (ground (arith, h)) ex,
      )
      refl

abbrev text_is : ℕ → ℕ → ℕ → Bool
text_is u v w = bytes_beq (ls_text (u * 64 + v * 8 + w)) (text_of u ++ text_of v ++ text_of w)

texts : Bool
texts = every (λ u. every (λ v. every (λ w. text_is u v w) 8) 8) 8

texts_agree : texts ≡ true
unfolding texts
texts_agree = refl

ls_text-text_of :
    (u v w : ℕ)
    → u < 8
    → v < 8
    → w < 8
    → ls_text (u * 64 + v * 8 + w) ≡ text_of u ++ text_of v ++ text_of w
unfolding texts
ls_text-text_of u v w lu lv lw =
    (bytes_beq_iff (ls_text (u * 64 + v * 8 + w)) (text_of u ++ text_of v ++ text_of w)).0 (
      every-lt (λ w. text_is u v w) 8 w
        (every-lt (λ v. every (λ w. text_is u v w) 8) 8 v
          (every-lt (λ u. every (λ v. every (λ w. text_is u v w) 8) 8) 8 u texts_agree lu) lv)
        lw)

ls_flags :
    (r w x r' w' x' r'' w'' x'' m : ℕ)
    → try_ls (r ∷ w ∷ x ∷ r' ∷ w' ∷ x' ∷ r'' ∷ w'' ∷ x'' ∷ []) ≡ some m
    → (are_flags r w x ≡ true) × (are_flags r' w' x' ≡ true) × (are_flags r'' w'' x'' ≡ true)
unfolding try_ls
ls_flags r w x r' w' x' r'' w'' x'' m h = (ground (arith, h), ground (arith, h), ground (arith, h))

pub try_ls-ls_text : (s : Bytes) (m : ℕ) → try_ls s ≡ some m → (n : ℕ) × (n < 512) × (s ≡ ls_text n)
unfolding try_ls
try_ls-ls_text (r ∷ w ∷ x ∷ r' ∷ w' ∷ x' ∷ r'' ∷ w'' ∷ x'' ∷ []) m h =
    let (a, b, c) = ls_flags r w x r' w' x' r'' w'' x'' m h in
    let u = of_triple r w x in
    let v = of_triple r' w' x' in
    let k = of_triple r'' w'' x'' in
    let lu : u < 8 = number-lt (r == b'r') (w == b'w') (x == b'x') in
    let lv : v < 8 = number-lt (r' == b'r') (w' == b'w') (x' == b'x') in
    let lk : k < 8 = number-lt (r'' == b'r') (w'' == b'w') (x'' == b'x') in
    (
      u * 64 + v * 8 + k,
      omega (arith, lu, lv, lk),
      ap (λ l. l ++ r' ∷ w' ∷ x' ∷ r'' ∷ w'' ∷ x'' ∷ []) (triple-text_of r w x a)
          ∙ ap (λ l. text_of u ++ l ++ r'' ∷ w'' ∷ x'' ∷ []) (triple-text_of r' w' x' b)
          ∙ ap (λ l. text_of u ++ text_of v ++ l) (triple-text_of r'' w'' x'' c)
          ∙ sym (ls_text-text_of u v k lu lv lk),
    )
try_ls-ls_text _ m h = ground arith
