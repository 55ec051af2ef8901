-- ===== src/Perm/Exact.antt =====
-- internal/perm/perm.go: `ParsePerm` accepts nothing but the three formats, and returns the mode that they spell.
use Prim.Native.Nat.{bit_or}
use scampi.Base.{
  ℕ, ◌*◌, ◌/◌, ◌%◌, ◌<◌, ◌≡◌, sym, ap, subst, ◌∙◌, inl, inr, ◌⊎◌, true, false, ◌&&◌, some, List, [],
  ◌∷◌, arith, Bytes, ◌==◌, drop, length, map, all, IsDistinct, All, Option-cases, Result, ok,
}
use scampi.Perm.{
  InvalidPermission, Posix, is_clause, try_octal, try_ls, try_posix, split_commas, posix_re,
  posix_clause, posix_clauses, parse_perm,
}
use scampi.Perm.Formats.{octal_text, ls_text, parse_perm-ls_text}
use scampi.Perm.Bounds.{
  who_of, is_clause-who_of, all_three, posix_clauses-cons, posix_clauses_end, three_clauses,
  parse_perm-lt,
}
use scampi.Perm.Letters.{grants, grants-lt, place, posix_clause-mode, merged, merged_stands}
use scampi.Perm.Texts.{try_octal-octal_text, try_ls-ls_text}

-- The bits of the class of a clause are its letters.
abbrev pub HasBits : ℕ → Bytes → Type 0
HasBits m c = m / place (who_of c) % 8 ≡ grants (drop 2 c)

-- Three clauses, one for each class, and the bits of each class are the letters of its clause.
abbrev pub IsPosix : Bytes → ℕ → Type 0
IsPosix s m =
    (length (split_commas s) ≡ 3)
    × (all is_clause (split_commas s) ≡ true)
    × IsDistinct (map who_of (split_commas s))
    × All (HasBits m) (split_commas s)

abbrev pub Spells : Bytes → ℕ → Type 0
Spells s m = (s ≡ octal_text m) ⊎ ((s ≡ ls_text m) ⊎ IsPosix s m)

clause_mode :
    (p q : Posix) (c : Bytes)
    → is_clause c ≡ true
    → posix_clause p c ≡ some q
    → q.mode ≡ bit_or p.mode (grants (drop 2 c) * place (who_of c))
clause_mode p q [] k h = cc
clause_mode p q (who ∷ []) k h = cc
clause_mode p q (who ∷ eq ∷ s) k h =
    posix_clause-mode p q who eq s h (is_clause-who_of (who ∷ eq ∷ s) k)

pairs :
    (a b c : ℕ)
    → IsDistinct (a ∷ b ∷ c ∷ [])
    → ((a == b) ≡ false) × ((a == c) ≡ false) × ((b == c) ≡ false)
pairs a b c d = (ground (arith, d.0), ground (arith, d.0), ground (arith, d.1.0))

all_equal : (a b c i j k : ℕ) → (a == i && b == j && c == k) ≡ true → (a ≡ i) × (b ≡ j) × (c ≡ k)
all_equal a b c i j k h = (ground (arith, h), ground (arith, h), ground (arith, h))

three_bits :
    (a b c : Bytes) (m : ℕ)
    → is_clause a ≡ true
    → is_clause b ≡ true
    → is_clause c ≡ true
    → IsDistinct (who_of a ∷ who_of b ∷ who_of c ∷ [])
    → m
      ≡ merged
          (place (who_of a))
          (place (who_of b))
          (place (who_of c))
          (grants (drop 2 a))
          (grants (drop 2 b))
          (grants (drop 2 c))
    → All (HasBits m) (a ∷ b ∷ c ∷ [])
three_bits a b c m ka kb kc d e =
    let (ab, ac, bc) = pairs (who_of a) (who_of b) (who_of c) d in
    let s =
      merged_stands (who_of a) (who_of b) (who_of c) (grants (drop 2 a)) (grants (drop 2 b))
        (grants (drop 2 c)) (is_clause-who_of a ka) (is_clause-who_of b kb) (is_clause-who_of c kc)
        ab ac bc (grants-lt (drop 2 a)) (grants-lt (drop 2 b)) (grants-lt (drop 2 c)) in
    let (ea, eb, ec) = all_equal _ _ _ _ _ _ s in
    let at : (c : Bytes) → _ = λ c. ap (λ k. k / place (who_of c) % 8) e in
    (at a ∙ ea, (at b ∙ eb, (at c ∙ ec, tt)))

clauses_bits :
    (p : Posix) (cs : List Bytes)
    → all is_clause cs ≡ true
    → posix_clauses (record { seen = []; mode = 0 }) cs ≡ some p
    → length cs ≡ 3
    → IsDistinct (map who_of cs)
    → All (HasBits (p.mode % 512)) cs
clauses_bits p (a ∷ b ∷ c ∷ []) re h n d =
    let (p1, e1, h1) = posix_clauses-cons _ p a (b ∷ c ∷ []) h in
    let (p2, e2, h2) = posix_clauses-cons p1 p b (c ∷ []) h1 in
    let (p3, e3, h3) = posix_clauses-cons p2 p c [] h2 in
    let (ka, kb, kc) = all_three a b c re in
    three_bits a b c (p.mode % 512) ka kb kc d (
      ap (λ k. k % 512)
        (ap (λ (t : Posix). t.mode) (sym (posix_clauses_end p3 p h3))
          ∙ clause_mode p2 p3 c kc e3
          ∙ ap (λ k. bit_or k (grants (drop 2 c) * place (who_of c)))
              (clause_mode p1 p2 b kb e2
                ∙ ap (λ k. bit_or k (grants (drop 2 b) * place (who_of b)))
                    (clause_mode _ p1 a ka e1))))
clauses_bits p [] re h n d = absurd (omega (arith, n))
clauses_bits p (a ∷ []) re h n d = absurd (omega (arith, n))
clauses_bits p (a ∷ b ∷ []) re h n d = absurd (omega (arith, n))
clauses_bits p (a ∷ b ∷ c ∷ e ∷ r) re h n d = absurd (omega (arith, n))

try_posix-IsPosix : (s : Bytes) (m : ℕ) → try_posix s ≡ some m → IsPosix s m
unfolding try_posix posix_re
try_posix-IsPosix s m h =
    elim (Option-cases (posix_clauses (record { seen = []; mode = 0 }) (split_commas s))) [
      | inl e ↦ absurd (ground arith)
      | inr (p, e) ↦
          let re : all is_clause (split_commas s) ≡ true = ground arith in
          let mode : p.mode % 512 ≡ m = ground arith in
          let (three, distinct, _) = three_clauses p (split_commas s) re e (ground arith) in
          (
            three,
            re,
            distinct,
            subst (λ k. All (HasBits k) (split_commas s)) mode
                (clauses_bits p (split_commas s) re e three distinct),
          )
    ]

ok-injective : (n m : ℕ) → ◌≡◌ {A = Result InvalidPermission ℕ} (ok n) (ok m) → n ≡ m
ok-injective n m h = ground arith

-- What `ParsePerm` accepts has the nine permission bits only, and spells them in one of the three formats: as an
-- octal numeral with a zero and three digits, as nine letters or dashes, or as three clauses, one for each class,
-- whose letters are the bits of the class.
pub parse_perm-Spells : (s : Bytes) (m : ℕ) → parse_perm s ≡ ok m → (m < 512) × Spells s m
unfolding parse_perm
parse_perm-Spells s m h = (parse_perm-lt s m h, spelled)
  where
    spelled : Spells s m
    spelled = elim (Option-cases (try_octal s)) [
      | inr (v, e) ↦
          let same : v ≡ m = ground arith in inl (try_octal-octal_text s m (e ∙ ap some same))
      | inl no_octal ↦ elim (Option-cases (try_ls s)) [
        | inr (v, e) ↦
            let (n, low, text) = try_ls-ls_text s v e in
            let same : n ≡ m =
              ok-injective n m (sym (parse_perm-ls_text n low).1 ∙ ap parse_perm (sym text) ∙ h) in
            inr (inl (text ∙ ap ls_text same))
        | inl no_ls ↦ elim (Option-cases (try_posix s)) [
          | inr (v, e) ↦
              let same : v ≡ m = ground arith in
              inr (inr (try_posix-IsPosix s m (e ∙ ap some same)))
          | inl no_posix ↦ absurd (ground arith)
        ]
      ]
    ]
