-- ===== src/Secret/Replace.antt =====
-- What a replacement of one secret by a mask leaves of any secret.
use scampi.Base.{
  ℕ, zero, suc, ◌-◌, ◌≡◌, ◌≢◌, refl, inl, inr, Bool, true, false, ◌||◌, [], ◌∷◌, ◌++◌, Bytes,
  bytes_eq, has_prefix, length, contains, arith, Bool-cases, List-cases,
}
use scampi.Secret.Redactor.{replace_from}

-- `t` stands somewhere in the text.
abbrev pub occurs : Bytes → Bytes → Bool
occurs t [] = has_prefix [] t
occurs t (c ∷ s) = has_prefix (c ∷ s) t || occurs t s

abbrev pub last_of : Bytes → ℕ
last_of [] = 0
last_of (c ∷ []) = c
last_of (c ∷ d ∷ s) = last_of (d ∷ s)

abbrev pub first_of : Bytes → ℕ
first_of [] = 0
first_of (c ∷ s) = c

-- A secret that cannot arise where the mask is put: it does not stand in the mask, and has neither
-- its first nor its last byte.
pub record IsMaskable (mask : Bytes) (t : Bytes) : Type 0 where
  pub mask_ne : mask ≢ []
  pub secret_ne : t ≢ []
  pub not_inside : occurs t mask ≡ false
  pub no_first : contains t (first_of mask) ≡ false
  pub no_last : contains t (last_of mask) ≡ false

-- A prefix that ends before the first mask was there.
has_prefix-replace_from :
    (old new t s : Bytes)
    → new ≢ []
    → contains t (first_of new) ≡ false
    → has_prefix (replace_from old new 0 s) t ≡ true
    → has_prefix s t ≡ true
unfolding replace_from
has_prefix-replace_from old new t [] ne first h = h
has_prefix-replace_from old new [] (c ∷ s) ne first h = refl
has_prefix-replace_from old [] (d ∷ t) (c ∷ s) ne first h = absurd (ne refl)
has_prefix-replace_from old (m ∷ ms) (d ∷ t) (c ∷ s) ne first h =
    ground (arith, has_prefix-replace_from old (m ∷ ms) t s ne)

-- A text that starts in a part of the mask and goes beyond it has the mask's last byte.
has_prefix-append :
    (u r t : Bytes)
    → u ≢ []
    → contains t (last_of u) ≡ false
    → has_prefix (u ++ r) t ≡ true
    → has_prefix u t ≡ true
has_prefix-append [] r t ne last h = absurd (ne refl)
has_prefix-append (c ∷ u) r [] ne last h = refl
has_prefix-append (c ∷ []) r (d ∷ t) ne last h = ground arith
has_prefix-append (c ∷ e ∷ u) r (d ∷ t) ne last h =
    ground (arith, has_prefix-append (e ∷ u) r t (λ x. cc))

occurs-append :
    (u r t : Bytes)
    → u ≢ []
    → contains t (last_of u) ≡ false
    → occurs t u ≡ false
    → occurs t (u ++ r) ≡ true
    → occurs t r ≡ true
occurs-append [] r t ne last out h = h
occurs-append (c ∷ []) r t ne last out h = ground (arith, has_prefix-append (c ∷ []) r t ne last)
occurs-append (c ∷ e ∷ u) r t ne last out h =
    ground
      (arith, has_prefix-append (c ∷ e ∷ u) r t ne last, occurs-append (e ∷ u) r t (λ x. cc) last)

-- No secret arises by a replacement.
pub occurs-replace_from :
    (old new t s : Bytes) (skip : ℕ)
    → IsMaskable new t
    → occurs t (replace_from old new skip s) ≡ true
    → occurs t s ≡ true
unfolding replace_from
occurs-replace_from old new t [] skip m h = h
occurs-replace_from old new t (c ∷ s) (suc skip) m h =
    ground (arith, occurs-replace_from old new t s skip m)
occurs-replace_from old new t (c ∷ s) zero m h = elim (Bool-cases (has_prefix (c ∷ s) old)) [
  | inl e ↦
      let rest =
        occurs-append new (replace_from old new (length old - 1) s) t m.mask_ne m.no_last
          m.not_inside (ground arith) in
      ground (arith, occurs-replace_from old new t s (length old - 1) m rest)
  | inr e ↦ ground (
    arith,
    occurs-replace_from old new t s 0 m,
    has_prefix-replace_from old new t (c ∷ s) m.mask_ne m.no_first,
  )
]

-- The secret that was replaced is gone.
pub occurs-replace_from_self :
    (old new s : Bytes) (skip : ℕ)
    → IsMaskable new old
    → occurs old (replace_from old new skip s) ≡ false
unfolding replace_from
occurs-replace_from_self old new [] skip m = ground (arith, List-cases old, m.secret_ne)
occurs-replace_from_self old new (c ∷ s) (suc skip) m = occurs-replace_from_self old new s skip m
occurs-replace_from_self old new (c ∷ s) zero m = elim (Bool-cases (has_prefix (c ∷ s) old)) [
  | inl e ↦
      let rest = replace_from old new (length old - 1) s in
      elim (Bool-cases (occurs old (new ++ rest))) [
        | inr out ↦ rw (e) out
        | inl bad ↦
            let still = occurs-append new rest old m.mask_ne m.no_last m.not_inside bad in
            let gone = occurs-replace_from_self old new s (length old - 1) m in cc
      ]
  | inr e ↦ ground (
    arith,
    occurs-replace_from_self old new s 0 m,
    has_prefix-replace_from old new old (c ∷ s) m.mask_ne m.no_first,
  )
]
