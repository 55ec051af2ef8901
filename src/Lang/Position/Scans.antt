-- ===== src/Lang/Position/Scans.antt =====
-- internal/lang/token/pos.go: the scan by runes against the scans for line ends and for runes, before and after
-- a line end.
use scampi.Base.{
  ℕ, zero, suc, ◌+◌, ◌-◌, ◌<◌, ◌≡◌, refl, sym, ap, ◌∙◌, inl, inr, Bool, true, false, ◌||◌, [], ◌∷◌,
  Bytes, ◌==◌, drop, arith, Bool-cases,
}
use scampi.Lang.Position.{more_bytes, scan_lines, count_runes, scan_on}

-- A line ends within the first `n` bytes.
abbrev pub ends_line : ℕ → Bytes → Bool
ends_line n [] = false
ends_line zero (c ∷ s) = false
ends_line (suc n) (c ∷ s) = c == 10 || ends_line n s

pub ends_line_zero : (s : Bytes) → ends_line 0 s ≡ false
ends_line_zero [] = refl
ends_line_zero (c ∷ s) = refl

pub suc-sub_one : (n : ℕ) → suc n - 1 ≡ n
suc-sub_one n = omega arith

-- No rune but the line end itself has its byte.
more_bytes-ends_line : (c : ℕ) (s : Bytes) → ends_line (more_bytes c s) s ≡ false
unfolding more_bytes
more_bytes-ends_line c [] = ground arith
more_bytes-ends_line c (x ∷ []) = ground arith
more_bytes-ends_line c (x ∷ y ∷ []) = ground arith
more_bytes-ends_line c (x ∷ y ∷ z ∷ s) = ground (arith, ends_line_zero s)

pub scan_lines_stays :
    (left i : ℕ) (r : ℕ × ℕ) (s : Bytes) → ends_line left s ≡ false → scan_lines left i r s ≡ r
unfolding scan_lines
scan_lines_stays left i r [] h = refl
scan_lines_stays zero i r (c ∷ s) h = refl
scan_lines_stays (suc left) i r (c ∷ s) h =
    let e : (c == 10) ≡ false = ground arith in
    rw (e) (scan_lines_stays left (i + 1) r s (ground arith))

pub scan_on_stays :
    (skip left : ℕ) (r : ℕ × ℕ) (s : Bytes)
    → ends_line left s ≡ false
    → scan_on skip left r s ≡ (r.0, r.1 + count_runes skip left s)
unfolding scan_on count_runes
scan_on_stays skip left r [] h = ap (λ n. (r.0, n)) (omega arith)
scan_on_stays (suc skip) zero r (c ∷ s) h = scan_on_stays skip 0 r s (ends_line_zero s)
scan_on_stays (suc skip) (suc left) r (c ∷ s) h =
    rw (suc-sub_one left) (scan_on_stays skip left r s (ground arith))
scan_on_stays zero zero r (c ∷ s) h = ap (λ n. (r.0, n)) (omega arith)
scan_on_stays zero (suc left) r (c ∷ s) h =
    let e : (c == 10) ≡ false = ground arith in
    rw (e) (
      scan_on_stays (more_bytes c s) left (r.0, r.1 + 1) s (ground arith)
      ∙ ap (λ n. (r.0, n)) (omega arith))

scan_lines_end :
    (left i : ℕ) (r : ℕ × ℕ) (c : ℕ) (s : Bytes)
    → (c == 10) ≡ true
    → scan_lines (suc left) i r (c ∷ s) ≡ scan_lines left (i + 1) (r.0 + 1, i + 1) s
unfolding scan_lines
scan_lines_end left i r c s e = rw (e) refl

scan_lines_byte :
    (left i : ℕ) (r : ℕ × ℕ) (c : ℕ) (s : Bytes)
    → (c == 10) ≡ false
    → scan_lines (suc left) i r (c ∷ s) ≡ scan_lines left (i + 1) r s
unfolding scan_lines
scan_lines_byte left i r c s e = rw (e) refl

pub scan_on_end :
    (left : ℕ) (r : ℕ × ℕ) (c : ℕ) (s : Bytes)
    → (c == 10) ≡ true
    → scan_on 0 (suc left) r (c ∷ s) ≡ scan_on 0 left (r.0 + 1, 1) s
unfolding scan_on
scan_on_end left r c s e = rw (e) refl

pub scan_on_rune :
    (left : ℕ) (r : ℕ × ℕ) (c : ℕ) (s : Bytes)
    → (c == 10) ≡ false
    → scan_on 0 (suc left) r (c ∷ s) ≡ scan_on (more_bytes c s) left (r.0, r.1 + 1) s
unfolding scan_on
scan_on_rune left r c s e = rw (e) refl

pub scan_on_skip :
    (skip left : ℕ) (r : ℕ × ℕ) (c : ℕ) (s : Bytes)
    → scan_on (suc skip) (suc left) r (c ∷ s) ≡ scan_on skip left r s
unfolding scan_on
scan_on_skip skip left r c s = rw (suc-sub_one left) refl

scan_lines-lt :
    (left i : ℕ) (r : ℕ × ℕ) (s : Bytes) → ends_line left s ≡ true → i < (scan_lines left i r s).1
scan_lines-lt left i r [] h = cc
scan_lines-lt zero i r (c ∷ s) h = cc
scan_lines-lt (suc left) i r (c ∷ s) h = elim (Bool-cases (c == 10)) [
  | inr e ↦
      rw (scan_lines_byte left i r c s e)
        (omega (arith, scan_lines-lt left (i + 1) r s (ground arith)))
  | inl e ↦ elim (Bool-cases (ends_line left s)) [
    | inl later ↦
        rw (scan_lines_end left i r c s e)
          (omega (arith, scan_lines-lt left (i + 1) (r.0 + 1, i + 1) s later))
    | inr no_more ↦
        rw (scan_lines_end left i r c s e, scan_lines_stays left (i + 1) (r.0 + 1, i + 1) s no_more)
          (omega arith)
  ]
]

-- The column that `Resolve` counts after the last line end.
abbrev pub after : ℕ → ℕ → ℕ × ℕ → Bytes → ℕ × ℕ
after left i r s = (r.0, 1 + count_runes 0 (i + left - r.1) (drop (r.1 - i) s))

drop-ge : (n i : ℕ) (c : ℕ) (s : Bytes) → i + 1 < n → drop (n - i) (c ∷ s) ≡ drop (n - (i + 1)) s
drop-ge n i c s h = let e : n - i ≡ suc (n - (i + 1)) = omega arith in rw (e) refl

after-suc :
    (left i : ℕ) (r : ℕ × ℕ) (c : ℕ) (s : Bytes)
    → i + 1 < r.1
    → after (suc left) i r (c ∷ s) ≡ after left (i + 1) r s
after-suc left i r c s h =
    let e : i + suc left ≡ i + 1 + left = omega arith in rw (drop-ge r.1 i c s h, e) refl

pub scan_on_ended :
    (skip left i : ℕ) (r q : ℕ × ℕ) (s : Bytes)
    → ends_line skip s ≡ false
    → ends_line left s ≡ true
    → r.0 ≡ q.0
    → scan_on skip left r s ≡ after left i (scan_lines left i q s) s
scan_on_ended skip left i r q [] free h e = cc
scan_on_ended skip zero i r q (c ∷ s) free h e = cc
scan_on_ended (suc skip) (suc left) i r q (c ∷ s) free h e =
    let at : (c == 10) ≡ false = ground arith in
    let later : ends_line left s ≡ true = ground arith in
    rw (scan_on_skip skip left r c s, scan_lines_byte left i q c s at)
      (scan_on_ended skip left (i + 1) r q s (ground arith) later e
        ∙ sym (
            after-suc left i (scan_lines left (i + 1) q s) c s
              (scan_lines-lt left (i + 1) q s later)))
scan_on_ended zero (suc left) i r q (c ∷ s) free h e = elim (Bool-cases (c == 10)) [
  | inr at ↦
      let later : ends_line left s ≡ true = ground arith in
      rw (scan_on_rune left r c s at, scan_lines_byte left i q c s at)
        (scan_on_ended (more_bytes c s) left (i + 1) (r.0, r.1 + 1) q s (more_bytes-ends_line c s)
            later e
          ∙ sym (
              after-suc left i (scan_lines left (i + 1) q s) c s
                (scan_lines-lt left (i + 1) q s later)))
  | inl at ↦ elim (Bool-cases (ends_line left s)) [
    | inl later ↦
        rw (scan_on_end left r c s at, scan_lines_end left i q c s at)
          (scan_on_ended 0 left (i + 1) (r.0 + 1, 1) (q.0 + 1, i + 1) s (ends_line_zero s) later
              (ap (λ n. n + 1) e)
            ∙ sym (
                after-suc left i (scan_lines left (i + 1) (q.0 + 1, i + 1) s) c s
                  (scan_lines-lt left (i + 1) (q.0 + 1, i + 1) s later)))
    | inr no_more ↦
        let one : i + 1 - i ≡ 1 = omega arith in
        let rest : i + suc left - (i + 1) ≡ left = omega arith in
        rw
          (
            scan_on_end left r c s at,
            scan_lines_end left i q c s at,
            scan_on_stays 0 left (r.0 + 1, 1) s no_more,
            scan_lines_stays left (i + 1) (q.0 + 1, i + 1) s no_more,
            one,
            rest,
            e,
          )
          refl
  ]
]
