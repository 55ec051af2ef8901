-- ===== src/Lang/Position/Spans.antt =====
-- internal/lang/token/pos.go: `ResolveSpan` against `Resolve`.
use scampi.Base.{
  ℕ, zero, suc, ◌+◌, ◌-◌, ◌≤◌, ◌≡◌, refl, sym, ap, ◌∙◌, inl, inr, Bool, true, false, [], ◌∷◌, Bytes,
  ◌==◌, ltb, length, drop, arith, Bool-cases,
}
use scampi.Lang.Parse.{Span}
use scampi.Lang.Position.{
  Pos, more_bytes, scan_lines, count_runes, clamp, resolve, scan_on, resolve_span,
}
use scampi.Lang.Position.Scans.{
  ends_line, ends_line_zero, suc-sub_one, scan_lines_stays, scan_on_stays, scan_on_end,
  scan_on_rune, scan_on_skip, scan_on_ended,
}

-- The scan of `ResolveSpan` from the start of the source comes to the line and the column of `Resolve`.
scan_on_clamped :
    (offset : ℕ) (source : Bytes)
    → scan_on 0 (clamp offset source) (1, 1) source
      ≡ ((resolve source offset).line, (resolve source offset).col)
unfolding resolve
scan_on_clamped offset source =
    let at = clamp offset source in
    let whole : at - 0 ≡ at = omega arith in
    elim (Bool-cases (ends_line at source)) [
      | inr none_yet ↦
          rw
            (
              scan_on_stays 0 at (1, 1) source none_yet,
              scan_lines_stays at 0 (1, 0) source none_yet,
              whole,
            )
            refl
      | inl e ↦
          let r = scan_lines at 0 (1, 0) source in
          let from_start : 0 + at ≡ at = omega arith in
          let no_shift : r.1 - 0 ≡ r.1 = omega arith in
          scan_on_ended 0 at 0 (1, 1) (1, 0) source (ends_line_zero source) e refl
          ∙ ap (λ n. (r.0, 1 + count_runes 0 (n - r.1) (drop (r.1 - 0) source))) from_start
          ∙ ap (λ n. (r.0, 1 + count_runes 0 (at - r.1) (drop n source))) no_shift
    ]

scan_on_enough :
    (skip left : ℕ) (r : ℕ × ℕ) (s : Bytes)
    → length s ≤ left
    → scan_on skip left r s ≡ scan_on skip (length s) r s
unfolding scan_on
scan_on_enough skip left r [] h = refl
scan_on_enough skip zero r (c ∷ s) h = absurd (omega (arith, h))
scan_on_enough (suc skip) (suc left) r (c ∷ s) h =
    rw (suc-sub_one left, suc-sub_one (length s)) (scan_on_enough skip left r s (omega (arith, h)))
scan_on_enough zero (suc left) r (c ∷ s) h =
    let h' : length s ≤ left = omega (arith, h) in
    rw
      (
        scan_on_enough 0 left (r.0 + 1, 1) s h',
        scan_on_enough (more_bytes c s) left (r.0, r.1 + 1) s h',
      )
      refl

scan_on-resolve :
    (offset : ℕ) (source : Bytes)
    → scan_on 0 offset (1, 1) source ≡ ((resolve source offset).line, (resolve source offset).col)
scan_on-resolve offset source = to_clamp ∙ scan_on_clamped offset source
  where
    to_clamp : scan_on 0 offset (1, 1) source ≡ scan_on 0 (clamp offset source) (1, 1) source
    to_clamp = elim (Bool-cases (ltb (length source) offset)) [
      | inl e ↦ rw (e) (scan_on_enough 0 offset (1, 1) source (ground arith))
      | inr e ↦ rw (e) refl
    ]

-- From the start of the source, the runes end at `n`, unless the source ends before; `skip` bytes are still
-- to be passed.
abbrev pub is_boundary : ℕ → ℕ → Bytes → Bool
is_boundary skip n [] = true
is_boundary zero zero (c ∷ s) = true
is_boundary (suc skip) zero (c ∷ s) = false
is_boundary (suc skip) (suc n) (c ∷ s) = is_boundary skip n s
is_boundary zero (suc n) (c ∷ s) = is_boundary (more_bytes c s) n s

more_bytes_end : (c : ℕ) (s : Bytes) → (c == 10) ≡ true → more_bytes c s ≡ 0
unfolding more_bytes
more_bytes_end c s e = ground arith

scan_on_nil : (skip n : ℕ) (r : ℕ × ℕ) → scan_on skip n r [] ≡ r
unfolding scan_on
scan_on_nil skip n r = refl

scan_on_zero : (r : ℕ × ℕ) (s : Bytes) → scan_on 0 0 r s ≡ r
unfolding scan_on
scan_on_zero r [] = refl
scan_on_zero r (c ∷ s) = refl

drop_nil : (n : ℕ) → drop {A = ℕ} n [] ≡ []
drop_nil zero = refl
drop_nil (suc n) = refl

scan_on-add :
    (skip n m : ℕ) (r : ℕ × ℕ) (s : Bytes)
    → is_boundary skip n s ≡ true
    → scan_on skip (n + m) r s ≡ scan_on 0 m (scan_on skip n r s) (drop n s)
scan_on-add skip n m r [] h =
    rw (scan_on_nil skip (n + m) r, scan_on_nil skip n r, drop_nil n, scan_on_nil 0 m r) refl
scan_on-add zero zero m r (c ∷ s) h =
    let e : 0 + m ≡ m = omega arith in rw (e, scan_on_zero r (c ∷ s)) refl
scan_on-add (suc skip) zero m r (c ∷ s) h = cc
scan_on-add (suc skip) (suc n) m r (c ∷ s) h =
    let e : suc n + m ≡ suc (n + m) = omega arith in
    rw (e, scan_on_skip skip (n + m) r c s, scan_on_skip skip n r c s) (scan_on-add skip n m r s h)
scan_on-add zero (suc n) m r (c ∷ s) h =
    let e : suc n + m ≡ suc (n + m) = omega arith in
    elim (Bool-cases (c == 10)) [
      | inl at ↦
          rw (e, scan_on_end (n + m) r c s at, scan_on_end n r c s at)
            (scan_on-add 0 n m (r.0 + 1, 1) s
              (ap (λ k. is_boundary k n s) (sym (more_bytes_end c s at)) ∙ h))
      | inr at ↦
          rw (e, scan_on_rune (n + m) r c s at, scan_on_rune n r c s at)
            (scan_on-add (more_bytes c s) n m (r.0, r.1 + 1) s h)
    ]

abbrev at_end : ℕ → ℕ × ℕ → Pos
at_end offset r = record { line = r.0; col = r.1; offset = offset }

-- Where a span does not end before it starts, and starts at the first byte of a rune or past the end of the
-- source: `ResolveSpan` gives the position that `Resolve` gives for the start, and the line and the column that
-- `Resolve` gives for the end, with the offset of the span itself.
pub resolve_span-resolve :
    (source : Bytes) (s : Span)
    → s.start ≤ s.end
    → is_boundary 0 s.start source ≡ true
    → resolve_span source s
      ≡ (resolve source s.start, record (resolve source s.end) { offset = s.end })
unfolding resolve_span
resolve_span-resolve source s le at =
    let rest = s.end - s.start in
    let whole : s.start + rest ≡ s.end = omega arith in
    let from_start : (r : ℕ × ℕ)
        → scan_on 0 s.start (1, 1) source ≡ r
        → scan_on 0 rest r (drop s.start source) ≡ scan_on 0 s.end (1, 1) source =
      λ r e.
        ap (λ q. scan_on 0 rest q (drop s.start source)) (sym e)
        ∙ sym (scan_on-add 0 s.start rest (1, 1) source at)
        ∙ ap (λ n. scan_on 0 n (1, 1) source) whole in
    ap (λ r. (resolve source s.start, at_end s.end r))
      (from_start ((resolve source s.start).line, (resolve source s.start).col)
          (scan_on-resolve s.start source)
        ∙ scan_on-resolve s.end source)
