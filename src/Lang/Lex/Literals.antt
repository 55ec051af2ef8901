-- ===== src/Lang/Lex/Literals.antt =====
-- Identifiers, numbers and the start of a string: what each takes from the source.
use scampi.Base.{
  ℕ, ◌+◌, ◌≤◌, ◌≡◌, refl, Bool, true, false, not, some, [], ◌∷◌, arith, ◌==◌, length, length-drop,
  take, inl, inr, Bytes, Bool-cases, Option-cases, bytes_eq, lookup, lookup-all,
}
use scampi.Lang.Token.{is_eof, keyword, keywords, int_lit}
use scampi.Lang.Lex.{
  Lexer, advance, run_length, scan_ident, is_ident_start, is_ident_cont, is_digit, next_is,
  skip_while,
}
use scampi.Lang.Lex.Numbers.{scan_number, scan_digits, end_number, bad_number, base_digits}
use scampi.Lang.Lex.Strings.{enter_string}
use scampi.Lang.Lex.Progress.{
  is_plain, AreOpen, Takes, run_length-le, run_length-pos, scan_segment-Takes, emit-Takes,
}

keyword-not_eof : (s : Bytes) → is_eof (keyword s) ≡ false
unfolding keyword
keyword-not_eof s = elim (Option-cases (lookup s keywords)) [
  | inl e ↦ rw (e) refl
  | inr (k, e) ↦ rw (e) (ground (arith, lookup-all (λ v. not (is_eof v)) s keywords k refl e))
]

module _ (l : Lexer) (c : ℕ) (r : Bytes) (at : l.rest ≡ c ∷ r) (p : is_plain l ≡ true) where
  pub scan_ident-Takes : is_ident_start c ≡ true → Takes 1 l (scan_ident l)
  unfolding scan_ident
  scan_ident-Takes h =
      let n = run_length is_ident_cont l.rest in
      let le = run_length-le is_ident_cont l.rest in
      let pos = run_length-pos is_ident_cont c r l.rest at (ground (arith, h)) in
      emit-Takes l 1 (keyword (take n l.rest)) l.pos (l.pos + n) (advance n l)
        (keyword-not_eof (take n l.rest)) (omega (arith, le, length-drop n l.rest))
        (omega (arith, le, pos, length-drop n l.rest)) p (λ o. o)

  pub enter_string-Takes : Takes 1 l (enter_string c l)
  enter_string-Takes =
      let t = scan_segment-Takes (advance 1 l) true (c == b'`') p in
      let size = length-drop 1 l.rest in
      record {
        kept = ground (arith, t.kept, size, at);
        lighter = ground (arith, t.lighter, size, at);
        not_eof = t.not_eof;
        waits = t.waits;
        frames = t.frames;
      }

  skipped :
      (q : ℕ → Bool) (m : Lexer)
      → (skip_while q m).pos + length (skip_while q m).rest ≡ m.pos + length m.rest
  skipped q m = omega (arith, run_length-le q m.rest, length-drop (run_length q m.rest) m.rest)

  skipped_le : (q : ℕ → Bool) (m : Lexer) → length (skip_while q m).rest ≤ length m.rest
  skipped_le q m = omega (arith, length-drop (run_length q m.rest) m.rest)

  module _ (m : Lexer) (kept : m.pos + length m.rest ≡ l.pos + length l.rest)
      (le : 1 + length m.rest ≤ length l.rest) (q : is_plain m ≡ true)
      (open_frames : AreOpen l.interp → AreOpen m.interp) where
    bad_number-Takes : Takes 1 l (bad_number l.pos m)
    bad_number-Takes = record {
      kept = kept;
      lighter = ground (arith, le, q);
      not_eof = refl;
      waits = λ h. ground (arith, h, q);
      frames = open_frames;
    }

  end_number-Takes :
      (m : Lexer)
      → m.pos + length m.rest ≡ l.pos + length l.rest
      → 1 + length m.rest ≤ length l.rest
      → is_plain m ≡ true
      → (AreOpen l.interp → AreOpen m.interp)
      → Takes 1 l (end_number l.pos m)
  end_number-Takes m kept le q open_frames = elim (Bool-cases (next_is is_ident_cont m.rest)) [
    | inl e ↦ rw (e) (
        bad_number-Takes (skip_while is_ident_cont m) (omega (arith, kept, skipped is_ident_cont m))
          (omega (arith, le, skipped_le is_ident_cont m)) q open_frames)
    | inr e ↦ rw (e) (emit-Takes l 1 int_lit l.pos m.pos m refl kept le q open_frames)
  ]

  scan_digits-Takes :
      (pred : ℕ → Bool) → 2 ≤ length l.rest → Takes 1 l (scan_digits l.pos pred (advance 2 l))
  scan_digits-Takes pred two =
      let m = skip_while pred (advance 2 l) in
      let kept : m.pos + length m.rest ≡ l.pos + length l.rest =
        omega (arith, skipped pred (advance 2 l), length-drop 2 l.rest, two) in
      let le : 1 + length m.rest ≤ length l.rest =
        omega (arith, skipped_le pred (advance 2 l), length-drop 2 l.rest, two) in
      elim (Bool-cases (m.pos == l.pos + 2)) [
        | inl e ↦ rw (e) (bad_number-Takes m kept le p (λ o. o))
        | inr e ↦ rw (e) (end_number-Takes m kept le p (λ o. o))
      ]

  base_digits-two : (x : Bytes) (f : ℕ → Bool) → base_digits x ≡ some f → 2 ≤ length x
  base_digits-two [] f e = cc
  base_digits-two (a ∷ []) f e = cc
  base_digits-two (a ∷ b ∷ x) f e = omega arith

  pub scan_number-Takes : is_digit c ≡ true → Takes 1 l (scan_number l)
  unfolding scan_number
  scan_number-Takes h = elim (Option-cases (base_digits l.rest)) [
    | inl e ↦
        let pos = run_length-pos is_digit c r l.rest at h in
        rw (e) (
          end_number-Takes (skip_while is_digit l) (skipped is_digit l)
            (omega (
              arith,
              pos,
              run_length-le is_digit l.rest,
              length-drop (run_length is_digit l.rest) l.rest,
            ))
            p (λ o. o))
    | inr (f, e) ↦ rw (e) (scan_digits-Takes f (base_digits-two l.rest f e))
  ]
