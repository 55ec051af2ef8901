-- ===== src/Lang/Lex/Scanning.antt =====
-- What one token takes from the source, whatever its first byte is.
use scampi.Base.{
  ℕ, suc, ◌+◌, ◌≤◌, ◌≡◌, refl, subst, true, false, not, ◌&&◌, ◌||◌, Option, none, some, List, [],
  ◌∷◌, arith, ◌==◌, length, length-drop, inl, inr, Bytes, Bool-cases, lookup, lookup-all, nat_eq,
  ltb,
}
use scampi.Lang.Token.{Kind, is_eof, illegal, ends_statement}
use scampi.Lang.Lex.{Lexer, InterpFrame, add_err, invalid_char, advance, is_ident_start, is_digit}
use scampi.Lang.Lex.Punct.{
  peek, frame_byte, single_bytes, double_bytes, double_kind, either_kind, of_length, scan_framed,
  punct_kind, emit_punct, punct_or, scan_punct,
}
use scampi.Lang.Lex.Next.{scan_byte, scan_unknown}
use scampi.Lang.Lex.Literals.{scan_ident-Takes, scan_number-Takes, enter_string-Takes}
use scampi.Lang.Lex.Progress.{AreOpen, Takes, is_plain, emit-Takes}

-- A punctuation token takes one byte or two.
abbrev IsPunct : (r : Bytes) (k : Kind) (n : ℕ) → Type 0
IsPunct r k n = (1 ≤ n) × (n ≤ suc (length r)) × (is_eof k ≡ false)

single-IsPunct :
    (r : Bytes) (o : Option Kind) (k : Kind) (n : ℕ)
    → ((v : Kind) → o ≡ some v → is_eof v ≡ false)
    → of_length 1 o ≡ some (k, n)
    → IsPunct r k n
single-IsPunct r none k n fine e = cc
single-IsPunct r (some v) k n fine e = ground (arith, fine v refl, e)

double-IsPunct :
    (r : Bytes) (s : ℕ) (v : Kind) (o : Option Kind) (k : Kind) (n : ℕ)
    → (not (is_eof v) && ltb 0 s) ≡ true
    → ((w : Kind) → o ≡ some w → is_eof w ≡ false)
    → either_kind (double_kind (some (s, v)) (peek r)) o ≡ some (k, n)
    → IsPunct r k n
double-IsPunct [] s v o k n pos fine e = elim (Bool-cases (0 == s)) [
  | inl a ↦ absurd (ground (arith, a, pos))
  | inr a ↦ single-IsPunct [] o k n fine (rw (a) at e)
]
double-IsPunct (x ∷ r) s v o k n pos fine e = elim (Bool-cases (x == s)) [
  | inl a ↦ ground (arith, a, pos, e)
  | inr a ↦ single-IsPunct (x ∷ r) o k n fine (rw (a) at e)
]

punct_kind-IsPunct :
    (c : ℕ) (r : Bytes) (k : Kind) (n : ℕ) → punct_kind c (peek r) ≡ some (k, n) → IsPunct r k n
punct_kind-IsPunct c r k n e = by_double (lookup c double_bytes) refl
  where
    fine : (v : Kind) → lookup c single_bytes ≡ some v → is_eof v ≡ false
    fine v b = ground (arith, lookup-all (λ v. not (is_eof v)) c single_bytes v refl b)

    by_double : (o : Option (ℕ × Kind)) → lookup c double_bytes ≡ o → IsPunct r k n
    by_double none a = single-IsPunct r (lookup c single_bytes) k n fine (
        subst (λ o. either_kind (double_kind o (peek r)) (lookup c single_bytes) ≡ some (k, n)) a e)
    by_double (some (s, v)) a =
        double-IsPunct r s v (lookup c single_bytes) k n
          (lookup-all (λ v. not (is_eof v.1) && ltb 0 v.0) c double_bytes (s, v) refl a) fine
          (subst (λ o. either_kind (double_kind o (peek r)) (lookup c single_bytes) ≡ some (k, n)) a
            e)

module _ (l : Lexer) (c : ℕ) (r : Bytes) (at : l.rest ≡ c ∷ r) (p : is_plain l ≡ true) where
  scan_unknown-Takes :
      (m : Lexer)
      → m.rest ≡ l.rest
      → m.pos ≡ l.pos
      → is_plain m ≡ true
      → (AreOpen l.interp → AreOpen m.interp)
      → Takes 1 l (scan_unknown m)
  scan_unknown-Takes m same_rest same_pos q open_frames =
      emit-Takes l 1 illegal m.pos (m.pos + 1)
        (add_err invalid_char m.pos (m.pos + 1) (advance 1 m)) refl
        (ground (arith, same_rest, same_pos, at, length-drop 1 m.rest))
        (ground (arith, same_rest, at, length-drop 1 m.rest)) q open_frames

  punct_or-Takes :
      (m : Lexer)
      → m.rest ≡ l.rest
      → m.pos ≡ l.pos
      → is_plain m ≡ true
      → (AreOpen l.interp → AreOpen m.interp)
      → Takes 1 l (punct_or c (peek r) scan_unknown m)
  punct_or-Takes m same_rest same_pos q open_frames = by_kind (punct_kind c (peek r)) refl
    where
      by_kind :
          (o : Option (Kind × ℕ))
          → punct_kind c (peek r) ≡ o
          → Takes 1 l (elim (emit_punct o m) [ some t ↦ t | none ↦ scan_unknown m ])
      by_kind none e = scan_unknown-Takes m same_rest same_pos q open_frames
      by_kind (some (k, n)) e =
          let (pos, le, fine) = punct_kind-IsPunct c r k n e in
          emit-Takes l 1 k m.pos (m.pos + n) (advance n m) fine
            (ground (arith, same_rest, same_pos, at, le, length-drop n m.rest))
            (ground (arith, same_rest, at, pos, le, length-drop n m.rest)) q open_frames

  scan_punct-Takes : Takes 1 l (scan_punct c r scan_unknown l)
  unfolding scan_punct ends_statement
  scan_punct-Takes = by_frames l.interp refl
    where
      by_frames :
          (fs : List InterpFrame)
          → l.interp ≡ fs
          → Takes 1 l (scan_framed c (peek r) scan_unknown (frame_byte c fs l))
      by_frames [] e = punct_or-Takes l refl refl p (λ o. o)
      by_frames (f ∷ fs) e = elim (Bool-cases (c == b'{')) [
        | inl a ↦ rw (a) (punct_or-Takes _ refl refl p (λ o. (omega arith, (subst AreOpen e o).1)))
        | inr a ↦ elim (Bool-cases (c == b'}')) [
          | inr b ↦ rw (a, b) (punct_or-Takes l refl refl p (λ o. o))
          | inl b ↦ elim (Bool-cases (f.braces == 1)) [
            | inr d ↦
                rw (a, b, d)
                  (punct_or-Takes _ refl refl p
                    (λ o. let (here, rest) = subst AreOpen e o in (ground (arith, here, d), rest)))
            | inl d ↦
                rw (a, b, d)
                  (record {
                    kept = ground (arith, at, length-drop 1 l.rest);
                    lighter = ground (arith, at, length-drop 1 l.rest, p);
                    not_eof = refl;
                    waits = λ h. ground (arith, h, p);
                    frames = λ o. (subst AreOpen e o).1;
                  })
          ]
        ]
      ]

  pub scan_byte-Takes : Takes 1 l (scan_byte c r l)
  scan_byte-Takes = elim (Bool-cases (is_ident_start c)) [
    | inl a ↦ rw (a) (scan_ident-Takes l c r at p a)
    | inr a ↦ elim (Bool-cases (is_digit c)) [
      | inl b ↦ rw (a, b) (scan_number-Takes l c r at p b)
      | inr b ↦ elim (Bool-cases (c == b'"' || c == b'`')) [
        | inl d ↦ rw (a, b, d) (enter_string-Takes l c r at p)
        | inr d ↦ rw (a, b, d) scan_punct-Takes
      ]
    ]
  ]
