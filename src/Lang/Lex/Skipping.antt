-- ===== src/Lang/Lex/Skipping.antt =====
-- The loop over blanks ends, and takes what it passes over.
use scampi.Base.{
  ℕ, zero, suc, ◌+◌, ◌≤◌, ◌<◌, ◌≡◌, refl, ◌∙◌, sym, subst, Bool, true, false, not, ◌||◌, Option,
  none, some, [], ◌∷◌, arith, ◌==◌, if◌then◌else◌, length, length-drop, drop, inl, inr, Bytes,
  Bool-cases, nat_eq,
}
use scampi.Lang.Token.{Token, semi}
use scampi.Lang.Lex.{Lexer, emit, run_length}
use scampi.Lang.Lex.Blanks.{
  scan_block, Turn, again, halt, halt_with, turn, slash_turn, block_comment, line_comment, newline,
  at_statement, skip_blanks,
}
use scampi.Lang.Lex.Progress.{AreOpen, Takes, is_plain, run_length-le}

scan_block-le : (d : ℕ) (saw : Bool) (r : Bytes) → (scan_block d saw r).count ≤ length r
unfolding scan_block
scan_block-le zero saw r = omega arith
scan_block-le (suc d) saw [] = omega arith
scan_block-le (suc d) saw (c ∷ []) = ground (arith)
scan_block-le (suc d) saw (c ∷ n ∷ r) = ground (
  arith,
  scan_block-le (suc (suc d)) saw r,
  scan_block-le d saw r,
  scan_block-le (suc d) (saw || c == b'\n') (n ∷ r),
)

-- The loop over blanks goes on with less of the source and the same state.
record Onward (l m : Lexer) : Type 0 where
  kept : m.pos + length m.rest ≡ l.pos + length l.rest
  fewer : length m.rest < length l.rest
  same_prev : m.prev ≡ l.prev
  same_interp : m.interp ≡ l.interp
  plain : is_plain m ≡ is_plain l

abbrev IsTurn : Lexer → Turn → Type 0
IsTurn l (again m) = Onward l m
IsTurn l (halt none m) = m ≡ l
IsTurn l (halt (some tok) m) = Takes 1 l (tok, m)

module _ (l : Lexer) (p : is_plain l ≡ true) where
  ended_comment-IsTurn :
      (b : Bool) (m : Lexer)
      → Onward l m
      → IsTurn l (if b then halt_with (emit semi m.pos m.pos m) else again m)
  ended_comment-IsTurn true m o = record {
    kept = o.kept;
    lighter = ground (arith, o.fewer, o.plain, p);
    not_eof = refl;
    waits = λ h. ground (arith, h, o.plain, p);
    frames = λ h. subst AreOpen (sym o.same_interp) h;
  }
  ended_comment-IsTurn false m o = o

  block_comment-IsTurn : 2 ≤ length l.rest → IsTurn l (block_comment l)
  block_comment-IsTurn two =
      let le = scan_block-le 1 false (drop 2 l.rest) in
      let size = length-drop 2 l.rest in
      let size' = length-drop (scan_block 1 false (drop 2 l.rest)).count (drop 2 l.rest) in
      ended_comment-IsTurn _ _ (record {
        kept = ground (arith, le, size, size', two);
        fewer = ground (arith, le, size, size', two);
        same_prev = ground arith;
        same_interp = ground arith;
        plain = ground arith;
      })

  line_comment-IsTurn : 2 ≤ length l.rest → IsTurn l (line_comment l)
  line_comment-IsTurn two =
      let q : ℕ → Bool = λ c. not (c == b'\n') in
      let le = run_length-le q (drop 2 l.rest) in
      let size = length-drop 2 l.rest in
      let size' = length-drop (run_length q (drop 2 l.rest)) (drop 2 l.rest) in
      record {
        kept = omega (arith, le, size, size', two);
        fewer = omega (arith, le, size, size', two);
        same_prev = refl;
        same_interp = refl;
        plain = refl;
      }

  newline-IsTurn : 1 ≤ length l.rest → IsTurn l (newline l)
  newline-IsTurn one = elim (Bool-cases (at_statement l)) [
    | inl e ↦ rw (e) (record {
      kept = omega (arith, one, length-drop 1 l.rest);
      lighter = ground (arith, one, length-drop 1 l.rest, p);
      not_eof = refl;
      waits = λ h. ground (arith, h, p);
      frames = λ o. o;
    })
    | inr e ↦ rw (e) (record {
      kept = omega (arith, one, length-drop 1 l.rest);
      fewer = omega (arith, one, length-drop 1 l.rest);
      same_prev = refl;
      same_interp = refl;
      plain = refl;
    })
  ]

  turn-IsTurn : IsTurn l (turn l.rest l)
  turn-IsTurn = by_rest l.rest refl
    where
      by_slash : (r : Bytes) → l.rest ≡ b'/' ∷ r → IsTurn l (slash_turn r l)
      by_slash [] e = refl
      by_slash (n ∷ r) e = elim (Bool-cases (n == b'/')) [
        | inl a ↦ rw (a) (line_comment-IsTurn (rw (e) (omega arith)))
        | inr a ↦ elim (Bool-cases (n == b'*')) [
          | inl b ↦ rw (a, b) (block_comment-IsTurn (rw (e) (omega arith)))
          | inr b ↦ rw (a, b) refl
        ]
      ]

      by_rest : (r : Bytes) → l.rest ≡ r → IsTurn l (turn r l)
      by_rest [] e = refl
      by_rest (c ∷ r) e = elim (Bool-cases (c == b' ' || (c == b'\t' || c == b'\r'))) [
        | inl a ↦ rw (a) (record {
          kept = ground (arith, e, length-drop 1 l.rest);
          fewer = ground (arith, e, length-drop 1 l.rest);
          same_prev = refl;
          same_interp = refl;
          plain = refl;
        })
        | inr a ↦ elim (Bool-cases (c == b'\n')) [
          | inl b ↦ rw (a, b) (newline-IsTurn (rw (e) (omega arith)))
          | inr b ↦ elim (Bool-cases (c == b'/')) [
            | inl d ↦ rw (a, b, d) (by_slash r (ground (arith, e, d)))
            | inr d ↦ rw (a, b, d) refl
          ]
        ]
      ]

-- What the loop over blanks comes to: a token, or a state with no blank before it.
pub data Skips (l : Lexer) (o : Option (Option Token × Lexer)) : Type 0 where
  token : (tok : Token) (m : Lexer) → o ≡ some (some tok, m) → Takes 1 l (tok, m) → Skips l o
  clear :
      (m : Lexer)
      → o ≡ some (none, m)
      → m.pos + length m.rest ≡ l.pos + length l.rest
      → length m.rest ≤ length l.rest
      → m.prev ≡ l.prev
      → m.interp ≡ l.interp
      → is_plain m ≡ true
      → Skips l o

pub skip_blanks-Skips :
    (fuel : ℕ) (l : Lexer) → is_plain l ≡ true → length l.rest < fuel → Skips l (skip_blanks fuel l)
unfolding skip_blanks
skip_blanks-Skips zero l p lt = absurd (omega arith)
skip_blanks-Skips (suc fuel) l p lt =
    by_turn (λ m q b. skip_blanks-Skips fuel m q b) (turn l.rest l) refl (turn-IsTurn l p)
  where
    onward : (m : Lexer) (o : Option (Option Token × Lexer)) → Onward l m → Skips m o → Skips l o
    onward m o w (token tok k e t) = token tok k e (record {
      kept = omega (arith, t.kept, w.kept);
      lighter = omega (arith, t.lighter, w.fewer);
      not_eof = t.not_eof;
      waits = t.waits;
      frames = λ o. t.frames (subst AreOpen (sym w.same_interp) o);
    })
    onward m o w (clear k e kept le same same_frames q) =
        clear k e (omega (arith, kept, w.kept)) (omega (arith, le, w.fewer)) (same ∙ w.same_prev)
          (same_frames ∙ w.same_interp) q

    by_turn :
        ((m : Lexer) → is_plain m ≡ true → length m.rest < fuel → Skips m (skip_blanks fuel m))
        → (t : Turn) → turn l.rest l ≡ t
        → IsTurn l t
        → Skips l (skip_blanks (suc fuel) l)
    by_turn ih (again m) e w =
        rw (skip_blanks, e)
          (onward m (skip_blanks fuel m) w (ih m (w.plain ∙ p) (omega (arith, w.fewer, lt))))
    by_turn ih (halt none m) e w =
        clear l (rw (skip_blanks, e) (rw (w) refl)) refl (omega arith) refl refl p
    by_turn ih (halt (some tok) m) e w = token tok m (rw (skip_blanks, e) refl) w
