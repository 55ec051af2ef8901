-- ===== src/Lang/Lex/Progress.antt =====
-- What the scanners of a token take from the source, and that none of them returns the end of file.
use scampi.Base.{
  List, All, ℕ, ◌+◌, ◌*◌, ◌≤◌, ◌<◌, ◌≡◌, refl, Bool, true, false, not, ◌&&◌, [], ◌∷◌, ◌++◌, arith,
  if◌then◌else◌, length, length-drop, drop, Bytes, bytes_eq,
}
use scampi.Lang.Token.{Kind, Token, is_eof, ends_statement, linterp}
use scampi.Lang.Lex.{InterpFrame, Lexer, advance, emit, run_length}
use scampi.Lang.Lex.Strings.{
  SegmentEnd, at_interp, at_closer, at_newline, at_source_end, scan_text, end_segment, scan_segment,
  branch, Branch,
}

abbrev pub bit : Bool → ℕ
bit b = if b then 1 else 0

-- What stands between the lexer and the end of the file.
abbrev pub measure : Lexer → ℕ
measure l =
    4 * length l.rest + bit (ends_statement l.prev) + bit l.has_pending + 2 * bit l.resuming_string

-- No token waits, and no string is to be resumed.
abbrev pub is_plain : Lexer → Bool
is_plain l = not l.has_pending && not l.resuming_string

-- A token that waits is the start of an interpolation.
abbrev pub IsWaiting : Lexer → Type 0
IsWaiting l = l.has_pending ≡ true → l.pending.kind ≡ linterp

-- Every frame has a brace that is not closed.
abbrev pub AreOpen : List InterpFrame → Type 0
AreOpen fs = All (λ f. 0 < f.braces) fs

-- A scanner's result: it has taken `n` bytes or more, and the position has kept step.
pub record Takes (n : ℕ) (l : Lexer) (r : Token × Lexer) : Type 0 where
  pub kept : r.1.pos + length r.1.rest ≡ l.pos + length l.rest
  pub lighter : 3 * n + measure r.1 ≤ 4 * length l.rest + 1
  pub not_eof : is_eof r.0.kind ≡ false
  pub waits : IsWaiting r.1
  pub frames : AreOpen l.interp → AreOpen r.1.interp

pub run_length-le : (p : ℕ → Bool) (r : Bytes) → run_length p r ≤ length r
unfolding run_length
run_length-le p [] = omega arith
run_length-le p (c ∷ r) = ground (arith, run_length-le p r)

pub run_length-pos :
    (p : ℕ → Bool) (c : ℕ) (r rest : Bytes) → rest ≡ c ∷ r → p c ≡ true → 0 < run_length p rest
unfolding run_length
run_length-pos p c r rest e h = ground (arith, e, h)

-- How many bytes the end of a segment takes.
abbrev pub end_length : SegmentEnd → ℕ
end_length at_interp = 2
end_length at_closer = 1
end_length _ = 0

pub scan_text-le :
    (multi : Bool) (pos : ℕ) (r : Bytes)
    → (scan_text multi pos r).count + end_length (scan_text multi pos r).ending ≤ length r
unfolding scan_text
scan_text-le multi pos [] = omega arith
scan_text-le multi pos (c ∷ []) = by_branch (branch multi c) refl
  where
    by_branch :
        (b : Branch)
        → branch multi c ≡ b
        → (scan_text multi pos (c ∷ [])).count + end_length (scan_text multi pos (c ∷ [])).ending
          ≤ 1
    by_branch b e = ground (arith, e)
scan_text-le multi pos (c ∷ n ∷ r) =
    ground (arith, scan_text-le multi (pos + 2) r, scan_text-le multi (pos + 1) (n ∷ r))

module _ (l : Lexer) where
  pub emit-Takes :
      (n : ℕ) (k : Kind) (start end : ℕ) (m : Lexer)
      → is_eof k ≡ false
      → m.pos + length m.rest ≡ l.pos + length l.rest
      → n + length m.rest ≤ length l.rest
      → is_plain m ≡ true
      → (AreOpen l.interp → AreOpen m.interp)
      → Takes n l (emit k start end m)
  emit-Takes n k start end m e kept le p open_frames = record {
    kept = kept;
    lighter = ground (arith, le, p);
    not_eof = e;
    waits = λ h. ground (arith, h, p);
    frames = open_frames;
  }

  pub scan_segment-Takes :
      (fresh multi : Bool) → is_plain l ≡ true → Takes 0 l (scan_segment fresh multi l)
  unfolding scan_segment
  scan_segment-Takes fresh multi p =
      let le = scan_text-le multi l.pos l.rest in
      let t = scan_text multi l.pos l.rest in by_ending t.ending t.count le
    where
      by_ending :
          (e : SegmentEnd) (n : ℕ)
          → n + end_length e ≤ length l.rest
          → Takes 0 l (
              end_segment e fresh multi l.pos
                (record (advance n l) { errs = l.errs ++ (scan_text multi l.pos l.rest).errs }))
      by_ending at_interp n le = record {
        kept = ground (arith, le, length-drop n l.rest, length-drop 2 (drop n l.rest));
        lighter = ground (arith, le, length-drop n l.rest, length-drop 2 (drop n l.rest), p);
        not_eof = ground arith;
        waits = λ h. ground (arith, h, p);
        frames = λ o. (omega arith, o);
      }
      by_ending at_closer n le = record {
        kept = ground (arith, le, length-drop n l.rest, length-drop 1 (drop n l.rest));
        lighter = ground (arith, le, length-drop n l.rest, length-drop 1 (drop n l.rest), p);
        not_eof = ground arith;
        waits = λ h. ground (arith, h, p);
        frames = λ o. o;
      }
      by_ending at_newline n le = record {
        kept = ground (arith, le, length-drop n l.rest);
        lighter = ground (arith, le, length-drop n l.rest, p);
        not_eof = ground arith;
        waits = λ h. ground (arith, h, p);
        frames = λ o. o;
      }
      by_ending at_source_end n le = record {
        kept = ground (arith, le, length-drop n l.rest);
        lighter = ground (arith, le, length-drop n l.rest, p);
        not_eof = ground arith;
        waits = λ h. ground (arith, h, p);
        frames = λ o. o;
      }
