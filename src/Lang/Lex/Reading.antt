-- ===== src/Lang/Lex/Reading.antt =====
-- `Next` returns a token for every state of the lexer, and brings the end of the file nearer.
use scampi.Lang.Lex.Strings.{scan_segment}
use scampi.Lang.Lex.Skipping.{Skips, token, clear, skip_blanks-Skips}
use scampi.Lang.Lex.Scanning.{scan_byte-Takes}
use scampi.Base.{
  ℕ, zero, suc, ◌+◌, ◌*◌, ◌≤◌, ◌<◌, ◌≡◌, refl, ◌∙◌, sym, subst, true, false, some, List, [], ◌∷◌,
  arith, length, inl, inr, Bytes, Bool-cases, nat_eq,
}
use scampi.Lang.Token.{Token, is_eof, eof, ends_statement}
use scampi.Lang.Lex.{Lexer, new_lexer, u32}
use scampi.Lang.Lex.Blanks.{skip_blanks}
use scampi.Lang.Lex.Next.{next, scan_byte, at_end}
use scampi.Lang.Lex.Progress.{IsWaiting, AreOpen, measure, is_plain, scan_segment-Takes}

abbrev pub IsFinal : Lexer → Type 0
IsFinal m = (m.rest ≡ []) × (m.prev ≡ eof) × (is_plain m ≡ true)

-- What a call of `Next` comes to.
pub record Reads (l : Lexer) : Type 0 where
  pub tok : Token
  pub after : Lexer
  pub returned : next l ≡ some (tok, after)
  pub kept : after.pos + length after.rest ≡ l.pos + length l.rest
  pub falls : is_eof tok.kind ≡ false → measure after < measure l
  pub waits : IsWaiting after
  pub frames : AreOpen after.interp
  pub final : is_eof tok.kind ≡ true → IsFinal after

-- In every state in which only the start of an interpolation may wait and every interpolation has a
-- brace that is not closed, `Next` returns a token and keeps this so, the position keeps step with the source, and what is left to read has become less; or the token is the
-- end of the file, and the source is read to its end.
pub next-Reads : (l : Lexer) → IsWaiting l → AreOpen l.interp → Reads l
unfolding next
next-Reads l w o = elim (Bool-cases l.has_pending) [
  | inl a ↦ record {
    tok = l.pending;
    after = record l { has_pending = false };
    returned = rw (a) refl;
    kept = refl;
    falls = λ e. ground (arith, a);
    waits = λ h. cc;
    frames = o;
    final = λ e. absurd (ground (arith, e, w a));
  }
  | inr a ↦ elim (Bool-cases l.resuming_string) [
    | inl b ↦
        let m : Lexer = record l { resuming_string = false; resuming_multi = false } in
        let t = scan_segment-Takes m false l.resuming_multi (ground (arith, a)) in
        record {
          tok = (scan_segment false l.resuming_multi m).0;
          after = (scan_segment false l.resuming_multi m).1;
          returned = rw (a, b) refl;
          kept = t.kept;
          falls = λ e. ground (arith, t.lighter, a, b);
          waits = t.waits;
          frames = t.frames o;
          final = λ e. absurd (ground (arith, e, t.not_eof));
        }
    | inr b ↦
        by_skip a b (skip_blanks-Skips (suc (length l.rest)) l (ground (arith, a, b)) (omega arith))
  ]
]
  where
    by_skip :
        l.has_pending ≡ false
        → l.resuming_string ≡ false
        → Skips l (skip_blanks (suc (length l.rest)) l)
        → Reads l
    by_skip a b (token tok m e t) = record {
      tok = tok;
      after = m;
      returned = unfold next in ground (arith, a, b, e);
      kept = t.kept;
      falls = λ h. ground (arith, t.lighter, t.kept, a, b);
      waits = t.waits;
      frames = t.frames o;
      final = λ e. absurd (ground (arith, e, t.not_eof));
    }
    by_skip a b (clear m e kept le same same_frames q) = by_rest m.rest refl
      where
        by_rest : (r : Bytes) → m.rest ≡ r → Reads l
        by_rest [] at = record {
          tok = (at_end m).0;
          after = (at_end m).1;
          returned = unfold next in ground (arith, a, b, e, at);
          kept = ground (arith, kept);
          falls = λ h. unfold ends_statement in ground (arith, h, a, b, q, same, le);
          waits = λ h. ground (arith, h, q);
          frames = ground (arith, subst AreOpen (sym same_frames) o);
          final = λ h. ground (arith, h, q, at);
        }
        by_rest (c ∷ r) at =
            let t = scan_byte-Takes m c r at q in
            record {
              tok = (scan_byte c r m).0;
              after = (scan_byte c r m).1;
              returned = unfold next in ground (arith, a, b, e, at);
              kept = t.kept ∙ kept;
              falls = λ h. ground (arith, t.lighter, le, a, b);
              waits = t.waits;
              frames = t.frames (subst AreOpen (sym same_frames) o);
              final = λ e. absurd (ground (arith, e, t.not_eof));
            }

-- At the end of the file `Next` returns its token for ever.
pub next-eof :
    (m : Lexer)
    → IsFinal m
    → next m ≡ some (record { kind = eof; pos = u32 m.pos; end = u32 m.pos }, m)
unfolding next skip_blanks ends_statement
next-eof m f = ground (arith, f)

-- The tokens up to the end of the file, as calls of `Next` return them.
pub data Stream : Lexer → List Token → Lexer → Type 0 where
  last :
      {l : Lexer} (tok : Token) (m : Lexer)
      → next l ≡ some (tok, m)
      → is_eof tok.kind ≡ true
      → Stream l (tok ∷ []) m
  more :
      {l : Lexer} (tok : Token) (toks : List Token) (m n : Lexer)
      → next l ≡ some (tok, m)
      → is_eof tok.kind ≡ false
      → Stream m toks n
      → Stream l (tok ∷ toks) n

pub record IsLexed (l : Lexer) : Type 0 where
  pub toks : List Token
  pub after : Lexer
  pub stream : Stream l toks after
  pub length_le : length toks ≤ suc (measure l)
  pub final : IsFinal after
  pub kept : after.pos ≡ l.pos + length l.rest

lexed : (fuel : ℕ) (l : Lexer) → measure l < fuel → IsWaiting l → AreOpen l.interp → IsLexed l
lexed zero l lt w o = absurd (omega arith)
lexed (suc fuel) l lt w o =
    let r = next-Reads l w o in
    elim (Bool-cases (is_eof r.tok.kind)) [
      | inl e ↦ record {
        toks = r.tok ∷ [];
        after = r.after;
        stream = last r.tok r.after r.returned e;
        length_le = omega arith;
        final = r.final e;
        kept = ground (arith, r.final e, r.kept);
      }
      | inr e ↦
          let rest = lexed fuel r.after (omega (arith, r.falls e, lt)) r.waits r.frames in
          record {
            toks = r.tok ∷ rest.toks;
            after = rest.after;
            stream = more r.tok rest.toks r.after rest.after r.returned e rest.stream;
            length_le = ground (arith, rest.length_le, r.falls e);
            final = rest.final;
            kept = rest.kept ∙ r.kept;
          }
    ]

-- For every source, calls of `Next` on a new lexer come to the end of the file, at its last position
-- and after at most four calls for each byte and one more; from then on `Next` returns that token.
pub new_lexer-IsLexed :
    (src : Bytes)
    → (toks : List Token) × (m : Lexer) × Stream (new_lexer src) toks m
      × (length toks ≤ 4 * length src + 1)
      × (m.pos ≡ length src)
      × (next m ≡ some (record { kind = eof; pos = u32 m.pos; end = u32 m.pos }, m))
new_lexer-IsLexed src =
    let r = lexed (suc (measure (new_lexer src))) (new_lexer src) (omega arith) (λ h. cc) tt in
    (
      r.toks,
      r.after,
      r.stream,
      unfold ends_statement in ground (arith, r.length_le),
      ground (arith, r.kept),
      next-eof r.after r.final,
    )
