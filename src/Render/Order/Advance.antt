-- ===== src/Render/Order/Advance.antt =====
-- `RenderEvent` never runs out of fuel, and drops nothing.
use scampi.Base.{
  ℕ, zero, suc, ◌+◌, ◌≤◌, ◌<◌, ◌≡◌, ◌≢◌, refl, ap, sym, ◌∙◌, ◌&&◌, leb, ltb, lookup-delete,
  lookup-insert, inl, inr, Option, none, some, List, [], ◌∷◌, ◌++◌, arith, ◌==◌, if◌then◌else◌,
  length, lookup, insert, delete, nat_eq, Option-cases, ==_iff,
}
use scampi.Render.Order.{
  Event, result, StepBlock, Lane, Sequencer, collect, flush, flush_verdict, settled, Advanced,
  advance, store, render_event, or_new,
}

length-delete :
    {V : Type 0} (k : ℕ) (v : V) (m : List (ℕ × V))
    → (length (delete k m) ≤ length m) × (lookup k m ≡ some v → length (delete k m) < length m)
length-delete k v [] = (omega arith, λ e. cc)
length-delete k v (x ∷ m) =
    let (le, lt) = length-delete k v m in (ground (arith, le), λ e. ground (arith, le, lt, e))

settled-some : (o : Option StepBlock) (b : StepBlock) → settled o ≡ some b → o ≡ some b
settled-some none b e = cc
settled-some (some c) b e = by_verdict c.verdict refl e
  where
    by_verdict : (v : Option Event) → c.verdict ≡ v → settled (some c) ≡ some b → some c ≡ some b
    by_verdict v h e = ground (arith, h, e)

-- What the output has to see of a block: once it has a result, its changes in the order in which they
-- came, and the result behind them.
abbrev told_of : List Event → Option Event → List Event
told_of changes none = []
told_of changes (some e) = changes ++ e ∷ []

abbrev pub told : Option StepBlock → List Event
told none = []
told (some b) = told_of b.changes b.verdict

flush-told : (o : Option StepBlock) (b : StepBlock) → settled o ≡ some b → flush b ≡ told o
flush-told none b h = cc
flush-told (some c) b h = elim (Option-cases c.verdict) [
  | inl e ↦ absurd (ground (arith, h, e))
  | inr (v, e) ↦
      let same : b ≡ c = ground (arith, h, e) in
      ap flush same ∙ ap (λ o. c.changes ++ flush_verdict o) e ∙ ap (told_of c.changes) (sym e)
]

-- What the output has to see of the blocks at `c`, …, `c + n - 1`.
abbrev pub run_of : List (ℕ × StepBlock) → ℕ → ℕ → List Event
run_of m c zero = []
run_of m c (suc n) = told (lookup c m) ++ run_of m (suc c) n

run_of-delete :
    (m : List (ℕ × StepBlock)) (k c n : ℕ) → k < c → run_of (delete k m) c n ≡ run_of m c n
run_of-delete m k c zero lt = refl
run_of-delete m k c (suc n) lt =
    ap (λ b. told b ++ run_of (delete k m) (suc c) n) (other m k c lt)
    ∙ ap (λ es. told (lookup c m) ++ es) (run_of-delete m k (suc c) n (omega (arith, lt)))
  where
    other : (m : List (ℕ × StepBlock)) (k c : ℕ) → k < c → lookup c (delete k m) ≡ lookup c m
    other m k c lt = ground (arith, lookup-delete k c m, ==_iff k c, lt)

-- What a lane releases: the blocks at its cursor and right after it, in order, up to the first index
-- without a settled block; every other block is kept.
pub record Releases (l : Lane) (o : Option Advanced) : Type 0 where
  pub after : Advanced
  pub size : ℕ
  pub returned : o ≡ some after
  pub moved : after.lane.cursor ≡ l.cursor + size
  pub released : after.released ≡ run_of l.pending l.cursor size
  pub all_settled :
      (i : ℕ) → l.cursor ≤ i → i < l.cursor + size → settled (lookup i l.pending) ≢ none
  pub stops : settled (lookup after.lane.cursor after.lane.pending) ≡ none
  pub kept :
      (i : ℕ)
      → lookup i after.lane.pending
        ≡ (if leb l.cursor i && ltb i (l.cursor + size) then none else lookup i l.pending)

stay :
    (l : Lane)
    → settled (lookup l.cursor l.pending) ≡ none
    → Releases l (some (record { lane = l; released = [] }))
stay l e = record {
  after = record { lane = l; released = [] };
  size = 0;
  returned = refl;
  moved = omega arith;
  released = refl;
  all_settled = λ i a b. absurd (omega (arith, a, b));
  stops = e;
  kept = λ i. ground arith;
}

-- With as many turns as the lane has blocks, the loop of `advance` ends, and releases just that.
pub advance-Releases : (fuel : ℕ) (l : Lane) → length l.pending ≤ fuel → Releases l (advance fuel l)
unfolding advance
advance-Releases zero l le = elim (Option-cases (settled (lookup l.cursor l.pending))) [
  | inl e ↦ rw (advance, e) (stay l e)
  | inr (b, e) ↦ absurd (at_nothing l.pending l.cursor b le e)
]
  where
    at_nothing :
        (m : List (ℕ × StepBlock)) (c : ℕ) (b : StepBlock)
        → length m ≤ 0
        → settled (lookup c m) ≡ some b
        → ⊥
    at_nothing [] c b le e = cc
    at_nothing (x ∷ m) c b le e = omega (arith, le)
advance-Releases (suc fuel) l le = elim (Option-cases (settled (lookup l.cursor l.pending))) [
  | inl e ↦ rw (advance, e) (stay l e)
  | inr (b, e) ↦
      let there = settled-some (lookup l.cursor l.pending) b e in
      let next : Lane = record { cursor = suc l.cursor; pending = delete l.cursor l.pending } in
      let r =
        advance-Releases fuel next
          (ground (arith, le, (length-delete l.cursor b l.pending).1 there)) in
      rw (advance, e)
        (record {
          after = record { lane = r.after.lane; released = flush b ++ r.after.released };
          size = suc r.size;
          returned = ground (arith, r.returned);
          moved = omega (arith, r.moved);
          released =
              ap (λ es. flush b ++ es)
                (r.released ∙ run_of-delete l.pending l.cursor (suc l.cursor) r.size (omega arith))
              ∙ ap (λ es. es ++ run_of l.pending (suc l.cursor) r.size)
                  (flush-told (lookup l.cursor l.pending) b e);
          all_settled = λ i a b. ground (
            arith,
            e,
            r.all_settled i,
            a,
            b,
            lookup-delete l.cursor i l.pending,
            ==_iff l.cursor i,
          );
          stops = r.stops;
          kept =
              λ i. ground (arith, r.kept i, lookup-delete l.cursor i l.pending, ==_iff l.cursor i);
        })
]

-- The lane that a result is stored in, before anything is released.
abbrev pub with_result : ℕ → ℕ → ℕ → Sequencer → Lane
with_result ord idx tag s =
    collect idx (λ b. record b { verdict = some (result ord idx tag) })
      (or_new (lookup ord s.lanes))

-- `RenderEvent` returns on every result: after what was written before, it writes the settled blocks
-- at the lane's cursor and right after it, in the order of their indices and each with its changes before
-- its result, and it changes no other lane and no other block.
pub render_event-Releases :
    (ord idx tag : ℕ) (s : Sequencer)
    → let l = with_result ord idx tag s in
      (r : Releases l (advance (length l.pending) l)) × (s' : Sequencer) × (render_event
          (result ord idx tag)
          s
        ≡ some s')
      × (s'.out ≡ s.out ++ r.after.released)
      × ((j : ℕ) → lookup j s'.lanes ≡ (if ord == j then some r.after.lane else lookup j s.lanes))
unfolding render_event
render_event-Releases ord idx tag s =
    let l = with_result ord idx tag s in
    let r = advance-Releases (length l.pending) l (omega arith) in
    (
      r,
      record { out = s.out ++ r.after.released; lanes = insert ord r.after.lane s.lanes },
      ap (λ o. store ord o s) r.returned,
      refl,
      λ j. lookup-insert ord j r.after.lane s.lanes,
    )
