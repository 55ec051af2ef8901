-- ===== src/Engine/Cycles/Complete.antt =====
-- If `detectCycles` finds nothing, then there is nothing: the order in which nodes are finished
-- ranks every node above its neighbors.
use scampi.Base.{
  append-ne-nil, ℕ, zero, suc, ◌<◌, ◌≡◌, refl, inl, inr, Bool, true, false, not, ◌&&◌, Option, some,
  List, [], ◌∷◌, arith, if◌then◌else◌, update, contains, Bool-cases, Option-cases,
}
use scampi.Engine.Cycles.{
  Search, no_search, enter, leave, each, dfs, from_roots, detect_cycles, slice_from,
}

abbrev pub is_finished : Search → ℕ → Bool
is_finished s j = s.visited j && not (s.on_stack j)

-- The finished nodes, ranked by the time at which they were finished.
pub record Ranks (neighbors : ℕ → List ℕ) (s : Search) : Type 0 where
  pub rank : ℕ → ℕ
  pub clock : ℕ
  pub listed : (j : ℕ) → s.on_stack j ≡ true → contains s.stack j ≡ true
  pub seen : (j : ℕ) → s.on_stack j ≡ true → s.visited j ≡ true
  pub closed :
      (i j : ℕ)
      → is_finished s j ≡ true
      → contains (neighbors j) i ≡ true
      → (is_finished s i ≡ true) × (rank i < rank j)
  pub early : (j : ℕ) → is_finished s j ≡ true → rank j < clock

-- What a silent visit of the nodes `xs` does.
pub record IsSilent (neighbors : ℕ → List ℕ) (xs : List ℕ) (s t : Search) : Type 0 where
  pub before : s.cycles ≡ []
  pub ranks : Ranks neighbors s → Ranks neighbors t
  pub same_stack : t.stack ≡ s.stack
  pub same_on : Ranks neighbors s → (j : ℕ) → t.on_stack j ≡ s.on_stack j
  pub grows : (j : ℕ) → s.visited j ≡ true → t.visited j ≡ true
  pub done : Ranks neighbors s → (j : ℕ) → contains xs j ≡ true → is_finished t j ≡ true

module _ (neighbors : ℕ → List ℕ) where
  abbrev Visits : (ℕ → Search → Option Search) → Type 0
  Visits visit =
      (n : ℕ) (s t : Search) → visit n s ≡ some t → t.cycles ≡ [] → IsSilent neighbors (n ∷ []) s t

  each-IsSilent :
      (visit : ℕ → Search → Option Search)
      → Visits visit
      → (xs : List ℕ) (s t : Search) → each visit xs s ≡ some t
      → t.cycles ≡ []
      → IsSilent neighbors xs s t
  unfolding each
  each-IsSilent visit good [] s t e c =
      let same : s ≡ t = ground arith in
      rw (← same) (record {
        before = ground arith;
        ranks = λ r. r;
        same_stack = refl;
        same_on = λ r j. refl;
        grows = λ j h. h;
        done = λ r j h. cc;
      })
  each-IsSilent visit good (x ∷ xs) s t e c = elim (Option-cases (visit x s)) [
    | inl stuck ↦ absurd (ground arith)
    | inr (u, at) ↦
        let later = each-IsSilent visit good xs u t (ground arith) c in
        let first = good x s u at later.before in
        record {
          before = first.before;
          ranks = λ r. later.ranks (first.ranks r);
          same_stack = ground (arith, later.same_stack, first.same_stack);
          same_on = λ r j. ground (arith, later.same_on (first.ranks r) j, first.same_on r j);
          grows = λ j h. later.grows j (first.grows j h);
          done = λ r j h. ground (
            arith,
            later.done (first.ranks r) j,
            first.done r j,
            later.same_on (first.ranks r) j,
            later.grows j,
          );
        }
  ]

  -- The node `n` is entered, its neighbors are visited, and it is left.
  visit-IsSilent :
      (n : ℕ) (s u : Search)
      → s.visited n ≡ false
      → IsSilent neighbors (neighbors n) (enter n s) u
      → IsSilent neighbors (n ∷ []) s (leave n u)
  visit-IsSilent n s u fresh v = record {
    before = v.before;
    ranks = λ r. left r;
    same_stack = ground (arith, v.same_stack);
    same_on = λ r j. ground (arith, v.same_on (inside r) j, r.seen n);
    grows = λ j h. ground (arith, v.grows j);
    done = λ r j h. ground (arith, v.grows j);
  }
    where
      inside : Ranks neighbors s → Ranks neighbors (enter n s)
      inside r = record {
        rank = r.rank;
        clock = r.clock;
        listed = λ j h. ground (arith, r.listed j);
        seen = λ j h. ground (arith, r.seen j);
        closed = λ i j h e. ground (arith, r.closed i j, r.seen n);
        early = λ j h. ground (arith, r.early j);
      }

      left : Ranks neighbors s → Ranks neighbors (leave n u)
      left r =
          let w = v.ranks (inside r) in
          record {
            rank = update w.rank n w.clock;
            clock = suc w.clock;
            listed = λ j h. ground (arith, v.same_stack, w.listed j, v.same_on (inside r) j);
            seen = λ j h. ground (arith, w.seen j);
            closed = λ i j h e. ground (
              arith,
              w.closed i j,
              v.done (inside r) i,
              w.early i,
              w.early j,
              v.same_on (inside r) n,
              v.grows n,
            );
            early = λ j h. ground (arith, w.early j);
          }

  -- A node on the stack closes a cycle, so a silent visit does not come to one.
  dfs-IsSilent : (fuel : ℕ) → Visits (dfs neighbors fuel)
  unfolding dfs
  dfs-IsSilent zero n s t e c = cc
  dfs-IsSilent (suc fuel) n s t e c = elim (Bool-cases (s.on_stack n && contains s.stack n)) [
    | inl on ↦ absurd (append-ne-nil s.cycles (slice_from n s.stack (n ∷ [])) (ground arith))
    | inr off ↦ elim (Bool-cases (s.visited n)) [
      | inl old ↦
          let same : s ≡ t = ground arith in
          rw (← same) (record {
            before = ground arith;
            ranks = λ r. r;
            same_stack = refl;
            same_on = λ r j. refl;
            grows = λ j h. h;
            done = λ r j h. ground (arith, r.listed n);
          })
      | inr new ↦ elim (Option-cases (each (dfs neighbors fuel) (neighbors n) (enter n s))) [
        | inl stuck ↦ absurd (ground arith)
        | inr (u, at) ↦
            let same : leave n u ≡ t = ground arith in
            rw (← same) (
              visit-IsSilent n s u new (
                each-IsSilent (dfs neighbors fuel) (dfs-IsSilent fuel) (neighbors n) (enter n s) u
                  at (ground arith)))
      ]
    ]
  ]

  -- Between the roots nothing is on the stack.
  abbrev IsOff : Search → Type 0
  IsOff s = (j : ℕ) → s.on_stack j ≡ false

  record IsRooted (rs : List ℕ) (s t : Search) : Type 0 where
    before : s.cycles ≡ []
    ranks : Ranks neighbors s → IsOff s → Ranks neighbors t
    off : Ranks neighbors s → IsOff s → IsOff t
    grows : (j : ℕ) → s.visited j ≡ true → t.visited j ≡ true
    reached : Ranks neighbors s → IsOff s → (j : ℕ) → contains rs j ≡ true → t.visited j ≡ true

  root-IsRooted :
      (fuel n : ℕ) (s t : Search)
      → (if s.visited n then some s else dfs neighbors fuel n s) ≡ some t
      → t.cycles ≡ []
      → IsRooted (n ∷ []) s t
  root-IsRooted fuel n s t e c = elim (Bool-cases (s.visited n)) [
    | inl old ↦
        let same : s ≡ t = ground arith in
        rw (← same) (record {
          before = ground arith;
          ranks = λ r o. r;
          off = λ r o. o;
          grows = λ j h. h;
          reached = λ r o j h. ground arith;
        })
    | inr new ↦
        let v = dfs-IsSilent fuel n s t (ground arith) c in
        record {
          before = v.before;
          ranks = λ r o. v.ranks r;
          off = λ r o j. ground (arith, v.same_on r j, o j);
          grows = v.grows;
          reached = λ r o j h. ground (arith, v.done r j h);
        }
  ]

  from_roots-IsRooted :
      (fuel : ℕ) (rs : List ℕ) (s t : Search)
      → from_roots neighbors fuel rs s ≡ some t
      → t.cycles ≡ []
      → IsRooted rs s t
  unfolding from_roots
  from_roots-IsRooted fuel [] s t e c =
      let same : s ≡ t = ground arith in
      rw (← same) (record {
        before = ground arith;
        ranks = λ r o. r;
        off = λ r o. o;
        grows = λ j h. h;
        reached = λ r o j h. cc;
      })
  from_roots-IsRooted fuel (x ∷ xs) s t e c =
      elim (Option-cases (if s.visited x then some s else dfs neighbors fuel x s)) [
        | inl stuck ↦ absurd (ground arith)
        | inr (u, at) ↦
            let later = from_roots-IsRooted fuel xs u t (ground arith) c in
            let first = root-IsRooted fuel x s u at later.before in
            record {
              before = first.before;
              ranks = λ r o. later.ranks (first.ranks r o) (first.off r o);
              off = λ r o. later.off (first.ranks r o) (first.off r o);
              grows = λ j h. later.grows j (first.grows j h);
              reached = λ r o j h. ground (
                arith,
                first.reached r o j,
                later.grows j,
                later.reached (first.ranks r o) (first.off r o) j,
              );
            }
      ]

-- If the search reports no cycle, then the nodes have a rank in which every root stands above each
-- of its neighbors.
pub detect_cycles-nil :
    (bound : ℕ) (roots : List ℕ) (neighbors : ℕ → List ℕ)
    → detect_cycles bound roots neighbors ≡ some []
    → (rank : ℕ → ℕ) × ((i j : ℕ)
        → contains roots j ≡ true
        → contains (neighbors j) i ≡ true
        → rank i < rank j)
unfolding detect_cycles
detect_cycles-nil bound roots neighbors e =
    elim (Option-cases (from_roots neighbors (suc bound) roots no_search)) [
      | inl stuck ↦ absurd (ground arith)
      | inr (t, at) ↦
          let v = from_roots-IsRooted neighbors (suc bound) roots no_search t at (ground arith) in
          let r = v.ranks start (λ j. refl) in
          (
            r.rank,
            λ i j root edge.
                let seen = v.reached start (λ j. refl) j root in
                let off = v.off start (λ j. refl) j in (r.closed i j (ground arith) edge).1,
          )
    ]
  where
    start : Ranks neighbors no_search
    start = record {
      rank = λ j. 0;
      clock = 0;
      listed = λ j h. cc;
      seen = λ j h. cc;
      closed = λ i j h. cc;
      early = λ j h. cc;
    }
