-- ===== src/Engine/Deploys/Depths.antt =====
-- `depthOf` on deps that are ranked: its fuel is enough, and a node is deeper than its deps.
use scampi.Base.{
  ℕ, zero, suc, ◌+◌, ◌≤◌, ◌<◌, ◌≡◌, refl, subst, ◌∙◌, inl, inr, true, Option, none, some, List, [],
  ◌∷◌, ◌==◌, ltb, if◌then◌else◌, update, contains, arith, Bool-cases, Option-cases, sum_below,
  sum_below-le, sum_below-strict,
}
use scampi.Engine.Deploys.{Memo, if_some, deepest, depth_of, max_depth}
use scampi.Engine.Deploys.Rounds.{IsRanking}

module _ (deps : ℕ → List ℕ) where
  -- Each dep of a node with a depth has a smaller one.
  abbrev pub IsDeep : Memo → Type 0
  IsDeep memo =
      (j d i : ℕ)
      → memo j ≡ some d
      → contains (deps j) i ≡ true
      → (c : ℕ) × (memo i ≡ some c) × (c < d)

  module _ (bound : ℕ) (rank : ℕ → ℕ) (ranked : IsRanking deps bound rank)
      (inside : (j i : ℕ) → contains (deps j) i ≡ true → i < bound) where
    -- How many nodes are ranked below `n`.
    abbrev pub lower : ℕ → ℕ
    lower n = sum_below (λ j. if ltb (rank j) (rank n) then 1 else 0) bound

    lower-lt : (n i : ℕ) → i < bound → rank i < rank n → lower i < lower n
    lower-lt n i b h =
        sum_below-strict (λ j. if ltb (rank j) (rank i) then 1 else 0)
          (λ j. if ltb (rank j) (rank n) then 1 else 0) bound i b (ground arith) (λ k. ground arith)

    -- The depth of `n` was found; nodes that are ranked higher were not touched.
    record Deepens (n : ℕ) (memo : Memo) (o : Option (ℕ × Memo)) : Type 0 where
      depth : ℕ
      next : Memo
      is_next : o ≡ some (depth, next)
      deep : IsDeep next
      here : next n ≡ some depth
      grows : (j c : ℕ) → memo j ≡ some c → next j ≡ some c
      higher : (j : ℕ) → rank n < rank j → next j ≡ memo j

    abbrev Measures : (ℕ → Memo → Option (ℕ × Memo)) → ℕ → Type 0
    Measures depth room =
        (n : ℕ) (memo : Memo)
        → n < bound
        → lower n < room
        → IsDeep memo
        → Deepens n memo (depth n memo)

    record Passes (top : ℕ) (xs : List ℕ) (d : ℕ) (memo : Memo) (o : Option (ℕ × Memo))
        : Type 0 where
      depth : ℕ
      next : Memo
      is_next : o ≡ some (depth, next)
      deep : IsDeep next
      above : d ≤ depth
      each : (x : ℕ) → contains xs x ≡ true → (c : ℕ) × (next x ≡ some c) × (c < depth)
      grows : (j c : ℕ) → memo j ≡ some c → next j ≡ some c
      higher : (j : ℕ) → top ≤ rank j → next j ≡ memo j

    deepest-Passes :
        (depth : ℕ → Memo → Option (ℕ × Memo)) (room top : ℕ)
        → Measures depth room
        → (xs : List ℕ) (d : ℕ) (memo : Memo)
        → ((x : ℕ) → contains xs x ≡ true → (x < bound) × (lower x < room) × (rank x < top))
        → IsDeep memo
        → Passes top xs d memo (deepest depth xs d memo)
    unfolding deepest
    deepest-Passes depth room top good [] d memo low deep = record {
      depth = d;
      next = memo;
      is_next = refl;
      deep = deep;
      above = omega arith;
      each = λ x h. cc;
      grows = λ j c h. h;
      higher = λ j h. refl;
    }
    deepest-Passes depth room top good (x ∷ xs) d memo low deep =
        let (b, l, r) = low x (ground arith) in
        let f = good x memo b l deep in
        let d2 = if ltb d (f.depth + 1) then f.depth + 1 else d in
        let rest =
          deepest-Passes depth room top good xs d2 f.next (λ y h. low y (ground arith)) f.deep in
        let there = rest.grows x f.depth f.here in
        let more : (d ≤ d2) × (f.depth < d2) = ground arith in
        record {
          depth = rest.depth;
          next = rest.next;
          is_next = rw (f.is_next) rest.is_next;
          deep = rest.deep;
          above = omega (arith, rest.above, more);
          each = λ y h. elim (Bool-cases (x == y)) [
            | inl e ↦
                let same : x ≡ y = ground arith in
                (
                  f.depth,
                  subst (λ k. rest.next k ≡ some f.depth) same there,
                  omega (arith, rest.above, more),
                )
            | inr e ↦ rest.each y (ground arith)
          ];
          grows = λ j c h. rest.grows j c (f.grows j c h);
          higher = λ j h. rest.higher j h ∙ f.higher j (omega (arith, r));
        }

    -- The depth that the loop over the deps found is noted.
    depth_noted :
        (n : ℕ) (memo : Memo) (o : Option (ℕ × Memo))
        → n < bound
        → memo n ≡ none
        → Passes (rank n) (deps n) 0 memo o
        → Deepens n memo (if_some o (λ r. some (r.0, update r.1 n (some r.0))))
    depth_noted n memo o b e p =
        let fresh : p.next n ≡ none = p.higher n (omega arith) ∙ e in
        let kept : (j c : ℕ) → p.next j ≡ some c → update p.next n (some p.depth) j ≡ some c =
          λ j c h. ground arith in
        record {
          depth = p.depth;
          next = update p.next n (some p.depth);
          is_next = rw (p.is_next) refl;
          deep = λ j d i h m. elim (Bool-cases (j == n)) [
            | inl this ↦
                let same : j ≡ n = ground arith in
                let (c, at, lt) = p.each i (subst (λ k. contains (deps k) i ≡ true) same m) in
                (c, kept i c at, ground arith)
            | inr other ↦ let (c, at, lt) = p.deep j d i (ground arith) m in (c, kept i c at, lt)
          ];
          here = ground arith;
          grows = λ j c h. kept j c (p.grows j c h);
          higher = λ j h. ground (arith, p.higher j);
        }

    depth_of-Deepens : (fuel : ℕ) → Measures (depth_of deps fuel) fuel
    unfolding depth_of
    depth_of-Deepens zero n memo b l deep = absurd (omega arith)
    depth_of-Deepens (suc fuel) n memo b l deep = elim (Option-cases (memo n)) [
      | inr (d, e) ↦ record {
        depth = d;
        next = memo;
        is_next = rw (depth_of, e) refl;
        deep = deep;
        here = e;
        grows = λ j c h. h;
        higher = λ j h. refl;
      }
      | inl e ↦
          rw (depth_of, e)
            (depth_noted n memo (deepest (depth_of deps fuel) (deps n) 0 memo) b e (
              deepest-Passes (depth_of deps fuel) fuel (rank n) (depth_of-Deepens fuel) (deps n) 0
                memo
                (λ x m.
                  let lt = ranked n x b m in
                  (inside n x m, omega (arith, lower-lt n x (inside n x m) lt), lt))
                deep))
    ]

    -- After the first loop of `kahnLevels`: each node has a depth, and the top is not lower.
    pub record Tops (ns : List ℕ) (top : ℕ) (memo : Memo) (o : Option (ℕ × Memo)) : Type 0 where
      pub highest : ℕ
      pub last : Memo
      pub is_last : o ≡ some (highest, last)
      pub all_deep : IsDeep last
      pub rises : top ≤ highest
      pub placed : (n : ℕ) → contains ns n ≡ true → (d : ℕ) × (last n ≡ some d) × (d ≤ highest)
      pub kept : (j c : ℕ) → memo j ≡ some c → last j ≡ some c

    pub max_depth-Tops :
        (fuel : ℕ) (ns : List ℕ) (top : ℕ) (memo : Memo)
        → ((n : ℕ) → contains ns n ≡ true → (n < bound) × (lower n < fuel))
        → IsDeep memo
        → Tops ns top memo (max_depth deps fuel ns top memo)
    unfolding max_depth
    max_depth-Tops fuel [] top memo low deep = record {
      highest = top;
      last = memo;
      is_last = refl;
      all_deep = deep;
      rises = omega arith;
      placed = λ n h. cc;
      kept = λ j c h. h;
    }
    max_depth-Tops fuel (n ∷ ns) top memo low deep =
        let (b, l) = low n (ground arith) in
        let f = depth_of-Deepens fuel n memo b l deep in
        let top2 = if ltb top f.depth then f.depth else top in
        let more : (top ≤ top2) × (f.depth ≤ top2) = ground arith in
        let rest = max_depth-Tops fuel ns top2 f.next (λ k h. low k (ground arith)) f.deep in
        let there = rest.kept n f.depth f.here in
        record {
          highest = rest.highest;
          last = rest.last;
          is_last = rw (f.is_next) rest.is_last;
          all_deep = rest.all_deep;
          rises = omega (arith, rest.rises, more);
          placed = λ k h. elim (Bool-cases (n == k)) [
            | inl e ↦
                let same : n ≡ k = ground arith in
                (
                  f.depth,
                  subst (λ x. rest.last x ≡ some f.depth) same there,
                  omega (arith, rest.rises, more),
                )
            | inr e ↦ rest.placed k (ground arith)
          ];
          kept = λ j c h. rest.kept j c (f.grows j c h);
        }

    pub lower-bound : (n : ℕ) → lower n < suc bound
    lower-bound n = omega (
      arith,
      sum_below-le (λ j. if ltb (rank j) (rank n) then 1 else 0) 1 bound (λ k. ground arith),
    )
