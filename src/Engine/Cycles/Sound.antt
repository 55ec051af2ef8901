-- ===== src/Engine/Cycles/Sound.antt =====
-- Every list that the search reports is a cycle of the graph.
use scampi.Base.{
  ℕ, zero, suc, ◌≡◌, refl, inl, inr, true, ◌&&◌, Option, some, List, [], ◌∷◌, arith, ◌==◌, contains,
  Bool-cases, Option-cases, All, All-append,
}
use scampi.Engine.Cycles.{
  Search, no_search, note_cycle, enter, leave, slice_from, each, dfs, from_roots, detect_cycles,
}

module _ (neighbors : ℕ → List ℕ) where
  -- Each entry leads to the next one, and the last entry is `n`.
  abbrev pub WalkTo : ℕ → List ℕ → Type 0
  WalkTo n [] = ⊥
  WalkTo n (x ∷ []) = x ≡ n
  WalkTo n (x ∷ y ∷ r) = (contains (neighbors x) y ≡ true) × WalkTo n (y ∷ r)

  -- A walk from a node to itself with at least one edge.
  abbrev pub IsCycle : List ℕ → Type 0
  IsCycle [] = ⊥
  IsCycle (x ∷ []) = ⊥
  IsCycle (x ∷ y ∷ r) = WalkTo x (x ∷ y ∷ r)

  -- The stack, its top first, is a walk upwards.
  abbrev IsStack : List ℕ → Type 0
  IsStack [] = Unit
  IsStack (t ∷ []) = Unit
  IsStack (t ∷ u ∷ r) = (contains (neighbors u) t ≡ true) × IsStack (u ∷ r)

  -- `n` is reached from the top of the stack.
  abbrev IsNext : ℕ → List ℕ → Type 0
  IsNext n [] = Unit
  IsNext n (t ∷ r) = contains (neighbors t) n ≡ true

  slice_from-IsCycle :
      (n h : ℕ) (stack tail : List ℕ)
      → IsStack stack
      → IsNext h stack
      → WalkTo n (h ∷ tail)
      → contains stack n ≡ true
      → IsCycle (slice_from n stack (h ∷ tail))
  slice_from-IsCycle n h [] tail st nx w c = absurd (ground arith)
  slice_from-IsCycle n h (t ∷ ts) tail st nx w c = elim (Bool-cases (t == n)) [
    | inl e ↦ ground arith
    | inr e ↦
        rw e
          (slice_from-IsCycle n t ts (h ∷ tail) (below ts st) (next ts st) (nx, w) (ground arith))
  ]
    where
      below : (ts : List ℕ) → IsStack (t ∷ ts) → IsStack ts
      below [] st = tt
      below (u ∷ r) st = st.1

      next : (ts : List ℕ) → IsStack (t ∷ ts) → IsNext t ts
      next [] st = tt
      next (u ∷ r) st = st.0

  record Good (s : Search) : Type 0 where
    walk : IsStack s.stack
    sound : All IsCycle s.cycles

  -- A visit keeps the stack and reports cycles only.
  abbrev Keeps : Search → Search → Type 0
  Keeps s t = Good t × (t.stack ≡ s.stack)

  each-Keeps :
      (visit : ℕ → Search → Option Search)
      → ((n : ℕ) (s t : Search) → Good s → IsNext n s.stack → visit n s ≡ some t → Keeps s t)
      → (xs : List ℕ) (s t : Search) → Good s
      → ((x : ℕ) → contains xs x ≡ true → IsNext x s.stack)
      → each visit xs s ≡ some t
      → Keeps s t
  unfolding each
  each-Keeps visit good [] s t v nx e = let same : s ≡ t = ground arith in rw (← same) (v, refl)
  each-Keeps visit good (x ∷ xs) s t v nx e = elim (Option-cases (visit x s)) [
    | inl stuck ↦ absurd (ground arith)
    | inr (u, at) ↦
        let (gu, su) = good x s u v (nx x (ground arith)) at in
        let (gt, st) =
          each-Keeps visit good xs u t gu (λ y h. rw su (nx y (ground arith))) (ground arith) in
        (gt, ground arith)
  ]

  dfs-Keeps :
      (fuel n : ℕ) (s t : Search)
      → Good s
      → IsNext n s.stack
      → dfs neighbors fuel n s ≡ some t
      → Keeps s t
  unfolding dfs
  dfs-Keeps zero n s t v nx e = cc
  dfs-Keeps (suc fuel) n s t v nx e = elim (Bool-cases (s.on_stack n && contains s.stack n)) [
    | inl on ↦
        let same : note_cycle n s ≡ t = ground arith in
        rw (← same) (
          record {
            walk = v.walk;
            sound =
                All-append IsCycle s.cycles _ v.sound
                  (slice_from-IsCycle n n s.stack [] v.walk nx refl (ground arith), tt);
          },
          refl,
        )
    | inr off ↦ elim (Bool-cases (s.visited n)) [
      | inl old ↦ let same : s ≡ t = ground arith in rw (← same) (v, refl)
      | inr new ↦ elim (Option-cases (each (dfs neighbors fuel) (neighbors n) (enter n s))) [
        | inl stuck ↦ absurd (ground arith)
        | inr (u, at) ↦
            let same : leave n u ≡ t = ground arith in
            let (gu, su) =
              each-Keeps (dfs neighbors fuel) (dfs-Keeps fuel) (neighbors n) (enter n s) u
                (record { walk = push s.stack v.walk nx; sound = v.sound }) (λ x h. h) at in
            rw (← same)
              (record { walk = ground (arith, su, v.walk); sound = gu.sound }, ground (arith, su))
      ]
    ]
  ]
    where
      push : (st : List ℕ) → IsStack st → IsNext n st → IsStack (n ∷ st)
      push [] w x = tt
      push (t ∷ r) w x = (x, w)

  from_roots-Good :
      (fuel : ℕ) (rs : List ℕ) (s t : Search)
      → Good s
      → s.stack ≡ []
      → from_roots neighbors fuel rs s ≡ some t
      → Good t
  unfolding from_roots
  from_roots-Good fuel [] s t v empty e = let same : s ≡ t = ground arith in rw (← same) v
  from_roots-Good fuel (r ∷ rs) s t v empty e = elim (Bool-cases (s.visited r)) [
    | inl old ↦ from_roots-Good fuel rs s t v empty (ground arith)
    | inr new ↦ elim (Option-cases (dfs neighbors fuel r s)) [
      | inl stuck ↦ absurd (ground arith)
      | inr (u, at) ↦
          let (gu, su) = dfs-Keeps fuel r s u v (rw empty tt) at in
          from_roots-Good fuel rs u t gu (ground arith) (ground arith)
    ]
  ]

-- Every list that a finished search reports is a cycle: it starts and ends at one node, and each
-- entry is a neighbor of the one before it.
pub detect_cycles-IsCycle :
    (bound : ℕ) (roots : List ℕ) (neighbors : ℕ → List ℕ) (cycles : List (List ℕ))
    → detect_cycles bound roots neighbors ≡ some cycles
    → All (IsCycle neighbors) cycles
unfolding detect_cycles
detect_cycles-IsCycle bound roots neighbors cycles e =
    elim (Option-cases (from_roots neighbors (suc bound) roots no_search)) [
      | inl stuck ↦ absurd (ground arith)
      | inr (t, at) ↦
          let same : t.cycles ≡ cycles = ground arith in
          rw (← same)
            (from_roots-Good neighbors (suc bound) roots no_search t
              (record { walk = tt; sound = tt }) refl at).sound
    ]
