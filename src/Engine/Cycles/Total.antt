-- ===== src/Engine/Cycles/Total.antt =====
-- The search ends: its depth is at most the number of nodes, so the fuel of `detect_cycles` is enough.
use scampi.Base.{
  ℕ, zero, suc, ◌≤◌, ◌<◌, ◌≡◌, refl, inl, inr, true, false, ◌&&◌, Option, some, List, [], ◌∷◌,
  arith, if◌then◌else◌, update, contains, Bool-cases, sum_below, sum_below-le, sum_below-strict,
}
use scampi.Engine.Cycles.{
  Search, no_search, note_cycle, enter, leave, each, dfs, from_roots, detect_cycles,
}

-- The nodes below `bound` that are not visited yet.
abbrev unseen : ℕ → Search → ℕ
unseen bound s = sum_below (λ j. if s.visited j then 0 else 1) bound

record Ends (bound : ℕ) (s : Search) (o : Option Search) : Type 0 where
  final : Search
  ends : o ≡ some final
  fewer : unseen bound final ≤ unseen bound s

enter-unseen :
    (bound n : ℕ) (s : Search)
    → n < bound
    → s.visited n ≡ false
    → unseen bound (enter n s) < unseen bound s
enter-unseen bound n s b fresh =
    sum_below-strict (λ j. if update s.visited n true j then 0 else 1)
      (λ j. if s.visited j then 0 else 1) bound n b (ground arith) (λ k. ground arith)

module _ (neighbors : ℕ → List ℕ) (bound : ℕ)
    (inside : (j i : ℕ) → contains (neighbors j) i ≡ true → i < bound) where
  each-Ends :
      (visit : ℕ → Search → Option Search) (room : ℕ)
      → ((n : ℕ) (s : Search) → n < bound → unseen bound s < room → Ends bound s (visit n s))
      → (xs : List ℕ) (s : Search) → ((i : ℕ) → contains xs i ≡ true → i < bound)
      → unseen bound s < room
      → Ends bound s (each visit xs s)
  unfolding each
  each-Ends visit room good [] s low h = record { final = s; ends = refl; fewer = omega arith }
  each-Ends visit room good (x ∷ xs) s low h =
      let first = good x s (low x (ground arith)) h in
      let later =
        each-Ends visit room good xs first.final (λ i e. low i (ground arith))
          (omega (arith, first.fewer)) in
      record {
        final = later.final;
        ends = ground (arith, first.ends, later.ends);
        fewer = omega (arith, first.fewer, later.fewer);
      }

  dfs-Ends :
      (fuel n : ℕ) (s : Search)
      → n < bound
      → unseen bound s < fuel
      → Ends bound s (dfs neighbors fuel n s)
  unfolding dfs
  dfs-Ends zero n s b h = absurd (omega arith)
  dfs-Ends (suc fuel) n s b h = elim (Bool-cases (s.on_stack n && contains s.stack n)) [
    | inl on ↦ record { final = note_cycle n s; ends = ground arith; fewer = omega arith }
    | inr off ↦ elim (Bool-cases (s.visited n)) [
      | inl old ↦ record { final = s; ends = ground arith; fewer = omega arith }
      | inr new ↦
          let less = enter-unseen bound n s b new in
          let u =
            each-Ends (dfs neighbors fuel) fuel (dfs-Ends fuel) (neighbors n) (enter n s) (inside n)
              (omega arith) in
          record {
            final = leave n u.final;
            ends = ground (arith, u.ends);
            fewer = omega (arith, u.fewer);
          }
    ]
  ]

  from_roots-Ends :
      (fuel : ℕ) (rs : List ℕ) (s : Search)
      → ((i : ℕ) → contains rs i ≡ true → i < bound)
      → unseen bound s < fuel
      → Ends bound s (from_roots neighbors fuel rs s)
  unfolding from_roots
  from_roots-Ends fuel [] s low h = record { final = s; ends = refl; fewer = omega arith }
  from_roots-Ends fuel (r ∷ rs) s low h = elim (Bool-cases (s.visited r)) [
    | inl old ↦
        let later = from_roots-Ends fuel rs s (λ i e. low i (ground arith)) h in
        record { final = later.final; ends = ground (arith, later.ends); fewer = later.fewer }
    | inr new ↦
        let first = dfs-Ends fuel r s (low r (ground arith)) h in
        let later =
          from_roots-Ends fuel rs first.final (λ i e. low i (ground arith))
            (omega (arith, first.fewer)) in
        record {
          final = later.final;
          ends = ground (arith, first.ends, later.ends);
          fewer = omega (arith, first.fewer, later.fewer);
        }
  ]

  -- If the roots and all neighbors are below `bound`, then the search returns a list of cycles.
  pub detect_cycles_total :
      (roots : List ℕ)
      → ((i : ℕ) → contains roots i ≡ true → i < bound)
      → (cycles : List (List ℕ)) × (detect_cycles bound roots neighbors ≡ some cycles)
  unfolding detect_cycles
  detect_cycles_total roots low =
      let room =
        sum_below-le (λ j. if no_search.visited j then 0 else 1) 1 bound (λ k. ground arith) in
      let t = from_roots-Ends (suc bound) roots no_search low (omega arith) in
      (t.final.cycles, ground (arith, t.ends))
