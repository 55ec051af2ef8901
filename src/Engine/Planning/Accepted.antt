-- ===== src/Engine/Planning/Accepted.antt =====
-- The steps that pass the check for cycles are those of which none must precede itself.
use scampi.Base.{
  ℕ, ◌<◌, ◌≡◌, refl, ◌↔◌, true, Option, none, some, List, [], ◌∷◌, arith, length, range, Bytes, All,
}
use scampi.Spec.Execution.{Step}
use scampi.Engine.Countdown.{succeeded}
use scampi.Engine.Countdown.Progress.{IsRanked}
use scampi.Engine.Cycles.{detect_cycles}
use scampi.Engine.Cycles.Sound.{WalkTo, IsCycle, detect_cycles-IsCycle}
use scampi.Engine.Cycles.Total.{detect_cycles_total}
use scampi.Engine.Cycles.Complete.{detect_cycles-nil}
use scampi.Engine.StepGraph.{Graph, Order, build_step_graph}
use scampi.Engine.StepGraph.Fences.{Before, edge, via}
use scampi.Engine.StepGraph.Order.{MustPrecede, IsUnique, IsRanging, build_step_graph-Before}
use scampi.Engine.Steps.{PlanRun, Reach}
use scampi.Engine.Steps.Invariant.{needs, IsBounded, range_from-contains, contains-range_from}
use scampi.Engine.Steps.Progress.{build_step_graph-IsBounded, IsWaited, run_complete}
use scampi.Engine.Planning.{detect_step_cycles, dedup_found}
use scampi.Engine.Planning.Dedup.{dedup_cycles-nil, dedup_cycles-empty}

WalkTo-Before :
    (g : Graph) (n x y : ℕ) (r : List ℕ) → WalkTo (λ j. (g j).requires) n (x ∷ y ∷ r) → Before g n x
WalkTo-Before g n x y [] (e, same) = edge (ground (arith, e, same))
WalkTo-Before g n x y (z ∷ r) (e, rest) = via (WalkTo-Before g n y z r rest) e

IsCycle-Before : (g : Graph) (c : List ℕ) → IsCycle (λ j. (g j).requires) c → (x : ℕ) × Before g x x
IsCycle-Before g [] w = absurd w
IsCycle-Before g (x ∷ []) w = absurd w
IsCycle-Before g (x ∷ y ∷ r) w = (x, WalkTo-Before g x x y r w)

Before-ranked :
    (g : Graph) (n : ℕ) (rank : ℕ → ℕ) (i j : ℕ)
    → IsRanked (needs g) n rank
    → Before g i j
    → rank i < rank j
Before-ranked g n rank i j ranked (edge e) = (ranked _ _ e).1
Before-ranked g n rank i j ranked (via b e) =
    omega (arith, Before-ranked g n rank _ _ ranked b, (ranked _ _ e).1)

module _ (key : ℕ → Bytes) (g : Graph) (n : ℕ) (bounded : IsBounded g n) where
  -- A graph that passes has a rank.
  passed-IsRanked :
      detect_step_cycles key g n ≡ some [] → (rank : ℕ → ℕ) × IsRanked (needs g) n rank
  unfolding detect_step_cycles
  passed-IsRanked e = by_found (detect_cycles n (range n) (needs g)) refl e
    where
      by_found :
          (o : Option (List (List ℕ)))
          → detect_cycles n (range n) (needs g) ≡ o
          → dedup_found key o ≡ some []
          → (rank : ℕ → ℕ) × IsRanked (needs g) n rank
      by_found none at e = cc
      by_found (some cycles) at e =
          let empty : cycles ≡ [] = dedup_cycles-nil key cycles (ground (arith, e)) in
          let (rank, falls) = detect_cycles-nil n (range n) (needs g) (ground (arith, at, empty)) in
          (
            rank,
            λ i j needed.
                let (a, b) = bounded i j needed in
                (a, falls i j (range_from-contains 0 n j (omega arith) (omega (arith, b))) needed),
          )

  -- A graph in which no node is before itself passes.
  acyclic-passed : ((i : ℕ) → Before g i i → ⊥) → detect_step_cycles key g n ≡ some []
  unfolding detect_step_cycles
  acyclic-passed none_first =
      let (cycles, at) =
        detect_cycles_total (needs g) n (λ j i e. (bounded i j e).0) (range n)
          (λ i e. omega (arith, (contains-range_from 0 n i e).1)) in
      rw (at) (by_cycles cycles (detect_cycles-IsCycle n (range n) (needs g) cycles at))
    where
      by_cycles :
          (cycles : List (List ℕ))
          → All (IsCycle (needs g)) cycles
          → dedup_found key (some cycles) ≡ some []
      by_cycles [] w = rw (dedup_cycles-empty key) refl
      by_cycles (c ∷ cs) w = let (x, b) = IsCycle-Before g c w.0 in absurd (none_first x b)

module _ (key : ℕ → Bytes) (order : Order) (steps : List Step)
    (ranges : IsRanging steps order) where
  -- If no resource has two providers: the graph of the steps passes the check for cycles exactly when
  -- no step must precede itself, by the declarations and what follows from them.
  pub detect_step_cycles-MustPrecede :
      IsUnique steps
      → (detect_step_cycles key (build_step_graph order steps) (length steps) ≡ some [])
        ↔ ((i : ℕ) → MustPrecede steps i i → ⊥)
  detect_step_cycles-MustPrecede unique = (
    λ passed i must.
        let (rank, ranked) =
          passed-IsRanked key (build_step_graph order steps) (length steps)
            (build_step_graph-IsBounded order steps ranges) passed in
        omega (
          arith,
          Before-ranked (build_step_graph order steps) (length steps) rank i i ranked
              ((build_step_graph-Before order steps ranges unique i i).1 must),
        ),
    λ sane.
        acyclic-passed key (build_step_graph order steps) (length steps)
          (build_step_graph-IsBounded order steps ranges)
          (λ i b. sane i ((build_step_graph-Before order steps ranges unique i i).0 b)),
  )

  -- If the graph passes the check for cycles, then a run whose goroutines have all returned
  -- without an error has finished every step and filled its report: no step waits for ever.
  pub run_passed :
      {k : ℕ} (r : PlanRun)
      → detect_step_cycles key (build_step_graph order steps) (length steps) ≡ some []
      → Reach (build_step_graph order steps) (length steps) k r
      → IsWaited r
      → r.first_err ≡ none
      → (j : ℕ) → j < length steps
      → (r.sched.phase j ≡ succeeded) × (r.reported j ≡ true)
  run_passed r passed h =
      let (rank, ranked) =
        passed-IsRanked key (build_step_graph order steps) (length steps)
          (build_step_graph-IsBounded order steps ranges) passed in
      run_complete order steps ranges rank ranked r h
