-- ===== src/Engine/Steps/Progress.antt =====
-- A run over a plan's steps keeps the declared order, leaves no step out, and ends.
use scampi.Base.{
  ℕ, ◌+◌, ◌*◌, ◌≤◌, ◌<◌, ◌≡◌, ◌≢◌, refl, true, false, none, List, arith, update, length,
  sum_below-le, if◌then◌else◌,
}
use scampi.Spec.Execution.{Step}
use scampi.Engine.Countdown.{idle, running, succeeded, failed, cancelled}
use scampi.Engine.Countdown.Counts.{cancel-release}
use scampi.Engine.Countdown.Invariant.{started-closed}
use scampi.Engine.Countdown.Progress.{
  IsRanked, IsQuiet, quiet-succeeded, moves_left, work, relabel-work, finish-work,
}
use scampi.Engine.StepGraph.{Graph, Order, build_step_graph}
use scampi.Engine.StepGraph.Edges.{IsLinked}
use scampi.Engine.StepGraph.Fences.{Before, edge, via}
use scampi.Engine.StepGraph.Build.{Cause, requirement, parent, barrier}
use scampi.Engine.StepGraph.Order.{
  MustPrecede, IsUnique, IsRanging, build_step_graph-Cause, build_step_graph-IsLinked,
  build_step_graph-Before, lt-length_of_get_elem?,
}
use scampi.Engine.Steps.{
  PlanRun, Move, Reach, here, next, interrupt, begin, stop, unresolved, settle_ok, settle_err,
  start, no_skip,
}
use scampi.Engine.Steps.Invariant.{needs, is_active, StepInv, IsBounded, Reach-StepInv}

Cause-bounded :
    (steps : List Step) (i j : ℕ) → Cause steps i j → (i < length steps) × (j < length steps)
Cause-bounded steps i j (requirement r (a, at, p) (b, bt, q) ne) =
    (lt-length_of_get_elem? steps i a at, lt-length_of_get_elem? steps j b bt)
Cause-bounded steps i j (parent r out (a, at, p) (b, bt, q) above ne) =
    (lt-length_of_get_elem? steps i a at, lt-length_of_get_elem? steps j b bt)
Cause-bounded steps i j (barrier lt (b, bt) is) =
    let below = lt-length_of_get_elem? steps j b bt in (omega arith, below)

pub build_step_graph-IsBounded :
    (order : Order) (steps : List Step)
    → IsRanging steps order
    → IsBounded (build_step_graph order steps) (length steps)
build_step_graph-IsBounded order steps ranges i j e =
    Cause-bounded steps i j (build_step_graph-Cause order steps ranges i j e)

-- No goroutine is left: `grp.Wait` returns.
abbrev pub IsWaited : PlanRun → Type 0
IsWaited r = (j : ℕ) → is_active (r.sched.phase j) ≡ false

-- The moves that are left, and the interrupt.
abbrev measure : ℕ → PlanRun → ℕ
measure n r = work n r.sched + (if r.sched.cancel then 0 else 1)

module _ (g : Graph) (n : ℕ) (linked : IsLinked g) (bounded : IsBounded g n) where
  started-Before :
      {i j : ℕ} (r : PlanRun)
      → StepInv g n r
      → r.sched.phase j ≢ idle
      → Before g i j
      → r.sched.phase i ≡ succeeded
  started-Before {i} {j} r v started (edge e) =
      ground (arith, started-closed (needs g) no_skip n r.sched i j v.base refl started e)
  started-Before {i} {j} r v started (via {j = m} b e) =
      let done : r.sched.phase m ≡ succeeded =
        ground (arith, started-closed (needs g) no_skip n r.sched m j v.base refl started e) in
      started-Before r v (ground arith) b

  Move-measure : {r t : PlanRun} → StepInv g n r → Move g r t → measure n t < measure n r
  Move-measure {r} v (interrupt c e) = rw (e, c) (omega arith)
  Move-measure {r} v (begin i p c e) =
      rw e (ground (arith, relabel-work n r.sched i running r.sched.cancel, v.inside i))
  Move-measure {r} v (stop i p c e) =
      rw e (ground (arith, relabel-work n r.sched i cancelled true, v.inside i))
  Move-measure {r} v (unresolved i p e) =
      rw e (ground (arith, relabel-work n r.sched i failed true, v.inside i))
  Move-measure {r} v (settle_ok i p e) = rw e (
      ground (
        arith,
        finish-work (needs g) no_skip n (λ k. (g k).required_by) linked.mirror r.sched i v.base
            (v.inside i (ground arith)) p,
        cancel-release no_skip (g i).required_by
            (record r.sched { phase = update r.sched.phase i succeeded }),
      ))
  Move-measure {r} v (settle_err i p e) =
      rw e (ground (arith, relabel-work n r.sched i failed true, v.inside i))

  measure-le : (r : PlanRun) → measure n r ≤ 3 * n + 1
  measure-le r =
      ground (arith, sum_below-le (λ j. moves_left (r.sched.phase j)) 3 n (λ k. ground arith))

  Reach-measure : {k : ℕ} {r : PlanRun} → Reach g n k r → k + measure n r ≤ 3 * n + 1
  Reach-measure here = omega (arith, measure-le (start g n))
  Reach-measure (next {r = r} h m) =
      omega (arith, Reach-measure h, Move-measure (Reach-StepInv g n linked bounded h) m)

  waited-succeeded :
      (rank : ℕ → ℕ) (r : PlanRun)
      → IsRanked (needs g) n rank
      → StepInv g n r
      → IsWaited r
      → r.first_err ≡ none
      → (j : ℕ) → j < n
      → (r.sched.phase j ≡ succeeded) × (r.reported j ≡ true)
  waited-succeeded rank r ranked v waited no_err j b =
      let done = quiet-succeeded (needs g) no_skip n rank ranked r.sched v.base quiet j b refl in
      (done, v.filled j done)
    where
      quiet : IsQuiet no_skip n r.sched
      quiet j b live = ground (arith, waited j, v.erred j)

module _ (order : Order) (steps : List Step) (ranges : IsRanging steps order) where
  -- However the goroutines interleave: if no resource has two providers, then each step that must
  -- precede one which is no longer idle has succeeded.
  pub run-MustPrecede :
      IsUnique steps
      → {i j k : ℕ} (r : PlanRun) → Reach (build_step_graph order steps) (length steps) k r
      → r.sched.phase j ≢ idle
      → MustPrecede steps i j
      → r.sched.phase i ≡ succeeded
  run-MustPrecede unique {i} {j} r h started must =
      started-Before (build_step_graph order steps) (length steps)
        (build_step_graph-IsLinked order steps ranges)
        (build_step_graph-IsBounded order steps ranges) r
        (Reach-StepInv (build_step_graph order steps) (length steps)
          (build_step_graph-IsLinked order steps ranges)
          (build_step_graph-IsBounded order steps ranges) h)
        started ((build_step_graph-Before order steps ranges unique i j).1 must)

  -- If the graph has a rank that grows along every edge, then a run whose goroutines have all
  -- returned without an error has finished every step and filled its report.
  pub run_complete :
      (rank : ℕ → ℕ)
      → IsRanked (needs (build_step_graph order steps)) (length steps) rank
      → {k : ℕ} (r : PlanRun) → Reach (build_step_graph order steps) (length steps) k r
      → IsWaited r
      → r.first_err ≡ none
      → (j : ℕ) → j < length steps
      → (r.sched.phase j ≡ succeeded) × (r.reported j ≡ true)
  run_complete rank ranked r h =
      waited-succeeded (build_step_graph order steps) (length steps)
        (build_step_graph-IsLinked order steps ranges)
        (build_step_graph-IsBounded order steps ranges) rank r ranked
        (Reach-StepInv (build_step_graph order steps) (length steps)
          (build_step_graph-IsLinked order steps ranges)
          (build_step_graph-IsBounded order steps ranges) h)

  -- A run has at most three moves for every step, and one interrupt.
  pub run_terminates :
      {k : ℕ} (r : PlanRun)
      → Reach (build_step_graph order steps) (length steps) k r
      → k ≤ 3 * length steps + 1
  run_terminates r h = omega (
    arith,
    Reach-measure (build_step_graph order steps) (length steps)
        (build_step_graph-IsLinked order steps ranges)
        (build_step_graph-IsBounded order steps ranges) h,
  )
