-- ===== src/Tests/Steps.antt =====
-- internal/engine: a plan of four steps. The second needs the user that the first provides, the
-- third declares nothing, and the fourth writes below the directory that the second provides.
use scampi.Base.{zero, suc, ◌≤◌, ◌≡◌, refl, ◌↔◌, true, List, [], ◌∷◌, arith, All}
use scampi.Spec.Resource.{Resource, path, user}
use scampi.Spec.Execution.{Step}
use scampi.Engine.Countdown.{scheduled, succeeded, decrement, release}
use scampi.Engine.Countdown.Progress.{IsRanked}
use scampi.Engine.StepGraph.{
  Graph, has_resources, add_edge, index_producers, wire, fence_step, fence, build_step_graph,
  init_step_pending,
}
use scampi.Engine.StepGraph.Edges.{is_edge, IsLinked}
use scampi.Engine.StepGraph.Fences.{Before}
use scampi.Engine.StepGraph.Build.{Cause, requirement}
use scampi.Engine.StepGraph.Order.{
  MustPrecede, cause, IsUnique, build_step_graph-Cause, build_step_graph-IsLinked,
  build_step_graph-Before,
}
use scampi.Engine.StepGraph.Ranging.{entry_order, entry_order-IsRanging}
use scampi.Engine.Duplicates.{note_winners, scan_steps, detect_duplicate_provides}
use scampi.Engine.Duplicates.Unique.{
  IsJust, detect_duplicate_provides-IsUnique, detect_duplicate_provides-IsJust,
}
use scampi.Engine.Steps.{
  PlanRun, Reach, here, next, begin, settle_ok, schedule_ready, start, launch, complete,
}
use scampi.Engine.Steps.Invariant.{needs}
use scampi.Engine.Steps.Progress.{
  run-MustPrecede, run_complete, build_step_graph-IsBounded, run_terminates, IsWaited,
}

abbrev pub a_user : Resource
a_user = record { kind = user; name = b'a' ∷ [] }

abbrev pub dir : Resource
dir = record { kind = path; name = b'/' ∷ b'd' ∷ [] }

abbrev file : Resource
file = record { kind = path; name = b'/' ∷ b'd' ∷ b'/' ∷ b'f' ∷ [] }

abbrev pub step_of : List Resource → List Resource → Step
step_of req prov = record { desc = []; kind = []; requires = req; provides = prov; ops = [] }

abbrev plan : List Step
plan =
    step_of [] (a_user ∷ [])
    ∷ step_of (a_user ∷ []) (dir ∷ [])
    ∷ step_of [] []
    ∷ step_of [] (file ∷ [])
    ∷ []

plan_edges :
    ((build_step_graph (entry_order plan) plan 1).requires ≡ 0 ∷ [])
    × ((build_step_graph (entry_order plan) plan 2).requires ≡ 0 ∷ 1 ∷ [])
    × ((build_step_graph (entry_order plan) plan 3).requires ≡ 1 ∷ 2 ∷ [])
unfolding build_step_graph add_edge index_producers wire fence fence_step has_resources
plan_edges = (refl, refl, refl)

plan_passes : detect_duplicate_provides plan ≡ []
unfolding detect_duplicate_provides scan_steps note_winners
plan_passes = refl

plan-IsUnique : IsUnique plan
plan-IsUnique = detect_duplicate_provides-IsUnique plan plan_passes

detect_duplicate_provides-IsUnique_example : IsUnique plan
detect_duplicate_provides-IsUnique_example = detect_duplicate_provides-IsUnique plan plan_passes

detect_duplicate_provides-IsJust_example : All (IsJust (plan)) (detect_duplicate_provides plan)
detect_duplicate_provides-IsJust_example = detect_duplicate_provides-IsJust plan

twice_provided :
    detect_duplicate_provides (step_of [] (dir ∷ []) ∷ step_of [] (dir ∷ []) ∷ [])
    ≡ record { resource = dir; step = 1; first = 0 } ∷ []
unfolding detect_duplicate_provides scan_steps note_winners
twice_provided = refl

first_edge : is_edge (build_step_graph (entry_order plan) plan) 0 1 ≡ true
unfolding build_step_graph add_edge index_producers wire fence fence_step has_resources
first_edge = refl

build_step_graph-Cause_example : Cause plan 0 1
build_step_graph-Cause_example =
    build_step_graph-Cause (entry_order plan) plan (entry_order-IsRanging plan) 0 1 first_edge

build_step_graph-IsLinked_example : IsLinked (build_step_graph (entry_order plan) plan)
build_step_graph-IsLinked_example =
    build_step_graph-IsLinked (entry_order plan) plan (entry_order-IsRanging plan)

build_step_graph-Before_example :
    Before (build_step_graph (entry_order plan) plan) 0 1 ↔ MustPrecede plan 0 1
build_step_graph-Before_example =
    build_step_graph-Before (entry_order plan) plan (entry_order-IsRanging plan) plan-IsUnique 0 1

-- The first two steps alone: the first runs, and the second is scheduled.
abbrev pub pair : List Step
pair = step_of [] (a_user ∷ []) ∷ step_of (a_user ∷ []) [] ∷ []

pair_graph : Graph
pair_graph = build_step_graph (entry_order pair) pair

unfold_all : Unit {0}
unfolding start schedule_ready init_step_pending build_step_graph add_edge index_producers wire
    fence fence_step has_resources release decrement pair_graph
unfold_all = tt

pub pair-IsUnique : IsUnique pair
unfolding detect_duplicate_provides scan_steps note_winners
pair-IsUnique = detect_duplicate_provides-IsUnique pair refl

abbrev begun : PlanRun
begun = launch 0 (start (build_step_graph (entry_order pair) pair) 2)

abbrev first_done : PlanRun
first_done = complete (build_step_graph (entry_order pair) pair) 0 begun

first_done-Reach : Reach (build_step_graph (entry_order pair) pair) 2 2 first_done
unfolding unfold_all
first_done-Reach = next (next here (begin 0 refl refl refl)) (settle_ok 0 refl refl)

second_scheduled : first_done.sched.phase 1 ≡ scheduled
unfolding unfold_all
second_scheduled = refl

run-MustPrecede_example : first_done.sched.phase 0 ≡ succeeded
run-MustPrecede_example =
    run-MustPrecede (entry_order pair) pair (entry_order-IsRanging pair) pair-IsUnique first_done
      first_done-Reach (λ e. cc (second_scheduled)) first_must
  where
    first_must : MustPrecede pair 0 1
    first_must = cause (
        requirement a_user (step_of [] (a_user ∷ []), refl, refl)
          (step_of (a_user ∷ []) [], refl, refl) (omega arith))

run_terminates_example : 2 ≤ 7
run_terminates_example =
    run_terminates (entry_order pair) pair (entry_order-IsRanging pair) first_done first_done-Reach

abbrev second_begun : PlanRun
second_begun = launch 1 first_done

abbrev pub both_done : PlanRun
both_done = complete (build_step_graph (entry_order pair) pair) 1 second_begun

pub both_done-Reach : Reach (build_step_graph (entry_order pair) pair) 2 4 both_done
unfolding unfold_all
both_done-Reach = next (next first_done-Reach (begin 1 refl refl refl)) (settle_ok 1 refl refl)

pub both_done-IsWaited : IsWaited both_done
unfolding unfold_all
both_done-IsWaited zero = refl
both_done-IsWaited (suc zero) = refl
both_done-IsWaited (suc (suc j)) = ground arith

pair-IsRanked : IsRanked (needs (build_step_graph (entry_order pair) pair)) 2 (λ j. j)
unfolding unfold_all
pair-IsRanked i zero e = cc
pair-IsRanked i (suc zero) e = ground arith
pair-IsRanked i (suc (suc j)) e =
    let (_, in_range) =
      build_step_graph-IsBounded (entry_order pair) pair (entry_order-IsRanging pair) i
        (suc (suc j)) e in
    absurd (omega arith)

run_complete_example : (both_done.sched.phase 1 ≡ succeeded) × (both_done.reported 1 ≡ true)
unfolding start
run_complete_example =
    run_complete (entry_order pair) pair (entry_order-IsRanging pair) (λ j. j) pair-IsRanked
      both_done both_done-Reach both_done-IsWaited refl 1 (omega arith)
