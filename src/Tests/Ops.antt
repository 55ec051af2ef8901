-- ===== src/Tests/Ops.antt =====
-- internal/engine: a step of two ops. The second depends on the first; neither is satisfied.
use scampi.Base.{
  ℕ, zero, suc, ◌≡◌, ◌≢◌, refl, ◌⊎◌, true, false, none, List, [], ◌∷◌, arith, IsDistinct, range,
  update,
}
use scampi.Spec.Execution.{Op, OpResult, check_unsatisfied}
use scampi.Engine.Countdown.{idle, running, succeeded, decrement, release}
use scampi.Engine.OpGraph.{
  OpGraph, ByOp, ok, panic, out_of_fuel, fresh, link_dep, build_plan, index_ops, wire_ops,
  wire_deps, check_acyclic, kahn, visit_dependents, ready_ops,
}
use scampi.Engine.OpGraph.Correct.{
  IsPlan, build_plan-IsPlan, build_plan_accepts, build_plan-ne-out_of_fuel,
}
use scampi.Engine.OpRun.{
  CheckAnswer, Exec, Reach, here, next, begin, return_ok, op_done, start_exec, is_satisfied,
  run_checks, check_op, is_deferred, unchecked, init_pending, schedule_ops, IsFinished, RunStep,
  executed, OpState, op_succeeded,
}
use scampi.Engine.OpRun.Report.{no_ops, abort_unknown, mark_unknown, build_step_report}
use scampi.Engine.OpRun.Outcome.{states, IsAccount, mark_unknown-IsAccount}
use scampi.Engine.OpRun.Apply.{DependsOn, Reach-DependsOn, RunStep-IsAccount}

abbrev ops : List Op
ops = record { id = 10; depends_on = [] } ∷ record { id = 20; depends_on = 10 ∷ [] } ∷ []

abbrev graph : OpGraph
graph = link_dep 1 0 fresh

unfold_all : Unit {0}
unfolding build_plan index_ops wire_ops wire_deps check_acyclic kahn visit_dependents ready_ops
    run_checks check_op is_deferred init_pending schedule_ops start_exec release decrement
unfold_all = tt

ops_built : build_plan ops ≡ ok graph
unfolding unfold_all
ops_built = refl

build_plan-IsPlan_example : IsPlan ops graph
build_plan-IsPlan_example = build_plan-IsPlan ops graph ops_built

build_plan-ne-out_of_fuel_example : build_plan ops ≢ panic out_of_fuel
build_plan-ne-out_of_fuel_example = build_plan-ne-out_of_fuel ops

abbrev by_op : ByOp
by_op = (10, 0) ∷ (20, 1) ∷ []

build_plan_accepts_example : build_plan ops ≡ ok graph
build_plan_accepts_example =
    build_plan_accepts ops by_op graph graph_plan.rank indexed wired graph_plan.ranked
  where
    graph_plan : IsPlan ops graph
    graph_plan = build_plan-IsPlan ops graph ops_built

    indexed : index_ops 0 ops [] ≡ ok by_op
    indexed = unfold index_ops in refl

    wired : wire_ops by_op 0 ops fresh ≡ ok graph
    wired = unfold wire_ops in unfold wire_deps in refl

abbrev answers : ℕ → CheckAnswer
answers i = record { res = check_unsatisfied; err = none }

abbrev arrival : List ℕ
arrival = 1 ∷ 0 ∷ []

abbrev checked : ℕ → OpState
checked = (run_checks [] answers arrival unchecked).ops

arrival-IsDistinct : IsDistinct arrival
arrival-IsDistinct = (refl, (refl, tt))

abbrev change : OpResult
change = record { changed = true }

abbrev start_op : ℕ → Exec → Exec
start_op i x = record x { sched = record x.sched { phase = update x.sched.phase i running } }

abbrev begun : Exec
begun = start_op 0 (start_exec graph 2 checked)

abbrev first_done : Exec
first_done = op_done graph 0 change begun

first_done-Reach : Reach graph 2 checked first_done
unfolding unfold_all
first_done-Reach = next (next here (begin 0 refl refl)) (return_ok 0 change refl refl)

abbrev second_begun : Exec
second_begun = start_op 1 first_done

abbrev both_done : Exec
both_done = op_done graph 1 change second_begun

both_done-Reach : Reach graph 2 checked both_done
unfolding unfold_all
both_done-Reach = next (next first_done-Reach (begin 1 refl refl)) (return_ok 1 change refl refl)

both_done-IsFinished : IsFinished both_done
unfolding unfold_all
both_done-IsFinished zero = refl
both_done-IsFinished (suc zero) = refl
both_done-IsFinished (suc (suc j)) = ground arith

no_check_err : (run_checks [] answers arrival unchecked).first_err ≡ none
unfolding unfold_all
no_check_err = refl

second_started : first_done.sched.phase 1 ≢ idle
unfolding unfold_all
second_started e = cc

second-DependsOn : DependsOn ops 1 0
second-DependsOn = (
  record { id = 20; depends_on = 10 ∷ [] },
  record { id = 10; depends_on = [] },
  refl,
  refl,
  refl,
)

Reach-DependsOn_example :
    (is_satisfied checked 1 ≡ false)
    × ((is_satisfied checked 0 ≡ true) ⊎ (first_done.sched.phase 0 ≡ succeeded))
Reach-DependsOn_example =
    Reach-DependsOn ops graph answers arrival first_done 0 1 ops_built arrival-IsDistinct
      no_check_err first_done-Reach second_started second-DependsOn

both-RunStep : RunStep graph 2 answers arrival both_done.first_err both_done.ops
both-RunStep = executed both_done no_check_err both_done-Reach both_done-IsFinished refl refl

RunStep-IsAccount_example : IsAccount 2 (
    build_step_report
      (states (λ j. abort_unknown both_done.first_err (both_done.ops j)) (range 2))
      no_ops)
RunStep-IsAccount_example =
    RunStep-IsAccount ops graph answers arrival both_done.first_err both_done.ops ops_built
      arrival-IsDistinct both-RunStep

mark_unknown-IsAccount_example :
    IsAccount 2 (
      build_step_report
        (states
          (λ j. mark_unknown (run_checks [] answers arrival unchecked).first_err (checked j))
          (range 2))
        no_ops)
    × ((j : ℕ)
        → (mark_unknown (run_checks [] answers arrival unchecked).first_err (checked j)).outcome
          ≢ op_succeeded)
mark_unknown-IsAccount_example = mark_unknown-IsAccount [] answers arrival 2 arrival-IsDistinct
