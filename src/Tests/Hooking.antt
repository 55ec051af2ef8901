-- ===== src/Tests/Hooking.antt =====
-- internal/engine/hooks.go: two hooks that notify each other, the first by a step that has changed.
use scampi.Base.{◌≤◌, ◌≡◌, refl, false, none, some, [], ◌∷◌, lookup, nat_eq}
use scampi.Spec.Execution.{Step}
use scampi.Engine.OpRun.Report.{StepSummary, no_ops, step_reports_change}
use scampi.Engine.Hooks.{
  HookPlan, HookAnswer, HookReport, Chains, notify_all, collect, run_steps, notify_chains, drain,
  execute_hooks,
}
use scampi.Engine.Hooks.Drained.{execute_hooks_total}
use scampi.Engine.Hooks.Once.{reports_of, steps_of, execute_hooks-once}

abbrev reload : Step
reload = record { desc = []; kind = []; requires = []; provides = []; ops = [] }

abbrev plan : HookPlan
plan = record {
  steps = (5, reload ∷ []) ∷ (6, reload ∷ reload ∷ []) ∷ [];
  on_change = (0, 5 ∷ []) ∷ [];
}

abbrev chains : Chains
chains = (5, (6 ∷ []) ∷ []) ∷ (6, (5 ∷ []) ∷ []) ∷ []

abbrev changed : StepSummary
changed = record no_ops { total = 1; succeeded = 1; changed = 1 }

abbrev answer : HookAnswer
answer = record { summary = changed; err = none }

abbrev report : HookReport
report = record { reports = (5, answer) ∷ (6, answer) ∷ (6, answer) ∷ []; err = none }

hooks_run : execute_hooks false (λ i k. answer) chains plan (changed ∷ []) ≡ some report
unfolding execute_hooks drain collect notify_all notify_chains run_steps step_reports_change
hooks_run = refl

execute_hooks-once_example : reports_of 6 report.reports ≤ steps_of (lookup 6 plan.steps)
execute_hooks-once_example =
    execute_hooks-once false (λ i k. answer) chains plan (changed ∷ []) report 6 hooks_run

execute_hooks_total_example :
    (r : HookReport) × (execute_hooks false (λ i k. answer) chains plan (changed ∷ []) ≡ some r)
execute_hooks_total_example = execute_hooks_total false (λ i k. answer) chains plan (changed ∷ [])
