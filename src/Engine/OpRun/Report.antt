-- ===== src/Engine/OpRun/Report.antt =====
-- internal/engine/exec.go: what `runStep` and `runCheckStep` make of the ops' final states.
use scampi.Base.{
  ℕ, suc, ◌+◌, Bool, true, false, not, ◌&&◌, Option, none, some, List, [], ◌∷◌, if◌then◌else◌, ltb,
}
use scampi.Spec.Execution.{OpResult}
use scampi.Engine.OpRun.{
  op_succeeded, op_failed, op_aborted, op_skipped, op_would_change, unknown, Err, abort_error,
  step_aborted, OpState, is_unknown,
}

-- `event.StepSummary`.
pub record StepSummary : Type 0 where
  pub total : ℕ
  pub succeeded : ℕ
  pub failed : ℕ
  pub aborted : ℕ
  pub skipped : ℕ
  pub changed : ℕ
  pub would_change : ℕ

abbrev pub no_ops : StepSummary
no_ops = record {
  total = 0;
  succeeded = 0;
  failed = 0;
  aborted = 0;
  skipped = 0;
  changed = 0;
  would_change = 0;
}

-- `runStep`: after an error, an op with no outcome is aborted.
unfoldable pub abort_unknown : Option Err → OpState → OpState
abort_unknown none n = n
abort_unknown (some e) n =
    if is_unknown n.outcome then record n { outcome = op_aborted; err = some e } else n

-- `runCheckStep`: an op with no outcome is aborted after an error, and would change otherwise.
unfoldable pub mark_unknown : Option Err → OpState → OpState
mark_unknown none n =
    if is_unknown n.outcome && not n.satisfied then record n { outcome = op_would_change } else n
mark_unknown (some e) n =
    if is_unknown n.outcome then record n { outcome = op_aborted; err = some e } else n

abbrev pub is_some {ℓ} : {A : Type ℓ} → Option A → Bool
is_some none = false
is_some (some a) = true

-- `validateOpReport` does not panic.
unfoldable pub validate_op_report : OpState → Bool
validate_op_report n = elim n.outcome [
  | op_succeeded ↦ is_some n.result && not (is_some n.err)
  | op_failed ↦ is_some n.err && not (is_some n.result)
  | op_aborted ↦ is_some n.err && not (is_some n.result)
  | op_skipped ↦ not (is_some n.result) && not (is_some n.err)
  | op_would_change ↦ not (is_some n.result) && not (is_some n.err)
  | unknown ↦ false
]

abbrev pub count_changed : Option OpResult → StepSummary → StepSummary
count_changed none s = s
count_changed (some r) s = if r.changed then record s { changed = suc s.changed } else s

abbrev pub count_outcome : OpState → StepSummary → StepSummary
count_outcome n s = elim n.outcome [
  | op_succeeded ↦ count_changed n.result (record s { succeeded = suc s.succeeded })
  | op_failed ↦ record s { failed = suc s.failed }
  | op_aborted ↦ record s { aborted = suc s.aborted }
  | op_skipped ↦ record s { skipped = suc s.skipped }
  | op_would_change ↦ record s { would_change = suc s.would_change }
  | unknown ↦ s
]

-- `buildStepReport`: `none` is the panic of `validateOpReport`.
unfoldable pub build_step_report : List OpState → StepSummary → Option StepSummary
build_step_report [] s = some s
build_step_report (n ∷ ns) s =
    let rest = build_step_report ns (count_outcome n (record s { total = suc s.total })) in
    if validate_op_report n then rest else none

pub data StepOutcome : Type 0 where
  step_unchanged step_failed step_changed : StepOutcome

-- The verdict of `emitResult`.
unfoldable pub step_outcome : Bool → StepSummary → StepOutcome
step_outcome check_only s =
    if ltb 0 (s.failed + s.aborted)
    then step_failed
    else if check_only && ltb 0 s.would_change
    then step_changed
    else if not check_only && ltb 0 s.changed
    then step_changed
    else step_unchanged

-- hooks.go: `stepChanged`.
unfoldable pub step_reports_change : Bool → StepSummary → Bool
step_reports_change check_only s = if check_only then ltb 0 s.would_change else ltb 0 s.changed

-- The error that a step returns: `aborts` and `consumed` are what `emitStepDiagnostic` makes of it.
unfoldable pub wrap_error : Bool → Bool → Err → Err
wrap_error aborts consumed e =
    if aborts then abort_error e else if consumed then step_aborted e else e
