-- ===== src/Engine/OpRun/Apply.antt =====
-- `runStep`: the order of execution, and the account of every run.
use scampi.Base.{
  ℕ, ◌<◌, ◌≡◌, ◌≢◌, refl, subst, ◌∙◌, ◌⊎◌, inl, inr, true, false, Option, none, some, List, [],
  arith, length, contains, range, IsDistinct, Bool-cases, Option-cases, get_elem?,
}
use scampi.Spec.Execution.{Op}
use scampi.Engine.Countdown.{Phase, idle, succeeded, failed, cancelled}
use scampi.Engine.Countdown.Invariant.{started-closed}
use scampi.Engine.Countdown.Progress.{IsRanked, IsQuiet, quiet-succeeded}
use scampi.Engine.OpGraph.{OpGraph, build_plan, ok}
use scampi.Engine.OpGraph.Links.{IsLinked}
use scampi.Engine.OpGraph.Kahn.{deps}
use scampi.Engine.OpGraph.Correct.{build_plan-IsPlan}
use scampi.Engine.OpRun.{
  OpOutcome, op_succeeded, op_failed, op_aborted, op_skipped, op_would_change, unknown, Err,
  OpState, CheckAnswer, Exec, Reach, is_satisfied, run_checks, unchecked, IsFinished, RunStep,
  check_failed, executed,
}
use scampi.Engine.OpRun.Report.{
  abort_unknown, validate_op_report, build_step_report, no_ops, is_some,
}
use scampi.Engine.OpRun.Checks.{
  IsChecked, IsSettled, run_checks_unchecked-IsChecked, run_checks-IsSettled,
}
use scampi.Engine.OpRun.Invariant.{ExecInv, Shows, IsNew}
use scampi.Engine.OpRun.Invariant.Moves.{Reach-ExecInv}
use scampi.Engine.OpRun.Outcome.{states, IsAccount, account}

-- After checks without an error, an op that is not satisfied is as good as new.
checked-IsNew : (s : OpState) → IsChecked none s → IsSettled s → s.satisfied ≡ false → IsNew s
checked-IsNew s v settled live = by_outcome s.outcome refl
  where
    by_outcome : (o : OpOutcome) → s.outcome ≡ o → IsNew s
    by_outcome op_succeeded e = absurd (v.not_run.0 e)
    by_outcome op_failed e = absurd (v.not_run.1 e)
    by_outcome op_aborted e = absurd (ground (arith, v.aborted e))
    by_outcome op_skipped e = absurd (ground (arith, v.satisfied e))
    by_outcome op_would_change e = absurd (settled e)
    by_outcome unknown e = (e, v.no_result, v.clean (λ h. cc))

module _ (g : OpGraph) (n : ℕ) (answers : ℕ → CheckAnswer) (arrival : List ℕ)
    (distinct : IsDistinct arrival) where
  abbrev checked_ops : ℕ → OpState
  checked_ops = (run_checks [] answers arrival unchecked).ops

  checked :
      (e : Option Err)
      → (run_checks [] answers arrival unchecked).first_err ≡ e
      → (j : ℕ) → IsChecked e (checked_ops j)
  checked e p j =
      subst (λ o. IsChecked o (checked_ops j)) p
        (run_checks_unchecked-IsChecked [] answers arrival distinct j)

  settled : (j : ℕ) → IsSettled (checked_ops j)
  settled = run_checks-IsSettled answers arrival unchecked (λ j h. cc)

  new :
      (run_checks [] answers arrival unchecked).first_err ≡ none
      → (j : ℕ) → is_satisfied checked_ops j ≡ false
      → IsNew (checked_ops j)
  new p j live = checked-IsNew (checked_ops j) (checked none p j) (settled j) live

  module _ (linked : IsLinked n g) where
    -- An op that has been scheduled is not satisfied, and each of its dependencies is satisfied or
    -- has been executed without an error.
    started_last :
        (x : Exec) (i j : ℕ)
        → (run_checks [] answers arrival unchecked).first_err ≡ none
        → Reach g n checked_ops x
        → x.sched.phase j ≢ idle
        → contains (deps g j) i ≡ true
        → (is_satisfied checked_ops j ≡ false)
          × ((is_satisfied checked_ops i ≡ true) ⊎ (x.sched.phase i ≡ succeeded))
    started_last x i j p h started dep =
        let v = Reach-ExecInv g n linked checked_ops (new p) h in
        elim (Bool-cases (is_satisfied checked_ops j)) [
          | inl s ↦ absurd (started (v.base.passed j s))
          | inr live ↦ (
            live,
            started-closed (deps g) (is_satisfied checked_ops) n x.sched i j v.base live started
                dep,
          )
        ]

    valid_checked :
        (e : Err) (j : ℕ)
        → IsChecked (some e) (checked_ops j)
        → validate_op_report (abort_unknown (some e) (checked_ops j)) ≡ true
    unfolding validate_op_report abort_unknown
    valid_checked e j v = ground (arith, v)

    valid_executed :
        (rank : ℕ → ℕ) (x : Exec)
        → IsRanked (deps g) n rank
        → (run_checks [] answers arrival unchecked).first_err ≡ none
        → Reach g n checked_ops x
        → IsFinished x
        → (j : ℕ) → j < n
        → validate_op_report (abort_unknown x.first_err (x.ops j)) ≡ true
    valid_executed rank x ranked p h finished j b =
        let v = Reach-ExecInv g n linked checked_ops (new p) h in
        elim (Bool-cases (is_satisfied checked_ops j)) [
          | inl s ↦
              rw (v.untouched j s)
                (satisfied_valid x.first_err (checked_ops j) (checked none p j) s)
          | inr live ↦ live_valid v (x.sched.phase j) refl live
        ]
      where
        satisfied_valid :
            (o : Option Err) (s : OpState)
            → IsChecked none s
            → s.satisfied ≡ true
            → validate_op_report (abort_unknown o s) ≡ true
        satisfied_valid o s v sat =
            unfold validate_op_report abort_unknown in ground (arith, v, v.skipped sat, v.clean)

        quiet :
            ExecInv g n checked_ops x
            → x.first_err ≡ none
            → IsQuiet (is_satisfied checked_ops) n x.sched
        quiet v no_err k lt live = ground (arith, finished k, v.erred k, v.shows k live)

        shown :
            (ph : Phase) (o : Option Err) (s : OpState)
            → Shows ph s
            → (ph ≡ succeeded) ⊎ (ph ≡ failed) ⊎ ((ph ≡ idle) × (is_some o ≡ true))
            → validate_op_report (abort_unknown o s) ≡ true
        shown succeeded o s sh c = unfold validate_op_report abort_unknown in ground (arith, sh)
        shown failed o s sh c = unfold validate_op_report abort_unknown in ground (arith, sh)
        shown idle none s sh c = absurd (ground arith)
        shown idle (some e) s sh c = unfold validate_op_report abort_unknown in ground (arith, sh)
        shown ph o s sh c = absurd (ground arith)

        live_valid :
            ExecInv g n checked_ops x
            → (ph : Phase) → x.sched.phase j ≡ ph
            → is_satisfied checked_ops j ≡ false
            → validate_op_report (abort_unknown x.first_err (x.ops j)) ≡ true
        live_valid v succeeded e live =
            shown succeeded x.first_err (x.ops j)
              (subst (λ q. Shows q (x.ops j)) e (v.shows j live)) (inl refl)
        live_valid v failed e live =
            shown failed x.first_err (x.ops j) (subst (λ q. Shows q (x.ops j)) e (v.shows j live))
              (inr (inl refl))
        live_valid v idle e live = elim (Option-cases x.first_err) [
          | inl none_err ↦
              let done =
                quiet-succeeded (deps g) (is_satisfied checked_ops) n rank ranked x.sched v.base
                  (quiet v none_err) j b live in
              absurd (ground arith)
          | inr (a, some_err) ↦
              shown idle x.first_err (x.ops j) (subst (λ q. Shows q (x.ops j)) e (v.shows j live))
                (inr (inr (refl, ground arith)))
        ]
        live_valid v cancelled e live = absurd (subst (λ q. Shows q (x.ops j)) e (v.shows j live))
        live_valid v ph e live = absurd (ground (arith, finished j))

-- What a step's ops wait for: of two ops of the plan, the second declares the first.
abbrev pub DependsOn : List Op → ℕ → ℕ → Type 0
DependsOn ops j i =
    (o : Op) × (q : Op) × (get_elem? ops j ≡ some o)
    × (get_elem? ops i ≡ some q)
    × (contains o.depends_on q.id ≡ true)

-- If `buildPlan` accepts the ops, no op is checked twice and the checks return no error: however
-- the ops interleave, an op that is no longer idle was not found satisfied, and each op that it
-- depends on was found satisfied or has succeeded.
pub Reach-DependsOn :
    (ops : List Op) (g : OpGraph) (answers : ℕ → CheckAnswer) (arrival : List ℕ) (x : Exec)
    (i j : ℕ)
    → build_plan ops ≡ ok g
    → IsDistinct arrival
    → (run_checks [] answers arrival unchecked).first_err ≡ none
    → Reach g (length ops) (run_checks [] answers arrival unchecked).ops x
    → x.sched.phase j ≢ idle
    → DependsOn ops j i
    → (is_satisfied (run_checks [] answers arrival unchecked).ops j ≡ false)
      × ((is_satisfied (run_checks [] answers arrival unchecked).ops i ≡ true)
          ⊎ (x.sched.phase i ≡ succeeded))
Reach-DependsOn ops g answers arrival x i j built distinct no_err h started
      (o, q, at_j, at_i, dep) =
    let p = build_plan-IsPlan ops g built in
    started_last g (length ops) answers arrival distinct p.linked x i j no_err h started
      (p.declared j i o q at_j at_i ∙ dep)

-- If `buildPlan` accepts the ops, and no op is checked twice: when `runStep` has finished,
-- whatever the checks and the ops answered and in whatever order, no op's report is invalid, every
-- op is counted under one outcome, and there are no more changed ops than succeeded ones.
pub RunStep-IsAccount :
    (ops : List Op) (g : OpGraph) (answers : ℕ → CheckAnswer) (arrival : List ℕ) (err : Option Err)
    (final : ℕ → OpState)
    → build_plan ops ≡ ok g
    → IsDistinct arrival
    → RunStep g (length ops) answers arrival err final
    → IsAccount
        (length ops)
        (build_step_report (states (λ j. abort_unknown err (final j)) (range (length ops))) no_ops)
RunStep-IsAccount ops g answers arrival err final built distinct (check_failed e ce p q) =
    let plan = build_plan-IsPlan ops g built in
    rw (p, q)
      (account (length ops) _ (λ j b.
        valid_checked g (length ops) answers arrival distinct plan.linked e j
          (checked g (length ops) answers arrival distinct (some e) ce j)))
RunStep-IsAccount ops g answers arrival err final built distinct
      (executed x no_err h finished p q) =
    let plan = build_plan-IsPlan ops g built in
    rw (p, q)
      (account (length ops) _ (
        valid_executed g (length ops) answers arrival distinct plan.linked plan.rank x plan.ranked
          no_err h finished))
