-- ===== src/Engine/OpRun.antt =====
-- internal/engine/exec.go: the scheduler of a step's ops. `Check` and `Execute` of an op are the
-- environment's: their answers are arguments of the functions, and of the moves.
pub mod Report
pub mod Checks
pub mod Pending
pub mod Invariant
pub mod Outcome
pub mod Apply
use scampi.Base.{
  ℕ, suc, ◌≡◌, Bool, true, false, not, ◌&&◌, ◌||◌, Option, none, some, List, [], ◌∷◌, ◌++◌, ◌==◌,
  if◌then◌else◌, update, any, elem, has_prefix, range,
}
use scampi.Spec.Resource.{Resource, path, kind_beq, resource_eq}
use scampi.Spec.Execution.{CheckResult, check_satisfied, check_unsatisfied, check_unknown, OpResult}
use scampi.Engine.Countdown.{Sched, Phase, idle, scheduled, running, succeeded, failed, release}
use scampi.Engine.OpGraph.{OpGraph}

-- `unknown` is the engine's marker 0xff.
pub data OpOutcome : Type 0 where
  op_succeeded op_failed op_aborted op_skipped op_would_change unknown : OpOutcome

-- An error that an op returned, and the engine's wrappers round one.
pub data Err : Type 0 where
  raised : ℕ → Err
  abort_error : Err → Err
  step_aborted : Err → Err

-- The fields of `opNode` that the scheduler writes, but for `pending`.
pub record OpState : Type 0 where
  pub satisfied : Bool
  pub outcome : OpOutcome
  pub result : Option OpResult
  pub err : Option Err

abbrev pub new_op : OpState
new_op = record { satisfied = false; outcome = unknown; result = none; err = none }

abbrev pub is_unknown : OpOutcome → Bool
is_unknown unknown = true
is_unknown _ = false

-- An error of `Check`: `deferred` is its `DeferredResource()`, if it is `Deferrable`; `aborts` and
-- `consumed` are what `emitOpDiagnostic` makes of it.
pub record CheckError : Type 0 where
  pub tag : ℕ
  pub deferred : Option Resource
  pub aborts : Bool
  pub consumed : Bool

pub record CheckAnswer : Type 0 where
  pub res : CheckResult
  pub err : Option CheckError

-- A provided path below the missing one.
abbrev pub is_below : Resource → Resource → Bool
is_below r pp = kind_beq pp.kind path && has_prefix pp.name (r.name ++ b'/' ∷ [])

abbrev pub defers : List Resource → Option Resource → Bool
defers provided none = false
defers provided (some r) = elem provided r || (kind_beq r.kind path && any (is_below r) provided)

unfoldable pub is_deferred : List Resource → CheckError → Bool
is_deferred [] e = false
is_deferred (p ∷ ps) e = defers (p ∷ ps) e.deferred

abbrev pub take_result : CheckResult → OpState → OpState × Option Err
take_result check_satisfied n = (record n { satisfied = true; outcome = op_skipped }, none)
take_result check_unsatisfied n = (record n { satisfied = false }, none)
take_result check_unknown n = (record n { satisfied = false }, none)

abbrev pub take_error : List Resource → CheckError → CheckResult → OpState → OpState × Option Err
take_error provided e res n =
    if is_deferred provided e
    then (record n { outcome = op_would_change }, none)
    else if e.aborts
    then (
      record n { outcome = op_aborted; err = some (raised e.tag) },
      some (abort_error (raised e.tag)),
    )
    else if e.consumed
    then take_result res n
    else (n, some (raised e.tag))

-- One goroutine of `runChecks`: the op's new state, and what it returns.
unfoldable pub check_op : List Resource → CheckAnswer → OpState → OpState × Option Err
check_op provided a n = elim a.err [
  | none ↦ take_result a.res n
  | some e ↦ take_error provided e a.res n
]

abbrev pub first_error : Option Err → Option Err → Option Err
first_error none e = e
first_error (some e) e' = some e

pub record Checked : Type 0 where
  pub ops : ℕ → OpState
  pub first_err : Option Err

-- `runChecks`: `arrival` lists the ops in the order in which their goroutines finish.
unfoldable pub run_checks : List Resource → (ℕ → CheckAnswer) → List ℕ → Checked → Checked
run_checks provided answers [] c = c
run_checks provided answers (i ∷ is) c =
    let (n, e) = check_op provided (answers i) (c.ops i) in
    run_checks provided answers is
      (record { ops = update c.ops i n; first_err = first_error c.first_err e })

abbrev pub unchecked : Checked
unchecked = record { ops = λ i. new_op; first_err = none }

-- `initPending`: one for each dependency that is not satisfied.
abbrev pub raise_pending : (ℕ → Bool) → List ℕ → (ℕ → ℕ) → ℕ → ℕ
raise_pending sat [] p = p
raise_pending sat (d ∷ ds) p = raise_pending sat ds (if sat d then p else update p d (suc (p d)))

unfoldable pub init_pending : OpGraph → (ℕ → Bool) → List ℕ → (ℕ → ℕ) → ℕ → ℕ
init_pending g sat [] p = p
init_pending g sat (i ∷ is) p =
    init_pending g sat is (if sat i then p else raise_pending sat (g i).dependents p)

-- The state of the execution phase.
pub record Exec : Type 0 where
  pub sched : Sched
  pub ops : ℕ → OpState
  pub first_err : Option Err

abbrev pub is_satisfied : (ℕ → OpState) → ℕ → Bool
is_satisfied ops i = (ops i).satisfied

-- `if !n.satisfied && n.pending == 0 { s.schedule(n) }` for every op.
unfoldable pub schedule_ops : (ℕ → Bool) → List ℕ → Sched → Sched
schedule_ops sat [] s = s
schedule_ops sat (i ∷ is) s = schedule_ops sat is (record s {
  phase = if not (sat i) && s.pending i == 0 then update s.phase i scheduled else s.phase;
})

unfoldable pub start_exec : OpGraph → ℕ → (ℕ → OpState) → Exec
start_exec g n ops = record {
  sched = schedule_ops (is_satisfied ops) (range n) (record {
    pending = init_pending g (is_satisfied ops) (range n) (λ i. 0);
    phase = λ i. idle;
    cancel = false;
  });
  ops = ops;
  first_err = none;
}

-- `Execute` returned a result: dependents that are not satisfied are unblocked.
abbrev pub op_done : OpGraph → ℕ → OpResult → Exec → Exec
op_done g i res x = record {
  sched =
      release (is_satisfied x.ops) (g i).dependents
        (record x.sched { phase = update x.sched.phase i succeeded });
  ops = update x.ops i (record (x.ops i) { outcome = op_succeeded; err = none; result = some res });
  first_err = x.first_err;
}

-- `Execute` returned an error.
abbrev pub op_broke : ℕ → ℕ → Exec → Exec
op_broke i tag x = record {
  sched = record x.sched { phase = update x.sched.phase i failed; cancel = true };
  ops =
      update x.ops i
        (record (x.ops i) { outcome = op_failed; err = some (raised tag); result = none });
  first_err = first_error x.first_err (some (raised tag));
}

-- Unlike a step, an op that is scheduled runs even after another has failed.
pub data Move (g : OpGraph) (x y : Exec) : Type 0 where
  begin :
      (i : ℕ)
      → x.sched.phase i ≡ scheduled
      → y ≡ record x { sched = record x.sched { phase = update x.sched.phase i running } }
      → Move g x y
  return_ok :
      (i : ℕ) (res : OpResult) → x.sched.phase i ≡ running → y ≡ op_done g i res x → Move g x y
  return_err : (i tag : ℕ) → x.sched.phase i ≡ running → y ≡ op_broke i tag x → Move g x y

pub data Reach (g : OpGraph) (n : ℕ) (ops : ℕ → OpState) : Exec → Type 0 where
  here : Reach g n ops (start_exec g n ops)
  next : {x y : Exec} → Reach g n ops x → Move g x y → Reach g n ops y

-- `grp.Wait` has returned.
abbrev pub is_active : Phase → Bool
is_active scheduled = true
is_active running = true
is_active _ = false

abbrev pub IsFinished : Exec → Type 0
IsFinished x = (j : ℕ) → is_active (x.sched.phase j) ≡ false

-- `runStep` up to its error handling: `err` is `cmp.Or(checkErr, execErr)`, and `ops` the states that
-- it leaves. A step is not executed after an error of its checks.
pub data RunStep (g : OpGraph) (n : ℕ) (answers : ℕ → CheckAnswer) (arrival : List ℕ)
    (err : Option Err) (ops : ℕ → OpState) : Type 0 where
  check_failed :
      (e : Err)
      → (run_checks [] answers arrival unchecked).first_err ≡ some e
      → err ≡ some e
      → ops ≡ (run_checks [] answers arrival unchecked).ops
      → RunStep g n answers arrival err ops
  executed :
      (x : Exec)
      → (run_checks [] answers arrival unchecked).first_err ≡ none
      → Reach g n (run_checks [] answers arrival unchecked).ops x
      → IsFinished x
      → err ≡ x.first_err
      → ops ≡ x.ops
      → RunStep g n answers arrival err ops
