-- ===== src/Engine/Steps.antt =====
-- internal/engine/exec.go: `executePlan` and `checkPlan`, the loops over a plan's steps. Every step
-- runs in a goroutine of its own; what a goroutine does under the lock, and its return to the
-- group, is one move.
pub mod Invariant
pub mod Progress
use scampi.Base.{
  ℕ, ◌<◌, ◌≡◌, Bool, true, false, Option, none, some, List, [], ◌∷◌, ◌==◌, if◌then◌else◌, update,
  length, range, suc,
}
use scampi.Spec.Execution.{Step}
use scampi.Engine.Countdown.{
  Sched, Phase, idle, scheduled, running, succeeded, failed, cancelled, release,
}
use scampi.Engine.StepGraph.{Graph, Order, build_step_graph, init_step_pending}

-- `if n.pending == 0 { scheduleNode(n) }` for every node.
unfoldable pub schedule_ready : List ℕ → Sched → Sched
schedule_ready [] s = s
schedule_ready (i ∷ is) s =
    schedule_ready is
      (record s { phase = if s.pending i == 0 then update s.phase i scheduled else s.phase })

-- `first_err` is the node whose error `grp.Wait` returns; `reported` marks the entries of
-- `rep.Steps` that are filled.
pub record PlanRun : Type 0 where
  pub sched : Sched
  pub first_err : Option ℕ
  pub reported : ℕ → Bool

-- `buildStepGraph`, `initStepPending`, and the first loop.
unfoldable pub start : Graph → ℕ → PlanRun
start g n = record {
  sched = schedule_ready (range n) (record {
    pending = λ i. (init_step_pending g i).pending;
    phase = λ i. idle;
    cancel = false;
  });
  first_err = none;
  reported = λ i. false;
}

-- The steps wait for every node: none is passed over.
abbrev pub no_skip : ℕ → Bool
no_skip i = false

-- errgroup keeps the first error, and cancels its context.
abbrev pub or_first : Option ℕ → ℕ → Option ℕ
or_first none i = some i
or_first (some j) i = some j

-- The goroutine of `i` starts its step.
abbrev pub launch : ℕ → PlanRun → PlanRun
launch i r = record r { sched = record r.sched { phase = update r.sched.phase i running } }

-- The goroutine of `i` ends with an error.
abbrev pub give_up : ℕ → Phase → PlanRun → PlanRun
give_up i ph r = record r {
  sched = record r.sched { phase = update r.sched.phase i ph; cancel = true };
  first_err = or_first r.first_err i;
}

-- The goroutine of `i` ends well, and unblocks the steps that were waiting for it.
abbrev pub complete : Graph → ℕ → PlanRun → PlanRun
complete g i r = record r {
  sched =
      release no_skip (g i).required_by
        (record r.sched { phase = update r.sched.phase i succeeded });
  reported = update r.reported i true;
}

-- What may happen next. `interrupt`: the caller's context is cancelled.
-- `begin`: the context is alive, and the step starts. `stop`: it is not.
-- `unresolved`: a reference of the step has no value. `settle`: the step returns no error, or one.
pub data Move (g : Graph) (r t : PlanRun) : Type 0 where
  interrupt :
      r.sched.cancel ≡ false
      → t ≡ record r { sched = record r.sched { cancel = true } }
      → Move g r t
  begin :
      (i : ℕ) → r.sched.phase i ≡ scheduled → r.sched.cancel ≡ false → t ≡ launch i r → Move g r t
  stop :
      (i : ℕ)
      → r.sched.phase i ≡ scheduled
      → r.sched.cancel ≡ true
      → t ≡ give_up i cancelled r
      → Move g r t
  unresolved : (i : ℕ) → r.sched.phase i ≡ running → t ≡ give_up i failed r → Move g r t
  settle_ok : (i : ℕ) → r.sched.phase i ≡ running → t ≡ complete g i r → Move g r t
  settle_err :
      (i : ℕ)
      → r.sched.phase i ≡ running
      → t ≡ give_up i failed (record r { reported = update r.reported i true })
      → Move g r t

-- The states of a run, however the goroutines interleave; the number counts the moves.
pub data Reach (g : Graph) (n : ℕ) : ℕ → PlanRun → Type 0 where
  here : Reach g n 0 (start g n)
  next : {k : ℕ} {r t : PlanRun} → Reach g n k r → Move g r t → Reach g n (suc k) t
