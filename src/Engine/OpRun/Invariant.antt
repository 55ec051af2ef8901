-- ===== src/Engine/OpRun/Invariant.antt =====
-- What holds in every state of the execution phase.
pub mod Moves
use scampi.Base.{
  ℕ, zero, suc, ◌+◌, ◌≤◌, ◌<◌, ◌≡◌, ◌≢◌, refl, sym, ap, fun_ext, ◌⊎◌, inl, inr, ◌∙◌, Bool, true,
  false, not, ◌&&◌, Option, none, some, List, [], ◌∷◌, arith, ◌==◌, if◌then◌else◌, ltb, leb, update,
  count, count_where, contains, contains→count, count→contains, range, range_from, Bool-cases,
}
use scampi.Spec.Execution.{OpResult}
use scampi.Engine.Countdown.{
  Sched, Phase, idle, scheduled, running, succeeded, failed, cancelled, release, is_open,
}
use scampi.Engine.Countdown.Counts.{phase_after, phase-release_skip}
use scampi.Engine.Countdown.Invariant.{
  Inv, IsMirror, relabel-Inv, finish, finish-Inv, phase-finish, count-le-pending,
}
use scampi.Engine.OpGraph.{OpGraph}
use scampi.Engine.OpGraph.Links.{IsLinked}
use scampi.Engine.OpGraph.Kahn.{deps}
use scampi.Engine.OpRun.{
  OpOutcome, op_succeeded, op_failed, op_skipped, op_aborted, op_would_change, unknown, Err, raised,
  OpState, Exec, Move, Reach, begin, return_ok, return_err, here, next, is_satisfied, init_pending,
  schedule_ops, start_exec, op_done, op_broke, first_error,
}
use scampi.Engine.OpRun.Pending.{init_pending-count_where}
use scampi.Engine.OpRun.Report.{is_some}

-- What an op that is not satisfied shows in each phase.
abbrev pub Shows : Phase → OpState → Type 0
Shows idle n = (n.outcome ≡ unknown) × (n.result ≡ none) × (n.err ≡ none)
Shows scheduled n = (n.outcome ≡ unknown) × (n.result ≡ none) × (n.err ≡ none)
Shows running n = (n.outcome ≡ unknown) × (n.result ≡ none) × (n.err ≡ none)
Shows succeeded n = (n.outcome ≡ op_succeeded) × (is_some n.result ≡ true) × (n.err ≡ none)
Shows failed n = (n.outcome ≡ op_failed) × (n.result ≡ none) × (is_some n.err ≡ true)
Shows cancelled n = ⊥

pub record ExecInv (g : OpGraph) (n : ℕ) (ops : ℕ → OpState) (x : Exec) : Type 0 where
  pub base : Inv (deps g) (is_satisfied ops) n x.sched
  pub same_satisfied : is_satisfied x.ops ≡ is_satisfied ops
  -- A satisfied op is not touched.
  pub untouched : (j : ℕ) → is_satisfied ops j ≡ true → x.ops j ≡ ops j
  pub shows : (j : ℕ) → is_satisfied ops j ≡ false → Shows (x.sched.phase j) (x.ops j)
  pub erred : (j : ℕ) → x.sched.phase j ≡ failed → is_some x.first_err ≡ true
  pub inside : (j : ℕ) → x.sched.phase j ≢ idle → j < n

phase-schedule_ops :
    (sat : ℕ → Bool) (is : List ℕ) (s : Sched) (j : ℕ)
    → (schedule_ops sat is s).phase j
      ≡ (if contains is j && (not (sat j) && s.pending j == 0) then scheduled else s.phase j)
unfolding schedule_ops
phase-schedule_ops sat [] s j = refl
phase-schedule_ops sat (i ∷ is) s j = ground (
  arith,
  phase-schedule_ops sat is
      (record s {
        phase = if not (sat i) && s.pending i == 0 then update s.phase i scheduled else s.phase;
      })
      j,
)

pending-schedule_ops :
    (sat : ℕ → Bool) (is : List ℕ) (s : Sched) → (schedule_ops sat is s).pending ≡ s.pending
unfolding schedule_ops
pending-schedule_ops sat [] s = refl
pending-schedule_ops sat (i ∷ is) s = pending-schedule_ops sat is _

contains-range : (i n j : ℕ) → contains (range_from i n) j ≡ (leb i j && ltb j (i + n))
contains-range i zero j = ground arith
contains-range i (suc n) j = ground (arith, contains-range (suc i) n j)

-- An op that has not been executed, and is not settled by its check either.
abbrev pub IsNew : OpState → Type 0
IsNew n = (n.outcome ≡ unknown) × (n.result ≡ none) × (n.err ≡ none)

module _ (g : OpGraph) (n : ℕ) (linked : IsLinked n g) (ops : ℕ → OpState) where
  start_exec-ExecInv :
      ((j : ℕ) → is_satisfied ops j ≡ false → IsNew (ops j)) → ExecInv g n ops (start_exec g n ops)
  unfolding start_exec
  start_exec-ExecInv new = record {
    base = record {
      counted = λ j live.
          rw (pending-schedule_ops sat (range n) init, pending j live)
            (ap (λ p. count_where p (deps g j)) (fun_ext (λ k. ground (arith, at k))));
      ready = λ j live e. rw (pending-schedule_ops sat (range n) init) (ground (arith, at j));
      waits = λ j b live e.
          rw (pending-schedule_ops sat (range n) init) (ground (arith, at j, contains-range 0 n j));
      passed = λ j e. ground (arith, at j);
    };
    same_satisfied = refl;
    untouched = λ j e. refl;
    shows = λ j live. ground (arith, at j, new j live);
    erred = λ j e. ground (arith, at j);
    inside = λ j e. ground (arith, at j, contains-range 0 n j);
  }
    where
      sat : ℕ → Bool
      sat = is_satisfied ops

      init : Sched
      init = record {
        pending = init_pending g (is_satisfied ops) (range n) (λ i. 0);
        phase = λ i. idle;
        cancel = false;
      }

      at :
          (j : ℕ)
          → (schedule_ops (is_satisfied ops) (range n) init).phase j ≡ (
              if contains (range n) j && (not (is_satisfied ops j) && init.pending j == 0)
              then scheduled
              else idle)
      at j = phase-schedule_ops (is_satisfied ops) (range n) init j

      pending :
          (j : ℕ)
          → is_satisfied ops j ≡ false
          → init.pending j ≡ count_where (λ i. not (is_satisfied ops i)) (deps g j)
      pending j live =
          init_pending-count_where n g linked (is_satisfied ops) j live
            (λ x e. (linked.inside x j (contains→count (deps g j) x e)).0)
