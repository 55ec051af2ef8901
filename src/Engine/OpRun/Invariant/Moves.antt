-- ===== src/Engine/OpRun/Invariant/Moves.antt =====
-- Every move of the execution phase keeps the invariant.
use scampi.Base.{
  ℕ, ◌≤◌, ◌≡◌, refl, sym, ap, subst, fun_ext, inl, inr, Bool, true, false, Option, none, some,
  arith, update, count, contains, contains→count, count→contains, Bool-cases,
}
use scampi.Spec.Execution.{OpResult}
use scampi.Engine.Countdown.{idle, scheduled, running, succeeded, failed, release}
use scampi.Engine.Countdown.Counts.{phase_after, phase-release_skip}
use scampi.Engine.Countdown.Invariant.{relabel-Inv, finish-Inv, phase-finish, count-le-pending}
use scampi.Engine.OpGraph.{OpGraph}
use scampi.Engine.OpGraph.Links.{IsLinked}
use scampi.Engine.OpGraph.Kahn.{deps}
use scampi.Engine.OpRun.{
  op_succeeded, Err, raised, OpState, Exec, Move, Reach, begin, return_ok, return_err, here, next,
  is_satisfied, op_done, op_broke, first_error,
}
use scampi.Engine.OpRun.Report.{is_some}
use scampi.Engine.OpRun.Invariant.{ExecInv, IsNew, start_exec-ExecInv}

module _ (g : OpGraph) (n : ℕ) (linked : IsLinked n g) (ops : ℕ → OpState) where
  begin-ExecInv :
      (i : ℕ) (x : Exec)
      → x.sched.phase i ≡ scheduled
      → ExecInv g n ops x
      → ExecInv g n ops
          (record x { sched = record x.sched { phase = update x.sched.phase i running } })
  begin-ExecInv i x e v = record {
    base =
        relabel-Inv (deps g) (is_satisfied ops) n x.sched i running x.sched.cancel (ground arith)
          refl v.base;
    same_satisfied = v.same_satisfied;
    untouched = v.untouched;
    shows = λ j live. ground (arith, v.shows j live);
    erred = λ j h. ground (arith, v.erred j);
    inside = λ j h. ground (arith, v.inside j, v.inside i);
  }

  op_broke-ExecInv :
      (i tag : ℕ) (x : Exec)
      → x.sched.phase i ≡ running
      → ExecInv g n ops x
      → ExecInv g n ops (op_broke i tag x)
  op_broke-ExecInv i tag x e v = record {
    base =
        relabel-Inv (deps g) (is_satisfied ops) n x.sched i failed true (ground arith) refl v.base;
    same_satisfied = fun_ext (λ k. ground (arith, same k));
    untouched = λ j h. ground (arith, v.untouched j h, v.base.passed j h);
    shows = λ j live. ground (arith, v.shows j live);
    erred = λ j h. first_is_some x.first_err;
    inside = λ j h. ground (arith, v.inside j, v.inside i);
  }
    where
      same : (k : ℕ) → (x.ops k).satisfied ≡ (ops k).satisfied
      same k = ap (λ f. f k) v.same_satisfied

      first_is_some : (o : Option Err) → is_some (first_error o (some (raised tag))) ≡ true
      first_is_some none = refl
      first_is_some (some a) = refl

  -- `op_done`, over the flags that the phase began with.
  abbrev done_at : (ℕ → Bool) → ℕ → OpResult → Exec → Exec
  done_at sat i res x = record {
    sched =
        release sat (g i).dependents (record x.sched { phase = update x.sched.phase i succeeded });
    ops =
        update x.ops i (record (x.ops i) { outcome = op_succeeded; err = none; result = some res });
    first_err = x.first_err;
  }

  module _ (i : ℕ) (res : OpResult) (x : Exec) (e : x.sched.phase i ≡ running)
      (v : ExecInv g n ops x) where
    after : Exec
    after = done_at (is_satisfied ops) i res x

    phase_done :
        (j : ℕ)
        → is_satisfied ops j ≡ false
        → (done_at (is_satisfied ops) i res x).sched.phase j
          ≡ phase_after
              (count i (g j).deps)
              (x.sched.pending j)
              (update x.sched.phase i succeeded j)
    phase_done j live = ground (
      arith,
      phase-finish (deps g) (is_satisfied ops) n (λ k. (g k).dependents) linked.mirror x.sched i j
          v.base e live,
      linked.mirror i j,
    )

    low : (j : ℕ) → is_satisfied ops j ≡ false → count i (g j).deps ≤ x.sched.pending j
    low j live = ground (
      arith,
      count-le-pending (deps g) (is_satisfied ops) n (λ k. (g k).dependents) linked.mirror x.sched i
          j v.base e live,
      linked.mirror i j,
    )

    -- A satisfied op stays idle.
    idle_done :
        (j : ℕ)
        → is_satisfied ops j ≡ true
        → (done_at (is_satisfied ops) i res x).sched.phase j ≡ idle
    idle_done j h = ground (
      arith,
      v.base.passed j h,
      phase-release_skip (is_satisfied ops) j (g i).dependents
          (record x.sched { phase = update x.sched.phase i succeeded }) h,
    )

    same_at : (k : ℕ) → (x.ops k).satisfied ≡ (ops k).satisfied
    same_at k = ap (λ f. f k) v.same_satisfied

    done_at-ExecInv : ExecInv g n ops (done_at (is_satisfied ops) i res x)
    done_at-ExecInv = record {
      base =
          finish-Inv (deps g) (is_satisfied ops) n (λ k. (g k).dependents) linked.mirror x.sched i
            v.base e;
      same_satisfied = fun_ext (λ k. ground (arith, same_at k));
      untouched = λ j h. ground (arith, v.untouched j h, v.base.passed j h);
      shows = λ j live.
          ground (arith, phase_done j live, low j live, v.base.ready j live, v.shows j live);
      erred = λ j h. elim (Bool-cases (is_satisfied ops j)) [
        | inl s ↦ ground (arith, idle_done j s)
        | inr live ↦ ground (arith, phase_done j live, v.erred j)
      ];
      inside = λ j h. elim (Bool-cases (is_satisfied ops j)) [
        | inl s ↦ ground (arith, idle_done j s)
        | inr live ↦ elim (Bool-cases (contains (deps g j) i)) [
          | inl c ↦ (linked.inside i j (contains→count (deps g j) i c)).1
          | inr c ↦
              ground (arith, phase_done j live, count→contains (deps g j) i, v.inside j, v.inside i)
        ]
      ];
    }

    op_done-ExecInv : ExecInv g n ops (op_done g i res x)
    op_done-ExecInv =
        subst (λ sat. ExecInv g n ops (done_at sat i res x)) (sym v.same_satisfied) done_at-ExecInv

  Move-ExecInv : {x y : Exec} → Move g x y → ExecInv g n ops x → ExecInv g n ops y
  Move-ExecInv {x} (begin i e p) v = rw p (begin-ExecInv i x e v)
  Move-ExecInv {x} (return_ok i res e p) v = rw p (op_done-ExecInv i res x e v)
  Move-ExecInv {x} (return_err i tag e p) v = rw p (op_broke-ExecInv i tag x e v)

  pub Reach-ExecInv :
      {x : Exec}
      → ((j : ℕ) → is_satisfied ops j ≡ false → IsNew (ops j))
      → Reach g n ops x
      → ExecInv g n ops x
  Reach-ExecInv new here = start_exec-ExecInv g n linked ops new
  Reach-ExecInv new (next h m) = Move-ExecInv m (Reach-ExecInv new h)
