-- ===== src/Engine/Steps/Invariant.antt =====
-- What holds in every state of a run over a plan's steps.
use scampi.Base.{
  count_where-all, ℕ, zero, suc, ◌+◌, ◌≤◌, ◌<◌, ◌≡◌, ◌≢◌, refl, sym, ◌⊎◌, inl, inr, Bool, true,
  false, ◌&&◌, none, List, [], ◌∷◌, arith, ◌==◌, if◌then◌else◌, update, length, range, range_from,
  count, contains, count→contains, Bool-cases,
}
use scampi.Engine.Countdown.{Sched, Phase, idle, scheduled, running, succeeded, failed, cancelled}
use scampi.Engine.Countdown.Counts.{phase_after}
use scampi.Engine.Countdown.Invariant.{Inv, relabel-Inv, finish-Inv, phase-finish, count-le-pending}
use scampi.Engine.StepGraph.{Graph, init_step_pending}
use scampi.Engine.StepGraph.Edges.{is_edge, IsLinked}
use scampi.Engine.Steps.{
  PlanRun, Move, Reach, here, next, interrupt, begin, stop, unresolved, settle_ok, settle_err,
  schedule_ready, start, no_skip, give_up, complete,
}

abbrev pub needs : Graph → ℕ → List ℕ
needs g j = (g j).requires

abbrev pub is_bad : Phase → Bool
is_bad failed = true
is_bad cancelled = true
is_bad _ = false

-- A goroutine that has not returned.
abbrev pub is_active : Phase → Bool
is_active scheduled = true
is_active running = true
is_active _ = false

pub record StepInv (g : Graph) (n : ℕ) (r : PlanRun) : Type 0 where
  pub base : Inv (needs g) no_skip n r.sched
  pub inside : (j : ℕ) → r.sched.phase j ≢ idle → j < n
  pub erred : (j : ℕ) → is_bad (r.sched.phase j) ≡ true → r.first_err ≢ none
  pub filled : (j : ℕ) → r.sched.phase j ≡ succeeded → r.reported j ≡ true
  pub final :
      (j : ℕ) → r.reported j ≡ true → (r.sched.phase j ≡ succeeded) ⊎ (r.sched.phase j ≡ failed)

phase-schedule_ready :
    (is : List ℕ) (s : Sched) (j : ℕ)
    → (schedule_ready is s).phase j
      ≡ (if contains is j && s.pending j == 0 then scheduled else s.phase j)
unfolding schedule_ready
phase-schedule_ready [] s j = refl
phase-schedule_ready (i ∷ is) s j = ground (
  arith,
  phase-schedule_ready is
      (record s { phase = if s.pending i == 0 then update s.phase i scheduled else s.phase }) j,
)

pending-schedule_ready : (is : List ℕ) (s : Sched) → (schedule_ready is s).pending ≡ s.pending
unfolding schedule_ready
pending-schedule_ready [] s = refl
pending-schedule_ready (i ∷ is) s = pending-schedule_ready is _

pub contains-range_from : (i n j : ℕ) → contains (range_from i n) j ≡ true → (i ≤ j) × (j < i + n)
contains-range_from i zero j e = cc
contains-range_from i (suc n) j e = ground (arith, contains-range_from (suc i) n j)

pub range_from-contains : (i n j : ℕ) → i ≤ j → j < i + n → contains (range_from i n) j ≡ true
range_from-contains i zero j a b = absurd (omega arith)
range_from-contains i (suc n) j a b = ground (arith, range_from-contains (suc i) n j)

start-StepInv : (g : Graph) (n : ℕ) → StepInv g n (start g n)
unfolding start init_step_pending
start-StepInv g n = record {
  base = record {
    counted = λ j live.
        rw (pending-schedule_ready (range n) init)
          (sym (count_where-all _ (g j).requires (λ k. ground (arith, at k))));
    ready = λ j live e. rw (pending-schedule_ready (range n) init) (ground (arith, at j));
    waits = λ j b live e.
        rw (pending-schedule_ready (range n) init)
          (ground (arith, at j, range_from-contains 0 n j));
    passed = λ j e. cc;
  };
  inside = λ j e. ground (arith, at j, contains-range_from 0 n j);
  erred = λ j e. ground (arith, at j);
  filled = λ j e. ground (arith, at j);
  final = λ j e. cc;
}
  where
    init : Sched
    init = record { pending = λ i. length (g i).requires; phase = λ i. idle; cancel = false }

    at :
        (j : ℕ)
        → (schedule_ready (range n) init).phase j
          ≡ (if contains (range n) j && length (g j).requires == 0 then scheduled else idle)
    at j = phase-schedule_ready (range n) init j

abbrev pub IsBounded : Graph → ℕ → Type 0
IsBounded g n = (i j : ℕ) → is_edge g i j ≡ true → (i < n) × (j < n)

module _ (g : Graph) (n : ℕ) (linked : IsLinked g) (bounded : IsBounded g n) where
  give_up-StepInv :
      (i : ℕ) (ph : Phase) (r : PlanRun)
      → is_active (r.sched.phase i) ≡ true
      → is_bad ph ≡ true
      → ((j : ℕ)
          → r.reported j ≡ true
          → (r.sched.phase j ≡ succeeded) ⊎ (r.sched.phase j ≡ failed) ⊎ ((j ≡ i) × (ph ≡ failed)))
      → Inv (needs g) no_skip n r.sched
      → ((j : ℕ) → r.sched.phase j ≢ idle → j < n)
      → ((j : ℕ) → r.sched.phase j ≡ succeeded → r.reported j ≡ true)
      → StepInv g n (give_up i ph r)
  give_up-StepInv i ph r act bad final base inside filled = record {
    base = relabel-Inv (needs g) no_skip n r.sched i ph true (ground arith) (ground arith) base;
    inside = λ j e. ground (arith, inside j, inside i);
    erred = λ j e. ground arith;
    filled = λ j e. ground (arith, filled j);
    final = λ j e. ground (arith, final j e);
  }

  pub phase-complete :
      (i j : ℕ) (r : PlanRun)
      → StepInv g n r
      → r.sched.phase i ≡ running
      → (complete g i r).sched.phase j
        ≡ phase_after
            (count i (g j).requires)
            (r.sched.pending j)
            (update r.sched.phase i succeeded j)
  phase-complete i j r v e = ground (
    arith,
    phase-finish (needs g) no_skip n (λ k. (g k).required_by) linked.mirror r.sched i j v.base e
        refl,
    linked.mirror i j,
  )

  complete-StepInv :
      (i : ℕ) (r : PlanRun)
      → r.sched.phase i ≡ running
      → StepInv g n r
      → StepInv g n (complete g i r)
  complete-StepInv i r e v = record {
    base = finish-Inv (needs g) no_skip n (λ k. (g k).required_by) linked.mirror r.sched i v.base e;
    inside = λ j h. elim (Bool-cases (is_edge g i j)) [
      | inl is ↦ (bounded i j is).1
      | inr isnt ↦
          ground (
            arith,
            phase-complete i j r v e,
            count→contains (g j).requires i,
            v.inside j,
            v.inside i,
          )
    ];
    erred = λ j h. ground (arith, phase-complete i j r v e, v.erred j);
    filled = λ j h. ground (arith, phase-complete i j r v e, v.filled j);
    final = λ j h. ground (arith, phase-complete i j r v e, v.final j, v.base.ready j refl, low j);
  }
    where
      low : (j : ℕ) → count i (g j).requires ≤ r.sched.pending j
      low j = ground (
        arith,
        count-le-pending (needs g) no_skip n (λ k. (g k).required_by) linked.mirror r.sched i j
            v.base e refl,
        linked.mirror i j,
      )

  pub Move-StepInv : {r t : PlanRun} → Move g r t → StepInv g n r → StepInv g n t
  Move-StepInv {r} (interrupt c e) v = rw e (record {
    base = record {
      counted = v.base.counted;
      ready = v.base.ready;
      waits = v.base.waits;
      passed = v.base.passed;
    };
    inside = v.inside;
    erred = v.erred;
    filled = v.filled;
    final = v.final;
  })
  Move-StepInv {r} (begin i p c e) v = rw e (record {
    base =
        relabel-Inv (needs g) no_skip n r.sched i running r.sched.cancel (ground arith) refl v.base;
    inside = λ j h. ground (arith, v.inside j, v.inside i);
    erred = λ j h. ground (arith, v.erred j);
    filled = λ j h. ground (arith, v.filled j);
    final = λ j h. ground (arith, v.final j, v.final i);
  })
  Move-StepInv {r} (stop i p c e) v = rw e (
      give_up-StepInv i cancelled r (ground arith) refl (λ j h. ground (arith, v.final j)) v.base
        v.inside v.filled)
  Move-StepInv {r} (unresolved i p e) v = rw e (
      give_up-StepInv i failed r (ground arith) refl (λ j h. ground (arith, v.final j)) v.base
        v.inside v.filled)
  Move-StepInv {r} (settle_ok i p e) v = rw e (complete-StepInv i r p v)
  Move-StepInv {r} (settle_err i p e) v = rw e (
      give_up-StepInv i failed (record r { reported = update r.reported i true }) (ground arith)
        refl (λ j h. ground (arith, v.final j)) v.base v.inside (λ j h. ground (arith, v.filled j)))

  pub Reach-StepInv : {k : ℕ} {r : PlanRun} → Reach g n k r → StepInv g n r
  Reach-StepInv here = start-StepInv g n
  Reach-StepInv (next h m) = Move-StepInv m (Reach-StepInv h)
