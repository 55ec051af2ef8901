-- ===== src/Engine/OpGraph/Kahn.antt =====
-- The check for cycles in `buildPlan`, seen as a run of the counters: an op is scheduled when it
-- enters the queue, and succeeds when it is taken out.
pub mod Loop
use scampi.Base.{
  ℕ, zero, suc, ◌+◌, ◌-◌, ◌≤◌, ◌<◌, ◌≡◌, ◌≢◌, refl, sym, fun_ext, ◌⊎◌, inl, inr, Bool, true, false,
  not, ◌&&◌, Option, none, some, List, [], ◌∷◌, ◌++◌, arith, ◌==◌, if◌then◌else◌, update, length,
  length-append, count, count-append, count_where, contains, range, Bool-cases, sum_below,
  sum_below-suc, sum_below-strict, sum_below-ones, List-cases, contains→count, count→contains,
}
use scampi.Engine.Countdown.{
  Sched, Phase, idle, scheduled, running, succeeded, has_succeeded, decrement, release,
}
use scampi.Engine.Countdown.Invariant.{
  Inv, IsMirror, relabel-Inv, finish, finish-Inv, phase-finish, count-le-pending, started-closed,
}
use scampi.Engine.Countdown.Counts.{phase_after}
use scampi.Engine.Countdown.Progress.{IsRanked}
use scampi.Engine.OpGraph.{OpNode, OpGraph, KahnState, visit_dependents, kahn, ready_ops}
use scampi.Engine.OpGraph.Links.{IsLinked}

abbrev pub no_skip : ℕ → Bool
no_skip i = false

abbrev pub is_scheduled : Phase → ℕ
is_scheduled scheduled = 1
is_scheduled _ = 0

-- The queue holds the scheduled ops, each once, and the counters are the same.
pub record IsShadow (tmp : ℕ → ℕ) (queue : List ℕ) (s : Sched) : Type 0 where
  pub counters : (j : ℕ) → tmp j ≡ s.pending j
  pub queued : (j : ℕ) → count j queue ≡ is_scheduled (s.phase j)

-- A counter above 0 belongs to an idle op.
abbrev IsWaiting : Sched → Type 0
IsWaiting s = (j : ℕ) → 0 < s.pending j → s.phase j ≡ idle

decrement-IsWaiting : (w : ℕ) (s : Sched) → IsWaiting s → IsWaiting (decrement w s)
unfolding decrement
decrement-IsWaiting w s h j e = ground (arith, h j)

-- The loop over the dependents does what `release` does.
pub visit_dependents-IsShadow :
    (ds : List ℕ) (k : KahnState) (s : Sched)
    → IsWaiting s
    → IsShadow k.tmp k.queue s
    → IsShadow (visit_dependents ds k).tmp (visit_dependents ds k).queue (release no_skip ds s)
      × ((visit_dependents ds k).visited ≡ k.visited)
unfolding visit_dependents release
visit_dependents-IsShadow [] k s h v = (v, refl)
visit_dependents-IsShadow (d ∷ ds) k s h v =
    visit_dependents-IsShadow ds _ (decrement d s) (decrement-IsWaiting d s h) (record {
      counters = λ j. unfold decrement in ground (arith, v.counters j, v.counters d);
      queued = λ j.
          unfold decrement in
          ground (arith, v.queued j, v.counters d, h d, count-append j k.queue (d ∷ []));
    })

abbrev pub done : Phase → ℕ
done succeeded = 1
done _ = 0

abbrev pub is_calm : Phase → Bool
is_calm idle = true
is_calm scheduled = true
is_calm succeeded = true
is_calm _ = false

abbrev pub deps : OpGraph → ℕ → List ℕ
deps g j = (g j).deps

-- The state of the loop: `s` is its shadow, and `rank` the turn at which an op was taken.
pub record KahnInv (g : OpGraph) (n : ℕ) (queue : List ℕ) (tmp : ℕ → ℕ) (visited : ℕ) (s : Sched)
    (rank : ℕ → ℕ) : Type 0 where
  pub base : Inv (deps g) no_skip n s
  pub shadow : IsShadow tmp queue s
  pub calm : (j : ℕ) → is_calm (s.phase j) ≡ true
  pub inside : (j : ℕ) → s.phase j ≢ idle → j < n
  pub taken : sum_below (λ j. done (s.phase j)) n ≡ visited
  pub ranked : (i j : ℕ) → s.phase j ≡ succeeded → contains (deps g j) i ≡ true → rank i < rank j
  pub early : (j : ℕ) → s.phase j ≡ succeeded → rank j < visited

module _ (g : OpGraph) (n : ℕ) (linked : IsLinked n g) where
  -- The op `i` is taken out of the queue, and its dependents are told.
  abbrev take : Sched → ℕ → Sched
  take s i =
      finish (deps g) no_skip n (λ k. (g k).dependents) linked.mirror
        (record s { phase = update s.phase i running }) i

  module _ (i : ℕ) (queue : List ℕ) (tmp : ℕ → ℕ) (visited : ℕ) (s : Sched) (rank : ℕ → ℕ)
      (v : KahnInv g n (i ∷ queue) tmp visited s rank) where
    head_scheduled : s.phase i ≡ scheduled
    head_scheduled = ground (arith, v.shadow.queued i, v.calm i)

    running_Inv : Inv (deps g) no_skip n (record s { phase = update s.phase i running })
    running_Inv =
        relabel-Inv (deps g) no_skip n s i running s.cancel (ground (arith, head_scheduled)) refl
          v.base

    phase_take :
        (j : ℕ)
        → (take s i).phase j
          ≡ phase_after (count i (g j).deps) (s.pending j) (update s.phase i succeeded j)
    phase_take j = ground (
      arith,
      phase-finish (deps g) no_skip n (λ k. (g k).dependents) linked.mirror
          (record s { phase = update s.phase i running }) i j running_Inv (ground arith) refl,
      linked.mirror i j,
    )

    -- A dependency that is still open is counted.
    low : (j : ℕ) → count i (g j).deps ≤ s.pending j
    low j = ground (
      arith,
      count-le-pending (deps g) no_skip n (λ k. (g k).dependents) linked.mirror
          (record s { phase = update s.phase i running }) i j running_Inv (ground arith) refl,
      linked.mirror i j,
    )

    take_done : (j : ℕ) → done ((take s i).phase j) ≡ (if j == i then 1 else done (s.phase j))
    take_done j =
        ground
          (arith, phase_take j, low j, v.base.ready j refl, v.base.ready i refl, head_scheduled)
