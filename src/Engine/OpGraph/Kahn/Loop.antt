-- ===== src/Engine/OpGraph/Kahn/Loop.antt =====
-- The loop keeps its invariant, ends within its fuel, and starts with it.
use scampi.Base.{
  ℕ, zero, suc, ◌+◌, ◌<◌, ◌≡◌, ◌≢◌, refl, inl, inr, true, some, List, [], ◌∷◌, arith, update,
  contains, Bool-cases, sum_below-suc, sum_below-strict, sum_below-ones, contains→count,
  count→contains,
}
use scampi.Engine.Countdown.{Sched, idle, succeeded}
use scampi.Engine.Countdown.Invariant.{finish-Inv, started-closed}
use scampi.Engine.OpGraph.{OpGraph, KahnState, visit_dependents, kahn}
use scampi.Engine.OpGraph.Links.{IsLinked}
use scampi.Engine.OpGraph.Kahn.{
  no_skip, IsShadow, visit_dependents-IsShadow, done, deps, KahnInv, take, head_scheduled,
  running_Inv, phase_take, low, take_done,
}

module _ (g : OpGraph) (n : ℕ) (linked : IsLinked n g) where
  -- What the loop has after the round for `i`.
  abbrev after : ℕ → List ℕ → (ℕ → ℕ) → ℕ → KahnState
  after i queue tmp visited =
      visit_dependents (g i).dependents (record { tmp = tmp; queue = queue; visited = suc visited })

  module _ (i : ℕ) (queue : List ℕ) (tmp : ℕ → ℕ) (visited : ℕ) (s : Sched) (rank : ℕ → ℕ)
      (v : KahnInv g n (i ∷ queue) tmp visited s rank) where
    in_range : i < n
    in_range = v.inside i (ground (arith, head_scheduled g n linked i queue tmp visited s rank v))

    after-IsShadow :
        IsShadow
          (after i queue tmp visited).tmp
          (after i queue tmp visited).queue
          (take g n linked s i)
        × ((after i queue tmp visited).visited ≡ suc visited)
    after-IsShadow =
        visit_dependents-IsShadow (g i).dependents _ _
          (λ j pos. ground (
            arith,
            v.base.ready j refl,
            v.base.ready i refl,
            head_scheduled g n linked i queue tmp visited s rank v,
          ))
          (record {
            counters = v.shadow.counters;
            queued = λ j.
                ground (
                  arith,
                  v.shadow.queued j,
                  head_scheduled g n linked i queue tmp visited s rank v,
                );
          })

    -- A dependency of a taken op was taken before it.
    closed : (a j : ℕ) → s.phase j ≢ idle → contains (deps g j) a ≡ true → s.phase a ≡ succeeded
    closed a j started e =
        ground (arith, started-closed (deps g) no_skip n s a j v.base refl started e)

    round-KahnInv :
        KahnInv g n
          (after i queue tmp visited).queue
          (after i queue tmp visited).tmp
          (after i queue tmp visited).visited
          (take g n linked s i)
          (update rank i visited)
    round-KahnInv =
        let was = head_scheduled g n linked i queue tmp visited s rank v in
        let phases = λ (j : ℕ). phase_take g n linked i queue tmp visited s rank v j in
        let dones = λ (j : ℕ). take_done g n linked i queue tmp visited s rank v j in
        let few = λ (j : ℕ). low g n linked i queue tmp visited s rank v j in
        record {
          base =
              finish-Inv (deps g) no_skip n (λ k. (g k).dependents) linked.mirror _ i
                (running_Inv g n linked i queue tmp visited s rank v) (ground arith);
          shadow = after-IsShadow.0;
          calm = λ j. ground (arith, phases j, v.calm j);
          inside = λ j h. elim (Bool-cases (contains (deps g j) i)) [
            | inl e ↦ (linked.inside i j (contains→count (deps g j) i e)).1
            | inr e ↦ ground (arith, phases j, count→contains (deps g j) i, v.inside j, v.inside i)
          ];
          taken = rw (after-IsShadow.1) (
              ground (
                arith,
                v.taken,
                sum_below-suc (λ j. done (s.phase j)) (λ j. done ((take g n linked s i).phase j)) n
                    i in_range (ground (arith, dones i)) (λ k ne. ground (arith, dones k)),
              ));
          ranked = λ a j h e.
              ground (arith, dones j, closed a j, closed a i, v.ranked a j, v.early a, v.early j);
          early = λ j h. ground (arith, dones j, v.early j, after-IsShadow.1);
        }

  -- The loop ends within the fuel, in a state with an empty queue.
  pub record Ended (fuel : ℕ) (queue : List ℕ) (tmp : ℕ → ℕ) (visited : ℕ) : Type 0 where
    pub total : ℕ
    pub ends : kahn g fuel queue tmp visited ≡ some total
    pub sched : Sched
    pub rank : ℕ → ℕ
    pub last_tmp : ℕ → ℕ
    pub holds : KahnInv g n [] last_tmp total sched rank

  pub kahn-Ended :
      (fuel : ℕ) (queue : List ℕ) (tmp : ℕ → ℕ) (visited : ℕ) (s : Sched) (rank : ℕ → ℕ)
      → fuel + visited ≡ n
      → KahnInv g n queue tmp visited s rank
      → Ended fuel queue tmp visited
  unfolding kahn
  kahn-Ended fuel [] tmp visited s rank size v = record {
    total = visited;
    ends = refl;
    sched = s;
    rank = rank;
    last_tmp = tmp;
    holds = v;
  }
  kahn-Ended zero (i ∷ queue) tmp visited s rank size v = absurd (
      ground (
        arith,
        v.taken,
        sum_below-ones n,
        sum_below-strict (λ j. done (s.phase j)) (λ j. 1) n i
            (in_range i queue tmp visited s rank v)
            (ground (arith, head_scheduled g n linked i queue tmp visited s rank v))
            (λ k. ground arith),
      ))
  kahn-Ended (suc fuel) (i ∷ queue) tmp visited s rank size v =
      let next =
        kahn-Ended fuel (after i queue tmp visited).queue (after i queue tmp visited).tmp
          (after i queue tmp visited).visited _ _
          (ground (arith, (after-IsShadow i queue tmp visited s rank v).1))
          (round-KahnInv i queue tmp visited s rank v) in
      record {
        total = next.total;
        ends = next.ends;
        sched = next.sched;
        rank = next.rank;
        last_tmp = next.last_tmp;
        holds = next.holds;
      }
