-- ===== src/Engine/OpGraph/Correct.antt =====
-- `buildPlan` accepts exactly the plans whose ops can be ordered.
use scampi.Base.{
  count_where-all, ℕ, zero, suc, ◌+◌, ◌<◌, ◌≡◌, ◌≢◌, refl, sym, ◌∙◌, ◌↔◌, ◌⊎◌, inl, inr, false,
  ◌&&◌, Option, none, some, List, [], ◌∷◌, arith, ◌==◌, if◌then◌else◌, length, count, contains,
  range, range_from, Bool-cases, Option-cases, get_elem?, lookup, insert, nat_eq, ltb, leb,
  sum_below, sum_below-strict, sum_below-ones, sum_below-congr, contains→count,
}
use scampi.Spec.Execution.{Op}
use scampi.Engine.Countdown.{Sched, idle, scheduled, succeeded, is_open}
use scampi.Engine.Countdown.Progress.{IsRanked, quiet-succeeded}
use scampi.Engine.OpGraph.{
  OpGraph, ByOp, Bug, Result, ok, panic, out_of_fuel, cycle, >>=-eq-ok, fresh, kahn, ready_ops,
  check_acyclic, index_ops, wire_ops, wire_deps, link_dep, judge_visited, build_plan,
}
use scampi.Engine.OpGraph.Links.{IsLinked, wired-IsLinked}
use scampi.Engine.OpGraph.Kahn.{no_skip, done, deps, KahnInv}
use scampi.Engine.OpGraph.Resolve.{wired-deps}
use scampi.Engine.OpGraph.Kahn.Loop.{Ended, kahn-Ended}

count-ready_ops :
    (i n : ℕ) (tmp : ℕ → ℕ) (j : ℕ)
    → count j (ready_ops (range_from i n) tmp)
      ≡ (if leb i j && (ltb j (i + n) && tmp j == 0) then 1 else 0)
unfolding ready_ops
count-ready_ops i zero tmp j = ground arith
count-ready_ops i (suc n) tmp j = ground (arith, count-ready_ops (suc i) n tmp j)

module _ (g : OpGraph) (n : ℕ) (linked : IsLinked n g) where
  abbrev first_shadow : Sched
  first_shadow = record {
    pending = λ j. (g j).indegree;
    phase = λ j. if ltb j n && (g j).indegree == 0 then scheduled else idle;
    cancel = false;
  }

  first-KahnInv :
      KahnInv g n
        (ready_ops (range n) (λ i. (g i).indegree))
        (λ i. (g i).indegree)
        0
        first_shadow
        (λ j. 0)
  first-KahnInv = record {
    base = record {
      counted = λ j live.
          linked.counted j
          ∙ sym (count_where-all (is_open no_skip first_shadow) (g j).deps (λ k. ground arith));
      ready = λ j live e. ground arith;
      waits = λ j b live e. ground arith;
      passed = λ j e. cc;
    };
    shadow = record {
      counters = λ j. refl;
      queued = λ j. ground (arith, count-ready_ops 0 n (λ i. (g i).indegree) j);
    };
    calm = λ j. ground arith;
    inside = λ j e. ground arith;
    taken = sum_below-congr _ (λ k. 0) n (λ k b. ground arith) ∙ none_taken n;
    ranked = λ i j e. ground arith;
    early = λ j e. ground arith;
  }
    where
      none_taken : (m : ℕ) → sum_below (λ k. 0) m ≡ 0
      none_taken zero = refl
      none_taken (suc m) = omega (arith, none_taken m)

  run : Ended g n linked n (ready_ops (range n) (λ i. (g i).indegree)) (λ i. (g i).indegree) 0
  run = kahn-Ended g n linked n _ _ 0 first_shadow (λ j. 0) (omega arith) first-KahnInv

  -- If all were visited, the turns are a rank.
  full-IsRanked : run.total ≡ n → IsRanked (deps g) n run.rank
  full-IsRanked full i j e =
      let (a, b) = linked.inside i j (contains→count (deps g j) i e) in
      (a, run.holds.ranked i j (visited j b) e)
    where
      visited : (j : ℕ) → j < n → run.sched.phase j ≡ succeeded
      visited j b = elim (Bool-cases (done (run.sched.phase j) == 1)) [
        | inl e ↦ ground arith
        | inr e ↦ absurd (
            ground (
              arith,
              run.holds.taken,
              sum_below-ones n,
              sum_below-strict (λ k. done (run.sched.phase k)) (λ k. 1) n j b (ground arith)
                  (λ k. ground arith),
            ))
      ]

  -- If there is a rank, all are visited.
  ranked-full : (rank : ℕ → ℕ) → IsRanked (deps g) n rank → run.total ≡ n
  ranked-full rank ranked =
      sym run.holds.taken
      ∙ sum_below-congr (λ j. done (run.sched.phase j)) (λ k. 1) n (λ k b. ground (arith, all k b))
      ∙ sum_below-ones n
    where
      all : (k : ℕ) → k < n → run.sched.phase k ≡ succeeded
      all k b =
          quiet-succeeded (deps g) no_skip n rank ranked run.sched run.holds.base
            (λ j lt live. ground (arith, run.holds.shadow.queued j, run.holds.calm j)) k b refl

  check_acyclic-ok : (check_acyclic n g ≡ ok g) ↔ ((rank : ℕ → ℕ) × IsRanked (deps g) n rank)
  unfolding check_acyclic
  check_acyclic-ok = (
    λ e. (run.rank, full-IsRanked (ground (arith, run.ends))),
    λ (rank, ranked). ground (arith, run.ends, ranked-full rank ranked),
  )

  check_acyclic-cases : (check_acyclic n g ≡ ok g) ⊎ (check_acyclic n g ≡ panic cycle)
  unfolding check_acyclic
  check_acyclic-cases = ground (arith, run.ends)

check_acyclic-same : (n : ℕ) (h g : OpGraph) → check_acyclic n h ≡ ok g → h ≡ g
unfolding check_acyclic
check_acyclic-same n h g e = by_answer (kahn h n _ _ 0) e
  where
    by_answer : (o : Option ℕ) → judge_visited n h o ≡ ok g → h ≡ g
    by_answer none e = cc
    by_answer (some visited) e = ground arith

-- What an accepted plan is: the graph holds every declared dependency and no other, both of its
-- sides agree, and there is an order in which every op comes after what it depends on.
pub record IsPlan (ops : List Op) (g : OpGraph) : Type 0 where
  pub linked : IsLinked (length ops) g
  pub declared :
      (j d : ℕ) (o q : Op)
      → get_elem? ops j ≡ some o
      → get_elem? ops d ≡ some q
      → contains (deps g j) d ≡ contains o.depends_on q.id
  pub rank : ℕ → ℕ
  pub ranked : IsRanked (deps g) (length ops) rank

-- If `buildPlan` returns a graph, then its two sides agree and its counters are right, it has an
-- edge for each declared dependency between listed ops and no other, and the ops can be ordered so
-- that each comes after what it depends on.
pub build_plan-IsPlan : (ops : List Op) (g : OpGraph) → build_plan ops ≡ ok g → IsPlan ops g
unfolding build_plan
build_plan-IsPlan ops g e =
    let (m, indexed, rest) = >>=-eq-ok (index_ops 0 ops []) _ e in
    let (h, wired, checked) = >>=-eq-ok (wire_ops m 0 ops fresh) _ rest in
    let linked = wired-IsLinked ops m h indexed wired in
    let same : h ≡ g = check_acyclic-same (length ops) h g checked in
    let (rank, ranked) = (check_acyclic-ok h (length ops) linked).0 (rw (← same) at checked) in
    rw (← same) (record {
      linked = linked;
      declared = λ j d o q. wired-deps ops m h j d o q indexed wired;
      rank = rank;
      ranked = ranked;
    })

-- If the first two loops of `buildPlan` do not panic, and the graph that they build can be
-- ordered, then `buildPlan` returns that graph.
pub build_plan_accepts :
    (ops : List Op) (m : ByOp) (g : OpGraph) (rank : ℕ → ℕ)
    → index_ops 0 ops [] ≡ ok m
    → wire_ops m 0 ops fresh ≡ ok g
    → IsRanked (deps g) (length ops) rank
    → build_plan ops ≡ ok g
unfolding build_plan
build_plan_accepts ops m g rank indexed wired ranked =
    let linked = wired-IsLinked ops m g indexed wired in
    rw (indexed, wired) ((check_acyclic-ok g (length ops) linked).1 (rank, ranked))

Result-cases {ℓ} :
    {A : Type ℓ} (r : Result A) → ((a : A) × (r ≡ ok a)) ⊎ ((b : Bug) × (r ≡ panic b))
Result-cases (ok a) = inl (a, refl)
Result-cases (panic b) = inr (b, refl)

index_ops-fuel : (i : ℕ) (os : List Op) (m : ByOp) → index_ops i os m ≢ panic out_of_fuel
unfolding index_ops
index_ops-fuel i [] m e = cc
index_ops-fuel i (o ∷ os) m e = ground (arith, index_ops-fuel (suc i) os (insert o.id i m))

wire_deps-fuel :
    (m : ByOp) (p n : ℕ) (ds : List ℕ) (g : OpGraph) → wire_deps m p n ds g ≢ panic out_of_fuel
unfolding wire_deps
wire_deps-fuel m p n [] g e = cc
wire_deps-fuel m p n (dep ∷ ds) g e = elim (Option-cases (lookup dep m)) [
  | inl missing ↦ ground arith
  | inr (d, found) ↦ wire_deps-fuel m p n ds (link_dep n d g) (ground arith)
]

wire_ops-fuel :
    (m : ByOp) (i : ℕ) (os : List Op) (g : OpGraph) → wire_ops m i os g ≢ panic out_of_fuel
unfolding wire_ops
wire_ops-fuel m i [] g e = cc
wire_ops-fuel m i (o ∷ os) g e = elim (Result-cases (wire_deps m o.id i o.depends_on g)) [
  | inr (b, bad) ↦ wire_deps-fuel m o.id i o.depends_on g (ground arith)
  | inl (h, fine) ↦ wire_ops-fuel m (suc i) os h (ground arith)
]

-- The loop of the check for cycles ends within as many turns as there are ops, for whatever ops.
pub build_plan-ne-out_of_fuel : (ops : List Op) → build_plan ops ≢ panic out_of_fuel
unfolding build_plan
build_plan-ne-out_of_fuel ops e = elim (Result-cases (index_ops 0 ops [])) [
  | inr (b, bad) ↦ index_ops-fuel 0 ops [] (ground arith)
  | inl (m, indexed) ↦ elim (Result-cases (wire_ops m 0 ops fresh)) [
    | inr (b, bad) ↦ wire_ops-fuel m 0 ops fresh (ground arith)
    | inl (g, wired) ↦
        elim (check_acyclic-cases g (length ops) (wired-IsLinked ops m g indexed wired)) [
          | inl fine ↦ ground arith
          | inr cyclic ↦ ground arith
        ]
  ]
]
