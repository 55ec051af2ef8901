-- ===== src/Engine/StepGraph/Fences/Rounds.antt =====
-- One round of the barrier loop, and the whole loop, keep the order.
use scampi.Base.{
  ℕ, suc, ◌+◌, ◌<◌, ◌≡◌, refl, ◌⊎◌, inl, inr, true, false, none, some, List, [], ◌∷◌, ◌++◌, arith,
  ◌==◌, get_elem?, length, contains-append, Bool-cases, IsSuffix, IsSuffix-head, IsSuffix-tail,
}
use scampi.Spec.Execution.{Step}
use scampi.Engine.StepGraph.{
  Graph, Fence, has_resources, add_edge, after_barrier, after_steps, fence_step, fence,
}
use scampi.Engine.StepGraph.Build.{Cause, IsBarrier}
use scampi.Engine.StepGraph.Fences.{
  Before, edge, Before-mono, Fenced, after_steps-keep, after_barrier-keep, after_barrier_mono,
  after_steps_mono, to_new, is_edge-after_steps,
}

module _ {ℓ} (steps : List Step) (P : Graph → Type ℓ)
    (keep : (i j : ℕ) (g : Graph) → Cause steps i j → P g → P (add_edge i j g)) where
  -- A step with resources goes behind the last barrier.
  resource_round : ℕ → Fence → Fence
  resource_round n f = record f {
    graph = after_barrier f.last_barrier n f.graph;
    since_barrier = f.since_barrier ++ n ∷ [];
  }

  -- A barrier goes behind all that came since the last one.
  barrier_round : ℕ → Fence → Fence
  barrier_round n f = record {
    graph = after_steps f.since_barrier n (after_barrier f.last_barrier n f.graph);
    last_barrier = some n;
    since_barrier = [];
  }

  resource_round-Fenced :
      (k : ℕ) (s : Step) (f : Fence)
      → get_elem? steps k ≡ some s
      → has_resources s ≡ true
      → Fenced steps P keep k f
      → Fenced steps P keep (suc k) (resource_round k f)
  unfolding resource_round
  resource_round-Fenced k s f at has v = record {
    kept = after_barrier-keep steps P keep f.last_barrier k f.graph v.last (s, at) v.kept;
    last = λ b e. let (lt, is) = v.last b e in (omega arith, is);
    since = λ p e. ground (arith, contains-append f.since_barrier (k ∷ []) p, v.since p);
    covered = λ b lt is. let (l, e, r) = v.covered b (old b lt is) is in (l, e, grow b l r);
    split = λ i lt. elim (Bool-cases (i == k)) [
      | inl e ↦ inl (ground (arith, contains-append f.since_barrier (k ∷ []) i))
      | inr e ↦ elim (v.split i (ground arith)) [
        | inl c ↦ inl (ground (arith, contains-append f.since_barrier (k ∷ []) i))
        | inr (l, e', r) ↦ inr (l, e', grow i l r)
      ]
    ];
    before = λ i b ib lt is. up (v.before i b ib (old b lt is) is);
    after = λ b j bj lt is. elim (Bool-cases (j == k)) [
      | inl e ↦
          let (l, e', r) = v.covered b (ground arith) is in
          let same : j ≡ k = ground arith in
          rw same (to_new steps P keep f.last_barrier k f.graph _ b l (λ x y z. z) e' r)
      | inr e ↦ up (v.after b j bj (ground arith) is)
    ];
  }
    where
      up : {i j : ℕ} → Before f.graph i j → Before (after_barrier f.last_barrier k f.graph) i j
      up = Before-mono (after_barrier_mono steps P keep f.last_barrier k f.graph)

      grow :
          (i l : ℕ)
          → (i ≡ l) ⊎ Before f.graph i l
          → (i ≡ l) ⊎ Before (after_barrier f.last_barrier k f.graph) i l
      grow i l (inl e) = inl e
      grow i l (inr b) = inr (up b)

      old : (b : ℕ) → b < suc k → IsBarrier steps b → b < k
      old b lt (a, at', none_a) = elim (Bool-cases (b == k)) [
        | inl e ↦ absurd (ground arith)
        | inr e ↦ ground arith
      ]

  barrier_round-Fenced :
      (k : ℕ) (s : Step) (f : Fence)
      → get_elem? steps k ≡ some s
      → has_resources s ≡ false
      → Fenced steps P keep k f
      → Fenced steps P keep (suc k) (barrier_round k f)
  unfolding barrier_round
  barrier_round-Fenced k s f at has v = record {
    kept =
        after_steps-keep steps P keep f.since_barrier k _ v.since (s, at, has)
          (after_barrier-keep steps P keep f.last_barrier k f.graph v.last (s, at) v.kept);
    last = λ b e. let same : k ≡ b = ground arith in rw (← same) (omega arith, (s, at, has));
    since = λ p e. cc;
    covered = λ b lt is. (k, refl, reach b lt);
    split = λ i lt. inr (k, refl, reach i lt);
    before = λ i b ib lt is. elim (Bool-cases (b == k)) [
      | inl e ↦ let same : b ≡ k = ground arith in rw same (behind i (omega arith))
      | inr e ↦ up (v.before i b ib (ground arith) is)
    ];
    after = λ b j bj lt is. elim (Bool-cases (j == k)) [
      | inl e ↦ let same : j ≡ k = ground arith in rw same (behind b (omega arith))
      | inr e ↦ up (v.after b j bj (ground arith) is)
    ];
  }
    where
      mid : Graph
      mid = after_barrier f.last_barrier k f.graph

      up : {i j : ℕ} → Before f.graph i j → Before (after_steps f.since_barrier k mid) i j
      up = Before-mono λ i j e.
          after_steps_mono steps P keep f.since_barrier k mid i j
            (after_barrier_mono steps P keep f.last_barrier k f.graph i j e)

      behind : (i : ℕ) → i < k → Before (after_steps f.since_barrier k mid) i k
      behind i lt = elim (v.split i lt) [
        | inl c ↦ edge (ground (arith, is_edge-after_steps f.since_barrier k mid i k))
        | inr (l, e, r) ↦
            to_new steps P keep f.last_barrier k f.graph _ i l
              (after_steps_mono steps P keep f.since_barrier k mid) e r
      ]

      reach : (i : ℕ) → i < suc k → (i ≡ k) ⊎ Before (after_steps f.since_barrier k mid) i k
      reach i lt = elim (Bool-cases (i == k)) [
        | inl e ↦ inl (ground arith)
        | inr e ↦ inr (behind i (ground arith))
      ]

  fence_step-Fenced :
      (k : ℕ) (s : Step) (f : Fence)
      → get_elem? steps k ≡ some s
      → Fenced steps P keep k f
      → Fenced steps P keep (suc k) (fence_step k s f)
  unfolding fence_step resource_round barrier_round
  fence_step-Fenced k s f at v = elim (Bool-cases (has_resources s)) [
    | inl e ↦ rw e (resource_round-Fenced k s f at e v)
    | inr e ↦ rw e (barrier_round-Fenced k s f at e v)
  ]

  -- The loop ends with all steps in.
  pub fence-Fenced :
      (k : ℕ) (ss : List Step) (f : Fence)
      → IsSuffix steps k ss
      → Fenced steps P keep k f
      → Fenced steps P keep (k + length ss) (fence k ss f)
  unfolding fence
  fence-Fenced k [] f at v = let e : k ≡ k + 0 = omega arith in rw (← e) v
  fence-Fenced k (s ∷ ss) f at v =
      let e : suc k + length ss ≡ k + suc (length ss) = omega arith in
      rw (← e) (
        fence-Fenced (suc k) ss (fence_step k s f) (IsSuffix-tail steps k s ss at)
          (fence_step-Fenced k s f (IsSuffix-head steps k s ss at) v))

  pub start-Fenced :
      (g : Graph)
      → P g
      → Fenced steps P keep 0 (record { graph = g; last_barrier = none; since_barrier = [] })
  start-Fenced g h = record {
    kept = h;
    last = λ b e. cc;
    since = λ p e. cc;
    covered = λ b lt is. absurd (omega arith);
    split = λ i lt. absurd (omega arith);
    before = λ i b ib lt is. absurd (omega arith);
    after = λ b j bj lt is. absurd (omega arith);
  }
