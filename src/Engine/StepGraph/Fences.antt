-- ===== src/Engine/StepGraph/Fences.antt =====
-- The barrier loop of `buildStepGraph`: a step without resources keeps its place in the order.
pub mod Rounds
use scampi.Base.{
  ℕ, zero, suc, ◌+◌, ◌<◌, ◌≡◌, ◌≢◌, refl, ◌⊎◌, inl, inr, Bool, true, false, not, ◌&&◌, ◌||◌, Option,
  none, some, List, [], ◌∷◌, ◌++◌, arith, ◌==◌, if◌then◌else◌, get_elem?, length, contains,
  contains-append, Bool-cases, Option-cases, IsSuffix, IsSuffix-whole, IsSuffix-head, IsSuffix-tail,
}
use scampi.Spec.Execution.{Step}
use scampi.Engine.StepGraph.{
  Graph, Fence, has_resources, add_edge, after_barrier, after_steps, fence_step, fence,
}
use scampi.Engine.StepGraph.Edges.{is_edge, is_edge-add_edge}
use scampi.Engine.StepGraph.Build.{Cause, barrier, IsBarrier, IsStep}

-- Some chain of edges leads from `i` to `j`: the schedulers finish `i` before they start `j`.
pub data Before (g : Graph) : ℕ → ℕ → Type 0 where
  edge : {i j : ℕ} → is_edge g i j ≡ true → Before g i j
  via : {i j k : ℕ} → Before g i j → is_edge g j k ≡ true → Before g i k

abbrev pub IsSubgraph : Graph → Graph → Type 0
IsSubgraph g h = (i j : ℕ) → is_edge g i j ≡ true → is_edge h i j ≡ true

pub Before-mono : {g h : Graph} {i j : ℕ} → IsSubgraph g h → Before g i j → Before h i j
Before-mono m (edge e) = edge (m _ _ e)
Before-mono m (via b e) = via (Before-mono m b) (m _ _ e)

is_edge-after_barrier :
    (b n : ℕ) (g : Graph) (i j : ℕ)
    → is_edge (after_barrier (some b) n g) i j ≡ (is_edge g i j || (n == j && b == i))
is_edge-after_barrier b n g i j = is_edge-add_edge b n g i j

is_edge-after_steps :
    (ps : List ℕ) (n : ℕ) (g : Graph) (i j : ℕ)
    → is_edge (after_steps ps n g) i j ≡ (is_edge g i j || (n == j && contains ps i))
is_edge-after_steps [] n g i j = ground arith
is_edge-after_steps (p ∷ ps) n g i j =
    ground (arith, is_edge-after_steps ps n (add_edge p n g) i j, is_edge-add_edge p n g i j)

module _ {ℓ} (steps : List Step) (P : Graph → Type ℓ)
    (keep : (i j : ℕ) (g : Graph) → Cause steps i j → P g → P (add_edge i j g)) where
  -- After the steps 0, …, k - 1.
  pub record Fenced (k : ℕ) (f : Fence) : Type ℓ where
    pub kept : P f.graph
    pub last : (b : ℕ) → f.last_barrier ≡ some b → (b < k) × IsBarrier steps b
    pub since : (p : ℕ) → contains f.since_barrier p ≡ true → p < k
    -- Every barrier so far is the last one, or comes before it.
    pub covered :
        (b : ℕ)
        → b < k
        → IsBarrier steps b
        → (l : ℕ) × (f.last_barrier ≡ some l) × ((b ≡ l) ⊎ Before f.graph b l)
    -- Every other step too, unless it came after the last barrier.
    pub split :
        (i : ℕ)
        → i < k
        → (contains f.since_barrier i ≡ true)
          ⊎ ((l : ℕ) × (f.last_barrier ≡ some l) × ((i ≡ l) ⊎ Before f.graph i l))
    pub before : (i b : ℕ) → i < b → b < k → IsBarrier steps b → Before f.graph i b
    pub after : (b j : ℕ) → b < j → j < k → IsBarrier steps b → Before f.graph b j

  after_steps-keep :
      (ps : List ℕ) (n : ℕ) (g : Graph)
      → ((p : ℕ) → contains ps p ≡ true → p < n)
      → IsBarrier steps n
      → P g
      → P (after_steps ps n g)
  after_steps-keep [] n g below b h = h
  after_steps-keep (p ∷ ps) n g below b h =
      after_steps-keep ps n (add_edge p n g) (λ q e. below q (ground arith)) b
        (keep p n g (barrier (below p (ground arith)) (b.0, b.1) (inr b)) h)

  after_barrier-keep :
      (o : Option ℕ) (n : ℕ) (g : Graph)
      → ((b : ℕ) → o ≡ some b → (b < n) × IsBarrier steps b)
      → IsStep steps n
      → P g
      → P (after_barrier o n g)
  after_barrier-keep none n g last at h = h
  after_barrier-keep (some b) n g last at h =
      let (lt, is) = last b refl in keep b n g (barrier lt at (inl is)) h

  -- The edges after a round are those before it, and more.
  after_barrier_mono : (o : Option ℕ) (n : ℕ) (g : Graph) → IsSubgraph g (after_barrier o n g)
  after_barrier_mono none n g i j e = e
  after_barrier_mono (some b) n g i j e = ground (arith, is_edge-after_barrier b n g i j)

  after_steps_mono : (ps : List ℕ) (n : ℕ) (g : Graph) → IsSubgraph g (after_steps ps n g)
  after_steps_mono ps n g i j e = ground (arith, is_edge-after_steps ps n g i j)

  to_new :
      (o : Option ℕ) (n : ℕ) (g h : Graph) (i l : ℕ)
      → IsSubgraph (after_barrier o n g) h
      → o ≡ some l
      → (i ≡ l) ⊎ Before g i l
      → Before h i n
  to_new none n g h i l m e b = cc
  to_new (some b0) n g h i l m e (inl same) =
      edge (m i n (ground (arith, is_edge-after_barrier b0 n g i n)))
  to_new (some b0) n g h i l m e (inr b) =
      via (Before-mono (λ a c x. m a c (after_barrier_mono (some b0) n g a c x)) b)
        (m l n (ground (arith, is_edge-after_barrier b0 n g l n)))
