-- ===== src/Engine/StepGraph/Order.antt =====
-- What `buildStepGraph` promises: the graph's order is the one that the declarations ask for.
use scampi.Base.{
  ℕ, zero, suc, ◌<◌, ◌≡◌, ◌↔◌, ◌⊎◌, inl, inr, true, some, List, [], ◌∷◌, arith, get_elem?, lookup,
  length, IsSuffix-whole,
}
use scampi.Spec.Resource.{Resource, path, kind_beq_iff, resource_eq}
use scampi.Spec.Execution.{Step}
use scampi.Engine.StepGraph.{Graph, Order, blank, add_edge, wire, build_step_graph}
use scampi.Engine.StepGraph.Edges.{
  is_edge, is_edge-add_edge, IsLinked, blank-IsLinked, add_edge-IsLinked,
}
use scampi.Engine.StepGraph.Fences.{Before, edge, via}
use scampi.Engine.StepGraph.Fences.Rounds.{fence-Fenced, start-Fenced}
use scampi.Engine.StepGraph.Build.{
  Cause, requirement, parent, barrier, Provides, IsBarrier, producers, producers-IsIndex, IsRange,
  wire-keep,
}
use scampi.Engine.StepGraph.Complete.{producers-IsListed, wire-requirement, wire-parent}

-- The specification: what the declarations ask for, and what follows.
pub data MustPrecede (steps : List Step) : ℕ → ℕ → Type 0 where
  cause : {i j : ℕ} → Cause steps i j → MustPrecede steps i j
  through : {i j k : ℕ} → MustPrecede steps i j → MustPrecede steps j k → MustPrecede steps i k

-- No resource has two providers: `detectDuplicateProvides` has let the steps pass.
abbrev pub IsUnique : List Step → Type 0
IsUnique steps = (r : Resource) (i j : ℕ) → Provides steps i r → Provides steps j r → i ≡ j

abbrev pub IsRanging : List Step → Order → Type 0
IsRanging steps order = (n : ℕ) (out : Resource) → IsRange steps (order n out)

pub lt-length_of_get_elem? {ℓ} :
    {A : Type ℓ} (xs : List A) (i : ℕ) (a : A) → get_elem? xs i ≡ some a → i < length xs
lt-length_of_get_elem? [] i a h = cc
lt-length_of_get_elem? (x ∷ xs) zero a h = omega arith
lt-length_of_get_elem? (x ∷ xs) (suc i) a h = omega (arith, lt-length_of_get_elem? xs i a h)

Before-through : {g : Graph} {i j k : ℕ} → Before g i j → Before g j k → Before g i k
Before-through b (edge e) = via b e
Before-through b (via c e) = via (Before-through b c) e

edge_or_new :
    (i j : ℕ) (g : Graph) (a b : ℕ)
    → is_edge (add_edge i j g) a b ≡ true
    → (is_edge g a b ≡ true) ⊎ ((a ≡ i) × (b ≡ j))
edge_or_new i j g a b e = ground (arith, is_edge-add_edge i j g a b)

-- What every edge with a cause keeps holds of the finished graph.
build_step_graph-keep {ℓ} :
    (order : Order) (steps : List Step) (P : Graph → Type ℓ)
    → ((i j : ℕ) (g : Graph) → Cause steps i j → P g → P (add_edge i j g))
    → P (wire (producers steps) order 0 steps blank)
    → P (build_step_graph order steps)
unfolding build_step_graph
build_step_graph-keep order steps P keep h =
    (fence-Fenced steps P keep 0 steps _ (IsSuffix-whole steps)
      (start-Fenced steps P keep _ h)).kept

-- A step that declares no resource comes after every step above it, and before every step below
-- it, in whatever order the map is visited.
pub build_step_graph-barrier :
    (order : Order) (steps : List Step) (b : ℕ)
    → IsBarrier steps b
    → ((i : ℕ) → i < b → Before (build_step_graph order steps) i b)
      × ((j : ℕ) → b < j → j < length steps → Before (build_step_graph order steps) b j)
unfolding build_step_graph
build_step_graph-barrier order steps b is =
    let f =
      fence-Fenced steps (λ _. Unit {0}) (λ i j g c h. tt) 0 steps _ (IsSuffix-whole steps)
        (start-Fenced steps (λ _. Unit {0}) (λ i j g c h. tt) _ tt) in
    let in_range = lt-length_of_get_elem? steps b is.0 is.1 in
    (λ i lt. f.before i b lt (omega arith) is, λ j lt below. f.after b j lt (omega arith) is)

module _ (order : Order) (steps : List Step) (ranges : IsRanging steps order) where
  -- Every edge has a cause: a required resource, a parent directory or a barrier.
  pub build_step_graph-Cause :
      (i j : ℕ) → is_edge (build_step_graph order steps) i j ≡ true → Cause steps i j
  build_step_graph-Cause i j e = build_step_graph-keep order steps P keep start i j e
    where
      P : Graph → Type 0
      P g = (i j : ℕ) → is_edge g i j ≡ true → Cause steps i j

      keep : (i j : ℕ) (g : Graph) → Cause steps i j → P g → P (add_edge i j g)
      keep i j g c h a b e = elim (edge_or_new i j g a b e) [
        | inl old ↦ h a b old
        | inr (same_i, same_j) ↦ rw (same_i, same_j) c
      ]

      start : P (wire (producers steps) order 0 steps blank)
      start = wire-keep steps order ranges P keep 0 steps blank (IsSuffix-whole steps) (λ i j e. cc)

  -- `requiredBy` mirrors `requires`, and no edge is stored twice.
  pub build_step_graph-IsLinked : IsLinked (build_step_graph order steps)
  build_step_graph-IsLinked =
      build_step_graph-keep order steps IsLinked (λ i j g c h. add_edge-IsLinked i j g h)
        (wire-keep steps order ranges IsLinked (λ i j g c h. add_edge-IsLinked i j g h) 0 steps
          blank (IsSuffix-whole steps) blank-IsLinked)

  edge-kept :
      (i j : ℕ)
      → is_edge (wire (producers steps) order 0 steps blank) i j ≡ true
      → is_edge (build_step_graph order steps) i j ≡ true
  edge-kept i j e =
      build_step_graph-keep order steps (λ g. is_edge g i j ≡ true)
        (λ a b g c h. ground (arith, is_edge-add_edge a b g i j)) e

  module _ (unique : IsUnique steps) where
    provider : (i : ℕ) (r : Resource) → Provides steps i r → lookup r (producers steps) ≡ some i
    provider i r h =
        let (p, at) = producers-IsListed steps i r h in
        let same : p ≡ i = unique r p i (producers-IsIndex steps r p at) h in rw same at at

    Cause-Before : (i j : ℕ) → Cause steps i j → Before (build_step_graph order steps) i j
    Cause-Before i j (requirement r pr (b, at, e) ne) = edge (
        edge-kept i j (
          wire-requirement (producers steps) order j r i ne 0 j steps blank b (omega arith) at e
            (provider i r pr)))
    Cause-Before i j (parent r out pr (b, at, e) (kr, ko, pre) ne) =
        let (v, at_v) = (ranges j out).1 r i (provider i r pr) in
        edge (
          edge-kept i j (
            wire-parent (producers steps) order j r i ne 0 j steps blank b out v (omega arith) at e
              ((kind_beq_iff out.kind path).1 ko) at_v (ground (arith, kind_beq_iff r.kind path))))
    Cause-Before i j (barrier lt (b, at) (inl is)) =
        (build_step_graph-barrier order steps i is).1 j lt (lt-length_of_get_elem? steps j b at)
    Cause-Before i j (barrier lt at (inr is)) = (build_step_graph-barrier order steps j is).0 i lt

    must-Before : {i j : ℕ} → MustPrecede steps i j → Before (build_step_graph order steps) i j
    must-Before (cause {i} {j} c) = Cause-Before i j c
    must-Before (through a b) = Before-through (must-Before a) (must-Before b)

    Before-must : {i j : ℕ} → Before (build_step_graph order steps) i j → MustPrecede steps i j
    Before-must (edge {i} {j} e) = cause (build_step_graph-Cause i j e)
    Before-must (via {i} {j} {k} b e) =
        through (Before-must b) (cause (build_step_graph-Cause j k e))

    -- If no resource has two providers, and the loops over the map of producers visit its entries
    -- in any order: the graph has a chain of edges from one step to another exactly when the
    -- declarations ask for it, by a chain of requirements, parent directories and barriers.
    pub build_step_graph-Before :
        (i j : ℕ) → Before (build_step_graph order steps) i j ↔ MustPrecede steps i j
    build_step_graph-Before i j = (Before-must, must-Before)
