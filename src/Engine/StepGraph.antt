-- ===== src/Engine/StepGraph.antt =====
-- internal/engine/step_graph.go. The nodes are a heap: the node of `steps[i]` is the record at `i`.
pub mod Edges
pub mod Build
pub mod Fences
pub mod Complete
pub mod Order
pub mod Ranging
use scampi.Base.{
  ℕ, zero, suc, Bool, true, false, not, ◌&&◌, ◌||◌, Option, none, some, List, [], ◌∷◌, ◌++◌, ◌==◌,
  if◌then◌else◌, update, length, contains, lookup, insert, has_prefix,
}
use scampi.Spec.Resource.{Resource, path, kind_beq, resource_eq}
use scampi.Spec.Execution.{Step}

-- `requiresSet` holds what `requires` holds.
pub record StepNode : Type 0 where
  pub requires : List ℕ
  pub required_by : List ℕ
  pub pending : ℕ

abbrev pub Graph : Type 0
Graph = ℕ → StepNode

abbrev pub blank : Graph
blank i = record { requires = []; required_by = []; pending = 0 }

abbrev pub is_empty {ℓ} : {A : Type ℓ} → List A → Bool
is_empty [] = true
is_empty (x ∷ xs) = false

unfoldable pub has_resources : Step → Bool
has_resources s = not (is_empty s.requires) || not (is_empty s.provides)

-- The two appends, in the code's order: `from` may be `to`.
abbrev pub link : ℕ → ℕ → Graph → Graph
link from to g =
    let g' : Graph = update g to (record (g to) { requires = (g to).requires ++ from ∷ [] }) in
    update g' from (record (g' from) { required_by = (g' from).required_by ++ to ∷ [] })

unfoldable pub add_edge : ℕ → ℕ → Graph → Graph
add_edge from to g = if contains (g to).requires from then g else link from to g

abbrev pub Producers : Type 0
Producers = List (Resource × ℕ)

abbrev pub note_provides : ℕ → List Resource → Producers → Producers
note_provides n [] m = m
note_provides n (r ∷ rs) m = note_provides n rs (insert r n m)

-- `producers`: the map's entries, where a later assignment replaces an earlier one.
unfoldable pub index_producers : ℕ → List Step → Producers → Producers
index_producers i [] m = m
index_producers i (s ∷ ss) m = index_producers (suc i) ss (note_provides i s.provides m)

abbrev pub wire_require : ℕ → Option ℕ → Graph → Graph
wire_require n none g = g
wire_require n (some p) g = if p == n then g else add_edge p n g

abbrev pub wire_requires : ℕ → Producers → List Resource → Graph → Graph
wire_requires n m [] g = g
wire_requires n m (r ∷ rs) g = wire_requires n m rs (wire_require n (lookup r m) g)

-- Whether a producer of `r` has to run before `n`, which provides `out`.
abbrev pub is_parent : ℕ → Resource → Resource × ℕ → Bool
is_parent n out (r, p) =
    not (p == n) && (kind_beq r.kind path && has_prefix out.name (r.name ++ b'/' ∷ []))

abbrev pub wire_parent : ℕ → Resource → List (Resource × ℕ) → Graph → Graph
wire_parent n out [] g = g
wire_parent n out ((r, p) ∷ m) g =
    wire_parent n out m (if is_parent n out (r, p) then add_edge p n g else g)

-- `order n out` lists the entries of `producers` in the order in which this `range` visits them.
abbrev pub Order : Type 0
Order = ℕ → Resource → List (Resource × ℕ)

abbrev pub wire_parents : Order → ℕ → List Resource → Graph → Graph
wire_parents order n [] g = g
wire_parents order n (out ∷ outs) g =
    wire_parents order n outs
      (if kind_beq out.kind path then wire_parent n out (order n out) g else g)

unfoldable pub wire : Producers → Order → ℕ → List Step → Graph → Graph
wire m order i [] g = g
wire m order i (s ∷ ss) g =
    wire m order (suc i) ss (wire_parents order i s.provides (wire_requires i m s.requires g))

-- The state of the barrier loop.
pub record Fence : Type 0 where
  pub graph : Graph
  pub last_barrier : Option ℕ
  pub since_barrier : List ℕ

abbrev pub after_barrier : Option ℕ → ℕ → Graph → Graph
after_barrier none n g = g
after_barrier (some b) n g = add_edge b n g

abbrev pub after_steps : List ℕ → ℕ → Graph → Graph
after_steps [] n g = g
after_steps (p ∷ ps) n g = after_steps ps n (add_edge p n g)

unfoldable pub fence_step : ℕ → Step → Fence → Fence
fence_step n s f =
    if has_resources s
    then record f {
      graph = after_barrier f.last_barrier n f.graph;
      since_barrier = f.since_barrier ++ n ∷ [];
    }
    else record {
      graph = after_steps f.since_barrier n (after_barrier f.last_barrier n f.graph);
      last_barrier = some n;
      since_barrier = [];
    }

unfoldable pub fence : ℕ → List Step → Fence → Fence
fence i [] f = f
fence i (s ∷ ss) f = fence (suc i) ss (fence_step i s f)

-- `order` stands for Go's unspecified iteration order over a map.
unfoldable pub build_step_graph : Order → List Step → Graph
build_step_graph order steps =
    let g = wire (index_producers 0 steps []) order 0 steps blank in
    (fence 0 steps (record { graph = g; last_barrier = none; since_barrier = [] })).graph

-- `for _, n := range nodes { n.pending = len(n.requires) }`
unfoldable pub init_step_pending : Graph → Graph
init_step_pending g i = record (g i) { pending = length (g i).requires }
