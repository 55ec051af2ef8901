-- ===== src/Engine/StepGraph/Edges.antt =====
-- `addEdge`: what an edge changes, and that no edge is stored twice or on one side only.
use scampi.Base.{
  ℕ, ◌≤◌, ◌≡◌, refl, Bool, ◌||◌, ◌&&◌, [], ◌∷◌, arith, ◌==◌, count, contains, count-append,
  contains-append, count→contains,
}
use scampi.Engine.StepGraph.{Graph, blank, add_edge}

-- `i` must complete before `j`.
abbrev pub is_edge : Graph → ℕ → ℕ → Bool
is_edge g i j = contains (g j).requires i

pub is_edge-add_edge :
    (from to : ℕ) (g : Graph) (i j : ℕ)
    → is_edge (add_edge from to g) i j ≡ (is_edge g i j || (to == j && from == i))
unfolding add_edge
is_edge-add_edge from to g i j = ground (arith, contains-append (g to).requires (from ∷ []) i)

-- Both sides of the heap know of an edge, once.
pub record IsLinked (g : Graph) : Type 0 where
  pub mirror : (i j : ℕ) → count j (g i).required_by ≡ count i (g j).requires
  pub once : (i j : ℕ) → count i (g j).requires ≤ 1

pub blank-IsLinked : IsLinked blank
blank-IsLinked = record { mirror = λ i j. refl; once = λ i j. omega arith }

pub add_edge-IsLinked : (from to : ℕ) (g : Graph) → IsLinked g → IsLinked (add_edge from to g)
unfolding add_edge
add_edge-IsLinked from to g v = record {
  mirror = λ i j. ground (
    arith,
    v.mirror i j,
    count-append i (g to).requires (from ∷ []),
    count-append j (g i).required_by (to ∷ []),
  );
  once = λ i j. ground (
    arith,
    v.once i j,
    count-append i (g to).requires (from ∷ []),
    count→contains (g to).requires from,
  );
}
