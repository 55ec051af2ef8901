-- ===== src/Engine/StepGraph/Ranging.antt =====
-- The map of producers, visited in the order in which its entries were put in, is one of the
-- orders that a `range` may take.
use scampi.Base.{
  ℕ, suc, List, [], ◌∷◌, IsMap, insert, insert-IsMap, lookup→get_elem?, get_elem?→lookup,
}
use scampi.Spec.Resource.{Resource, resource_eq}
use scampi.Spec.Execution.{Step}
use scampi.Engine.StepGraph.{Producers, Order, note_provides, index_producers}
use scampi.Engine.StepGraph.Build.{producers}
use scampi.Engine.StepGraph.Order.{IsRanging}

note_provides-IsMap :
    (n : ℕ) (rs : List Resource) (m : Producers) → IsMap m → IsMap (note_provides n rs m)
note_provides-IsMap n [] m h = h
note_provides-IsMap n (r ∷ rs) m h = note_provides-IsMap n rs (insert r n m) (insert-IsMap r n m h)

index_producers-IsMap :
    (i : ℕ) (ss : List Step) (m : Producers) → IsMap m → IsMap (index_producers i ss m)
unfolding index_producers
index_producers-IsMap i [] m h = h
index_producers-IsMap i (s ∷ ss) m h =
    index_producers-IsMap (suc i) ss _ (note_provides-IsMap i s.provides m h)

abbrev pub entry_order : List Step → Order
entry_order steps n out = producers steps

pub entry_order-IsRanging : (steps : List Step) → IsRanging steps (entry_order steps)
entry_order-IsRanging steps n out = (
  λ k r p at. get_elem?→lookup (producers steps) k r p (index_producers-IsMap 0 steps [] tt) at,
  λ r p at. lookup→get_elem? (producers steps) r p at,
)
