-- ===== src/Tests/Planning.antt =====
-- internal/engine: the check for cycles on the plan of two steps that Tests.Steps runs, and the keys of
-- two rotations of one cycle.
use mathlib.Core.List.{head-eq_of_cons-eq}
use scampi.Base.{
  ℕ, ◌==◌, if◌then◌else◌, get_elem?, contains, range, false, ◌+◌, ◌≡◌, refl, ◌↔◌, true, some, List,
  [], ◌∷◌, Bytes, arith,
}
use scampi.Engine.Countdown.{succeeded}
use scampi.Engine.Cycles.{detect_cycles, from_roots, dfs, each}
use scampi.Engine.StepGraph.{
  Graph, build_step_graph, add_edge, index_producers, wire, fence, fence_step, has_resources,
}
use scampi.Engine.StepGraph.Order.{MustPrecede}
use scampi.Engine.StepGraph.Ranging.{entry_order, entry_order-IsRanging}
use scampi.Engine.Steps.{start}
use scampi.Engine.Planning.{
  dedup, dedup_cycles, rotation_key, least_place, write_keys, detect_step_cycles,
}
use scampi.Engine.Cycles.Simple.{IsSimple}
use scampi.Engine.Cycles.Sound.{IsCycle}
use scampi.Engine.Planning.Kept.{AreRotations, detect_step_cycles-AreRotations}
use scampi.Engine.Planning.Accepted.{detect_step_cycles-MustPrecede, run_passed}
use scampi.Tests.Steps.{pair, pair-IsUnique, both_done, both_done-Reach, both_done-IsWaited}

abbrev key : ℕ → Bytes
key n = (b'a' + n) ∷ []

abbrev rotations : List (List ℕ)
rotations = (1 ∷ 2 ∷ 0 ∷ 1 ∷ []) ∷ (0 ∷ 1 ∷ 2 ∷ 0 ∷ []) ∷ (3 ∷ 3 ∷ []) ∷ []

rotations_kept : dedup_cycles key rotations ≡ (1 ∷ 2 ∷ 0 ∷ 1 ∷ []) ∷ (3 ∷ 3 ∷ []) ∷ []
unfolding dedup rotation_key least_place write_keys
rotations_kept = refl

-- A ring of three steps with its last edge twice.
abbrev ring : Graph
ring j = record {
  requires =
      if j == 0 then 1 ∷ [] else if j == 1 then 2 ∷ [] else if j == 2 then 0 ∷ 0 ∷ [] else [];
  required_by = [];
  pending = 0;
}

ring_found : detect_step_cycles key ring 3 ≡ some ((0 ∷ 1 ∷ 2 ∷ 0 ∷ []) ∷ [])
unfolding detect_step_cycles detect_cycles from_roots dfs each dedup rotation_key least_place
    write_keys
ring_found = refl

found_twice :
    detect_cycles 3 (0 ∷ 1 ∷ 2 ∷ []) (λ j. (ring j).requires)
    ≡ some ((0 ∷ 1 ∷ 2 ∷ 0 ∷ []) ∷ (0 ∷ 1 ∷ 2 ∷ 0 ∷ []) ∷ [])
unfolding detect_cycles from_roots dfs each
found_twice = refl

key-injective : (x y : ℕ) → key x ≡ key y → x ≡ y
key-injective x y e = omega (arith, head-eq_of_cons-eq e)

key-plain : (x : ℕ) → contains (key x) b'>' ≡ false
key-plain x = ground arith

detect_step_cycles-AreRotations_example :
    let cycles : List (List ℕ) = (0 ∷ 1 ∷ 2 ∷ 0 ∷ []) ∷ [] in
    (found : List (List ℕ)) × (detect_cycles 3 (range 3) (λ j. (ring j).requires) ≡ some found)
    × ((i : ℕ) (c : List ℕ)
        → get_elem? cycles i ≡ some c
        → (j : ℕ) × (get_elem? found j ≡ some c) × IsSimple c × IsCycle (λ j. (ring j).requires) c)
    × ((i : ℕ) (c : List ℕ)
        → get_elem? found i ≡ some c
        → (j : ℕ) × (d : List ℕ) × (get_elem? cycles j ≡ some d) × AreRotations c d)
    × ((i j : ℕ) (c d : List ℕ)
        → get_elem? cycles i ≡ some c
        → get_elem? cycles j ≡ some d
        → AreRotations c d
        → i ≡ j)
detect_step_cycles-AreRotations_example =
    detect_step_cycles-AreRotations key ring 3 ((0 ∷ 1 ∷ 2 ∷ 0 ∷ []) ∷ []) key-injective key-plain
      ring_found

pair_passes : detect_step_cycles key (build_step_graph (entry_order pair) pair) 2 ≡ some []
unfolding detect_step_cycles detect_cycles from_roots dfs each dedup build_step_graph add_edge
    index_producers wire fence fence_step has_resources
pair_passes = refl

detect_step_cycles-MustPrecede_example :
    (detect_step_cycles key (build_step_graph (entry_order pair) pair) 2 ≡ some [])
    ↔ ((i : ℕ) → MustPrecede pair i i → ⊥)
detect_step_cycles-MustPrecede_example =
    detect_step_cycles-MustPrecede key (entry_order pair) pair (entry_order-IsRanging pair)
      pair-IsUnique

run_passed_example : (both_done.sched.phase 1 ≡ succeeded) × (both_done.reported 1 ≡ true)
unfolding start
run_passed_example =
    run_passed key (entry_order pair) pair (entry_order-IsRanging pair) both_done pair_passes
      both_done-Reach both_done-IsWaited refl 1 (omega arith)
