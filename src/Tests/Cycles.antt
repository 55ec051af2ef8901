-- ===== src/Tests/Cycles.antt =====
-- internal/engine/cycles.go: a graph without a cycle, and one with a cycle of two nodes.
use scampi.Base.{ℕ, zero, suc, ◌<◌, ◌≡◌, refl, true, some, List, [], ◌∷◌, arith, All, contains}
use scampi.Engine.Cycles.{detect_cycles, from_roots, dfs, each}
use scampi.Engine.Cycles.Sound.{IsCycle, detect_cycles-IsCycle}
use scampi.Engine.Cycles.Complete.{detect_cycles-nil}
use scampi.Engine.Cycles.Total.{detect_cycles_total}

abbrev chain : ℕ → List ℕ
chain zero = 1 ∷ []
chain (suc n) = []

abbrev loop : ℕ → List ℕ
loop zero = 1 ∷ []
loop (suc n) = 0 ∷ []

chain_cycles : detect_cycles 2 (0 ∷ 1 ∷ []) chain ≡ some []
unfolding detect_cycles from_roots dfs each
chain_cycles = refl

loop_cycles : detect_cycles 2 (0 ∷ 1 ∷ []) loop ≡ some ((0 ∷ 1 ∷ 0 ∷ []) ∷ [])
unfolding detect_cycles from_roots dfs each
loop_cycles = refl

detect_cycles-nil_example :
    (rank : ℕ → ℕ) × ((i j : ℕ)
      → contains (0 ∷ 1 ∷ []) j ≡ true
      → contains (chain j) i ≡ true
      → rank i < rank j)
detect_cycles-nil_example = detect_cycles-nil 2 (0 ∷ 1 ∷ []) chain chain_cycles

detect_cycles-IsCycle_example : All (IsCycle loop) ((0 ∷ 1 ∷ 0 ∷ []) ∷ [])
detect_cycles-IsCycle_example =
    detect_cycles-IsCycle 2 (0 ∷ 1 ∷ []) loop ((0 ∷ 1 ∷ 0 ∷ []) ∷ []) loop_cycles

detect_cycles_total_example :
    (cycles : List (List ℕ)) × (detect_cycles 2 (0 ∷ 1 ∷ []) loop ≡ some cycles)
detect_cycles_total_example = detect_cycles_total loop 2 loop_low (0 ∷ 1 ∷ []) roots_low
  where
    loop_low : (n i : ℕ) → contains (loop n) i ≡ true → i < 2
    loop_low zero i e = ground arith
    loop_low (suc n) i e = ground arith

    roots_low : (i : ℕ) → contains (0 ∷ 1 ∷ []) i ≡ true → i < 2
    roots_low i e = ground arith
