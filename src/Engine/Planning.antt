-- ===== src/Engine/Planning.antt =====
-- internal/engine: what planning checks of the steps, in plan_cycles.go and cycles.go. `key` stands for
-- `ptrKey`, which prints a pointer.
pub mod Rotations
pub mod Places
pub mod Keys
pub mod Dedup
pub mod Kept
pub mod Accepted
use scampi.Base.{
  ℕ, zero, suc, ◌+◌, ◌-◌, ◌%◌, Bool, true, false, Option, none, some, List, [], ◌∷◌, ◌++◌, ◌==◌,
  if◌then◌else◌, ltb, length, range, get_elem?, elem, Bytes, bytes_eq,
}
use scampi.Spec.Execution.{Step}
use scampi.Engine.StepGraph.{Graph, Order, build_step_graph}
use scampi.Engine.Cycles.{detect_cycles}

-- Go's `<` on strings.
abbrev pub bytes_lt : Bytes → Bytes → Bool
bytes_lt [] [] = false
bytes_lt [] (y ∷ ys) = true
bytes_lt (x ∷ xs) [] = false
bytes_lt (x ∷ xs) (y ∷ ys) = if x == y then bytes_lt xs ys else ltb x y

abbrev pub key_of : (ℕ → Bytes) → Option ℕ → Bytes
key_of key none = []
key_of key (some x) = key x

-- The key at a place of the cycle; no place that is asked for is out of range.
abbrev pub key_at : (ℕ → Bytes) → List ℕ → ℕ → Bytes
key_at key cycle i = key_of key (get_elem? cycle i)

-- The loop over `i`, with the place of the least key so far.
unfoldable pub least_place : (ℕ → Bytes) → List ℕ → ℕ → ℕ → ℕ → ℕ
least_place key cycle zero i least = least
least_place key cycle (suc n) i least =
    least_place key cycle n (suc i)
      (if bytes_lt (key_at key cycle i) (key_at key cycle least) then i else least)

-- The keys from place `least` round the cycle, `n` places in all, of which `left` are still to be written.
unfoldable pub write_keys : (ℕ → Bytes) → List ℕ → ℕ → ℕ → ℕ → ℕ → Bytes
write_keys key cycle n least zero i = []
write_keys key cycle n least (suc left) i =
    key_at key cycle ((least + i) % n) ++ b'>' ∷ write_keys key cycle n least left (suc i)

-- `rotationKey`: the last node, which repeats the first, is left out.
unfoldable pub rotation_key : (ℕ → Bytes) → List ℕ → Bytes
rotation_key key cycle =
    let n = length cycle - 1 in write_keys key cycle n (least_place key cycle (n - 1) 1 0) n 0

-- `dedupCycles`, with the keys that were seen.
unfoldable pub dedup : (ℕ → Bytes) → List Bytes → List (List ℕ) → List (List ℕ)
dedup key seen [] = []
dedup key seen (c ∷ cs) = elim (elem seen (rotation_key key c)) [
  | true ↦ dedup key seen cs
  | false ↦ c ∷ dedup key (seen ++ rotation_key key c ∷ []) cs
]

abbrev pub dedup_cycles : (ℕ → Bytes) → List (List ℕ) → List (List ℕ)
dedup_cycles key cycles = dedup key [] cycles

abbrev pub dedup_found : (ℕ → Bytes) → Option (List (List ℕ)) → Option (List (List ℕ))
dedup_found key none = none
dedup_found key (some cycles) = some (dedup_cycles key cycles)

-- `DetectStepCycles`: the cycles that it reports; none means that the steps pass.
unfoldable pub detect_step_cycles : (ℕ → Bytes) → Graph → ℕ → Option (List (List ℕ))
detect_step_cycles key g n = dedup_found key (detect_cycles n (range n) (λ j. (g j).requires))
