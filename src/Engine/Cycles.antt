-- ===== src/Engine/Cycles.antt =====
-- internal/engine/cycles.go: depth-first search for cycles. Nodes are compared by pointer, a number.
pub mod Sound
pub mod Total
pub mod Complete
pub mod Simple
use scampi.Base.{
  ℕ, zero, suc, Bool, true, false, not, ◌&&◌, Option, none, some, List, [], ◌∷◌, ◌++◌, ◌==◌,
  if◌then◌else◌, update, contains,
}

-- The variables that `dfs` closes over. The head of `stack` is the end of the slice.
pub record Search : Type 0 where
  pub visited : ℕ → Bool
  pub on_stack : ℕ → Bool
  pub stack : List ℕ
  pub cycles : List (List ℕ)

abbrev pub no_search : Search
no_search = record { visited = λ i. false; on_stack = λ i. false; stack = []; cycles = [] }

-- `append(stack[i:], n)`, where `i` is the last position of `n`; `tail` is what stands behind.
abbrev pub slice_from : ℕ → List ℕ → List ℕ → List ℕ
slice_from n [] tail = tail
slice_from n (t ∷ ts) tail = if t == n then t ∷ tail else slice_from n ts (t ∷ tail)

abbrev pub note_cycle : ℕ → Search → Search
note_cycle n s = record s { cycles = s.cycles ++ slice_from n s.stack (n ∷ []) ∷ [] }

abbrev pub enter : ℕ → Search → Search
enter n s = record s {
  visited = update s.visited n true;
  on_stack = update s.on_stack n true;
  stack = n ∷ s.stack;
}

abbrev pub pop : List ℕ → List ℕ
pop [] = []
pop (t ∷ ts) = ts

abbrev pub leave : ℕ → Search → Search
leave n s = record s { on_stack = update s.on_stack n false; stack = pop s.stack }

module _ {ℓ κ} {A : Type ℓ} {B : Type κ} where
  infixl 5 ◌>>=◌
  -- The search goes on, unless its fuel has run out.
  abbrev pub ◌>>=◌ : Option A → (A → Option B) → Option B
  some s >>= next = next s
  none >>= next = none

-- `for _, next := range neighbors(n) { dfs(next) }`
unfoldable pub each : (ℕ → Search → Option Search) → List ℕ → Search → Option Search
each visit [] s = some s
each visit (x ∷ xs) s = visit x s >>= λ s'. each visit xs s'

-- `dfs`; `none` means that the fuel, a bound on the depth, ran out.
unfoldable pub dfs : (ℕ → List ℕ) → ℕ → ℕ → Search → Option Search
dfs neighbors zero n s = none
dfs neighbors (suc fuel) n s = elim (s.on_stack n && contains s.stack n) [
  | true ↦ some (note_cycle n s)
  | false ↦ elim (s.visited n) [
    | true ↦ some s
    | false ↦ each (dfs neighbors fuel) (neighbors n) (enter n s) >>= λ s'. some (leave n s')
  ]
]

unfoldable pub from_roots : (ℕ → List ℕ) → ℕ → List ℕ → Search → Option Search
from_roots neighbors fuel [] s = some s
from_roots neighbors fuel (r ∷ rs) s =
    (if s.visited r then some s else dfs neighbors fuel r s) >>= λ s'.
    from_roots neighbors fuel rs s'

-- `detectCycles` over nodes below `bound`.
unfoldable pub detect_cycles : ℕ → List ℕ → (ℕ → List ℕ) → Option (List (List ℕ))
detect_cycles bound roots neighbors =
    from_roots neighbors (suc bound) roots no_search >>= λ s. some s.cycles
