-- ===== src/Engine/Duplicates.antt =====
-- internal/engine/duplicate_provides.go: no two steps may provide the same resource.
pub mod Unique
use scampi.Base.{ℕ, suc, Option, none, some, List, [], ◌∷◌, ◌++◌, lookup, insert}
use scampi.Spec.Resource.{Resource, resource_eq}
use scampi.Spec.Execution.{Step}

-- Of a `DuplicateResourceError`: the resource, the later step and the first provider.
pub record Duplicate : Type 0 where
  pub resource : Resource
  pub step : ℕ
  pub first : ℕ

pub record Winners : Type 0 where
  pub winners : List (Resource × ℕ)
  pub causes : List Duplicate

abbrev pub judge : ℕ → Resource → Option ℕ → Winners → Winners
judge i r none w = record w { winners = insert r i w.winners }
judge i r (some prev) w = record w {
  causes = w.causes ++ record { resource = r; step = i; first = prev } ∷ [];
}

unfoldable pub note_winners : ℕ → List Resource → Winners → Winners
note_winners i [] w = w
note_winners i (r ∷ rs) w = note_winners i rs (judge i r (lookup r w.winners) w)

unfoldable pub scan_steps : ℕ → List Step → Winners → Winners
scan_steps i [] w = w
scan_steps i (s ∷ ss) w = scan_steps (suc i) ss (note_winners i s.provides w)

-- The causes of the `AbortError`; none means that the steps pass.
unfoldable pub detect_duplicate_provides : List Step → List Duplicate
detect_duplicate_provides steps = (scan_steps 0 steps (record { winners = []; causes = [] })).causes
