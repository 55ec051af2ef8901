-- ===== src/Engine/Deploys/Run.antt =====
-- internal/engine/engine.go: `runPlansConcurrent` and `runLevel`. The work on a block is an argument, as
-- is the order in which the goroutines of a level return. The ordinals and widths that the
-- renderer is given are not modelled.
pub mod Upstream
use scampi.Base.{ℕ, Bool, Option, none, some, List, [], ◌∷◌, ◌++◌, ◌==◌, if◌then◌else◌, length}
use scampi.Engine.Deploys.{
  Config, DeployResult, levels, multiple_providers, deploy_cycle, out_of_fuel, index_panic,
  build_deploy_graph,
}

-- The blocks that were started, and the errors so far.
pub record LevelRun (E : Type 0) : Type 0 where
  pub ran : List ℕ
  pub causes : List E

pub data PlansError (E : Type 0) : Type 0 where
  cause : E → PlansError E
  aborts : List E → PlansError E
  no_graph : DeployResult → PlansError E

module _ {E : Type 0} (arrival : List ℕ → List ℕ) (work : ℕ → Option E) where
  abbrev add_cause : Option E → List E → List E
  add_cause none es = es
  add_cause (some e) es = e ∷ es

  abbrev pub causes_of : List ℕ → List E
  causes_of [] = []
  causes_of (n ∷ ns) = add_cause (work n) (causes_of ns)

  unfoldable pub run_level : List ℕ → List E
  run_level level = causes_of (arrival level)

  abbrev pub go_on : List ℕ → LevelRun E → LevelRun E
  go_on level s = record { ran = s.ran ++ level; causes = s.causes ++ run_level level }

  -- The loop over the levels, which a failure ends.
  unfoldable pub run_levels : List (List ℕ) → LevelRun E → LevelRun E
  unfolding run_level
  run_levels [] s = s
  run_levels (level ∷ ls) s = elim s.causes [ [] ↦ run_levels ls (go_on level s) | _ ∷ _ ↦ s ]

  abbrev pub verdict : List E → Option (PlansError E)
  verdict [] = none
  verdict (e ∷ []) = some (cause e)
  verdict (e ∷ f ∷ es) = some (aborts (e ∷ f ∷ es))

  abbrev only_plan : Option E → Option (PlansError E)
  only_plan none = none
  only_plan (some e) = some (cause e)

  abbrev pub nothing_ran : LevelRun E
  nothing_ran = record { ran = []; causes = [] }

  abbrev pub finished : LevelRun E → List ℕ × Option (PlansError E)
  finished s = (s.ran, verdict s.causes)

  abbrev pub run_graph : DeployResult → List ℕ × Option (PlansError E)
  run_graph (levels ls) = finished (run_levels ls nothing_ran)
  run_graph g = ([], some (no_graph g))

  -- The blocks that were started, and the error that is returned.
  unfoldable pub run_plans_concurrent : List Config → List ℕ × Option (PlansError E)
  unfolding run_levels
  run_plans_concurrent cs =
      if length cs == 1 then (0 ∷ [], only_plan (work 0)) else run_graph (build_deploy_graph cs)
