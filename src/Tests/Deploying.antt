-- ===== src/Tests/Deploying.antt =====
-- internal/engine: two deploy blocks, the first of which needs the second one.
use scampi.Base.{ℕ, ◌≡◌, refl, List, [], ◌∷◌, Option, some, none, arith, Bytes, ◌==◌, if◌then◌else◌}
use scampi.Spec.Resource.{resource_eq, label_resource}
use scampi.Engine.Deploys.{
  Config, DeclaredStep, levels, multiple_providers, deploy_cycle, collect_provides,
  collect_requires, note_makers, index_makers, find_clash, wire_makers, visit_deps, visit,
  visit_all, find_cycle, deepest, depth_of, max_depth, put_level, put_levels, kahn_levels,
  deploy_deps, build_deploy_graph,
}
use scampi.Engine.Deploys.Levels.{Answers, build_deploy_graph-Answers}
use scampi.Engine.Deploys.Run.{run_level, run_levels, run_plans_concurrent, cause}
use scampi.Engine.Deploys.Run.Upstream.{Respects, run_plans_concurrent-Respects}

abbrev node : Bytes
node = b'n' ∷ []

abbrev step : List Bytes → List Bytes → DeclaredStep
step provides requires = record { provides_for = none; resources = some (provides, requires) }

abbrev user : Config
user = record { requires_for = some (label_resource node ∷ []); steps = [] }

abbrev maker : Config
maker = record { requires_for = none; steps = step (node ∷ []) [] ∷ [] }

abbrev two : List Config
two = user ∷ maker ∷ []

second_first : build_deploy_graph two ≡ levels ((1 ∷ []) ∷ (0 ∷ []) ∷ [])
unfolding collect_provides collect_requires note_makers index_makers find_clash wire_makers
    visit_deps visit visit_all find_cycle deepest depth_of max_depth put_level put_levels
    kahn_levels deploy_deps build_deploy_graph
second_first = refl

build_deploy_graph-Answers_example : Answers two (build_deploy_graph two)
build_deploy_graph-Answers_example = build_deploy_graph-Answers two

abbrev in_order : List ℕ → List ℕ
in_order l = l

-- The work on the second block fails.
abbrev work : ℕ → Option ℕ
work j = if j == 1 then some 7 else none

run_plans_concurrent-Respects_example :
    Respects {E = ℕ} in_order work (λ l j. refl) two (run_plans_concurrent in_order work two)
run_plans_concurrent-Respects_example =
    run_plans_concurrent-Respects in_order work (λ l j. refl) two (λ e. ground arith)

failed : run_plans_concurrent in_order work two ≡ (1 ∷ [], some (cause 7))
unfolding collect_provides collect_requires note_makers index_makers find_clash wire_makers
    visit_deps visit visit_all find_cycle deepest depth_of max_depth put_level put_levels
    kahn_levels deploy_deps build_deploy_graph run_level run_levels run_plans_concurrent
failed = refl

-- A block in which one step requires the label that another step provides. Alone it runs; beside any
-- other block it is a cycle.
abbrev both : Config
both = record { requires_for = none; steps = step (node ∷ []) [] ∷ step [] (node ∷ []) ∷ [] }

abbrev nothing : Config
nothing = record { requires_for = none; steps = [] }

abbrev calm : ℕ → Option ℕ
calm j = none

alone : run_plans_concurrent in_order calm (both ∷ []) ≡ (0 ∷ [], none)
unfolding run_plans_concurrent
alone = refl

beside : build_deploy_graph (both ∷ nothing ∷ []) ≡ deploy_cycle (0 ∷ [])
unfolding collect_provides collect_requires note_makers index_makers find_clash wire_makers
    visit_deps visit visit_all find_cycle deepest depth_of max_depth put_level put_levels
    kahn_levels deploy_deps build_deploy_graph
beside = refl

-- One block that provides a label twice counts as two providers.
abbrev twice : Config
twice = record { requires_for = none; steps = step (node ∷ []) [] ∷ step (node ∷ []) [] ∷ [] }

provided_twice :
    build_deploy_graph (twice ∷ nothing ∷ [])
    ≡ multiple_providers (label_resource node) (0 ∷ 0 ∷ [])
unfolding collect_provides collect_requires note_makers index_makers find_clash wire_makers
    visit_deps visit visit_all find_cycle deepest depth_of max_depth put_level put_levels
    kahn_levels deploy_deps build_deploy_graph
provided_twice = refl
