-- ===== src/Engine/Deploys.antt =====
-- internal/engine/deploy_graph.go: the order in which deploy blocks run. A node is the index of its
-- block; a map is an association list, in whose order it is iterated.
pub mod Makers
pub mod Rounds
pub mod Depths
pub mod Levels
pub mod Run
use scampi.Base.{
  ℕ, zero, suc, ◌+◌, ◌-◌, Bool, true, false, not, Option, none, some, List, [], ◌∷◌, ◌++◌, Bytes,
  ◌==◌, ltb, if◌then◌else◌, update, length, map, range, lookup, insert,
}
use scampi.Spec.Resource.{Resource, resource_eq, label_resource}

-- What a step's kind says that it provides, and the labels of its configuration (what it provides, and
-- what it requires), each where the interface is implemented.
pub record DeclaredStep : Type 0 where
  pub provides_for : Option (List Resource)
  pub resources : Option (List Bytes × List Bytes)

-- A deploy block on a target, with what the target's kind requires.
pub record Config : Type 0 where
  pub requires_for : Option (List Resource)
  pub steps : List DeclaredStep

abbrev or_nothing : Option (List Resource) → List Resource
or_nothing none = []
or_nothing (some rs) = rs

abbrev provided_labels : Option (List Bytes × List Bytes) → List Resource
provided_labels none = []
provided_labels (some ls) = map label_resource ls.0

abbrev required_labels : Option (List Bytes × List Bytes) → List Resource
required_labels none = []
required_labels (some ls) = map label_resource ls.1

abbrev steps_provide : List DeclaredStep → List Resource
steps_provide [] = []
steps_provide (s ∷ ss) =
    or_nothing s.provides_for ++ provided_labels s.resources ++ steps_provide ss

unfoldable pub collect_provides : Config → List Resource
collect_provides c = steps_provide c.steps

abbrev steps_require : List DeclaredStep → List Resource
steps_require [] = []
steps_require (s ∷ ss) = required_labels s.resources ++ steps_require ss

unfoldable pub collect_requires : Config → List Resource
collect_requires c = or_nothing c.requires_for ++ steps_require c.steps

abbrev pub or_nobody : Option (List ℕ) → List ℕ
or_nobody none = []
or_nobody (some ns) = ns

abbrev pub makers_of : Resource → List (Resource × List ℕ) → List ℕ
makers_of r m = or_nobody (lookup r m)

-- `producer[p] = append(producer[p], n)`
unfoldable pub note_makers : ℕ → List Resource → List (Resource × List ℕ) → List (Resource × List ℕ)
note_makers n [] m = m
note_makers n (p ∷ ps) m = note_makers n ps (insert p (makers_of p m ++ n ∷ []) m)

unfoldable pub index_makers : ℕ → List Config → List (Resource × List ℕ) → List (Resource × List ℕ)
unfolding note_makers
index_makers n [] m = m
index_makers n (c ∷ cs) m = index_makers (suc n) cs (note_makers n (collect_provides c) m)

-- The first resource with more than one producer.
unfoldable pub find_clash : List (Resource × List ℕ) → Option (Resource × List ℕ)
find_clash [] = none
find_clash ((r, prods) ∷ m) =
    let rest = find_clash m in if ltb 1 (length prods) then some (r, prods) else rest

abbrev pub wire_maker : List ℕ → List ℕ
wire_maker [] = []
wire_maker (p ∷ ps) = p ∷ []

unfoldable pub wire_makers : List (Resource × List ℕ) → List Resource → List ℕ
wire_makers m [] = []
wire_makers m (r ∷ rs) = wire_maker (makers_of r m) ++ wire_makers m rs

pub data Color : Type 0 where
  white gray black : Color

pub record Walk : Type 0 where
  pub color : ℕ → Color
  pub stack : List ℕ

-- What `visit` returns: a cycle, or none and the variables that it closes over. The fuel is a bound
-- on the depth.
pub data Walked : Type 0 where
  found : List ℕ → Walked
  clear : Walk → Walked
  no_fuel : Walked

abbrev pub then_walk : Walked → (Walk → Walked) → Walked
then_walk (found c) f = found c
then_walk (clear s) f = f s
then_walk no_fuel f = no_fuel

abbrev pub enter_gray : ℕ → Walk → Walk
enter_gray n s = record { color = update s.color n gray; stack = s.stack ++ n ∷ [] }

abbrev pub without_last : List ℕ → List ℕ
without_last [] = []
without_last (x ∷ []) = []
without_last (x ∷ y ∷ r) = x ∷ without_last (y ∷ r)

abbrev pub leave_black : ℕ → Walk → Walk
leave_black n s = record { color = update s.color n black; stack = without_last s.stack }

-- `stack[start:]`, from the first place of `dep`; the whole stack where there is none.
abbrev pub from_first : ℕ → List ℕ → List ℕ → List ℕ
from_first dep whole [] = whole
from_first dep whole (s ∷ rest) = if s == dep then s ∷ rest else from_first dep whole rest

-- The loop over `n.deps`.
unfoldable pub visit_deps : (ℕ → Walk → Walked) → List ℕ → Walk → Walked
visit_deps visit [] s = clear s
visit_deps visit (d ∷ ds) s = elim (s.color d) [
  | white ↦ then_walk (visit d s) (λ t. visit_deps visit ds t)
  | gray ↦ found (from_first d s.stack s.stack)
  | black ↦ visit_deps visit ds s
]

unfoldable pub visit : (ℕ → List ℕ) → ℕ → ℕ → Walk → Walked
unfolding visit_deps
visit deps zero n s = no_fuel
visit deps (suc fuel) n s =
    then_walk (visit_deps (visit deps fuel) (deps n) (enter_gray n s))
      (λ t. clear (leave_black n t))

unfoldable pub visit_all : (ℕ → List ℕ) → ℕ → List ℕ → Walk → Walked
unfolding visit
visit_all deps fuel [] s = clear s
visit_all deps fuel (n ∷ ns) s = elim (s.color n) [
  | white ↦ then_walk (visit deps fuel n s) (λ t. visit_all deps fuel ns t)
  | gray ↦ visit_all deps fuel ns s
  | black ↦ visit_all deps fuel ns s
]

abbrev pub unvisited : Walk
unvisited = record { color = λ n. white; stack = [] }

-- `findCycle` on the nodes below `bound`.
unfoldable pub find_cycle : ℕ → (ℕ → List ℕ) → Walked
unfolding visit_all
find_cycle bound deps = visit_all deps (suc bound) (range bound) unvisited

abbrev pub Memo : Type 0
Memo = ℕ → Option ℕ

module _ {ℓ κ} {A : Type ℓ} {B : Type κ} where
  abbrev pub if_some : Option A → (A → Option B) → Option B
  if_some none f = none
  if_some (some a) f = f a

-- The loop of `depthOf` over the deps.
unfoldable pub deepest : (ℕ → Memo → Option (ℕ × Memo)) → List ℕ → ℕ → Memo → Option (ℕ × Memo)
deepest depth [] d memo = some (d, memo)
deepest depth (x ∷ xs) d memo =
    if_some (depth x memo) (λ r. deepest depth xs (if ltb d (r.0 + 1) then r.0 + 1 else d) r.1)

-- `none` means that the fuel, a bound on the depth, ran out.
unfoldable pub depth_of : (ℕ → List ℕ) → ℕ → ℕ → Memo → Option (ℕ × Memo)
unfolding deepest
depth_of deps zero n memo = none
depth_of deps (suc fuel) n memo = elim (memo n) [
  | some d ↦ some (d, memo)
  | none ↦
      if_some (deepest (depth_of deps fuel) (deps n) 0 memo)
        (λ r. some (r.0, update r.1 n (some r.0)))
]

-- The first loop of `kahnLevels`.
unfoldable pub max_depth : (ℕ → List ℕ) → ℕ → List ℕ → ℕ → Memo → Option (ℕ × Memo)
unfolding depth_of
max_depth deps fuel [] top memo = some (top, memo)
max_depth deps fuel (n ∷ ns) top memo =
    if_some (depth_of deps fuel n memo)
      (λ r. max_depth deps fuel ns (if ltb top r.0 then r.0 else top) r.1)

abbrev pub or_top : Option ℕ → ℕ
or_top none = 0
or_top (some d) = d

abbrev pub depth_at : Memo → ℕ → ℕ
depth_at memo n = or_top (memo n)

abbrev pub empty_levels : ℕ → List (List ℕ)
empty_levels zero = []
empty_levels (suc k) = [] ∷ empty_levels k

-- `levels[i] = append(levels[i], n)`, which panics where there is no such level.
unfoldable pub put_level : ℕ → ℕ → List (List ℕ) → Option (List (List ℕ))
put_level i n [] = none
put_level zero n (l ∷ ls) = some ((l ++ n ∷ []) ∷ ls)
put_level (suc i) n (l ∷ ls) = if_some (put_level i n ls) (λ r. some (l ∷ r))

unfoldable pub put_levels : Memo → List ℕ → List (List ℕ) → Option (List (List ℕ))
unfolding put_level
put_levels memo [] ls = some ls
put_levels memo (n ∷ ns) ls = if_some (put_level (depth_at memo n) n ls) (λ r. put_levels memo ns r)

pub data DeployResult : Type 0 where
  levels : List (List ℕ) → DeployResult
  multiple_providers : Resource → List ℕ → DeployResult
  deploy_cycle : List ℕ → DeployResult
  out_of_fuel index_panic : DeployResult

abbrev pub put_result : Option (List (List ℕ)) → DeployResult
put_result none = index_panic
put_result (some ls) = levels ls

abbrev pub by_depths : ℕ → Option (ℕ × Memo) → DeployResult
by_depths bound none = out_of_fuel
by_depths bound (some r) = put_result (put_levels r.1 (range bound) (empty_levels (suc r.0)))

unfoldable pub kahn_levels : ℕ → (ℕ → List ℕ) → DeployResult
unfolding max_depth put_levels
kahn_levels bound deps = by_depths bound (max_depth deps (suc bound) (range bound) 0 (λ n. none))

abbrev pub by_cycle : ℕ → (ℕ → List ℕ) → Walked → DeployResult
by_cycle bound deps no_fuel = out_of_fuel
by_cycle bound deps (found c) = deploy_cycle c
by_cycle bound deps (clear s) = kahn_levels bound deps

abbrev pub config_at : List Config → ℕ → Config
config_at [] j = record { requires_for = none; steps = [] }
config_at (c ∷ cs) zero = c
config_at (c ∷ cs) (suc j) = config_at cs j

-- The deps of each node.
unfoldable pub deploy_deps : List Config → List (Resource × List ℕ) → ℕ → List ℕ
unfolding wire_makers collect_requires
deploy_deps cs makers j = wire_makers makers (collect_requires (config_at cs j))

abbrev pub by_clash :
    List Config → List (Resource × List ℕ) → Option (Resource × List ℕ) → DeployResult
by_clash cs makers (some x) = multiple_providers x.0 x.1
by_clash cs makers none =
    let deps = deploy_deps cs makers in by_cycle (length cs) deps (find_cycle (length cs) deps)

unfoldable pub build_deploy_graph : List Config → DeployResult
unfolding index_makers find_clash find_cycle kahn_levels deploy_deps
build_deploy_graph cs = let makers = index_makers 0 cs [] in by_clash cs makers (find_clash makers)
