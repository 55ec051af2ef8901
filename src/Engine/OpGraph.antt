-- ===== src/Engine/OpGraph.antt =====
-- internal/engine/exec.go: `buildPlan`, the graph of a step's ops. The node of `ops[i]` is the record
-- at `i` of the heap; `by_op` finds it by the op's pointer.
pub mod Links
pub mod Resolve
pub mod Kahn
pub mod Correct
use scampi.Base.{
  ℕ, zero, suc, ◌+◌, ◌-◌, ◌≡◌, refl, Bool, true, false, Option, none, some, List, [], ◌∷◌, ◌++◌,
  ◌==◌, if◌then◌else◌, update, length, range, lookup, insert, nat_eq,
}
use scampi.Spec.Execution.{Op}

pub record OpNode : Type 0 where
  pub deps : List ℕ
  pub dependents : List ℕ
  pub indegree : ℕ

abbrev pub OpGraph : Type 0
OpGraph = ℕ → OpNode

abbrev pub fresh : OpGraph
fresh i = record { deps = []; dependents = []; indegree = 0 }

-- The panics of `buildPlan`: each is a fault of a `StepKind`.
pub data Bug : Type 0 where
  listed_twice : ℕ → Bug
  unknown_dep : ℕ → ℕ → Bug
  cycle : Bug
  -- The fuel of the model's loop, which is never used up.
  out_of_fuel : Bug

pub data Result {ℓ} (A : Type ℓ) : Type ℓ where
  ok : A → Result A
  panic : Bug → Result A

module _ {ℓ κ} {A : Type ℓ} {B : Type κ} where
  infixl 5 ◌>>=◌
  -- A panic ends the function.
  abbrev pub ◌>>=◌ : Result A → (A → Result B) → Result B
  panic bug >>= next = panic bug
  ok a >>= next = next a

  -- What has to hold for a sequence to return.
  pub >>=-eq-ok :
      (r : Result A) (next : A → Result B) {b : B}
      → (r >>= next) ≡ ok b
      → (a : A) × (r ≡ ok a) × (next a ≡ ok b)
  >>=-eq-ok (panic bug) next returned = cc
  >>=-eq-ok (ok a) next returned = (a, refl, returned)

abbrev pub ByOp : Type 0
ByOp = List (ℕ × ℕ)

abbrev pub index_op : Option ℕ → ℕ → ℕ → ByOp → Result ByOp
index_op none p i m = ok (insert p i m)
index_op (some dup) p i m = panic (listed_twice p)

unfoldable pub index_ops : ℕ → List Op → ByOp → Result ByOp
index_ops i [] m = ok m
index_ops i (o ∷ os) m = index_op (lookup o.id m) o.id i m >>= λ m'. index_ops (suc i) os m'

-- `n.deps = append(n.deps, dn); dn.dependents = append(dn.dependents, n); n.indegree++`
abbrev pub link_dep : ℕ → ℕ → OpGraph → OpGraph
link_dep n d g =
    let g' : OpGraph = update g n (record (g n) { deps = (g n).deps ++ d ∷ [] }) in
    let g'' : OpGraph = update g' d (record (g' d) { dependents = (g' d).dependents ++ n ∷ [] }) in
    update g'' n (record (g'' n) { indegree = (g'' n).indegree + 1 })

abbrev pub wire_dep : Option ℕ → ℕ → ℕ → ℕ → OpGraph → Result OpGraph
wire_dep none p dep n g = panic (unknown_dep p dep)
wire_dep (some d) p dep n g = ok (link_dep n d g)

unfoldable pub wire_deps : ByOp → ℕ → ℕ → List ℕ → OpGraph → Result OpGraph
wire_deps m p n [] g = ok g
wire_deps m p n (dep ∷ ds) g = wire_dep (lookup dep m) p dep n g >>= λ g'. wire_deps m p n ds g'

unfoldable pub wire_ops : ByOp → ℕ → List Op → OpGraph → Result OpGraph
wire_ops m i [] g = ok g
wire_ops m i (o ∷ os) g = wire_deps m o.id i o.depends_on g >>= λ g'. wire_ops m (suc i) os g'

-- The state of the check for cycles.
pub record KahnState : Type 0 where
  pub tmp : ℕ → ℕ
  pub queue : List ℕ
  pub visited : ℕ

-- `tmp[d]--; if tmp[d] == 0 { queue = append(queue, d) }`, for every dependent.
unfoldable pub visit_dependents : List ℕ → KahnState → KahnState
visit_dependents [] k = k
visit_dependents (d ∷ ds) k = visit_dependents ds (record k {
  tmp = update k.tmp d (k.tmp d - 1);
  queue = if k.tmp d == 1 then k.queue ++ d ∷ [] else k.queue;
})

-- `for len(queue) > 0`, on fuel: one unit for each op that is taken from the queue.
unfoldable pub kahn : OpGraph → ℕ → List ℕ → (ℕ → ℕ) → ℕ → Option ℕ
kahn g fuel [] tmp visited = some visited
kahn g zero (n ∷ queue) tmp visited = none
kahn g (suc fuel) (n ∷ queue) tmp visited =
    let k =
      visit_dependents (g n).dependents
        (record { tmp = tmp; queue = queue; visited = suc visited }) in
    kahn g fuel k.queue k.tmp k.visited

-- The first queue: the ops with no dependency.
unfoldable pub ready_ops : List ℕ → (ℕ → ℕ) → List ℕ
ready_ops [] tmp = []
ready_ops (n ∷ ns) tmp = if tmp n == 0 then n ∷ ready_ops ns tmp else ready_ops ns tmp

abbrev pub judge_visited : ℕ → OpGraph → Option ℕ → Result OpGraph
judge_visited n g none = panic out_of_fuel
judge_visited n g (some visited) = if visited == n then ok g else panic cycle

unfoldable pub check_acyclic : ℕ → OpGraph → Result OpGraph
check_acyclic n g =
    let tmp : ℕ → ℕ = λ i. (g i).indegree in
    judge_visited n g (kahn g n (ready_ops (range n) tmp) tmp 0)

unfoldable pub build_plan : List Op → Result OpGraph
build_plan ops =
    index_ops 0 ops [] >>= λ by_op. wire_ops by_op 0 ops fresh >>= λ g. check_acyclic (length ops) g
