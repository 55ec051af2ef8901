-- ===== src/Spec/Execution.antt =====
-- internal/spec/execution.go: the planned form of a step and of an op.
use scampi.Base.{ℕ, Bool, List, Bytes}
use scampi.Spec.Resource.{Resource}

-- An op is known by its pointer, `id`; `depends_on` is its `DependsOn()`. What `Check` and `Execute`
-- do on a target is the environment's choice, in the schedulers' moves.
pub record Op : Type 0 where
  pub id : ℕ
  pub depends_on : List ℕ

-- A step that does not implement `StepRequires` or `StepProvides` has the empty list there: the
-- engine treats it like one that returns no resource.
pub record Step : Type 0 where
  pub desc : Bytes
  pub kind : Bytes
  pub requires : List Resource
  pub provides : List Resource
  pub ops : List Op

-- `CheckUnknown` is the zero value that `Check` returns with an error.
pub data CheckResult : Type 0 where
  check_unknown check_satisfied check_unsatisfied : CheckResult

-- `Result` of execution.go.
pub record OpResult : Type 0 where
  pub changed : Bool
