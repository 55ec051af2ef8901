-- ===== src/Engine/Hooks.antt =====
-- internal/engine/hooks.go: `executeHooks`. A hook is known by its id, a number here; what its steps
-- report is the environment's choice.

pub mod Once
pub mod Drained
use scampi.Base.{
  ℕ, zero, suc, ◌+◌, Bool, true, false, not, ◌||◌, Option, none, some, List, [], ◌∷◌, ◌++◌, ◌==◌,
  if◌then◌else◌, update, length, lookup, nat_eq,
}
use scampi.Spec.Execution.{Step}
use scampi.Engine.OpRun.{Err}
use scampi.Engine.OpRun.Report.{StepSummary, step_reports_change}

-- `hookPlan`: the planned steps of each hook, and the hooks that a step of the deploy notifies.
pub record HookPlan : Type 0 where
  pub steps : List (ℕ × List Step)
  pub on_change : List (ℕ × List ℕ)

-- What `runStep` or `runCheckStep` returns for one step of a hook.
pub record HookAnswer : Type 0 where
  pub summary : StepSummary
  pub err : Option Err

-- The variables of `executeHooks`. `reports` names the hook of each report.
pub record HookRun : Type 0 where
  pub queue : List ℕ
  pub notified : ℕ → Bool
  pub executed : ℕ → Bool
  pub reports : List (ℕ × HookAnswer)

abbrev pub no_hooks : HookRun
no_hooks = record { queue = []; notified = λ i. false; executed = λ i. false; reports = [] }

-- `if !notified[id] { notified[id] = true; queue = append(queue, id) }`
abbrev pub notify : ℕ → HookRun → HookRun
notify id h =
    if h.notified id
    then h
    else record h { notified = update h.notified id true; queue = h.queue ++ id ∷ [] }

unfoldable pub notify_all : List ℕ → HookRun → HookRun
notify_all [] h = h
notify_all (id ∷ ids) h = notify_all ids (notify id h)

abbrev pub targets : Option (List ℕ) → List ℕ
targets none = []
targets (some ids) = ids

-- The first loop, over the reports of the deploy's steps.
unfoldable pub collect : Bool → HookPlan → ℕ → List StepSummary → HookRun → HookRun
collect check_only hp i [] h = h
collect check_only hp i (s ∷ ss) h =
    collect check_only hp (suc i) ss (
      if step_reports_change check_only s
      then notify_all (targets (lookup i hp.on_change)) h
      else h)

-- What the steps of one hook come to.
pub record Fired : Type 0 where
  pub reports : List (ℕ × HookAnswer)
  pub any_changed : Bool
  pub err : Option Err

-- The steps of a hook, until one returns an error. An answer is chosen by the hook and by the number
-- of the steps that have run.
unfoldable pub run_steps : Bool → (ℕ → ℕ → HookAnswer) → ℕ → List Step → Fired → Fired
run_steps check_only answers id [] f = f
run_steps check_only answers id (s ∷ ss) f =
    let a = answers id (length f.reports) in
    let f' : Fired = record {
      reports = f.reports ++ (id, a) ∷ [];
      any_changed = f.any_changed || step_reports_change check_only a.summary;
      err = a.err;
    } in
    elim a.err [ some e ↦ f' | none ↦ run_steps check_only answers id ss f' ]

-- `cfg.Hooks[hookID]`: the `OnChange` of each of its steps.
abbrev pub Chains : Type 0
Chains = List (ℕ × List (List ℕ))

unfoldable pub notify_chains : List (List ℕ) → HookRun → HookRun
notify_chains [] h = h
notify_chains (ids ∷ more) h = notify_chains more (notify_all ids h)

abbrev pub chain : Bool → Option (List (List ℕ)) → HookRun → HookRun
chain false o h = h
chain true none h = h
chain true (some next) h = notify_chains next h

pub record HookReport : Type 0 where
  pub reports : List (ℕ × HookAnswer)
  pub err : Option Err

-- One turn of the second loop: it goes on, or the function returns.
pub data HookTurn : Type 0 where
  on : HookRun → HookTurn
  quit : HookReport → HookTurn

abbrev pub after_fired : Chains → ℕ → Fired → HookRun → HookTurn
after_fired chains id f h = elim f.err [
  | some e ↦ quit (record { reports = f.reports; err = some e })
  | none ↦ on (chain f.any_changed (lookup id chains) (record h { reports = f.reports }))
]

abbrev pub fire : Bool → (ℕ → ℕ → HookAnswer) → Chains → ℕ → Option (List Step) → HookRun → HookTurn
fire check_only answers chains id none h = on h
fire check_only answers chains id (some steps) h =
    after_fired chains id
      (run_steps check_only answers id steps
        (record { reports = h.reports; any_changed = false; err = none }))
      h

abbrev pub hook_turn : Bool → (ℕ → ℕ → HookAnswer) → Chains → HookPlan → ℕ → HookRun → HookTurn
hook_turn check_only answers chains hp id h =
    if h.executed id
    then on h
    else fire check_only answers chains id (lookup id hp.steps)
        (record h { executed = update h.executed id true })

-- The second loop, on fuel; `queue` holds what the index has not reached.
unfoldable pub drain :
    Bool → (ℕ → ℕ → HookAnswer) → Chains → HookPlan → ℕ → HookRun → Option HookReport
drain check_only answers chains hp zero h = elim h.queue [
  | [] ↦ some (record { reports = h.reports; err = none })
  | ◌∷◌ id rest ↦ none
]
drain check_only answers chains hp (suc fuel) h = elim h.queue [
  | [] ↦ some (record { reports = h.reports; err = none })
  | ◌∷◌ id rest ↦ elim (hook_turn check_only answers chains hp id (record h { queue = rest })) [
    | quit r ↦ some r
    | on m ↦ drain check_only answers chains hp fuel m
  ]
]

-- The hooks that may be notified: as many turns as these are enough.
abbrev pub changed_ids : List (ℕ × List ℕ) → List ℕ
changed_ids [] = []
changed_ids (x ∷ m) = x.1 ++ changed_ids m

abbrev pub concat_ids : List (List ℕ) → List ℕ
concat_ids [] = []
concat_ids (ids ∷ more) = ids ++ concat_ids more

abbrev pub chained_ids : Chains → List ℕ
chained_ids [] = []
chained_ids (x ∷ m) = concat_ids x.1 ++ chained_ids m

abbrev pub hook_ids : Chains → HookPlan → List ℕ
hook_ids chains hp = changed_ids hp.on_change ++ chained_ids chains

abbrev pub run_hooks :
    Bool
    → (ℕ → ℕ → HookAnswer)
    → Chains
    → HookPlan
    → List (ℕ × List Step)
    → List StepSummary
    → Option HookReport
run_hooks check_only answers chains hp [] summaries = some (record { reports = []; err = none })
run_hooks check_only answers chains hp (x ∷ xs) summaries =
    drain check_only answers chains hp (length (hook_ids chains hp))
      (collect check_only hp 0 summaries no_hooks)

-- `none` means that the fuel of `drain` ran out. A missing plan is one without hooks.
unfoldable pub execute_hooks :
    Bool → (ℕ → ℕ → HookAnswer) → Chains → HookPlan → List StepSummary → Option HookReport
execute_hooks check_only answers chains hp summaries =
    run_hooks check_only answers chains hp hp.steps summaries
