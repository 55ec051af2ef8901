-- ===== src/Engine/Hooks/Once.antt =====
-- The steps of a hook run at most once.
use scampi.Base.{
  ℕ, zero, suc, ◌+◌, ◌≤◌, ◌≡◌, refl, inl, inr, Bool, true, false, ◌||◌, Option, none, some, List,
  [], ◌∷◌, ◌++◌, arith, ◌==◌, if◌then◌else◌, update, length, lookup, nat_eq, count_where,
  count_where-append, Bool-cases, Option-cases, List-cases, ==_iff,
}
use scampi.Spec.Execution.{Step}
use scampi.Engine.OpRun.Report.{StepSummary, step_reports_change}
use scampi.Engine.Hooks.{
  HookPlan, HookAnswer, HookRun, HookReport, HookTurn, on, quit, no_hooks, notify, notify_all,
  targets, collect, Fired, run_steps, Chains, notify_chains, chain, fire, hook_turn, drain,
  hook_ids, run_hooks, execute_hooks,
}

-- How many of the reports are a hook's.
abbrev pub reports_of : ℕ → List (ℕ × HookAnswer) → ℕ
reports_of id rs = count_where (λ r. r.0 == id) rs

abbrev pub steps_of : Option (List Step) → ℕ
steps_of none = 0
steps_of (some steps) = length steps

run_steps-reports_of :
    (check_only : Bool) (answers : ℕ → ℕ → HookAnswer) (id : ℕ) (steps : List Step) (f : Fired)
    (j : ℕ)
    → reports_of j (run_steps check_only answers id steps f).reports
      ≤ reports_of j f.reports + (if id == j then length steps else 0)
unfolding run_steps
run_steps-reports_of check_only answers id [] f j = omega arith
run_steps-reports_of check_only answers id (s ∷ ss) f j =
    let a = answers id (length f.reports) in
    let f' : Fired = record {
      reports = f.reports ++ (id, a) ∷ [];
      any_changed = f.any_changed || step_reports_change check_only a.summary;
      err = a.err;
    } in
    let more = count_where-append (λ r. r.0 == j) f.reports ((id, a) ∷ []) in
    let rest = run_steps-reports_of check_only answers id ss f' j in
    elim (Option-cases a.err) [
      | inl e ↦ ground (arith, e, more, rest)
      | inr (x, e) ↦ ground (arith, e, more)
    ]

-- Notifying a hook runs nothing.
record IsQuiet (h m : HookRun) : Type 0 where
  reports : m.reports ≡ h.reports
  executed : (j : ℕ) → m.executed j ≡ h.executed j

notify_all-IsQuiet : (ids : List ℕ) (h : HookRun) → IsQuiet h (notify_all ids h)
unfolding notify_all
notify_all-IsQuiet [] h = record { reports = refl; executed = λ j. refl }
notify_all-IsQuiet (id ∷ ids) h =
    let rest = notify_all-IsQuiet ids (notify id h) in
    record {
      reports = ground (arith, rest.reports);
      executed = λ j. ground (arith, rest.executed j);
    }

notify_chains-IsQuiet : (more : List (List ℕ)) (h : HookRun) → IsQuiet h (notify_chains more h)
unfolding notify_chains
notify_chains-IsQuiet [] h = record { reports = refl; executed = λ j. refl }
notify_chains-IsQuiet (ids ∷ more) h =
    let first = notify_all-IsQuiet ids h in
    let rest = notify_chains-IsQuiet more (notify_all ids h) in
    record {
      reports = ground (arith, first.reports, rest.reports);
      executed = λ j. ground (arith, first.executed j, rest.executed j);
    }

module _ (check_only : Bool) (answers : ℕ → ℕ → HookAnswer) (chains : Chains) (hp : HookPlan) where
  abbrev IsOnce : HookRun → Type 0
  IsOnce h =
      (j : ℕ) → reports_of j h.reports ≤ (if h.executed j then steps_of (lookup j hp.steps) else 0)

  IsQuiet-IsOnce : (h m : HookRun) → IsQuiet h m → IsOnce h → IsOnce m
  IsQuiet-IsOnce h m q once j = ground (arith, q.reports, q.executed j, once j)

  collect-IsQuiet :
      (i : ℕ) (ss : List StepSummary) (h : HookRun) → IsQuiet h (collect check_only hp i ss h)
  unfolding collect
  collect-IsQuiet i [] h = record { reports = refl; executed = λ j. refl }
  collect-IsQuiet i (s ∷ ss) h =
      let first = notify_all-IsQuiet (targets (lookup i hp.on_change)) h in
      let rest = collect-IsQuiet (suc i) ss (notify_all (targets (lookup i hp.on_change)) h) in
      let same = collect-IsQuiet (suc i) ss h in
      record {
        reports = ground (arith, first.reports, rest.reports, same.reports);
        executed = λ j. ground (arith, first.executed j, rest.executed j, same.executed j);
      }

  chain-IsQuiet : (b : Bool) (o : Option (List (List ℕ))) (h : HookRun) → IsQuiet h (chain b o h)
  chain-IsQuiet false o h = record { reports = refl; executed = λ j. refl }
  chain-IsQuiet true none h = record { reports = refl; executed = λ j. refl }
  chain-IsQuiet true (some next) h = notify_chains-IsQuiet next h

  abbrev HasRun : HookTurn → Type 0
  HasRun (on m) = IsOnce m
  HasRun (quit r) = (j : ℕ) → reports_of j r.reports ≤ steps_of (lookup j hp.steps)

  fire-HasRun :
      (id : ℕ) (steps : List Step) (h : HookRun)
      → lookup id hp.steps ≡ some steps
      → h.executed id ≡ false
      → IsOnce h
      → HasRun (
          fire check_only answers chains id
            (some steps)
            (record h { executed = update h.executed id true }))
  fire-HasRun id steps h at new once = elim (Option-cases f.err) [
    | inr (x, e) ↦ rw (e) (λ j. ground (arith, bound j))
    | inl e ↦ rw (e) (
        IsQuiet-IsOnce m (chain f.any_changed (lookup id chains) m)
          (chain-IsQuiet f.any_changed (lookup id chains) m) bound)
  ]
    where
      start : Fired
      start = record { reports = h.reports; any_changed = false; err = none }

      f : Fired
      f = run_steps check_only answers id steps start

      m : HookRun
      m = record h { executed = update h.executed id true; reports = f.reports }

      bound : IsOnce m
      bound j = ground (
        arith,
        once j,
        at,
        new,
        ==_iff id j,
        run_steps-reports_of check_only answers id steps start j,
      )

  hook_turn-HasRun :
      (id : ℕ) (h : HookRun) → IsOnce h → HasRun (hook_turn check_only answers chains hp id h)
  hook_turn-HasRun id h once = elim (Bool-cases (h.executed id)) [
    | inl e ↦ rw (e) once
    | inr e ↦ elim (Option-cases (lookup id hp.steps)) [
      | inl a ↦ rw (e, a) (λ j. ground (arith, once j, e, a, ==_iff id j))
      | inr (steps, a) ↦ rw (e, a) (fire-HasRun id steps h a e once)
    ]
  ]

  drain-HasRun :
      (fuel : ℕ) (h : HookRun) (r : HookReport)
      → IsOnce h
      → drain check_only answers chains hp fuel h ≡ some r
      → HasRun (quit r)
  unfolding drain
  drain-HasRun zero h r once e = elim (List-cases h.queue) [
    | inl a ↦ λ j. ground (arith, a, e, once j)
    | inr (id, rest, a) ↦ absurd (ground (arith, a, e))
  ]
  drain-HasRun (suc fuel) h r once e = elim (List-cases h.queue) [
    | inl a ↦ λ j. ground (arith, a, e, once j)
    | inr (id, rest, a) ↦
        by_turn (λ m o q. drain-HasRun fuel m r o q)
          (hook_turn check_only answers chains hp id (record h { queue = rest }))
          (hook_turn-HasRun id (record h { queue = rest }) once) (rw (a) at e)
  ]
    where
      by_turn :
          ((m : HookRun)
            → IsOnce m
            → drain check_only answers chains hp fuel m ≡ some r
            → HasRun (quit r))
          → (t : HookTurn) → HasRun t
          → (elim t as (λ x. Option HookReport) [
            | quit r ↦ some r
            | on m ↦ drain check_only answers chains hp fuel m
          ])
            ≡ some r
          → HasRun (quit r)
      by_turn go (quit q) done e = λ j. ground (arith, e, done j)
      by_turn go (on m) once e = go m once e

-- Whatever the steps report, and however hooks notify each other: a report of `executeHooks` names
-- a hook at most as often as the hook has planned steps, and never a hook that is not planned.
pub execute_hooks-once :
    (check_only : Bool) (answers : ℕ → ℕ → HookAnswer) (chains : Chains) (hp : HookPlan)
    (summaries : List StepSummary) (r : HookReport) (id : ℕ)
    → execute_hooks check_only answers chains hp summaries ≡ some r
    → reports_of id r.reports ≤ steps_of (lookup id hp.steps)
unfolding execute_hooks
execute_hooks-once check_only answers chains hp summaries r id e = by_plan hp.steps e
  where
    start : HookRun
    start = collect check_only hp 0 summaries no_hooks

    once : IsOnce check_only answers chains hp start
    once =
        IsQuiet-IsOnce check_only answers chains hp no_hooks start
          (collect-IsQuiet check_only answers chains hp 0 summaries no_hooks) (λ j. omega arith)

    by_plan :
        (xs : List (ℕ × List Step))
        → run_hooks check_only answers chains hp xs summaries ≡ some r
        → reports_of id r.reports ≤ steps_of (lookup id hp.steps)
    by_plan [] e = ground (arith, e)
    by_plan (x ∷ xs) e =
        drain-HasRun check_only answers chains hp (length (hook_ids chains hp)) start r once e id
