-- ===== src/Engine/Hooks/Drained.antt =====
-- `executeHooks` returns: a hook enters the queue at most once.
use scampi.Base.{
  ℕ, zero, suc, ◌+◌, ◌≤◌, ◌<◌, ◌≡◌, refl, inl, inr, Bool, true, false, not, Option, none, some,
  List, [], ◌∷◌, arith, update, length, length-append, lookup, nat_eq, all, all-append, contains,
  contains-append, count_where, Bool-cases, Option-cases, List-cases, ==_iff,
}
use scampi.Spec.Execution.{Step}
use scampi.Engine.OpRun.Report.{StepSummary}
use scampi.Engine.Hooks.{
  HookPlan, HookAnswer, HookRun, HookReport, HookTurn, on, quit, no_hooks, notify, notify_all,
  targets, collect, Fired, Chains, notify_chains, chain, after_fired, hook_turn, drain, changed_ids,
  concat_ids, chained_ids, hook_ids, run_hooks, execute_hooks,
}

count_where-update :
    (f : ℕ → Bool) (id : ℕ) (xs : List ℕ)
    → (count_where (λ i. not (update f id true i)) xs ≤ count_where (λ i. not (f i)) xs)
      × (f id ≡ false
          → contains xs id ≡ true
          → count_where (λ i. not (update f id true i)) xs < count_where (λ i. not (f i)) xs)
count_where-update f id [] = (omega arith, λ a b. cc)
count_where-update f id (x ∷ xs) =
    let (le, lt) = count_where-update f id xs in
    (ground (arith, le), λ a b. ground (arith, le, lt, a, b, ==_iff x id))

count_where-le : (p : ℕ → Bool) (xs : List ℕ) → count_where p xs ≤ length xs
count_where-le p [] = omega arith
count_where-le p (x ∷ xs) = ground (arith, count_where-le p xs)

module _ (known : List ℕ) where
  -- The turns that are left at most.
  abbrev turns : HookRun → ℕ
  turns h = count_where (λ i. not (h.notified i)) known + length h.queue

  notify-turns : (id : ℕ) (h : HookRun) → contains known id ≡ true → turns (notify id h) ≤ turns h
  notify-turns id h k =
      ground (arith, k, count_where-update h.notified id known, length-append h.queue (id ∷ []))

  notify_all-turns :
      (ids : List ℕ) (h : HookRun)
      → all (contains known) ids ≡ true
      → turns (notify_all ids h) ≤ turns h
  unfolding notify_all
  notify_all-turns [] h k = omega arith
  notify_all-turns (id ∷ ids) h k =
      ground (arith, k, notify-turns id h, notify_all-turns ids (notify id h))

  notify_chains-turns :
      (more : List (List ℕ)) (h : HookRun)
      → all (contains known) (concat_ids more) ≡ true
      → turns (notify_chains more h) ≤ turns h
  unfolding notify_chains
  notify_chains-turns [] h k = omega arith
  notify_chains-turns (ids ∷ more) h k = ground (
    arith,
    k,
    all-append (contains known) ids (concat_ids more),
    notify_all-turns ids h,
    notify_chains-turns more (notify_all ids h),
  )

  changed-known :
      (m : List (ℕ × List ℕ)) (i : ℕ)
      → all (contains known) (changed_ids m) ≡ true
      → all (contains known) (targets (lookup i m)) ≡ true
  changed-known [] i k = refl
  changed-known (x ∷ m) i k =
      ground (arith, k, all-append (contains known) x.1 (changed_ids m), changed-known m i)

  chained-known :
      (m : Chains) (i : ℕ) (more : List (List ℕ))
      → all (contains known) (chained_ids m) ≡ true
      → lookup i m ≡ some more
      → all (contains known) (concat_ids more) ≡ true
  chained-known [] i more k e = cc
  chained-known (x ∷ m) i more k e = ground (
    arith,
    k,
    e,
    all-append (contains known) (concat_ids x.1) (chained_ids m),
    chained-known m i more,
  )

  module _ (check_only : Bool) (answers : ℕ → ℕ → HookAnswer) (chains : Chains) (hp : HookPlan)
      (changes : all (contains known) (changed_ids hp.on_change) ≡ true)
      (chainings : all (contains known) (chained_ids chains) ≡ true) where
    collect-turns :
        (i : ℕ) (ss : List StepSummary) (h : HookRun)
        → turns (collect check_only hp i ss h) ≤ turns h
    unfolding collect
    collect-turns i [] h = omega arith
    collect-turns i (s ∷ ss) h = ground (
      arith,
      notify_all-turns (targets (lookup i hp.on_change)) h (changed-known hp.on_change i changes),
      collect-turns (suc i) ss (notify_all (targets (lookup i hp.on_change)) h),
      collect-turns (suc i) ss h,
    )

    chain-turns : (b : Bool) (id : ℕ) (h : HookRun) → turns (chain b (lookup id chains) h) ≤ turns h
    chain-turns false id h = omega arith
    chain-turns true id h = elim (Option-cases (lookup id chains)) [
      | inl e ↦ rw (e) (omega arith)
      | inr (more, e) ↦
          rw (e) (notify_chains-turns more h (chained-known chains id more chainings e))
    ]

    abbrev IsCheaper : HookRun → HookTurn → Type 0
    IsCheaper h (on m) = turns m ≤ turns h
    IsCheaper h (quit r) = Unit

    after_fired-IsCheaper :
        (id : ℕ) (f : Fired) (h : HookRun) → IsCheaper h (after_fired chains id f h)
    after_fired-IsCheaper id f h = elim (Option-cases f.err) [
      | inl e ↦ rw (e) (chain-turns f.any_changed id (record h { reports = f.reports }))
      | inr (x, e) ↦ rw (e) tt
    ]

    hook_turn-IsCheaper :
        (id : ℕ) (h : HookRun) → IsCheaper h (hook_turn check_only answers chains hp id h)
    hook_turn-IsCheaper id h = elim (Bool-cases (h.executed id)) [
      | inl e ↦ rw (e) (omega arith)
      | inr e ↦ elim (Option-cases (lookup id hp.steps)) [
        | inl a ↦ rw (e, a) (omega arith)
        | inr (steps, a) ↦
            rw (e, a)
              (after_fired-IsCheaper id _ (record h { executed = update h.executed id true }))
      ]
    ]

    drain_total :
        (fuel : ℕ) (h : HookRun)
        → turns h ≤ fuel
        → (r : HookReport) × (drain check_only answers chains hp fuel h ≡ some r)
    unfolding drain
    drain_total zero h le = elim (List-cases h.queue) [
      | inl e ↦ rw (e) (record { reports = h.reports; err = none }, refl)
      | inr (id, rest, e) ↦ absurd (ground (arith, e, le))
    ]
    drain_total (suc fuel) h le = elim (List-cases h.queue) [
      | inl e ↦ rw (e) (record { reports = h.reports; err = none }, refl)
      | inr (id, rest, e) ↦ rw (e) (
          by_turn (λ m lt. drain_total fuel m lt)
            (hook_turn check_only answers chains hp id (record h { queue = rest })) rest e
            (hook_turn-IsCheaper id (record h { queue = rest })))
    ]
      where
        by_turn :
            ((m : HookRun)
              → turns m ≤ fuel
              → (r : HookReport) × (drain check_only answers chains hp fuel m ≡ some r))
            → (t : HookTurn) (rest : List ℕ) {id : ℕ} → h.queue ≡ id ∷ rest
            → IsCheaper (record h { queue = rest }) t
            → (r : HookReport) × (elim t as (λ x. Option HookReport) [
              | quit r ↦ some r
              | on m ↦ drain check_only answers chains hp fuel m
            ]
                ≡ some r)
        by_turn go (quit r) rest e c = (r, refl)
        by_turn go (on m) rest e c = go m (ground (arith, e, c, le))

all_refl :
    (p : ℕ → Bool) (xs : List ℕ) → ((x : ℕ) → contains xs x ≡ true → p x ≡ true) → all p xs ≡ true
all_refl p [] h = refl
all_refl p (x ∷ xs) h =
    ground (arith, h x (ground (arith, ==_iff x x)), all_refl p xs (λ y e. h y (ground (arith, e))))

-- Whatever the steps report, and whatever hooks notify each other: `executeHooks` returns.
pub execute_hooks_total :
    (check_only : Bool) (answers : ℕ → ℕ → HookAnswer) (chains : Chains) (hp : HookPlan)
    (summaries : List StepSummary)
    → (r : HookReport) × (execute_hooks check_only answers chains hp summaries ≡ some r)
unfolding execute_hooks
execute_hooks_total check_only answers chains hp summaries = by_plan hp.steps
  where
    changes : all (contains (hook_ids chains hp)) (changed_ids hp.on_change) ≡ true
    changes = all_refl (contains (hook_ids chains hp)) (changed_ids hp.on_change) (λ x e.
        ground (arith, e, contains-append (changed_ids hp.on_change) (chained_ids chains) x))

    chainings : all (contains (hook_ids chains hp)) (chained_ids chains) ≡ true
    chainings = all_refl (contains (hook_ids chains hp)) (chained_ids chains) (λ x e.
        ground (arith, e, contains-append (changed_ids hp.on_change) (chained_ids chains) x))

    by_plan :
        (xs : List (ℕ × List Step))
        → (r : HookReport) × (run_hooks check_only answers chains hp xs summaries ≡ some r)
    by_plan [] = (record { reports = []; err = none }, refl)
    by_plan (x ∷ xs) =
        drain_total (hook_ids chains hp) check_only answers chains hp changes chainings
          (length (hook_ids chains hp)) (collect check_only hp 0 summaries no_hooks)
          (omega (
            arith,
            collect-turns (hook_ids chains hp) check_only answers chains hp changes chainings 0
                summaries no_hooks,
            count_where-le (λ i. not (no_hooks.notified i)) (hook_ids chains hp),
          ))
