-- ===== src/Engine/Deploys/Run/Upstream.antt =====
-- A deploy block is started only after the blocks that it needs.
use scampi.Base.{
  ℕ, zero, suc, ◌<◌, ◌≡◌, ◌≢◌, refl, subst, sym, ap, ◌∙◌, inl, inr, ◌⊎◌, true, false, Option, none,
  List, [], ◌∷◌, ◌++◌, ◌==◌, length, contains, contains-append, count→contains, contains→count,
  arith, Option-cases, List-cases, or-cases,
}
use scampi.Engine.Deploys.{
  Config, DeployResult, levels, multiple_providers, deploy_cycle, out_of_fuel, index_panic,
  build_deploy_graph,
}
use scampi.Engine.Deploys.Makers.{Needs}
use scampi.Engine.Deploys.Levels.{count_at, Answers, build_deploy_graph-Answers}
use scampi.Engine.Deploys.Run.{
  LevelRun, PlansError, causes_of, run_level, go_on, run_graph, run_levels, verdict, nothing_ran,
  run_plans_concurrent,
}

module _ {E : Type 0} (arrival : List ℕ → List ℕ) (work : ℕ → Option E)
    (same : (l : List ℕ) (j : ℕ) → contains (arrival l) j ≡ contains l j) where
  causes_of-nil :
      (ns : List ℕ) (j : ℕ) → causes_of arrival work ns ≡ [] → contains ns j ≡ true → work j ≡ none
  causes_of-nil [] j h c = cc
  causes_of-nil (n ∷ ns) j h c = elim (Option-cases (work n)) [
    | inl e ↦ ground (arith, causes_of-nil ns j)
    | inr (x, e) ↦ absurd (ground arith)
  ]

  run_level-nil :
      (l : List ℕ) (j : ℕ) → run_level arrival work l ≡ [] → contains l j ≡ true → work j ≡ none
  unfolding run_level
  run_level-nil l j h c = causes_of-nil (arrival l) j h (same l j ∙ c)

  -- Block `i` was started and did not fail.
  abbrev pub Succeeded : LevelRun E → ℕ → Type 0
  Succeeded s i = (contains s.ran i ≡ true) × (work i ≡ none)

  run_levels_next :
      (l : List ℕ) (ls : List (List ℕ)) (s : LevelRun E)
      → s.causes ≡ []
      → run_levels arrival work (l ∷ ls) s ≡ run_levels arrival work ls (go_on arrival work l s)
  unfolding run_levels
  run_levels_next l ls s e =
      subst
        (λ c.
          let u : LevelRun E = record { ran = s.ran; causes = c } in
          run_levels arrival work (l ∷ ls) u ≡ run_levels arrival work ls (go_on arrival work l u))
        (sym e) refl

  run_levels_ended :
      (l : List ℕ) (ls : List (List ℕ)) (s : LevelRun E) (x : E) (xs : List E)
      → s.causes ≡ x ∷ xs
      → run_levels arrival work (l ∷ ls) s ≡ s
  unfolding run_levels
  run_levels_ended l ls s x xs e =
      subst
        (λ c.
          let u : LevelRun E = record { ran = s.ran; causes = c } in
          run_levels arrival work (l ∷ ls) u ≡ u)
        (sym e) refl

  run_levels-grows :
      (ls : List (List ℕ)) (s : LevelRun E) (j : ℕ)
      → contains s.ran j ≡ true
      → contains (run_levels arrival work ls s).ran j ≡ true
  unfolding run_levels
  run_levels-grows [] s j h = h
  run_levels-grows (l ∷ ls) s j h = elim (List-cases s.causes) [
    | inl e ↦
        let rest =
          run_levels-grows ls (go_on arrival work l s) j
            (ground (arith, contains-append s.ran l j)) in
        ap (λ t. contains t.ran j) (run_levels_next l ls s e) ∙ rest
    | inr (x, xs, e) ↦ ap (λ t. contains t.ran j) (run_levels_ended l ls s x xs e) ∙ h
  ]

  -- A block of level `k` was started, and what stands on the levels before it had succeeded.
  record Came (ls : List (List ℕ)) (s t : LevelRun E) (j : ℕ) : Type 0 where
    no_cause : s.causes ≡ []
    level : ℕ
    stands : 0 < count_at ls level j
    earlier : (m i : ℕ) → m < level → 0 < count_at ls m i → Succeeded t i

  -- What came on a later level came after the first level.
  Came-cons :
      (l : List ℕ) (ls : List (List ℕ)) (s t : LevelRun E) (j : ℕ)
      → s.causes ≡ []
      → ((i : ℕ) → contains l i ≡ true → contains t.ran i ≡ true)
      → Came ls (go_on arrival work l s) t j
      → Came (l ∷ ls) s t j
  Came-cons l ls s t j e grows c =
      let quiet : run_level arrival work l ≡ [] =
        subst (λ cs. cs ++ run_level arrival work l ≡ []) e c.no_cause in
      record { no_cause = e; level = suc c.level; stands = c.stands; earlier = earlier quiet }
    where
      earlier :
          run_level arrival work l ≡ []
          → (m i : ℕ) → m < suc c.level
          → 0 < count_at (l ∷ ls) m i
          → Succeeded t i
      earlier quiet zero i lt h =
          let here = count→contains l i h in (grows i here, run_level-nil l i quiet here)
      earlier quiet (suc m) i lt h = c.earlier m i (omega arith) h

  run_levels-Came :
      (ls : List (List ℕ)) (s : LevelRun E) (j : ℕ)
      → contains (run_levels arrival work ls s).ran j ≡ true
      → (contains s.ran j ≡ true) ⊎ Came ls s (run_levels arrival work ls s) j
  unfolding run_levels
  run_levels-Came [] s j h = inl h
  run_levels-Came (l ∷ ls) s j h = elim (List-cases s.causes) [
    | inr (x, xs, e) ↦ inl (sym (ap (λ t. contains t.ran j) (run_levels_ended l ls s x xs e)) ∙ h)
    | inl e ↦
        let u = go_on arrival work l s in
        let next = run_levels_next l ls s e in
        let r = run_levels arrival work ls u in
        subst (λ t. (contains s.ran j ≡ true) ⊎ Came (l ∷ ls) s t j) (sym next)
          (elim (run_levels-Came ls u j (sym (ap (λ t. contains t.ran j) next) ∙ h)) [
            | inl c ↦ elim (or-cases _ _ (sym (contains-append s.ran l j) ∙ c)) [
              | inl old ↦ inl old
              | inr new ↦ inr (record {
                no_cause = e;
                level = 0;
                stands = contains→count l j new;
                earlier = λ m i lt q. absurd (omega (arith, lt));
              })
            ]
            | inr c ↦ inr (
                Came-cons l ls s r j e
                  (λ i q. run_levels-grows ls u i (ground (arith, contains-append s.ran l i))) c)
          ])
  ]

  run_levels_quiet :
      (ls : List (List ℕ)) (s : LevelRun E)
      → (run_levels arrival work ls s).causes ≡ []
      → s.causes ≡ []
  unfolding run_levels
  run_levels_quiet [] s h = h
  run_levels_quiet (l ∷ ls) s h = elim (List-cases s.causes) [
    | inl e ↦ e
    | inr (x, xs, e) ↦ sym (ap (λ t. t.causes) (run_levels_ended l ls s x xs e)) ∙ h
  ]

  run_levels_step :
      (l : List ℕ) (ls : List (List ℕ)) (s : LevelRun E)
      → (run_levels arrival work (l ∷ ls) s).causes ≡ []
      → (s.causes ≡ [])
        × ((run_levels arrival work ls (go_on arrival work l s)).causes ≡ [])
        × (run_level arrival work l ≡ [])
  run_levels_step l ls s h =
      let e = run_levels_quiet (l ∷ ls) s h in
      let rest = sym (ap (λ t. t.causes) (run_levels_next l ls s e)) ∙ h in
      (
        e,
        rest,
        subst (λ cs. cs ++ run_level arrival work l ≡ []) e
            (run_levels_quiet ls (go_on arrival work l s) rest),
      )

  -- Where no error came up, everything succeeded.
  run_levels_all :
      (ls : List (List ℕ)) (s : LevelRun E)
      → (run_levels arrival work ls s).causes ≡ []
      → (k i : ℕ) → 0 < count_at ls k i
      → Succeeded (run_levels arrival work ls s) i
  run_levels_all [] s h k i c = absurd (omega (arith, c))
  run_levels_all (l ∷ ls) s h zero i c =
      let (e, rest, quiet) = run_levels_step l ls s h in
      let here = count→contains l i c in
      subst (λ t. Succeeded t i) (sym (run_levels_next l ls s e))
        (
          run_levels-grows ls (go_on arrival work l s) i
              (ground (arith, contains-append s.ran l i)),
          run_level-nil l i quiet here,
        )
  run_levels_all (l ∷ ls) s h (suc k) i c =
      let (e, rest, quiet) = run_levels_step l ls s h in
      subst (λ t. Succeeded t i) (sym (run_levels_next l ls s e))
        (run_levels_all ls (go_on arrival work l s) rest k i c)

  -- What is left of a run: the blocks that were started, and the error.
  abbrev pub Respects : List Config → List ℕ × Option (PlansError E) → Type 0
  Respects cs r =
      ((j i : ℕ) → contains r.0 j ≡ true → Needs cs j i → (contains r.0 i ≡ true) × (work i ≡ none))
      × (r.1 ≡ none → (j : ℕ) → j < length cs → (contains r.0 j ≡ true) × (work j ≡ none))

  verdict-none : (es : List E) → verdict arrival work es ≡ none → es ≡ []
  verdict-none [] h = refl
  verdict-none (e ∷ []) h = cc
  verdict-none (e ∷ f ∷ es) h = cc

  run_graph-Respects :
      (cs : List Config) (g : DeployResult) → Answers cs g → Respects cs (run_graph arrival work g)
  run_graph-Respects cs (multiple_providers r ns) a = (λ j i h need. cc, λ h. cc)
  run_graph-Respects cs (deploy_cycle c) a = (λ j i h need. cc, λ h. cc)
  run_graph-Respects cs out_of_fuel a = absurd a
  run_graph-Respects cs index_panic a = absurd a
  run_graph-Respects cs (levels ls) a =
      let good = a.1 in
      let start = nothing_ran arrival work in
      (
        λ j i h need. elim (run_levels-Came ls start j h) [
          | inl c ↦ cc
          | inr c ↦
              let at : (j < length cs) × (c.level ≡ good.depth j) =
                ground (arith, good.counts c.level j, c.stands) in
              c.earlier (good.depth i) i (omega (arith, at, good.ordered j i at.0 need))
                (ground (arith, good.counts (good.depth i) i, need.2))
        ],
        λ h j b.
            run_levels_all ls start (verdict-none _ h) (good.depth j) j
              (ground (arith, good.counts (good.depth j) j)),
      )

  -- With more than one deploy block, a block is started only after every block that provides what it
  -- requires was started and did not fail; and where no error is returned, every block was
  -- started and none failed. In a level, the goroutines may return in any order.
  pub run_plans_concurrent-Respects :
      (cs : List Config) → length cs ≢ 1 → Respects cs (run_plans_concurrent arrival work cs)
  unfolding run_plans_concurrent
  run_plans_concurrent-Respects cs many =
      let not_one : (length cs == 1) ≡ false = ground arith in
      rw (not_one) (run_graph-Respects cs (build_deploy_graph cs) (build_deploy_graph-Answers cs))
