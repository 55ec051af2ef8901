-- ===== src/Engine/Duplicates/Unique.antt =====
-- What `detectDuplicateProvides` finds, and what its silence means.
use scampi.Base.{
  append-ne-nil, ℕ, zero, suc, ◌+◌, ◌≤◌, ◌≡◌, refl, inl, inr, true, Option, none, some, List, [],
  ◌∷◌, arith, get_elem?, elem, lookup, insert, lookup-insert, Bool-cases, All, All-append, IsSuffix,
  IsSuffix-whole, IsSuffix-head, IsSuffix-tail,
}
use scampi.Spec.Resource.{Resource, resource_eq, resource_beq, resource_beq_iff}
use scampi.Spec.Execution.{Step}
use scampi.Engine.StepGraph.Build.{Provides}
use scampi.Engine.StepGraph.Order.{IsUnique}
use scampi.Engine.Duplicates.{
  Duplicate, Winners, judge, note_winners, scan_steps, detect_duplicate_provides,
}

-- A pass that reports nothing has entered all that it saw, and changed no entry.
record IsClean (i : ℕ) (rs : List Resource) (w v : Winners) : Type 0 where
  before : w.causes ≡ []
  kept : (q : Resource) (j : ℕ) → lookup q w.winners ≡ some j → lookup q v.winners ≡ some j
  entered : (q : Resource) → elem rs q ≡ true → lookup q v.winners ≡ some i

judge-IsClean :
    (i : ℕ) (r : Resource) (rs : List Resource) (w v : Winners) (o : Option ℕ)
    → lookup r w.winners ≡ o
    → IsClean i rs (judge i r o w) v
    → IsClean i (r ∷ rs) w v
judge-IsClean i r rs w v (some prev) at rest =
    absurd (append-ne-nil w.causes (record { resource = r; step = i; first = prev }) rest.before)
judge-IsClean i r rs w v none at rest = record {
  before = rest.before;
  kept = λ q j here.
      rest.kept q j (ground (arith, lookup-insert r q i w.winners, resource_beq_iff r q));
  entered = λ q here. elim (Bool-cases (resource_beq r q)) [
    | inl same ↦ rest.kept q i (ground (arith, lookup-insert r q i w.winners))
    | inr other ↦ rest.entered q (ground arith)
  ];
}

note_winners-IsClean :
    (i : ℕ) (rs : List Resource) (w : Winners)
    → (note_winners i rs w).causes ≡ []
    → IsClean i rs w (note_winners i rs w)
unfolding note_winners
note_winners-IsClean i [] w e = record { before = e; kept = λ q j at. at; entered = λ q at. cc }
note_winners-IsClean i (r ∷ rs) w e =
    judge-IsClean i r rs w _ (lookup r w.winners) refl
      (note_winners-IsClean i rs (judge i r (lookup r w.winners) w) e)

scan_steps-clean :
    (i : ℕ) (ss : List Step) (w : Winners)
    → (scan_steps i ss w).causes ≡ []
    → (w.causes ≡ [])
      × ((q : Resource) (j : ℕ)
          → lookup q w.winners ≡ some j
          → lookup q (scan_steps i ss w).winners ≡ some j)
      × ((q : Resource) (k : ℕ) (a : Step)
          → get_elem? ss k ≡ some a
          → elem a.provides q ≡ true
          → lookup q (scan_steps i ss w).winners ≡ some (k + i))
unfolding scan_steps
scan_steps-clean i [] w e = (e, λ q j at. at, λ q k a at. cc)
scan_steps-clean i (s ∷ ss) w e =
    let (clean, kept, entered) = scan_steps-clean (suc i) ss (note_winners i s.provides w) e in
    let one = note_winners-IsClean i s.provides w clean in
    (one.before, λ q j at. kept q j (one.kept q j at), later one kept entered)
  where
    later :
        IsClean i s.provides w (note_winners i s.provides w)
        → ((q : Resource) (j : ℕ)
            → lookup q (note_winners i s.provides w).winners ≡ some j
            → lookup q (scan_steps (suc i) ss (note_winners i s.provides w)).winners ≡ some j)
        → ((q : Resource) (k : ℕ) (a : Step)
            → get_elem? ss k ≡ some a
            → elem a.provides q ≡ true
            → lookup q (scan_steps (suc i) ss (note_winners i s.provides w)).winners
              ≡ some (k + suc i))
        → (q : Resource) (k : ℕ) (a : Step) → get_elem? (s ∷ ss) k ≡ some a
        → elem a.provides q ≡ true
        → lookup q (scan_steps (suc i) ss (note_winners i s.provides w)).winners ≡ some (k + i)
    later one kept entered q zero a at has = ground (arith, kept q i (one.entered q (ground arith)))
    later one kept entered q (suc k) a at has = ground (arith, entered q k a at has)

-- If no duplicate is reported, then no resource has two providers.
pub detect_duplicate_provides-IsUnique :
    (steps : List Step) → detect_duplicate_provides steps ≡ [] → IsUnique steps
unfolding detect_duplicate_provides
detect_duplicate_provides-IsUnique steps e r i j (a, at, p) (b, bt, q) =
    let (clean, kept, entered) = scan_steps-clean 0 steps _ e in
    ground (arith, entered r i a at p, entered r j b bt q)

-- What a cause says is so: both steps provide the resource, and the first is not the later one.
abbrev pub IsJust : List Step → Duplicate → Type 0
IsJust steps d =
    Provides steps d.first d.resource × Provides steps d.step d.resource × (d.first ≤ d.step)

-- Entries name a step up to `i` that provides the resource.
abbrev AreProviders : List Step → ℕ → Winners → Type 0
AreProviders steps i w =
    (q : Resource) (j : ℕ) → lookup q w.winners ≡ some j → Provides steps j q × (j ≤ i)

module _ (steps : List Step) where
  -- The winners and the causes so far.
  abbrev Holds : ℕ → Winners → Type 0
  Holds i w = AreProviders steps i w × All (IsJust steps) w.causes

  judge-Holds :
      (i : ℕ) (s : Step) (r : Resource) (w : Winners) (o : Option ℕ)
      → get_elem? steps i ≡ some s
      → elem s.provides r ≡ true
      → lookup r w.winners ≡ o
      → Holds i w
      → Holds i (judge i r o w)
  judge-Holds i s r w (some prev) at has found (v, h) =
      let (p, le) = v r prev found in
      (v, All-append (IsJust steps) w.causes _ h ((p, (s, at, has), le), tt))
  judge-Holds i s r w none at has found (v, h) = (fresh, h)
    where
      fresh : AreProviders steps i (record w { winners = insert r i w.winners })
      fresh q j e = elim (Bool-cases (resource_beq r q)) [
        | inl same ↦
            let now : i ≡ j = ground (arith, lookup-insert r q i w.winners) in
            let r_q : r ≡ q = (resource_beq_iff r q).0 same in
            rw (← now, ← r_q) ((s, at, has), omega arith)
        | inr other ↦ v q j (ground (arith, lookup-insert r q i w.winners))
      ]

  note_winners-Holds :
      (i : ℕ) (s : Step) (rs : List Resource) (w : Winners)
      → get_elem? steps i ≡ some s
      → ((q : Resource) → elem rs q ≡ true → elem s.provides q ≡ true)
      → Holds i w
      → Holds i (note_winners i rs w)
  unfolding note_winners
  note_winners-Holds i s [] w at sub h = h
  note_winners-Holds i s (r ∷ rs) w at sub h =
      note_winners-Holds i s rs _ at (λ q e. sub q (ground arith))
        (judge-Holds i s r w (lookup r w.winners) at (sub r (ground (arith, resource_beq_iff r r)))
          refl h)

  scan_steps-All :
      (i : ℕ) (ss : List Step) (w : Winners)
      → IsSuffix steps i ss
      → Holds i w
      → All (IsJust steps) (scan_steps i ss w).causes
  unfolding scan_steps
  scan_steps-All i [] w at h = h.1
  scan_steps-All i (s ∷ ss) w at h =
      let (v, just) =
        note_winners-Holds i s s.provides w (IsSuffix-head steps i s ss at) (λ q e. e) h in
      scan_steps-All (suc i) ss _ (IsSuffix-tail steps i s ss at)
        (λ q j e. let (p, le) = v q j e in (p, omega arith), just)

-- Every reported duplicate is one: both steps provide the resource, and the step that is named as
-- the first provider is not after the other.
pub detect_duplicate_provides-IsJust :
    (steps : List Step) → All (IsJust steps) (detect_duplicate_provides steps)
unfolding detect_duplicate_provides
detect_duplicate_provides-IsJust steps =
    scan_steps-All steps 0 steps _ (IsSuffix-whole steps) (λ q j e. cc, tt)
