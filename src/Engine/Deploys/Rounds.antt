-- ===== src/Engine/Deploys/Rounds.antt =====
-- `findCycle`: a list that it returns is a cycle, and where it returns none, the deps are ranked below
-- the nodes that wait for them. Its fuel is enough.
use scampi.Base.{
  ℕ, zero, suc, ◌≤◌, ◌<◌, ◌≡◌, refl, subst, ap, ◌∙◌, inl, inr, ◌⊎◌, Bool, true, false, List, [],
  ◌∷◌, ◌++◌, ◌==◌, if◌then◌else◌, update, contains, contains-append, range, arith, Bool-cases,
  sum_below, sum_below_mono, sum_below-le, sum_below-strict,
}
use scampi.Engine.Steps.Invariant.{contains-range_from, range_from-contains}
use scampi.Engine.Deploys.{
  Color, white, gray, black, Walk, Walked, found, clear, no_fuel, then_walk, enter_gray,
  leave_black, without_last, from_first, visit_deps, visit, visit_all, unvisited, find_cycle,
}

abbrev pub is_white : Color → Bool
is_white white = true
is_white _ = false

abbrev pub is_gray : Color → Bool
is_gray gray = true
is_gray _ = false

abbrev pub is_black : Color → Bool
is_black black = true
is_black _ = false

Color-cases : (c : Color) → (c ≡ white) ⊎ ((c ≡ gray) ⊎ (c ≡ black))
Color-cases white = inl refl
Color-cases gray = inr (inl refl)
Color-cases black = inr (inr refl)

pub without_last-append : (st : List ℕ) (n : ℕ) → without_last (st ++ n ∷ []) ≡ st
without_last-append [] n = refl
without_last-append (x ∷ []) n = refl
without_last-append (x ∷ y ∷ r) n = ap (λ l. x ∷ l) (without_last-append (y ∷ r) n)

module _ (deps : ℕ → List ℕ) where
  -- Each entry waits for the next one, and the last entry for `n`.
  abbrev pub LeadsTo : ℕ → List ℕ → Type 0
  LeadsTo n [] = Unit
  LeadsTo n (x ∷ []) = contains (deps x) n ≡ true
  LeadsTo n (x ∷ y ∷ r) = (contains (deps x) y ≡ true) × LeadsTo n (y ∷ r)

  -- A cycle: its last entry waits for its first one.
  abbrev pub IsRound : List ℕ → Type 0
  IsRound [] = ⊥
  IsRound (x ∷ r) = LeadsTo x (x ∷ r)

  LeadsTo-append :
      (n d : ℕ) (st : List ℕ) → LeadsTo n st → contains (deps n) d ≡ true → LeadsTo d (st ++ n ∷ [])
  LeadsTo-append n d [] w h = h
  LeadsTo-append n d (x ∷ []) w h = (w, h)
  LeadsTo-append n d (x ∷ y ∷ r) w h = (w.0, LeadsTo-append n d (y ∷ r) w.1 h)

  from_first-IsRound :
      (d : ℕ) (whole st : List ℕ)
      → LeadsTo d st
      → contains st d ≡ true
      → IsRound (from_first d whole st)
  from_first-IsRound d whole [] w h = cc
  from_first-IsRound d whole (x ∷ []) w h = elim (Bool-cases (x == d)) [
    | inl e ↦ ground arith
    | inr e ↦ absurd (ground arith)
  ]
  from_first-IsRound d whole (x ∷ y ∷ r) w h = elim (Bool-cases (x == d)) [
    | inl e ↦ let same : d ≡ x = ground arith in rw (e) (subst (λ k. LeadsTo k (x ∷ y ∷ r)) same w)
    | inr e ↦ rw (e) (from_first-IsRound d whole (y ∷ r) w.1 (ground arith))
  ]

  record Walking (s : Walk) : Type 0 where
    rank : ℕ → ℕ
    clock : ℕ
    listed : (j : ℕ) → is_gray (s.color j) ≡ true → contains s.stack j ≡ true
    closed :
        (i j : ℕ)
        → is_black (s.color j) ≡ true
        → contains (deps j) i ≡ true
        → (is_black (s.color i) ≡ true) × (rank i < rank j)
    early : (j : ℕ) → is_black (s.color j) ≡ true → rank j < clock

  module _ (bound : ℕ) where
    abbrev whites : Walk → ℕ
    whites s = sum_below (λ j. if is_white (s.color j) then 1 else 0) bound

    -- The nodes of a list were visited, and no cycle came up.
    record Clears (ns : List ℕ) (s t : Walk) : Type 0 where
      keeps : Walking t
      same_stack : t.stack ≡ s.stack
      same_gray : (j : ℕ) → is_gray (t.color j) ≡ is_gray (s.color j)
      grows : (j : ℕ) → is_black (s.color j) ≡ true → is_black (t.color j) ≡ true
      done : (j : ℕ) → contains ns j ≡ true → is_black (t.color j) ≡ true
      fewer : whites t ≤ whites s

    abbrev Outcome : List ℕ → Walk → Walked → Type 0
    Outcome ns s (found c) = IsRound c
    Outcome ns s (clear t) = Clears ns s t
    Outcome ns s no_fuel = ⊥

    Outcome-after :
        (n : ℕ) (ns : List ℕ) (s t : Walk) (w : Walked)
        → Clears (n ∷ []) s t
        → Outcome ns t w
        → Outcome (n ∷ ns) s w
    Outcome-after n ns s t (found c) h o = o
    Outcome-after n ns s t no_fuel h o = o
    Outcome-after n ns s t (clear u) h o = record {
      keeps = o.keeps;
      same_stack = o.same_stack ∙ h.same_stack;
      same_gray = λ j. o.same_gray j ∙ h.same_gray j;
      grows = λ j e. o.grows j (h.grows j e);
      done = λ j e. ground (arith, o.done j, o.grows j, h.done j);
      fewer = omega (arith, o.fewer, h.fewer);
    }

    Outcome-then_walk :
        (n : ℕ) (ns : List ℕ) (s : Walk) (w : Walked) (f : Walk → Walked)
        → Outcome (n ∷ []) s w
        → ((t : Walk) → Clears (n ∷ []) s t → Outcome ns t (f t))
        → Outcome (n ∷ ns) s (then_walk w f)
    Outcome-then_walk n ns s (found c) f o next = o
    Outcome-then_walk n ns s no_fuel f o next = o
    Outcome-then_walk n ns s (clear t) f o next = Outcome-after n ns s t (f t) o (next t o)

    -- A node that is black already.
    Outcome-black :
        (n : ℕ) (ns : List ℕ) (s : Walk) (w : Walked)
        → is_black (s.color n) ≡ true
        → Outcome ns s w
        → Outcome (n ∷ ns) s w
    Outcome-black n ns s (found c) b o = o
    Outcome-black n ns s no_fuel b o = o
    Outcome-black n ns s (clear t) b o = record {
      keeps = o.keeps;
      same_stack = o.same_stack;
      same_gray = o.same_gray;
      grows = o.grows;
      done = λ j e. ground (arith, o.done j, o.grows j);
      fewer = o.fewer;
    }

    abbrev Visits : (ℕ → Walk → Walked) → ℕ → Type 0
    Visits v room =
        (n : ℕ) (s : Walk)
        → n < bound
        → Walking s
        → LeadsTo n s.stack
        → is_white (s.color n) ≡ true
        → whites s < room
        → Outcome (n ∷ []) s (v n s)

    visit_deps-Outcome :
        (v : ℕ → Walk → Walked) (room : ℕ)
        → Visits v room
        → (ds : List ℕ) (s : Walk) → ((d : ℕ) → contains ds d ≡ true → d < bound)
        → Walking s
        → ((d : ℕ) → contains ds d ≡ true → LeadsTo d s.stack)
        → whites s < room
        → Outcome ds s (visit_deps v ds s)
    unfolding visit_deps
    visit_deps-Outcome v room good [] s low inv leads h = record {
      keeps = inv;
      same_stack = refl;
      same_gray = λ j. refl;
      grows = λ j e. e;
      done = λ j e. cc;
      fewer = omega arith;
    }
    visit_deps-Outcome v room good (d ∷ ds) s low inv leads h = elim (Color-cases (s.color d)) [
      | inl e ↦
          rw (Outcome, e)
            (Outcome-then_walk d ds s (v d s) (λ t. visit_deps v ds t)
              (good d s (low d (ground arith)) inv (leads d (ground arith)) (ground arith) h)
              (λ t c.
                visit_deps-Outcome v room good ds t (λ k m. low k (ground arith)) c.keeps
                  (λ k m. rw (c.same_stack) (leads k (ground arith))) (omega (arith, c.fewer))))
      | inr f ↦ elim f [
        | inl e ↦
            rw (Outcome, e)
              (from_first-IsRound d s.stack s.stack (leads d (ground arith))
                (inv.listed d (ground arith)))
        | inr e ↦
            rw (Outcome, e)
              (Outcome-black d ds s (visit_deps v ds s) (ground arith) (
                visit_deps-Outcome v room good ds s (λ k m. low k (ground arith)) inv
                  (λ k m. leads k (ground arith)) h))
      ]
    ]

    enter_gray-whites :
        (n : ℕ) (s : Walk)
        → n < bound
        → is_white (s.color n) ≡ true
        → whites (enter_gray n s) < whites s
    enter_gray-whites n s b w =
        sum_below-strict (λ j. if is_white (update s.color n gray j) then 1 else 0)
          (λ j. if is_white (s.color j) then 1 else 0) bound n b (ground arith) (λ k. ground arith)

    leave_black-whites : (n : ℕ) (s : Walk) → whites (leave_black n s) ≤ whites s
    leave_black-whites n s =
        sum_below_mono (λ j. if is_white (update s.color n black j) then 1 else 0)
          (λ j. if is_white (s.color j) then 1 else 0) bound (λ k. ground arith)

    enter_gray-Walking :
        (n : ℕ) (s : Walk) → is_white (s.color n) ≡ true → Walking s → Walking (enter_gray n s)
    enter_gray-Walking n s w inv = record {
      rank = inv.rank;
      clock = inv.clock;
      listed = λ j h. ground (arith, inv.listed j, contains-append s.stack (n ∷ []) j);
      closed = λ i j h e. ground (arith, inv.closed i j);
      early = λ j h. ground (arith, inv.early j);
    }

    -- The node is left once its deps were visited.
    leave_black-Outcome :
        (n : ℕ) (s : Walk) (w : Walked)
        → n < bound
        → is_white (s.color n) ≡ true
        → Walking s
        → Outcome (deps n) (enter_gray n s) w
        → Outcome (n ∷ []) s (then_walk w (λ t. clear (leave_black n t)))
    leave_black-Outcome n s (found c) b fresh inv o = o
    leave_black-Outcome n s no_fuel b fresh inv o = o
    leave_black-Outcome n s (clear t) b fresh inv o =
        let k = o.keeps in
        let back : without_last t.stack ≡ s.stack =
          ap without_last o.same_stack ∙ without_last-append s.stack n in
        record {
          keeps = record {
            rank = update k.rank n k.clock;
            clock = suc k.clock;
            listed = λ j h. ground (arith, back, inv.listed j, o.same_gray j);
            closed = λ i j h e.
                ground (arith, k.closed i j, o.done i, k.early i, k.early j, o.same_gray n);
            early = λ j h. ground (arith, k.early j);
          };
          same_stack = back;
          same_gray = λ j. ground (arith, o.same_gray j);
          grows = λ j e. ground (arith, o.grows j);
          done = λ j e. ground arith;
          fewer = omega (arith, leave_black-whites n t, o.fewer, enter_gray-whites n s b fresh);
        }

    module _ (inside : (j i : ℕ) → contains (deps j) i ≡ true → i < bound) where
      visit-Outcome : (fuel : ℕ) → Visits (visit deps fuel) fuel
      unfolding visit
      visit-Outcome zero n s b inv leads w h = absurd (omega arith)
      visit-Outcome (suc fuel) n s b inv leads w h =
          leave_black-Outcome n s (visit_deps (visit deps fuel) (deps n) (enter_gray n s)) b w inv (
            visit_deps-Outcome (visit deps fuel) fuel (visit-Outcome fuel) (deps n) (enter_gray n s)
              (inside n) (enter_gray-Walking n s w inv) (λ d m. LeadsTo-append n d s.stack leads m)
              (omega (arith, enter_gray-whites n s b w)))

      visit_all-Outcome :
          (fuel : ℕ) (ns : List ℕ) (s : Walk)
          → ((n : ℕ) → contains ns n ≡ true → n < bound)
          → Walking s
          → s.stack ≡ []
          → whites s < fuel
          → Outcome ns s (visit_all deps fuel ns s)
      unfolding visit_all
      visit_all-Outcome fuel [] s low inv empty h = record {
        keeps = inv;
        same_stack = refl;
        same_gray = λ j. refl;
        grows = λ j e. e;
        done = λ j e. cc;
        fewer = omega arith;
      }
      visit_all-Outcome fuel (n ∷ ns) s low inv empty h = elim (Color-cases (s.color n)) [
        | inl e ↦
            rw (Outcome, e)
              (Outcome-then_walk n ns s (visit deps fuel n s) (λ t. visit_all deps fuel ns t)
                (visit-Outcome fuel n s (low n (ground arith)) inv (rw empty tt) (ground arith) h)
                (λ t c.
                  visit_all-Outcome fuel ns t (λ k m. low k (ground arith)) c.keeps
                    (c.same_stack ∙ empty) (omega (arith, c.fewer))))
        | inr f ↦ elim f [
          | inl e ↦ absurd (ground (arith, inv.listed n, empty))
          | inr e ↦
              rw (Outcome, e)
                (Outcome-black n ns s (visit_all deps fuel ns s) (ground arith)
                  (visit_all-Outcome fuel ns s (λ k m. low k (ground arith)) inv empty h))
        ]
      ]

  unvisited-Walking : Walking unvisited
  unvisited-Walking = record {
    rank = λ j. 0;
    clock = 0;
    listed = λ j h. cc;
    closed = λ i j h e. cc;
    early = λ j h. cc;
  }

  -- A rank for each node below `bound`, over those of its deps.
  abbrev pub IsRanking : ℕ → (ℕ → ℕ) → Type 0
  IsRanking bound rank = (j i : ℕ) → j < bound → contains (deps j) i ≡ true → rank i < rank j

  -- What an answer of `findCycle` means.
  abbrev pub Finds : ℕ → Walked → Type 0
  Finds bound (found c) = IsRound c
  Finds bound (clear s) = (rank : ℕ → ℕ) × IsRanking bound rank
  Finds bound no_fuel = ⊥

  Outcome-Finds : (bound : ℕ) (w : Walked) → Outcome bound (range bound) unvisited w → Finds bound w
  Outcome-Finds bound (found c) o = o
  Outcome-Finds bound no_fuel o = o
  Outcome-Finds bound (clear t) o = (
    o.keeps.rank,
    λ j i b e.
        (o.keeps.closed i j (o.done j (range_from-contains 0 bound j (omega arith) (omega arith)))
          e).1,
  )

  pub find_cycle-Finds :
      (bound : ℕ)
      → ((j i : ℕ) → contains (deps j) i ≡ true → i < bound)
      → Finds bound (find_cycle bound deps)
  unfolding find_cycle
  find_cycle-Finds bound inside =
      let room =
        sum_below-le (λ j. if is_white (unvisited.color j) then 1 else 0) 1 bound
          (λ k. ground arith) in
      Outcome-Finds bound (visit_all deps (suc bound) (range bound) unvisited) (
        visit_all-Outcome bound inside (suc bound) (range bound) unvisited
          (λ n e. omega (arith, (contains-range_from 0 bound n e).1)) unvisited-Walking refl
          (omega arith))
