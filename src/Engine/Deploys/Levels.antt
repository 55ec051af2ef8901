-- ===== src/Engine/Deploys/Levels.antt =====
-- What `buildDeployGraph` returns: each level waits for the ones before it.
use scampi.Base.{
  ℕ, zero, suc, ◌+◌, ◌≤◌, ◌<◌, ◌≡◌, refl, ap, ◌∙◌, inl, inr, true, not, ◌&&◌, Option, none, some,
  List, [], ◌∷◌, ◌++◌, ◌==◌, ltb, if◌then◌else◌, length, contains, count, count-append, range,
  range_from, elem, arith, Option-cases,
}
use scampi.Spec.Resource.{Resource, resource_eq}
use scampi.Engine.Steps.Invariant.{contains-range_from, range_from-contains}
use scampi.Engine.Deploys.{
  Config, collect_provides, config_at, Memo, depth_at, or_top, empty_levels, put_level, put_levels,
  DeployResult, levels, multiple_providers, deploy_cycle, out_of_fuel, index_panic, put_result,
  by_depths, kahn_levels, Walked, found, clear, no_fuel, by_cycle, deploy_deps, build_deploy_graph,
  find_clash, find_cycle,
}
use scampi.Engine.Deploys.Makers.{
  Needs, makers, deploy_deps-Needs, Needs-deploy_deps, find_clash-supplies, find_clash_unique,
}
use scampi.Engine.Deploys.Rounds.{IsRound, LeadsTo, IsRanking, Finds, find_cycle-Finds}
use scampi.Engine.Deploys.Depths.{IsDeep, max_depth-Tops, lower-bound}

-- How often `j` stands on level `k`.
abbrev pub count_at : List (List ℕ) → ℕ → ℕ → ℕ
count_at [] k j = 0
count_at (l ∷ ls) zero j = count j l
count_at (l ∷ ls) (suc k) j = count_at ls k j

count_at-empty_levels : (m k j : ℕ) → count_at (empty_levels m) k j ≡ 0
count_at-empty_levels zero k j = refl
count_at-empty_levels (suc m) zero j = refl
count_at-empty_levels (suc m) (suc k) j = count_at-empty_levels m k j

length-empty_levels : (m : ℕ) → length (empty_levels m) ≡ m
length-empty_levels zero = refl
length-empty_levels (suc m) = ap suc (length-empty_levels m)

record Puts (i n : ℕ) (ls : List (List ℕ)) (o : Option (List (List ℕ))) : Type 0 where
  result : List (List ℕ)
  is_result : o ≡ some result
  same_length : length result ≡ length ls
  counts : (k j : ℕ) → count_at result k j ≡ count_at ls k j + (if k == i && n == j then 1 else 0)

put_level-Puts : (i n : ℕ) (ls : List (List ℕ)) → i < length ls → Puts i n ls (put_level i n ls)
unfolding put_level
put_level-Puts i n [] lt = absurd (omega arith)
put_level-Puts zero n (l ∷ ls) lt = record {
  result = (l ++ n ∷ []) ∷ ls;
  is_result = refl;
  same_length = refl;
  counts = λ k j. here k j;
}
  where
    here :
        (k j : ℕ)
        → count_at ((l ++ n ∷ []) ∷ ls) k j
          ≡ count_at (l ∷ ls) k j + (if k == 0 && n == j then 1 else 0)
    here zero j = ground (arith, count-append j l (n ∷ []))
    here (suc k) j = ground arith
put_level-Puts (suc i) n (l ∷ ls) lt =
    let p = put_level-Puts i n ls (omega arith) in
    record {
      result = l ∷ p.result;
      is_result = rw (p.is_result) refl;
      same_length = ap suc p.same_length;
      counts = λ k j. further p.result p.counts k j;
    }
  where
    further :
        (r : List (List ℕ))
        → ((k j : ℕ) → count_at r k j ≡ count_at ls k j + (if k == i && n == j then 1 else 0))
        → (k j : ℕ)
        → count_at (l ∷ r) k j ≡ count_at (l ∷ ls) k j + (if k == suc i && n == j then 1 else 0)
    further r h zero j = ground arith
    further r h (suc k) j = ground (arith, h k j)

-- How many of the nodes are `j` and have depth `k`.
abbrev due : Memo → List ℕ → ℕ → ℕ → ℕ
due memo [] k j = 0
due memo (n ∷ ns) k j = due memo ns k j + (if k == depth_at memo n && n == j then 1 else 0)

record PutsAll (memo : Memo) (ns : List ℕ) (ls : List (List ℕ)) (o : Option (List (List ℕ)))
    : Type 0 where
  all_put : List (List ℕ)
  is_put : o ≡ some all_put
  put_length : length all_put ≡ length ls
  put_counts : (k j : ℕ) → count_at all_put k j ≡ count_at ls k j + due memo ns k j

put_levels-PutsAll :
    (memo : Memo) (ns : List ℕ) (ls : List (List ℕ))
    → ((n : ℕ) → contains ns n ≡ true → depth_at memo n < length ls)
    → PutsAll memo ns ls (put_levels memo ns ls)
unfolding put_levels
put_levels-PutsAll memo [] ls low = record {
  all_put = ls;
  is_put = refl;
  put_length = refl;
  put_counts = λ k j. omega arith;
}
put_levels-PutsAll memo (n ∷ ns) ls low =
    let p = put_level-Puts (depth_at memo n) n ls (low n (ground arith)) in
    let q =
      put_levels-PutsAll memo ns p.result (λ m h. rw (p.same_length) (low m (ground arith))) in
    record {
      all_put = q.all_put;
      is_put = rw (p.is_result) q.is_put;
      put_length = q.put_length ∙ p.same_length;
      put_counts = λ k j. omega (arith, p.counts k j, q.put_counts k j);
    }

due-range :
    (memo : Memo) (i n k j : ℕ)
    → due memo (range_from i n) k j
      ≡ (if not (ltb j i) && ltb j (i + n) && k == depth_at memo j then 1 else 0)
due-range memo i zero k j = ground arith
due-range memo i (suc n) k j = ground (arith, due-range memo (suc i) n k j)

-- The blocks are run level by level: block `j` stands on the level of its depth, once, and on no other
-- level; and a block that needs another one is deeper.
pub record IsSchedule (cs : List Config) (ls : List (List ℕ)) : Type 0 where
  pub depth : ℕ → ℕ
  pub counts : (k j : ℕ) → count_at ls k j ≡ (if ltb j (length cs) && k == depth j then 1 else 0)
  pub within : (j : ℕ) → j < length cs → depth j < length ls
  pub ordered : (j i : ℕ) → j < length cs → Needs cs j i → depth i < depth j

put_levels-IsSchedule :
    (cs : List Config) (highest : ℕ) (last : Memo)
    → find_clash (makers cs) ≡ none
    → IsDeep (deploy_deps cs (makers cs)) last
    → ((j : ℕ) → j < length cs → (d : ℕ) × (last j ≡ some d) × (d ≤ highest))
    → (ls : List (List ℕ)) × (put_result
          (put_levels last (range (length cs)) (empty_levels (suc highest)))
        ≡ levels ls)
      × IsSchedule cs ls
put_levels-IsSchedule cs highest last clean deep placed =
    let long = length-empty_levels (suc highest) in
    let at : (j d : ℕ) → last j ≡ some d → depth_at last j ≡ d = λ j d e. ap or_top e in
    let p = put_levels-PutsAll last (range (length cs)) (empty_levels (suc highest)) (λ j h.
      let (d, e, le) = placed j (omega (arith, (contains-range_from 0 (length cs) j h).1)) in
      omega (arith, at j d e, le, long)) in
    (
      p.all_put,
      ap put_result p.is_put,
      record {
        depth = depth_at last;
        counts = λ k j. ground (
          arith,
          p.put_counts k j,
          count_at-empty_levels (suc highest) k j,
          due-range last 0 (length cs) k j,
        );
        within =
            λ j b. let (d, e, le) = placed j b in omega (arith, at j d e, le, long, p.put_length);
        ordered = λ j i b need.
            let (d, e, le) = placed j b in
            let (c, f, lt) = deep j d i e (Needs-deploy_deps cs j i clean need) in
            omega (arith, at j d e, at i c f, lt);
      },
    )

-- A cycle of blocks: each needs the next one, and the last one the first.
abbrev pub NeedsTo : List Config → ℕ → List ℕ → Type 0
NeedsTo cs n [] = Unit
NeedsTo cs n (x ∷ []) = Needs cs x n
NeedsTo cs n (x ∷ y ∷ r) = Needs cs x y × NeedsTo cs n (y ∷ r)

abbrev pub IsWaiting : List Config → List ℕ → Type 0
IsWaiting cs [] = ⊥
IsWaiting cs (x ∷ r) = NeedsTo cs x (x ∷ r)

LeadsTo-NeedsTo :
    (cs : List Config) (n : ℕ) (c : List ℕ)
    → LeadsTo (deploy_deps cs (makers cs)) n c
    → NeedsTo cs n c
LeadsTo-NeedsTo cs n [] w = tt
LeadsTo-NeedsTo cs n (x ∷ []) w = deploy_deps-Needs cs x n w
LeadsTo-NeedsTo cs n (x ∷ y ∷ r) w =
    (deploy_deps-Needs cs x y w.0, LeadsTo-NeedsTo cs n (y ∷ r) w.1)

IsRound-IsWaiting :
    (cs : List Config) (c : List ℕ) → IsRound (deploy_deps cs (makers cs)) c → IsWaiting cs c
IsRound-IsWaiting cs [] w = w
IsRound-IsWaiting cs (x ∷ r) w = LeadsTo-NeedsTo cs x (x ∷ r) w

kahn_levels-IsSchedule :
    (cs : List Config) (rank : ℕ → ℕ)
    → find_clash (makers cs) ≡ none
    → IsRanking (deploy_deps cs (makers cs)) (length cs) rank
    → (ls : List (List ℕ)) × (kahn_levels (length cs) (deploy_deps cs (makers cs)) ≡ levels ls)
      × IsSchedule cs ls
unfolding kahn_levels
kahn_levels-IsSchedule cs rank clean ranked =
    let n = length cs in
    let deps = deploy_deps cs (makers cs) in
    let inside : (j i : ℕ) → contains (deps j) i ≡ true → i < n =
      λ j i e. (deploy_deps-Needs cs j i e).2 in
    let t =
      max_depth-Tops deps n rank ranked inside (suc n) (range n) 0 (λ x. none)
        (λ x h.
          (omega (arith, (contains-range_from 0 n x h).1), lower-bound deps n rank ranked inside x))
        (λ j d i h m. cc) in
    let (ls, made, good) =
      put_levels-IsSchedule cs t.highest t.last clean t.all_deep
        (λ j b. t.placed j (range_from-contains 0 n j (omega arith) (omega (arith, b)))) in
    (ls, ap (by_depths n) t.is_last ∙ made, good)

-- No resource is provided by two blocks.
abbrev pub HasOneMaker : List Config → Type 0
HasOneMaker cs =
    (r : Resource) (i k : ℕ)
    → i < length cs
    → elem (collect_provides (config_at cs i)) r ≡ true
    → k < length cs
    → elem (collect_provides (config_at cs k)) r ≡ true
    → i ≡ k

-- What each answer means.
abbrev pub Answers : List Config → DeployResult → Type 0
Answers cs (levels ls) = HasOneMaker cs × IsSchedule cs ls
Answers cs (multiple_providers r prods) =
    (1 < length prods)
    × ((i : ℕ)
        → contains prods i ≡ true
        → (i < length cs) × (elem (collect_provides (config_at cs i)) r ≡ true))
Answers cs (deploy_cycle c) = IsWaiting cs c
Answers cs out_of_fuel = ⊥
Answers cs index_panic = ⊥

by_cycle-Answers :
    (cs : List Config) (w : Walked)
    → find_clash (makers cs) ≡ none
    → Finds (deploy_deps cs (makers cs)) (length cs) w
    → Answers cs (by_cycle (length cs) (deploy_deps cs (makers cs)) w)
by_cycle-Answers cs (found c) clean f = IsRound-IsWaiting cs c f
by_cycle-Answers cs no_fuel clean f = f
by_cycle-Answers cs (clear s) clean f =
    let (ls, made, good) = kahn_levels-IsSchedule cs f.0 clean f.1 in
    rw made ((λ r i k. find_clash_unique cs r i k clean), good)

-- `buildDeployGraph` always returns. The levels that it returns hold each deploy block once, on the
-- level of its depth, and a block that requires what another one provides stands on a later level,
-- and no two blocks provide one resource. The entries of a `MultipleProvidersError` are more than
-- one and provide its resource, and those of a `DeployCycleError` need each other in a circle.
pub build_deploy_graph-Answers : (cs : List Config) → Answers cs (build_deploy_graph cs)
unfolding build_deploy_graph
build_deploy_graph-Answers cs = elim (Option-cases (find_clash (makers cs))) [
  | inr (x, e) ↦ rw (Answers, e) (find_clash-supplies cs x.0 x.1 e)
  | inl e ↦
      rw (Answers, e)
        (by_cycle-Answers cs (find_cycle (length cs) (deploy_deps cs (makers cs))) e (
          find_cycle-Finds (deploy_deps cs (makers cs)) (length cs)
            (λ j i h. (deploy_deps-Needs cs j i h).2)))
]
