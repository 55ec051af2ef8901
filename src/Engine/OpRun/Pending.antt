-- ===== src/Engine/OpRun/Pending.antt =====
-- `initPending` counts, for every op that is not satisfied, the dependencies that are not either.
use scampi.Base.{
  ℕ, zero, suc, ◌+◌, ◌<◌, ◌≡◌, refl, sym, subst, ==_iff, inl, inr, Bool, true, false, not, ◌&&◌,
  List, [], ◌∷◌, arith, ◌==◌, if◌then◌else◌, ltb, leb, update, count, count_where, contains, range,
  range_from, Bool-cases,
}
use scampi.Engine.OpGraph.{OpGraph}
use scampi.Engine.OpGraph.Links.{IsLinked}
use scampi.Engine.OpRun.{raise_pending, init_pending}

raise_pending-count :
    (sat : ℕ → Bool) (ds : List ℕ) (p : ℕ → ℕ) (j : ℕ)
    → sat j ≡ false
    → raise_pending sat ds p j ≡ p j + count j ds
raise_pending-count sat [] p j live = omega arith
raise_pending-count sat (d ∷ ds) p j live =
    ground (arith, raise_pending-count sat ds (if sat d then p else update p d (suc (p d))) j live)

-- How often the ops of `is` that are not satisfied stand in `xs`.
abbrev tally : (ℕ → Bool) → List ℕ → List ℕ → ℕ
tally sat xs [] = 0
tally sat xs (i ∷ is) = (if sat i then 0 else count i xs) + tally sat xs is

tally-nil : (sat : ℕ → Bool) (is : List ℕ) → tally sat [] is ≡ 0
tally-nil sat [] = refl
tally-nil sat (i ∷ is) = ground (arith, tally-nil sat is)

tally-cons :
    (sat : ℕ → Bool) (x : ℕ) (xs is : List ℕ)
    → tally sat (x ∷ xs) is ≡ (if sat x then 0 else count x is) + tally sat xs is
tally-cons sat x xs [] = ground arith
tally-cons sat x xs (i ∷ is) = elim (Bool-cases (x == i)) [
  | inl e ↦
      subst
        (λ y.
          tally sat (y ∷ xs) (i ∷ is)
          ≡ (if sat y then 0 else count y (i ∷ is)) + tally sat xs (i ∷ is))
        (sym ((==_iff x i).0 e)) (ground (arith, tally-cons sat i xs is))
  | inr e ↦ ground (arith, tally-cons sat x xs is)
]

count-range_from :
    (i n j : ℕ) → count j (range_from i n) ≡ (if leb i j && ltb j (i + n) then 1 else 0)
count-range_from i zero j = ground arith
count-range_from i (suc n) j = ground (arith, count-range_from (suc i) n j)

tally-range :
    (sat : ℕ → Bool) (n : ℕ) (xs : List ℕ)
    → ((x : ℕ) → contains xs x ≡ true → x < n)
    → tally sat xs (range n) ≡ count_where (λ i. not (sat i)) xs
tally-range sat n [] b = tally-nil sat (range n)
tally-range sat n (x ∷ xs) b = ground (
  arith,
  tally-cons sat x xs (range n),
  count-range_from 0 n x,
  b x,
  tally-range sat n xs (λ y e. b y (ground arith)),
)

init_pending-tally :
    (n : ℕ) (g : OpGraph) (linked : IsLinked n g) (sat : ℕ → Bool) (is : List ℕ) (p : ℕ → ℕ) (j : ℕ)
    → sat j ≡ false
    → init_pending g sat is p j ≡ p j + tally sat (g j).deps is
unfolding init_pending
init_pending-tally n g linked sat [] p j live = omega arith
init_pending-tally n g linked sat (i ∷ is) p j live = ground (
  arith,
  init_pending-tally n g linked sat is (if sat i then p else raise_pending sat (g i).dependents p) j
      live,
  raise_pending-count sat (g i).dependents p j live,
  linked.mirror i j,
)

pub init_pending-count_where :
    (n : ℕ) (g : OpGraph) (linked : IsLinked n g) (sat : ℕ → Bool) (j : ℕ)
    → sat j ≡ false
    → ((x : ℕ) → contains (g j).deps x ≡ true → x < n)
    → init_pending g sat (range n) (λ i. 0) j ≡ count_where (λ i. not (sat i)) (g j).deps
init_pending-count_where n g linked sat j live b = omega (
  arith,
  init_pending-tally n g linked sat (range n) (λ i. 0) j live,
  tally-range sat n (g j).deps b,
)
