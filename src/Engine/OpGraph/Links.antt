-- ===== src/Engine/OpGraph/Links.antt =====
-- The two sides of the op graph agree, and the indegree is the number of dependencies.
use scampi.Base.{
  ℕ, suc, ◌+◌, ◌<◌, ◌≡◌, refl, inl, inr, some, List, [], ◌∷◌, arith, length, length-append, count,
  count-append, lookup, insert, lookup-insert, nat_eq, Option-cases,
}
use scampi.Spec.Execution.{Op}
use scampi.Engine.OpGraph.{
  OpGraph, fresh, ok, ByOp, link_dep, wire_deps, wire_ops, index_ops, >>=-eq-ok,
}

pub record IsLinked (n : ℕ) (g : OpGraph) : Type 0 where
  pub mirror : (i j : ℕ) → count j (g i).dependents ≡ count i (g j).deps
  pub counted : (j : ℕ) → (g j).indegree ≡ length (g j).deps
  -- Every entry is the index of an op.
  pub inside : (i j : ℕ) → 0 < count i (g j).deps → (i < n) × (j < n)

pub fresh-IsLinked : (n : ℕ) → IsLinked n fresh
fresh-IsLinked n = record {
  mirror = λ i j. refl;
  counted = λ j. refl;
  inside = λ i j h. absurd (omega arith);
}

link_dep-IsLinked :
    (m n d : ℕ) (g : OpGraph) → n < m → d < m → IsLinked m g → IsLinked m (link_dep n d g)
link_dep-IsLinked m n d g b c v = record {
  mirror = λ i j. ground (
    arith,
    v.mirror i j,
    count-append i (g n).deps (d ∷ []),
    count-append j (g i).dependents (n ∷ []),
  );
  counted = λ j. ground (arith, v.counted j, length-append (g n).deps (d ∷ []));
  inside = λ i j h. ground (arith, v.inside i j, count-append i (g n).deps (d ∷ []));
}

-- The index finds ops of the plan only.
abbrev pub IsIndex : ℕ → ByOp → Type 0
IsIndex n m = (p i : ℕ) → lookup p m ≡ some i → i < n

wire_deps-IsLinked :
    (k : ℕ) (m : ByOp) (p n : ℕ) (ds : List ℕ) (g h : OpGraph)
    → IsIndex k m
    → n < k
    → IsLinked k g
    → wire_deps m p n ds g ≡ ok h
    → IsLinked k h
unfolding wire_deps
wire_deps-IsLinked k m p n [] g h ix b v e = ground arith
wire_deps-IsLinked k m p n (dep ∷ ds) g h ix b v e = elim (Option-cases (lookup dep m)) [
  | inl none_found ↦ absurd (ground arith)
  | inr (d, found) ↦
      wire_deps-IsLinked k m p n ds (link_dep n d g) h ix b
        (link_dep-IsLinked k n d g b (ix dep d found) v) (ground arith)
]

insert-IsIndex : (n p i : ℕ) (m : ByOp) → i < n → IsIndex n m → IsIndex n (insert p i m)
insert-IsIndex n p i m b v q j e = ground (arith, lookup-insert p q i m, v q j)

index_ops-IsIndex :
    (n i : ℕ) (os : List Op) (m m' : ByOp)
    → i + length os ≡ n
    → IsIndex n m
    → index_ops i os m ≡ ok m'
    → IsIndex n m'
unfolding index_ops
index_ops-IsIndex n i [] m m' size v e = let same : m ≡ m' = ground arith in rw (← same) v
index_ops-IsIndex n i (o ∷ os) m m' size v e = elim (Option-cases (lookup o.id m)) [
  | inl new ↦
      index_ops-IsIndex n (suc i) os (insert o.id i m) m' (omega arith)
        (insert-IsIndex n o.id i m (omega arith) v) (ground arith)
  | inr (k, found) ↦ absurd (ground arith)
]

wire_ops-IsLinked :
    (n : ℕ) (m : ByOp) (i : ℕ) (os : List Op) (g h : OpGraph)
    → i + length os ≡ n
    → IsIndex n m
    → IsLinked n g
    → wire_ops m i os g ≡ ok h
    → IsLinked n h
unfolding wire_ops
wire_ops-IsLinked n m i [] g h size ix v e = let same : g ≡ h = ground arith in rw (← same) v
wire_ops-IsLinked n m i (o ∷ os) g h size ix v e =
    let (g', first, rest) = >>=-eq-ok (wire_deps m o.id i o.depends_on g) _ e in
    wire_ops-IsLinked n m (suc i) os g' h (omega arith) ix
      (wire_deps-IsLinked n m o.id i o.depends_on g g' ix (omega arith) v first) rest

-- What the loops of `buildPlan` before its check leave behind.
pub wired-IsLinked :
    (ops : List Op) (m : ByOp) (g : OpGraph)
    → index_ops 0 ops [] ≡ ok m
    → wire_ops m 0 ops fresh ≡ ok g
    → IsLinked (length ops) g
wired-IsLinked ops m g e f =
    wire_ops-IsLinked (length ops) m 0 ops fresh g (omega arith)
      (index_ops-IsIndex (length ops) 0 ops [] m (omega arith) (λ p i e'. cc) e)
      (fresh-IsLinked (length ops)) f
