-- ===== src/Engine/OpGraph/Resolve.antt =====
-- The dependencies in the heap are those that the ops declare.
use scampi.Base.{
  ℕ, zero, suc, ◌+◌, ◌<◌, ◌≡◌, inl, inr, ◌||◌, some, List, [], ◌∷◌, arith, ◌==◌, if◌then◌else◌,
  contains, contains-append, get_elem?, lookup, insert, lookup-insert, nat_eq, Bool-cases,
  Option-cases, IsSuffix, IsSuffix-whole, IsSuffix-head, IsSuffix-tail,
}
use scampi.Spec.Execution.{Op}
use scampi.Engine.OpGraph.{
  OpGraph, ok, >>=-eq-ok, ByOp, fresh, link_dep, wire_deps, wire_ops, index_ops,
}

module _ (ops : List Op) where
  -- The map holds indices of ops, under their pointers.
  abbrev pub IsSound : ByOp → Type 0
  IsSound m = (p i : ℕ) → lookup p m ≡ some i → (o : Op) × (get_elem? ops i ≡ some o) × (o.id ≡ p)

  index_ops-IsSound :
      (i : ℕ) (os : List Op) (m m' : ByOp)
      → IsSuffix ops i os
      → IsSound m
      → index_ops i os m ≡ ok m'
      → IsSound m'
  unfolding index_ops
  index_ops-IsSound i [] m m' at v e = let same : m ≡ m' = ground arith in rw (← same) v
  index_ops-IsSound i (o ∷ os) m m' at v e = elim (Option-cases (lookup o.id m)) [
    | inl new ↦
        index_ops-IsSound (suc i) os (insert o.id i m) m' (IsSuffix-tail ops i o os at)
          (λ p j l. elim (Bool-cases (o.id == p)) [
            | inl same ↦
                let now : i ≡ j = ground (arith, lookup-insert o.id p i m) in
                rw (← now) (o, IsSuffix-head ops i o os at, ground arith)
            | inr other ↦ v p j (ground (arith, lookup-insert o.id p i m))
          ])
          (ground arith)
    | inr (k, found) ↦ absurd (ground arith)
  ]

index_ops-kept :
    (i : ℕ) (os : List Op) (m m' : ByOp) (p j : ℕ)
    → index_ops i os m ≡ ok m'
    → lookup p m ≡ some j
    → lookup p m' ≡ some j
unfolding index_ops
index_ops-kept i [] m m' p j e l = ground arith
index_ops-kept i (o ∷ os) m m' p j e l = elim (Option-cases (lookup o.id m)) [
  | inl new ↦
      index_ops-kept (suc i) os (insert o.id i m) m' p j (ground arith)
        (ground (arith, lookup-insert o.id p i m))
  | inr (k, found) ↦ absurd (ground arith)
]

-- Every op is found under its pointer.
index_ops-lookup :
    (i k : ℕ) (os : List Op) (m m' : ByOp) (o : Op)
    → index_ops i os m ≡ ok m'
    → get_elem? os k ≡ some o
    → lookup o.id m' ≡ some (k + i)
unfolding index_ops
index_ops-lookup i k [] m m' o e at = cc
index_ops-lookup i zero (q ∷ os) m m' o e at = elim (Option-cases (lookup q.id m)) [
  | inl new ↦
      let same : q ≡ o = ground arith in
      let here : 0 + i ≡ i = omega arith in
      rw (here, ← same)
        (index_ops-kept (suc i) os (insert q.id i m) m' q.id i (ground arith)
          (ground (arith, lookup-insert q.id q.id i m)))
  | inr (k, found) ↦ absurd (ground arith)
]
index_ops-lookup i (suc k) (q ∷ os) m m' o e at = elim (Option-cases (lookup q.id m)) [
  | inl new ↦
      let there : suc k + i ≡ k + suc i = omega arith in
      rw there (index_ops-lookup (suc i) k os (insert q.id i m) m' o (ground arith) at)
  | inr (k', found) ↦ absurd (ground arith)
]

module _ (m : ByOp) (d q : ℕ) (found : lookup q m ≡ some d)
    (only : (p : ℕ) → lookup p m ≡ some d → p ≡ q) where
  wire_deps-deps :
      (p n : ℕ) (ds : List ℕ) (g h : OpGraph) (j : ℕ)
      → wire_deps m p n ds g ≡ ok h
      → contains (h j).deps d
        ≡ (if n == j then contains (g j).deps d || contains ds q else contains (g j).deps d)
  unfolding wire_deps
  wire_deps-deps p n [] g h j e = ground arith
  wire_deps-deps p n (dep ∷ ds) g h j e = elim (Option-cases (lookup dep m)) [
    | inl missing ↦ absurd (ground arith)
    | inr (k, at) ↦ ground (
      arith,
      wire_deps-deps p n ds (link_dep n k g) h j,
      contains-append (g n).deps (k ∷ []) d,
      only dep,
    )
  ]

  -- Ops further down do not touch the node of an op above them.
  wire_ops-skip :
      (i : ℕ) (os : List Op) (g h : OpGraph) (j : ℕ)
      → j < i
      → wire_ops m i os g ≡ ok h
      → contains (h j).deps d ≡ contains (g j).deps d
  unfolding wire_ops
  wire_ops-skip i [] g h j lt e = ground arith
  wire_ops-skip i (x ∷ os) g h j lt e =
      let (g', first, rest) = >>=-eq-ok (wire_deps m x.id i x.depends_on g) _ e in
      ground
        (arith, wire_ops-skip (suc i) os g' h j, wire_deps-deps x.id i x.depends_on g g' j first)

  wire_ops-deps :
      (i k : ℕ) (os : List Op) (g h : OpGraph) (o : Op) (j : ℕ)
      → wire_ops m i os g ≡ ok h
      → get_elem? os k ≡ some o
      → k + i ≡ j
      → contains (h j).deps d ≡ (contains (g j).deps d || contains o.depends_on q)
  unfolding wire_ops
  wire_ops-deps i k [] g h o j e at is = cc
  wire_ops-deps i zero (x ∷ os) g h o j e at is =
      let (g', first, rest) = >>=-eq-ok (wire_deps m x.id i x.depends_on g) _ e in
      let later = wire_ops-skip (suc i) os g' h j (omega arith) rest in
      ground (arith, later, wire_deps-deps x.id i x.depends_on g g' j first)
  wire_ops-deps i (suc k) (x ∷ os) g h o j e at is =
      let (g', first, rest) = >>=-eq-ok (wire_deps m x.id i x.depends_on g) _ e in
      ground (
        arith,
        wire_ops-deps (suc i) k os g' h o j rest at,
        wire_deps-deps x.id i x.depends_on g g' j first,
      )

-- An op waits for another exactly when it declares it.
pub wired-deps :
    (ops : List Op) (m : ByOp) (g : OpGraph) (j d : ℕ) (o q : Op)
    → index_ops 0 ops [] ≡ ok m
    → wire_ops m 0 ops fresh ≡ ok g
    → get_elem? ops j ≡ some o
    → get_elem? ops d ≡ some q
    → contains (g j).deps d ≡ contains o.depends_on q.id
wired-deps ops m g j d o q e f at_j at_d =
    wire_ops-deps m d q.id found only 0 j ops fresh g o j f at_j (omega arith)
  where
    found : lookup q.id m ≡ some d
    found =
        let same : d + 0 ≡ d = omega arith in rw same at (index_ops-lookup 0 d ops [] m q e at_d)

    only : (p : ℕ) → lookup p m ≡ some d → p ≡ q.id
    only p l =
        let (o', at, is) =
          index_ops-IsSound ops 0 ops [] m (IsSuffix-whole ops) (λ p i h. cc) e p d l in
        ground arith
