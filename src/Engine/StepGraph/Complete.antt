-- ===== src/Engine/StepGraph/Complete.antt =====
-- `buildStepGraph` leaves no edge out: the loops over requirements and parent directories.
use scampi.Base.{
  ℕ, zero, suc, ◌+◌, ◌≡◌, ◌≢◌, ◌⊎◌, inl, inr, true, false, Option, none, some, List, [], ◌∷◌, arith,
  get_elem?, elem, lookup, insert, lookup-insert, Bool-cases,
}
use scampi.Spec.Resource.{Resource, path, kind_beq, resource_eq, resource_beq, resource_beq_iff}
use scampi.Spec.Execution.{Step}
use scampi.Engine.StepGraph.{
  Graph, Producers, Order, add_edge, note_provides, index_producers, wire_require, wire_requires,
  is_parent, wire_parent, wire_parents, wire,
}
use scampi.Engine.StepGraph.Edges.{is_edge, is_edge-add_edge}
use scampi.Engine.StepGraph.Fences.{IsSubgraph}
use scampi.Engine.StepGraph.Build.{Provides, producers}

-- Every provided resource is in the map.
abbrev pub IsListed : Resource → Producers → Type 0
IsListed r m = (p : ℕ) × (lookup r m ≡ some p)

insert-IsListed :
    (n : ℕ) (q r : Resource) (m : Producers)
    → (resource_beq q r ≡ true) ⊎ IsListed r m
    → IsListed r (insert q n m)
insert-IsListed n q r m h = elim (Bool-cases (resource_beq q r)) [
  | inl e ↦ (n, ground (arith, lookup-insert q r n m))
  | inr e ↦ elim h [ inl e' ↦ cc | inr (p, at) ↦ (p, ground (arith, lookup-insert q r n m)) ]
]

note_provides-IsListed :
    (n : ℕ) (r : Resource) (rs : List Resource) (m : Producers)
    → (elem rs r ≡ true) ⊎ IsListed r m
    → IsListed r (note_provides n rs m)
note_provides-IsListed n r [] m (inl e) = cc
note_provides-IsListed n r [] m (inr h) = h
note_provides-IsListed n r (q ∷ rs) m h =
    note_provides-IsListed n r rs (insert q n m) (elim (Bool-cases (elem rs r)) [
      | inl e ↦ inl e
      | inr e ↦ inr (insert-IsListed n q r m (earlier e h))
    ])
  where
    earlier :
        elem rs r ≡ false
        → (elem (q ∷ rs) r ≡ true) ⊎ IsListed r m
        → (resource_beq q r ≡ true) ⊎ IsListed r m
    earlier no_r (inl e) = inl (ground arith)
    earlier no_r (inr l) = inr l

index_producers-IsListed :
    (r : Resource) (i k : ℕ) (ss : List Step) (m : Producers)
    → ((a : Step) × (get_elem? ss k ≡ some a) × (elem a.provides r ≡ true)) ⊎ IsListed r m
    → IsListed r (index_producers i ss m)
unfolding index_producers
index_producers-IsListed r i k [] m (inl (a, at, e)) = cc
index_producers-IsListed r i k [] m (inr l) = l
index_producers-IsListed r i zero (s ∷ ss) m (inl (a, at, e)) =
    index_producers-IsListed r (suc i) zero ss (note_provides i s.provides m)
      (inr (note_provides-IsListed i r s.provides m (inl (ground arith))))
index_producers-IsListed r i (suc k) (s ∷ ss) m (inl (a, at, e)) =
    index_producers-IsListed r (suc i) k ss (note_provides i s.provides m) (inl (a, at, e))
index_producers-IsListed r i k (s ∷ ss) m (inr l) =
    index_producers-IsListed r (suc i) k ss (note_provides i s.provides m)
      (inr (note_provides-IsListed i r s.provides m (inr l)))

pub producers-IsListed :
    (steps : List Step) (i : ℕ) (r : Resource) → Provides steps i r → IsListed r (producers steps)
producers-IsListed steps i r h = index_producers-IsListed r 0 i steps [] (inl h)

-- No loop takes an edge away.
add_edge_mono : (from to : ℕ) (g : Graph) → IsSubgraph g (add_edge from to g)
add_edge_mono from to g i j e = ground (arith, is_edge-add_edge from to g i j)

wire_require_mono : (n : ℕ) (o : Option ℕ) (g : Graph) → IsSubgraph g (wire_require n o g)
wire_require_mono n none g i j e = e
wire_require_mono n (some p) g i j e = ground (arith, add_edge_mono p n g i j)

wire_requires_mono :
    (n : ℕ) (m : Producers) (rs : List Resource) (g : Graph) → IsSubgraph g (wire_requires n m rs g)
wire_requires_mono n m [] g i j e = e
wire_requires_mono n m (r ∷ rs) g i j e =
    wire_requires_mono n m rs _ i j (wire_require_mono n (lookup r m) g i j e)

wire_parent_mono :
    (n : ℕ) (out : Resource) (xs : List (Resource × ℕ)) (g : Graph)
    → IsSubgraph g (wire_parent n out xs g)
wire_parent_mono n out [] g i j e = e
wire_parent_mono n out ((r, p) ∷ xs) g i j e =
    wire_parent_mono n out xs _ i j (ground (arith, add_edge_mono p n g i j))

wire_parents_mono :
    (order : Order) (n : ℕ) (outs : List Resource) (g : Graph)
    → IsSubgraph g (wire_parents order n outs g)
wire_parents_mono order n [] g i j e = e
wire_parents_mono order n (out ∷ outs) g i j e =
    wire_parents_mono order n outs _ i j
      (ground (arith, wire_parent_mono n out (order n out) g i j))

wire_mono :
    (m : Producers) (order : Order) (k : ℕ) (ss : List Step) (g : Graph)
    → IsSubgraph g (wire m order k ss g)
unfolding wire
wire_mono m order k [] g i j e = e
wire_mono m order k (s ∷ ss) g i j e =
    wire_mono m order (suc k) ss _ i j
      (wire_parents_mono order k s.provides _ i j (wire_requires_mono k m s.requires g i j e))

wire_requires-edge :
    (n : ℕ) (m : Producers) (rs : List Resource) (g : Graph) (r : Resource) (p : ℕ)
    → elem rs r ≡ true
    → lookup r m ≡ some p
    → p ≢ n
    → is_edge (wire_requires n m rs g) p n ≡ true
wire_requires-edge n m [] g r p e at ne = cc
wire_requires-edge n m (q ∷ rs) g r p e at ne = elim (Bool-cases (resource_beq q r)) [
  | inl same ↦
      let q_r : q ≡ r = (resource_beq_iff q r).0 same in
      wire_requires_mono n m rs _ p n (rw (q_r, at) (ground (arith, is_edge-add_edge p n g p n)))
  | inr other ↦ wire_requires-edge n m rs _ r p (ground arith) at ne
]

wire_parent-edge :
    (n : ℕ) (out : Resource) (xs : List (Resource × ℕ)) (g : Graph) (r : Resource) (p k : ℕ)
    → get_elem? xs k ≡ some (r, p)
    → is_parent n out (r, p) ≡ true
    → is_edge (wire_parent n out xs g) p n ≡ true
wire_parent-edge n out [] g r p k at e = cc
wire_parent-edge n out ((q, o) ∷ xs) g r p zero at e =
    wire_parent_mono n out xs _ p n (ground (arith, is_edge-add_edge p n g p n))
wire_parent-edge n out ((q, o) ∷ xs) g r p (suc k) at e = wire_parent-edge n out xs _ r p k at e

wire_parents-edge :
    (order : Order) (n : ℕ) (outs : List Resource) (g : Graph) (r out : Resource) (p k : ℕ)
    → elem outs out ≡ true
    → kind_beq out.kind path ≡ true
    → get_elem? (order n out) k ≡ some (r, p)
    → is_parent n out (r, p) ≡ true
    → is_edge (wire_parents order n outs g) p n ≡ true
wire_parents-edge order n [] g r out p k e kind at par = cc
wire_parents-edge order n (q ∷ outs) g r out p k e kind at par =
    elim (Bool-cases (resource_beq q out)) [
      | inl same ↦
          let q_out : q ≡ out = (resource_beq_iff q out).0 same in
          wire_parents_mono order n outs _ p n
            (rw (q_out, kind) (wire_parent-edge n out (order n out) g r p k at par))
      | inr other ↦ wire_parents-edge order n outs _ r out p k (ground arith) kind at par
    ]

-- The edges that the loop owes: one for a requirement, one for a parent directory.
module _ (m : Producers) (order : Order) (j : ℕ) (r : Resource) (p : ℕ) (ne : p ≢ j) where
  pub wire-requirement :
      (i k : ℕ) (ss : List Step) (g : Graph) (b : Step)
      → k + i ≡ j
      → get_elem? ss k ≡ some b
      → elem b.requires r ≡ true
      → lookup r m ≡ some p
      → is_edge (wire m order i ss g) p j ≡ true
  unfolding wire
  wire-requirement i k [] g b at_j at e l = cc
  wire-requirement i zero (s ∷ ss) g b at_j at e l =
      let same : i ≡ j = omega arith in
      wire_mono m order (suc i) ss _ p j (
        wire_parents_mono order i s.provides _ p j
          (rw same (wire_requires-edge j m s.requires g r p (ground arith) l ne)))
  wire-requirement i (suc k) (s ∷ ss) g b at_j at e l =
      wire-requirement (suc i) k ss _ b (omega arith) at e l

  pub wire-parent :
      (i k : ℕ) (ss : List Step) (g : Graph) (b : Step) (out : Resource) (v : ℕ)
      → k + i ≡ j
      → get_elem? ss k ≡ some b
      → elem b.provides out ≡ true
      → kind_beq out.kind path ≡ true
      → get_elem? (order j out) v ≡ some (r, p)
      → is_parent j out (r, p) ≡ true
      → is_edge (wire m order i ss g) p j ≡ true
  unfolding wire
  wire-parent i k [] g b out v at_j at e kind l par = cc
  wire-parent i zero (s ∷ ss) g b out v at_j at e kind l par =
      let same : i ≡ j = omega arith in
      wire_mono m order (suc i) ss _ p j
        (rw same (wire_parents-edge order j s.provides _ r out p v (ground arith) kind l par))
  wire-parent i (suc k) (s ∷ ss) g b out v at_j at e kind l par =
      wire-parent (suc i) k ss _ b out v (omega arith) at e kind l par
