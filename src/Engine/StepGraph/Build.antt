-- ===== src/Engine/StepGraph/Build.antt =====
-- `buildStepGraph`: why there is an edge, and an induction over the edges that it adds.
use scampi.Base.{
  ℕ, suc, ◌<◌, ◌≡◌, ◌≢◌, refl, ◌⊎◌, inl, inr, true, false, Option, none, some, List, [], ◌∷◌, ◌++◌,
  arith, ◌==◌, get_elem?, elem, lookup, insert, lookup-insert, has_prefix, Bool-cases, IsSuffix,
  IsSuffix-whole, IsSuffix-head, IsSuffix-tail,
}
use scampi.Spec.Resource.{
  Resource, path, kind_beq, kind_beq_iff, resource_eq, resource_beq, resource_beq_iff,
}
use scampi.Spec.Execution.{Step}
use scampi.Engine.StepGraph.{
  Graph, Producers, Order, has_resources, add_edge, note_provides, index_producers, wire_require,
  wire_requires, is_parent, wire_parent, wire_parents, wire,
}

module _ (steps : List Step) where
  -- The step at `i` provides `r`.
  abbrev pub Provides : ℕ → Resource → Type 0
  Provides i r = (a : Step) × (get_elem? steps i ≡ some a) × (elem a.provides r ≡ true)

  abbrev pub Requires : ℕ → Resource → Type 0
  Requires i r = (a : Step) × (get_elem? steps i ≡ some a) × (elem a.requires r ≡ true)

  -- The step at `i` declares no resource.
  abbrev pub IsBarrier : ℕ → Type 0
  IsBarrier i = (a : Step) × (get_elem? steps i ≡ some a) × (has_resources a ≡ false)

  abbrev pub IsStep : ℕ → Type 0
  IsStep i = (a : Step) × (get_elem? steps i ≡ some a)

  -- `r` is a directory above `out`.
  abbrev pub IsAbove : Resource → Resource → Type 0
  IsAbove r out =
      (r.kind ≡ path) × (out.kind ≡ path) × (has_prefix out.name (r.name ++ b'/' ∷ []) ≡ true)

  -- Why the step at `j` waits for the step at `i`.
  pub data Cause (i j : ℕ) : Type 0 where
    requirement : (r : Resource) → Provides i r → Requires j r → i ≢ j → Cause i j
    parent : (r out : Resource) → Provides i r → Provides j out → IsAbove r out → i ≢ j → Cause i j
    barrier : i < j → IsStep j → IsBarrier i ⊎ IsBarrier j → Cause i j

  -- The map names providers only.
  abbrev pub IsIndex : Producers → Type 0
  IsIndex m = (r : Resource) (p : ℕ) → lookup r m ≡ some p → Provides p r

  note_provides-IsIndex :
      (n : ℕ) (s : Step) (rs : List Resource) (m : Producers)
      → get_elem? steps n ≡ some s
      → ((r : Resource) → elem rs r ≡ true → elem s.provides r ≡ true)
      → IsIndex m
      → IsIndex (note_provides n rs m)
  note_provides-IsIndex n s [] m at sub v = v
  note_provides-IsIndex n s (q ∷ rs) m at sub v =
      note_provides-IsIndex n s rs (insert q n m) at (λ r e. sub r (ground arith))
        λ r p e. elim (Bool-cases (resource_beq q r)) [
          | inl same ↦
              let there : elem s.provides r ≡ true = sub r (ground arith) in
              let now : n ≡ p = ground (arith, lookup-insert q r n m) in (s, ground arith, there)
          | inr other ↦ v r p (ground (arith, lookup-insert q r n m))
        ]

  pub index_producers-IsIndex :
      (i : ℕ) (ss : List Step) (m : Producers)
      → IsSuffix steps i ss
      → IsIndex m
      → IsIndex (index_producers i ss m)
  unfolding index_producers
  index_producers-IsIndex i [] m at v = v
  index_producers-IsIndex i (s ∷ ss) m at v =
      index_producers-IsIndex (suc i) ss (note_provides i s.provides m)
        (IsSuffix-tail steps i s ss at)
        (note_provides-IsIndex i s s.provides m (IsSuffix-head steps i s ss at) (λ r e. e) v)

  -- The producers that the loops of this run read.
  abbrev pub producers : Producers
  producers = index_producers 0 steps []

  pub producers-IsIndex : IsIndex producers
  producers-IsIndex = index_producers-IsIndex 0 steps [] (IsSuffix-whole steps) (λ r p e. cc)

  -- A `range` over the map visits its entries, and all of them.
  abbrev pub IsRange : List (Resource × ℕ) → Type 0
  IsRange xs =
      ((k : ℕ) (r : Resource) (p : ℕ) → get_elem? xs k ≡ some (r, p) → lookup r producers ≡ some p)
      × ((r : Resource) (p : ℕ)
          → lookup r producers ≡ some p
          → (k : ℕ) × (get_elem? xs k ≡ some (r, p)))

-- What `addEdge` keeps, for an edge with a cause, holds of the whole graph.
module _ {ℓ} (steps : List Step) (order : Order)
    (ranges : (n : ℕ) (out : Resource) → IsRange steps (order n out)) (P : Graph → Type ℓ)
    (keep : (i j : ℕ) (g : Graph) → Cause steps i j → P g → P (add_edge i j g)) where
  wire_requires-keep :
      (n : ℕ) (s : Step) (rs : List Resource) (g : Graph)
      → get_elem? steps n ≡ some s
      → ((r : Resource) → elem rs r ≡ true → elem s.requires r ≡ true)
      → P g
      → P (wire_requires n (producers steps) rs g)
  wire_requires-keep n s [] g at sub h = h
  wire_requires-keep n s (r ∷ rs) g at sub h =
      wire_requires-keep n s rs _ at (λ q e. sub q (ground arith))
        (edge (lookup r (producers steps)) refl)
    where
      edge : (o : Option ℕ) → lookup r (producers steps) ≡ o → P (wire_require n o g)
      edge none e = h
      edge (some p) e = elim (Bool-cases (p == n)) [
        | inl same ↦ rw same h
        | inr other ↦ rw other (
            keep p n g
              (requirement r (producers-IsIndex steps r p e)
                (s, at, sub r (ground (arith, resource_beq_iff r r))) (ground arith))
              h)
      ]

  wire_parent-keep :
      (n : ℕ) (s : Step) (out : Resource) (xs : List (Resource × ℕ)) (g : Graph)
      → get_elem? steps n ≡ some s
      → elem s.provides out ≡ true
      → out.kind ≡ path
      → ((k : ℕ) (r : Resource) (p : ℕ)
          → get_elem? xs k ≡ some (r, p)
          → lookup r (producers steps) ≡ some p)
      → P g
      → P (wire_parent n out xs g)
  wire_parent-keep n s out [] g at mem kind only h = h
  wire_parent-keep n s out ((r, p) ∷ xs) g at mem kind only h =
      wire_parent-keep n s out xs _ at mem kind (λ k. only (suc k))
        (elim (Bool-cases (is_parent n out (r, p))) [
          | inl e ↦ rw e (
              keep p n g
                (parent r out (producers-IsIndex steps r p (only 0 r p refl)) (s, at, mem)
                  (ground (arith, kind_beq_iff r.kind path), kind, ground arith) (ground arith))
                h)
          | inr e ↦ rw e h
        ])

  wire_parents-keep :
      (n : ℕ) (s : Step) (outs : List Resource) (g : Graph)
      → get_elem? steps n ≡ some s
      → ((r : Resource) → elem outs r ≡ true → elem s.provides r ≡ true)
      → P g
      → P (wire_parents order n outs g)
  wire_parents-keep n s [] g at sub h = h
  wire_parents-keep n s (out ∷ outs) g at sub h =
      wire_parents-keep n s outs _ at (λ q e. sub q (ground arith))
        (elim (Bool-cases (kind_beq out.kind path)) [
          | inl e ↦ rw e (
              wire_parent-keep n s out (order n out) g at
                (sub out (ground (arith, resource_beq_iff out out)))
                ((kind_beq_iff out.kind path).0 e) (ranges n out).0 h)
          | inr e ↦ rw e h
        ])

  pub wire-keep :
      (i : ℕ) (ss : List Step) (g : Graph)
      → IsSuffix steps i ss
      → P g
      → P (wire (producers steps) order i ss g)
  unfolding wire
  wire-keep i [] g at h = h
  wire-keep i (s ∷ ss) g at h =
      let here = IsSuffix-head steps i s ss at in
      wire-keep (suc i) ss _ (IsSuffix-tail steps i s ss at) (
        wire_parents-keep i s s.provides _ here (λ r e. e)
          (wire_requires-keep i s s.requires g here (λ r e. e) h))
