-- ===== src/Engine/Deploys/Makers.antt =====
-- The index of producers, and the deps that are wired by it.
use scampi.Base.{
  ℕ, zero, suc, ◌+◌, ◌≤◌, ◌<◌, ◌≡◌, inl, inr, Bool, true, false, ◌&&◌, ◌||◌, none, some, List, [],
  ◌∷◌, ◌++◌, ◌==◌, ltb, length, contains, contains-append, elem, lookup, insert, lookup-insert,
  IsMap, insert-IsMap, arith, Bool-cases,
}
use scampi.Spec.Resource.{Resource, resource_eq, resource_beq_iff}
use scampi.Engine.Deploys.{
  Config, collect_provides, collect_requires, makers_of, note_makers, index_makers, find_clash,
  wire_maker, wire_makers, config_at, deploy_deps,
}

-- Node `i` of those from `n` on provides `r`.
abbrev makes_from : ℕ → List Config → Resource → ℕ → Bool
makes_from n [] r i = false
makes_from n (c ∷ cs) r i = (n == i && elem (collect_provides c) r) || makes_from (suc n) cs r i

note_makers-contains :
    (n : ℕ) (ps : List Resource) (m : List (Resource × List ℕ)) (r : Resource) (i : ℕ)
    → contains (makers_of r (note_makers n ps m)) i
      ≡ (contains (makers_of r m) i || (n == i && elem ps r))
unfolding note_makers
note_makers-contains n [] m r i = ground arith
note_makers-contains n (p ∷ ps) m r i = ground (
  arith,
  note_makers-contains n ps (insert p (makers_of p m ++ n ∷ []) m) r i,
  lookup-insert p r (makers_of p m ++ n ∷ []) m,
  contains-append (makers_of p m) (n ∷ []) i,
  resource_beq_iff p r,
)

index_makers-contains :
    (n : ℕ) (cs : List Config) (m : List (Resource × List ℕ)) (r : Resource) (i : ℕ)
    → contains (makers_of r (index_makers n cs m)) i
      ≡ (contains (makers_of r m) i || makes_from n cs r i)
unfolding index_makers
index_makers-contains n [] m r i = ground arith
index_makers-contains n (c ∷ cs) m r i = ground (
  arith,
  index_makers-contains (suc n) cs (note_makers n (collect_provides c) m) r i,
  note_makers-contains n (collect_provides c) m r i,
)

note_makers-IsMap :
    (n : ℕ) (ps : List Resource) (m : List (Resource × List ℕ))
    → IsMap m
    → IsMap (note_makers n ps m)
unfolding note_makers
note_makers-IsMap n [] m h = h
note_makers-IsMap n (p ∷ ps) m h = note_makers-IsMap n ps _ (insert-IsMap p _ m h)

index_makers-IsMap :
    (n : ℕ) (cs : List Config) (m : List (Resource × List ℕ))
    → IsMap m
    → IsMap (index_makers n cs m)
unfolding index_makers
index_makers-IsMap n [] m h = h
index_makers-IsMap n (c ∷ cs) m h =
    index_makers-IsMap (suc n) cs _ (note_makers-IsMap n (collect_provides c) m h)

find_clash-none :
    (m : List (Resource × List ℕ)) (r : Resource) → find_clash m ≡ none → length (makers_of r m) ≤ 1
unfolding find_clash
find_clash-none [] r h = omega arith
find_clash-none ((q, prods) ∷ m) r h = ground (arith, find_clash-none m r)

find_clash-some :
    (m : List (Resource × List ℕ)) (r : Resource) (prods : List ℕ)
    → IsMap m
    → find_clash m ≡ some (r, prods)
    → (lookup r m ≡ some prods) × (1 < length prods)
unfolding find_clash
find_clash-some [] r prods h e = cc
find_clash-some ((q, ps) ∷ m) r prods h e = elim (Bool-cases (ltb 1 (length ps))) [
  | inl many ↦ ground (arith, resource_beq_iff q r)
  | inr few ↦ ground (arith, resource_beq_iff q r, find_clash-some m r prods h.1)
]

makes_from-config_at :
    (n : ℕ) (cs : List Config) (r : Resource) (i : ℕ)
    → i < length cs
    → elem (collect_provides (config_at cs i)) r ≡ true
    → makes_from n cs r (n + i) ≡ true
makes_from-config_at n [] r i lt h = absurd (omega arith)
makes_from-config_at n (c ∷ cs) r zero lt h = ground arith
makes_from-config_at n (c ∷ cs) r (suc i) lt h =
    ground (arith, makes_from-config_at (suc n) cs r i (omega arith) h)

config_at-makes_from :
    (n : ℕ) (cs : List Config) (r : Resource) (i : ℕ)
    → makes_from n cs r i ≡ true
    → (k : ℕ) × (i ≡ n + k) × (k < length cs) × (elem (collect_provides (config_at cs k)) r ≡ true)
config_at-makes_from n [] r i h = cc
config_at-makes_from n (c ∷ cs) r i h = elim (Bool-cases (n == i && elem (collect_provides c) r)) [
  | inl here ↦ (0, ground arith, omega arith, ground arith)
  | inr not_here ↦
      let (k, at, lt, has) = config_at-makes_from (suc n) cs r i (ground arith) in
      (suc k, omega (arith, at), omega (arith, lt), has)
]

wire_maker-contains : (l : List ℕ) (i : ℕ) → contains (wire_maker l) i ≡ true → contains l i ≡ true
wire_maker-contains [] i h = cc
wire_maker-contains (p ∷ ps) i h = ground arith

wire_maker_only :
    (l : List ℕ) (i : ℕ) → length l ≤ 1 → contains l i ≡ true → contains (wire_maker l) i ≡ true
wire_maker_only [] i few h = cc
wire_maker_only (p ∷ []) i few h = ground arith
wire_maker_only (p ∷ q ∷ ps) i few h = absurd (omega (arith, few))

wire_makers-contains :
    (m : List (Resource × List ℕ)) (rs : List Resource) (i : ℕ)
    → contains (wire_makers m rs) i ≡ true
    → (r : Resource) × (elem rs r ≡ true) × (contains (makers_of r m) i ≡ true)
unfolding wire_makers
wire_makers-contains m [] i h = cc
wire_makers-contains m (r ∷ rs) i h = elim (Bool-cases (contains (wire_maker (makers_of r m)) i)) [
  | inl here ↦ (r, ground (arith, resource_beq_iff r r), wire_maker-contains (makers_of r m) i here)
  | inr not_here ↦
      let (q, there, made) =
        wire_makers-contains m rs i
          (ground (arith, contains-append (wire_maker (makers_of r m)) (wire_makers m rs) i)) in
      (q, ground arith, made)
]

wire_makers-elem :
    (m : List (Resource × List ℕ)) (rs : List Resource) (r : Resource) (i : ℕ)
    → length (makers_of r m) ≤ 1
    → elem rs r ≡ true
    → contains (makers_of r m) i ≡ true
    → contains (wire_makers m rs) i ≡ true
unfolding wire_makers
wire_makers-elem m [] r i few h made = cc
wire_makers-elem m (q ∷ rs) r i few h made = ground (
  arith,
  contains-append (wire_maker (makers_of q m)) (wire_makers m rs) i,
  wire_makers-elem m rs r i few,
  wire_maker_only (makers_of r m) i few made,
  resource_beq_iff q r,
)

-- Block `j` requires something that block `i` provides.
abbrev pub Needs : List Config → ℕ → ℕ → Type 0
Needs cs j i =
    (r : Resource) × (elem (collect_requires (config_at cs j)) r ≡ true)
    × (i < length cs)
    × (elem (collect_provides (config_at cs i)) r ≡ true)

abbrev pub makers : List Config → List (Resource × List ℕ)
makers cs = index_makers 0 cs []

makers-supplies :
    (cs : List Config) (r : Resource) (i : ℕ)
    → contains (makers_of r (makers cs)) i ≡ true
    → (i < length cs) × (elem (collect_provides (config_at cs i)) r ≡ true)
makers-supplies cs r i h =
    let (k, at, lt, has) =
      config_at-makes_from 0 cs r i (ground (arith, index_makers-contains 0 cs [] r i)) in
    let same : i ≡ k = omega (arith, at) in rw same (lt, has)

pub deploy_deps-Needs :
    (cs : List Config) (j i : ℕ) → contains (deploy_deps cs (makers cs) j) i ≡ true → Needs cs j i
unfolding deploy_deps
deploy_deps-Needs cs j i h =
    let (r, asked, made) =
      wire_makers-contains (makers cs) (collect_requires (config_at cs j)) i h in
    let (lt, has) = makers-supplies cs r i made in (r, asked, lt, has)

pub Needs-deploy_deps :
    (cs : List Config) (j i : ℕ)
    → find_clash (makers cs) ≡ none
    → Needs cs j i
    → contains (deploy_deps cs (makers cs) j) i ≡ true
unfolding deploy_deps
Needs-deploy_deps cs j i clean (r, asked, lt, has) =
    wire_makers-elem (makers cs) (collect_requires (config_at cs j)) r i
      (find_clash-none (makers cs) r clean) asked
      (ground (arith, index_makers-contains 0 cs [] r i, makes_from-config_at 0 cs r i lt has))

-- What a resource with several producers means.
pub find_clash-supplies :
    (cs : List Config) (r : Resource) (prods : List ℕ)
    → find_clash (makers cs) ≡ some (r, prods)
    → (1 < length prods)
      × ((i : ℕ)
          → contains prods i ≡ true
          → (i < length cs) × (elem (collect_provides (config_at cs i)) r ≡ true))
find_clash-supplies cs r prods e =
    let (at, many) = find_clash-some (makers cs) r prods (index_makers-IsMap 0 cs [] tt) e in
    (many, λ i h. makers-supplies cs r i (ground (arith, at)))

one_entry :
    (l : List ℕ) (i k : ℕ) → length l ≤ 1 → contains l i ≡ true → contains l k ≡ true → i ≡ k
one_entry [] i k few hi hk = cc
one_entry (p ∷ []) i k few hi hk = ground arith
one_entry (p ∷ q ∷ r) i k few hi hk = absurd (omega (arith, few))

-- Without a clash, a resource has one provider at most.
pub find_clash_unique :
    (cs : List Config) (r : Resource) (i k : ℕ)
    → find_clash (makers cs) ≡ none
    → i < length cs
    → elem (collect_provides (config_at cs i)) r ≡ true
    → k < length cs
    → elem (collect_provides (config_at cs k)) r ≡ true
    → i ≡ k
find_clash_unique cs r i k clean bi hi bk hk =
    one_entry (makers_of r (makers cs)) i k (find_clash-none (makers cs) r clean)
      (ground (arith, index_makers-contains 0 cs [] r i, makes_from-config_at 0 cs r i bi hi))
      (ground (arith, index_makers-contains 0 cs [] r k, makes_from-config_at 0 cs r k bk hk))
