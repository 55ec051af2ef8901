-- ===== src/Engine/Planning/Kept.antt =====
-- internal/engine/cycles.go: `dedupCycles` keeps one cycle of those that are rotations of each other.
use mathlib.Core.Option.{some-injective}
use scampi.Base.{
  ℕ, zero, suc, ◌≡◌, refl, sym, ap, subst, ◌∙◌, inl, inr, true, false, none, some, List, [], ◌∷◌,
  ◌++◌, arith, elem, Bytes, bytes_eq, bytes_beq, bytes_beq_iff, Bool-cases, All, contains, range,
  Option-cases, get_elem?, All-get_elem?,
}
use scampi.Engine.Planning.{rotation_key, dedup, dedup_cycles, dedup_found, detect_step_cycles}
use scampi.Engine.Planning.Dedup.{keys, AreDistinct, dedup_old, dedup_new, dedup_cycles-AreDistinct}
use scampi.Engine.Cycles.{detect_cycles}
use scampi.Engine.Cycles.Sound.{IsCycle, detect_cycles-IsCycle}
use scampi.Engine.Cycles.Simple.{close, IsSimple, detect_cycles-IsSimple}
use scampi.Engine.StepGraph.{Graph}
use scampi.Engine.Planning.Keys.{body, rotation_key→Rotates, Rotates→rotation_key}
use scampi.Engine.Planning.Rotations.{Rotates}

-- The cycles are rotations of each other.
abbrev pub AreRotations : List ℕ → List ℕ → Type 0
AreRotations c d = Rotates (body c) (body d)

body-append : (x : ℕ) (xs : List ℕ) → body (xs ++ x ∷ []) ≡ xs
body-append x [] = refl
body-append x (y ∷ []) = refl
body-append x (y ∷ z ∷ xs) = ap (λ l. y ∷ l) (body-append x (z ∷ xs))

body-close : (x : ℕ) (xs : List ℕ) → body (close (x ∷ xs)) ≡ x ∷ xs
body-close x xs = body-append x (x ∷ xs)

-- One more entry before both lists.
behind :
    (d c : List ℕ) (cs kept : List (List ℕ))
    → ((i : ℕ) → get_elem? kept i ≡ some c → (j : ℕ) × (get_elem? cs j ≡ some c))
    → (i : ℕ) → get_elem? (d ∷ kept) i ≡ some c
    → (j : ℕ) × (get_elem? (d ∷ cs) j ≡ some c)
behind d c cs kept given zero h = (0, h)
behind d c cs kept given (suc i) h = let (j, at) = given i h in (suc j, at)

dedup-elem :
    (key : ℕ → Bytes) (seen : List Bytes) (cs : List (List ℕ)) (i : ℕ) (c : List ℕ)
    → get_elem? (dedup key seen cs) i ≡ some c
    → (j : ℕ) × (get_elem? cs j ≡ some c)
unfolding dedup
dedup-elem key seen [] i c h = cc
dedup-elem key seen (d ∷ cs) i c h = elim (Bool-cases (elem seen (rotation_key key d))) [
  | inl e ↦
      let (j, at) =
        dedup-elem key seen cs i c
          (ap (λ l. get_elem? l i) (sym (dedup_old key seen d cs e)) ∙ h) in
      (suc j, at)
  | inr e ↦
      behind d c cs (dedup key (seen ++ rotation_key key d ∷ []) cs)
        (λ i. dedup-elem key (seen ++ rotation_key key d ∷ []) cs i c) i
        (ap (λ l. get_elem? l i) (sym (dedup_new key seen d cs e)) ∙ h)
]

get_elem?-keys :
    (key : ℕ → Bytes) (cs : List (List ℕ)) (i : ℕ) (c : List ℕ)
    → get_elem? cs i ≡ some c
    → get_elem? (keys key cs) i ≡ some (rotation_key key c)
get_elem?-keys key [] i c h = cc
get_elem?-keys key (d ∷ cs) zero c h = ap (λ l. some (rotation_key key l)) (some-injective _ _ h)
get_elem?-keys key (d ∷ cs) (suc i) c h = get_elem?-keys key cs i c h

get_elem?-elem : (ks : List Bytes) (i : ℕ) (k : Bytes) → get_elem? ks i ≡ some k → elem ks k ≡ true
get_elem?-elem [] i k h = cc
get_elem?-elem (x ∷ ks) zero k h = ground (arith, bytes_beq_iff x k, some-injective _ _ h)
get_elem?-elem (x ∷ ks) (suc i) k h = ground (arith, get_elem?-elem ks i k h)

keys-elem :
    (key : ℕ → Bytes) (cs : List (List ℕ)) (k : Bytes)
    → elem (keys key cs) k ≡ true
    → (i : ℕ) × (c : List ℕ) × (get_elem? cs i ≡ some c) × (rotation_key key c ≡ k)
keys-elem key [] k h = cc
keys-elem key (c ∷ cs) k h = elim (Bool-cases (bytes_beq (rotation_key key c) k)) [
  | inl e ↦ (0, c, refl, (bytes_beq_iff (rotation_key key c) k).0 e)
  | inr e ↦ let (i, d, at, same) = keys-elem key cs k (ground (arith, h, e)) in (suc i, d, at, same)
]

AreDistinct-get_elem? :
    (ks : List Bytes) (i j : ℕ) (k : Bytes)
    → AreDistinct ks
    → get_elem? ks i ≡ some k
    → get_elem? ks j ≡ some k
    → i ≡ j
AreDistinct-get_elem? [] i j k d h g = cc
AreDistinct-get_elem? (x ∷ ks) zero zero k d h g = refl
AreDistinct-get_elem? (x ∷ ks) zero (suc j) k d h g =
    absurd (ground (arith, d.0, get_elem?-elem ks j k g, some-injective _ _ h))
AreDistinct-get_elem? (x ∷ ks) (suc i) zero k d h g =
    absurd (ground (arith, d.0, get_elem?-elem ks i k h, some-injective _ _ g))
AreDistinct-get_elem? (x ∷ ks) (suc i) (suc j) k d h g =
    ap suc (AreDistinct-get_elem? ks i j k d.1 h g)

module _ (key : ℕ → Bytes) (injective : (x y : ℕ) → key x ≡ key y → x ≡ y)
    (plain : (x : ℕ) → contains (key x) b'>' ≡ false) where
  rotation_key→AreRotations :
      (c d : List ℕ)
      → IsSimple c
      → IsSimple d
      → rotation_key key c ≡ rotation_key key d
      → AreRotations c d
  rotation_key→AreRotations c d (x, xs, e, _) (y, ys, f, _) same =
      rw (e, f, body-close x xs, body-close y ys)
        (rotation_key→Rotates key injective plain x y xs ys
          (ap (rotation_key key) (sym e) ∙ same ∙ ap (rotation_key key) f))

  AreRotations→rotation_key :
      (c d : List ℕ)
      → IsSimple c
      → IsSimple d
      → AreRotations c d
      → rotation_key key c ≡ rotation_key key d
  AreRotations→rotation_key c d (x, xs, e, distinct) (y, ys, f, _) turned =
      ap (rotation_key key) e
      ∙ Rotates→rotation_key key injective plain x y xs ys distinct (
          subst (λ l. Rotates l (y ∷ ys)) (ap body e ∙ body-close x xs)
            (subst (λ l. Rotates (body c) l) (ap body f ∙ body-close y ys) turned))
      ∙ ap (rotation_key key) (sym f)

-- Where the key tells nodes apart and has no `>`, and the cycles have no node twice but the one that they begin
-- and end with: each cycle that is kept is one of those given, each one given is a rotation of one that is
-- kept, and no two of those kept are rotations of each other.
pub dedup_cycles-AreRotations :
    (key : ℕ → Bytes) (cycles : List (List ℕ))
    → ((x y : ℕ) → key x ≡ key y → x ≡ y)
    → ((x : ℕ) → contains (key x) b'>' ≡ false)
    → All IsSimple cycles
    → ((i : ℕ) (c : List ℕ)
        → get_elem? (dedup_cycles key cycles) i ≡ some c
        → (j : ℕ) × (get_elem? cycles j ≡ some c))
      × ((i : ℕ) (c : List ℕ)
          → get_elem? cycles i ≡ some c
          → (j : ℕ) × (d : List ℕ) × (get_elem? (dedup_cycles key cycles) j ≡ some d)
            × AreRotations c d)
      × ((i j : ℕ) (c d : List ℕ)
          → get_elem? (dedup_cycles key cycles) i ≡ some c
          → get_elem? (dedup_cycles key cycles) j ≡ some d
          → AreRotations c d
          → i ≡ j)
dedup_cycles-AreRotations key cycles injective plain simple =
    let kept = dedup_cycles key cycles in
    let (distinct, covers) = dedup_cycles-AreDistinct key cycles in
    let given = dedup-elem key [] cycles in
    let all_simple : (i : ℕ) (c : List ℕ) → get_elem? kept i ≡ some c → IsSimple c =
      λ i c at. let (j, from) = given i c at in All-get_elem? IsSimple cycles j c simple from in
    (
      given,
      λ i c at.
          let k = rotation_key key c in
          let (j, d, there, same) =
            keys-elem key kept k (
              covers k (get_elem?-elem (keys key cycles) i k (get_elem?-keys key cycles i c at))) in
          (
            j,
            d,
            there,
            rotation_key→AreRotations key injective plain c d
                (All-get_elem? IsSimple cycles i c simple at) (all_simple j d there) (sym same),
          ),
      λ i j c d at there turned.
          AreDistinct-get_elem? (keys key kept) i j (rotation_key key d) distinct
            (get_elem?-keys key kept i c at
              ∙ ap (λ k. some k)
                  (AreRotations→rotation_key key injective plain c d (all_simple i c at)
                    (all_simple j d there) turned))
            (get_elem?-keys key kept j d there),
    )

none-ne : {c : List (List ℕ)} → none ≡ some c → ⊥
none-ne e = cc

-- Where the key tells nodes apart and has no `>`, and `DetectStepCycles` returns: each cycle that it reports is
-- one that the search found, and a cycle of the step graph along `requires` with no step twice but the one at
-- both ends; each cycle that the search found is a rotation of one that is reported; and no two of
-- those reported are rotations of each other.
pub detect_step_cycles-AreRotations :
    (key : ℕ → Bytes) (g : Graph) (n : ℕ) (cycles : List (List ℕ))
    → ((x y : ℕ) → key x ≡ key y → x ≡ y)
    → ((x : ℕ) → contains (key x) b'>' ≡ false)
    → detect_step_cycles key g n ≡ some cycles
    → (found : List (List ℕ)) × (detect_cycles n (range n) (λ j. (g j).requires) ≡ some found)
      × ((i : ℕ) (c : List ℕ)
          → get_elem? cycles i ≡ some c
          → (j : ℕ) × (get_elem? found j ≡ some c) × IsSimple c × IsCycle (λ j. (g j).requires) c)
      × ((i : ℕ) (c : List ℕ)
          → get_elem? found i ≡ some c
          → (j : ℕ) × (d : List ℕ) × (get_elem? cycles j ≡ some d) × AreRotations c d)
      × ((i j : ℕ) (c d : List ℕ)
          → get_elem? cycles i ≡ some c
          → get_elem? cycles j ≡ some d
          → AreRotations c d
          → i ≡ j)
unfolding detect_step_cycles
detect_step_cycles-AreRotations key g n cycles injective plain e =
    let requires : ℕ → List ℕ = λ j. (g j).requires in
    elim (Option-cases (detect_cycles n (range n) requires)) [
      | inl none_found ↦ absurd (none-ne (sym (ap (dedup_found key) none_found) ∙ e))
      | inr (found, at) ↦
          let same : cycles ≡ dedup_cycles key found =
            some-injective _ _ (sym e ∙ ap (dedup_found key) at) in
          let simple = detect_cycles-IsSimple n (range n) requires found at in
          let sound = detect_cycles-IsCycle n (range n) requires found at in
          let (given, covers, distinct) =
            dedup_cycles-AreRotations key found injective plain simple in
          rw (same) (
            found,
            at,
            λ i c h.
                let (j, from) = given i c h in
                (
                  j,
                  from,
                  All-get_elem? IsSimple found j c simple from,
                  All-get_elem? (IsCycle requires) found j c sound from,
                ),
            covers,
            distinct,
          )
    ]
