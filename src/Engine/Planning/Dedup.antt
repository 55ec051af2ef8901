-- ===== src/Engine/Planning/Dedup.antt =====
-- `dedupCycles` keeps one cycle for each key.
use scampi.Base.{
  ℕ, ◌≡◌, refl, inl, inr, true, false, ◌||◌, List, [], ◌∷◌, ◌++◌, arith, elem, elem-append,
  beq_refl, Bytes, bytes_eq, Bool-cases,
}
use scampi.Engine.Planning.{rotation_key, dedup, dedup_cycles}

abbrev pub keys : (ℕ → Bytes) → List (List ℕ) → List Bytes
keys key [] = []
keys key (c ∷ cs) = rotation_key key c ∷ keys key cs

-- No key comes twice.
abbrev pub AreDistinct : List Bytes → Type 0
AreDistinct [] = Unit
AreDistinct (k ∷ ks) = (elem ks k ≡ false) × AreDistinct ks

module _ (key : ℕ → Bytes) (seen : List Bytes) (c : List ℕ) (cs : List (List ℕ)) where
  pub dedup_old :
      elem seen (rotation_key key c) ≡ true → dedup key seen (c ∷ cs) ≡ dedup key seen cs
  unfolding dedup
  dedup_old e = ground (arith, e)

  pub dedup_new :
      elem seen (rotation_key key c) ≡ false
      → dedup key seen (c ∷ cs) ≡ c ∷ dedup key (seen ++ rotation_key key c ∷ []) cs
  unfolding dedup
  dedup_new e = ground (arith, e)

dedup-AreDistinct :
    (key : ℕ → Bytes) (seen : List Bytes) (cs : List (List ℕ))
    → AreDistinct (keys key (dedup key seen cs))
      × ((k : Bytes) → elem (keys key (dedup key seen cs)) k ≡ true → elem seen k ≡ false)
      × ((k : Bytes)
          → elem (keys key cs) k ≡ true
          → (elem seen k || elem (keys key (dedup key seen cs)) k) ≡ true)
unfolding dedup
dedup-AreDistinct key seen [] = (tt, λ k e. cc, λ k e. cc)
dedup-AreDistinct key seen (c ∷ cs) =
    let here = rotation_key key c in
    let (d, fresh, covers) = dedup-AreDistinct key (seen ++ here ∷ []) cs in
    let (d', fresh', covers') = dedup-AreDistinct key seen cs in
    elim (Bool-cases (elem seen here)) [
      | inl e ↦
          rw (dedup_old key seen c cs e)
            (d', fresh', λ k h. ground (arith, h, covers' k, e, bytes_eq.beq_iff here k))
      | inr e ↦ rw (dedup_new key seen c cs e) (
        (ground (arith, fresh here, elem-append seen (here ∷ []) here, beq_refl here), d),
        λ k h.
            ground (arith, h, fresh k, elem-append seen (here ∷ []) k, e, bytes_eq.beq_iff here k),
        λ k h. ground (arith, h, covers k, elem-append seen (here ∷ []) k),
      )
    ]

-- No two cycles that are kept have the same key, and every cycle's key is the key of one that is kept.
pub dedup_cycles-AreDistinct :
    (key : ℕ → Bytes) (cycles : List (List ℕ))
    → AreDistinct (keys key (dedup_cycles key cycles))
      × ((k : Bytes)
          → elem (keys key cycles) k ≡ true
          → elem (keys key (dedup_cycles key cycles)) k ≡ true)
dedup_cycles-AreDistinct key cycles =
    let (d, _, covers) = dedup-AreDistinct key [] cycles in (d, λ k e. covers k e)

-- It keeps something of what is not empty.
pub dedup_cycles-nil :
    (key : ℕ → Bytes) (cycles : List (List ℕ)) → dedup_cycles key cycles ≡ [] → cycles ≡ []
unfolding dedup
dedup_cycles-nil key [] e = refl
dedup_cycles-nil key (c ∷ cs) e = cc

pub dedup_cycles-empty : (key : ℕ → Bytes) → dedup_cycles key [] ≡ []
unfolding dedup
dedup_cycles-empty key = refl
