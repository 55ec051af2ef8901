-- ===== src/Base/Maps.antt =====
-- Go's maps as association lists.
use Prim.Native.Nat.{ℕ, zero, suc}
use mathlib.Core.Path.{◌≡◌, refl}
use mathlib.Core.Logic.{inl, inr}
use mathlib.Core.Option.{Option, none, some}
use mathlib.Core.Bool.{Bool, true, false}
use mathlib.Core.List.{List, [], ◌∷◌}
use native.Mathlib.Omega.{arith}
use scampi.Base.Tests.{if◌then◌else◌, Bool-cases}
use scampi.Base.Lists.{get_elem?, all}
use scampi.Base.Equality.{Eq}

module _ {ℓ κ} {A : Type ℓ} {V : Type κ} ⦃e : Eq A⦄ where
  abbrev pub lookup : A → List (A × V) → Option V
  lookup k [] = none
  lookup k ((j, v) ∷ m) = if e.beq j k then some v else lookup k m

  -- `m[k] = v`
  abbrev pub insert : A → V → List (A × V) → List (A × V)
  insert k v [] = (k, v) ∷ []
  insert k v ((j, w) ∷ m) = if e.beq j k then (k, v) ∷ m else (j, w) ∷ insert k v m

  -- `delete(m, k)`
  abbrev pub delete : A → List (A × V) → List (A × V)
  delete k [] = []
  delete k ((j, w) ∷ m) = if e.beq j k then delete k m else (j, w) ∷ delete k m

  pub lookup-insert :
      (k j : A) (v : V) (m : List (A × V))
      → lookup j (insert k v m) ≡ (if e.beq k j then some v else lookup j m)
  lookup-insert k j v [] = refl
  lookup-insert k j v ((i, w) ∷ m) =
      ground (arith, e.beq_iff k j, e.beq_iff i k, e.beq_iff i j, lookup-insert k j v m)

  pub lookup-delete :
      (k j : A) (m : List (A × V))
      → lookup j (delete k m) ≡ (if e.beq k j then none else lookup j m)
  lookup-delete k j [] = ground arith
  lookup-delete k j ((i, w) ∷ m) =
      ground (arith, e.beq_iff k j, e.beq_iff i k, e.beq_iff i j, lookup-delete k j m)

  pub lookup-insert_self : (k : A) (v : V) (m : List (A × V)) → lookup k (insert k v m) ≡ some v
  lookup-insert_self k v m = ground (arith, lookup-insert k k v m, e.beq_iff k k)

  pub lookup-insert_ne :
      (k j : A) (v : V) (m : List (A × V))
      → e.beq k j ≡ false
      → lookup j (insert k v m) ≡ lookup j m
  lookup-insert_ne k j v m ne = ground (arith, lookup-insert k j v m)

  pub lookup-delete_self : (k : A) (m : List (A × V)) → lookup k (delete k m) ≡ none
  lookup-delete_self k m = ground (arith, lookup-delete k k m, e.beq_iff k k)

  -- Each key has one entry.
  abbrev pub IsMap : List (A × V) → Type (ℓ ⊔ κ)
  IsMap [] = Unit
  IsMap ((k, v) ∷ m) = (lookup k m ≡ none) × IsMap m

  pub insert-IsMap : (k : A) (v : V) (m : List (A × V)) → IsMap m → IsMap (insert k v m)
  insert-IsMap k v [] h = (refl, tt)
  insert-IsMap k v ((j, w) ∷ m) h = elim (Bool-cases (e.beq j k)) [
    | inl same ↦ ground (arith, e.beq_iff j k)
    | inr other ↦
        ground (arith, insert-IsMap k v m, lookup-insert k j v m, e.beq_iff k j, e.beq_iff j k)
  ]

  pub lookup→get_elem? :
      (m : List (A × V)) (k : A) (v : V)
      → lookup k m ≡ some v
      → (i : ℕ) × (get_elem? m i ≡ some (k, v))
  lookup→get_elem? [] k v h = cc
  lookup→get_elem? ((j, w) ∷ m) k v h = elim (Bool-cases (e.beq j k)) [
    | inl same ↦ (0, ground (arith, e.beq_iff j k))
    | inr other ↦ let (i, at) = lookup→get_elem? m k v (ground arith) in (suc i, at)
  ]

  pub get_elem?→lookup :
      (m : List (A × V)) (i : ℕ) (k : A) (v : V)
      → IsMap m
      → get_elem? m i ≡ some (k, v)
      → lookup k m ≡ some v
  get_elem?→lookup [] i k v h at = cc
  get_elem?→lookup ((j, w) ∷ m) zero k v h at = ground (arith, e.beq_iff j k)
  get_elem?→lookup ((j, w) ∷ m) (suc i) k v h at =
      ground (arith, e.beq_iff j k, get_elem?→lookup m i k v)

  -- What holds of every value of a table holds of the one that is found.
  pub lookup-all :
      (q : V → Bool) (k : A) (m : List (A × V)) (v : V)
      → all (λ x. q x.1) m ≡ true
      → lookup k m ≡ some v
      → q v ≡ true
  lookup-all q k [] v h e = cc
  lookup-all q k (x ∷ m) v h e = ground (arith, lookup-all q k m v, h, e)
