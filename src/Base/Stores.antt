-- ===== src/Base/Stores.antt =====
-- A store of records that are reached through pointers: a pointer is a number.
use Prim.Native.Nat.{ℕ}
use mathlib.Core.Path.{◌≡◌}
use mathlib.Core.Logic.{◌≢◌}
use native.Mathlib.Omega.{arith}
use scampi.Base.Tests.{◌==◌, if◌then◌else◌}

-- The store with the record at `k` replaced.
abbrev pub update {ℓ} : {A : Type ℓ} → (ℕ → A) → ℕ → A → ℕ → A
update h k v j = if j == k then v else h j

module _ {ℓ} {A : Type ℓ} (h : ℕ → A) (k : ℕ) (v : A) where
  pub update_self : update h k v k ≡ v
  update_self = ground arith

  pub update_ne : (j : ℕ) → j ≢ k → update h k v j ≡ h j
  update_ne j n = ground arith
