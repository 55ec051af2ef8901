-- ===== src/Base/Lists.antt =====
-- Lists measured and searched by native numbers, under the library's names.
use Prim.Native.Nat.{ℕ, zero, suc, ◌+◌, ◌-◌, ◌<◌}
use mathlib.Core.Path.{◌≡◌, refl, sym, ap, subst, ◌∙◌}
use mathlib.Core.Bool.{Bool, true, false, ◌||◌, ◌&&◌}
use mathlib.Core.Option.{Option, none, some, some-injective}
use mathlib.Core.List.{List, [], ◌∷◌, ◌++◌}
use mathlib.Core.Logic.{◌≢◌, ◌⊎◌, inl, inr}
use native.Mathlib.Omega.{arith}
use native.Mathlib.Nat.{add-zero, zero-add}
use scampi.Base.Tests.{◌==◌, if◌then◌else◌, Bool-cases}

module _ {ℓ} {A : Type ℓ} where
  abbrev pub length : List A → ℕ
  length [] = 0
  length (x ∷ xs) = suc (length xs)

  abbrev pub get_elem? : List A → ℕ → Option A
  get_elem? [] i = none
  get_elem? (x ∷ xs) zero = some x
  get_elem? (x ∷ xs) (suc i) = get_elem? xs i

  abbrev pub take : ℕ → List A → List A
  take zero xs = []
  take (suc n) [] = []
  take (suc n) (x ∷ xs) = x ∷ take n xs

  abbrev pub drop : ℕ → List A → List A
  drop zero xs = xs
  drop (suc n) [] = []
  drop (suc n) (x ∷ xs) = drop n xs

  -- `all` and `any` of the library do not run.
  abbrev pub all : (A → Bool) → List A → Bool
  all p [] = true
  all p (x ∷ xs) = p x && all p xs

  abbrev pub any : (A → Bool) → List A → Bool
  any p [] = false
  any p (x ∷ xs) = p x || any p xs

  -- The number of entries that pass.
  abbrev pub count_where : (A → Bool) → List A → ℕ
  count_where p [] = 0
  count_where p (x ∷ xs) = if p x then suc (count_where p xs) else count_where p xs

  pub length-append : (xs ys : List A) → length (xs ++ ys) ≡ length xs + length ys
  length-append [] ys = omega arith
  length-append (x ∷ xs) ys = omega (arith, length-append xs ys)

  pub length-drop : (n : ℕ) (xs : List A) → length (drop n xs) ≡ length xs - n
  length-drop zero xs = omega arith
  length-drop (suc n) [] = omega arith
  length-drop (suc n) (x ∷ xs) = ground (arith, length-drop n xs)

  pub all-append : (p : A → Bool) (xs ys : List A) → all p (xs ++ ys) ≡ (all p xs && all p ys)
  all-append p [] ys = refl
  all-append p (x ∷ xs) ys = ground (arith, all-append p xs ys)

  pub any-append : (p : A → Bool) (xs ys : List A) → any p (xs ++ ys) ≡ (any p xs || any p ys)
  any-append p [] ys = refl
  any-append p (x ∷ xs) ys = ground (arith, any-append p xs ys)

  pub count_where-append :
      (p : A → Bool) (xs ys : List A)
      → count_where p (xs ++ ys) ≡ count_where p xs + count_where p ys
  count_where-append p [] ys = omega arith
  count_where-append p (x ∷ xs) ys = ground (arith, count_where-append p xs ys)

  pub List-cases : (xs : List A) → (xs ≡ []) ⊎ ((x : A) × (rest : List A) × (xs ≡ x ∷ rest))
  List-cases [] = inl refl
  List-cases (x ∷ xs) = inr (x, xs, refl)

-- How often `a` stands in the list.
abbrev pub count : ℕ → List ℕ → ℕ
count a [] = 0
count a (x ∷ xs) = if x == a then suc (count a xs) else count a xs

abbrev pub contains : List ℕ → ℕ → Bool
contains [] a = false
contains (x ∷ xs) a = x == a || contains xs a

-- 0, 1, …, n - 1, as `for i := range n` counts.
abbrev pub range_from : ℕ → ℕ → List ℕ
range_from i zero = []
range_from i (suc n) = i ∷ range_from (suc i) n

abbrev pub range : ℕ → List ℕ
range n = range_from 0 n

pub count-append : (a : ℕ) (xs ys : List ℕ) → count a (xs ++ ys) ≡ count a xs + count a ys
count-append a [] ys = omega arith
count-append a (x ∷ xs) ys = ground (arith, count-append a xs ys)

pub contains-append :
    (xs ys : List ℕ) (a : ℕ) → contains (xs ++ ys) a ≡ (contains xs a || contains ys a)
contains-append [] ys a = refl
contains-append (x ∷ xs) ys a = ground (arith, contains-append xs ys a)

-- Membership is a positive count.
pub contains→count : (xs : List ℕ) (a : ℕ) → contains xs a ≡ true → 0 < count a xs
contains→count [] a h = ground arith
contains→count (x ∷ xs) a h = ground (arith, contains→count xs a)

pub count→contains : (xs : List ℕ) (a : ℕ) → 0 < count a xs → contains xs a ≡ true
count→contains [] a h = absurd (omega arith)
count→contains (x ∷ xs) a h = ground (arith, count→contains xs a)

module _ {ℓ} {A : Type ℓ} (p : A → Bool) where
  -- A positive count shows an entry that passes, and where it stands.
  pub count_where-pos :
      (xs : List A)
      → 0 < count_where p xs
      → (i : ℕ) × (a : A) × (get_elem? xs i ≡ some a) × (p a ≡ true)
  count_where-pos [] h = absurd (omega arith)
  count_where-pos (x ∷ xs) h = elim (Bool-cases (p x)) [
    | inl e ↦ (0, x, refl, e)
    | inr e ↦ let (i, a, at, pa) = count_where-pos xs (ground arith) in (suc i, a, at, pa)
  ]

pub contains-get_elem? : (xs : List ℕ) (i a : ℕ) → get_elem? xs i ≡ some a → contains xs a ≡ true
contains-get_elem? [] i a h = cc
contains-get_elem? (x ∷ xs) zero a h = ground arith
contains-get_elem? (x ∷ xs) (suc i) a h = ground (arith, contains-get_elem? xs i a)

-- Where nothing passes, no entry does.
pub count_where-zero :
    (p : ℕ → Bool) (xs : List ℕ) (a : ℕ) → contains xs a ≡ true → count_where p xs ≡ 0 → p a ≡ false
count_where-zero p [] a h e = cc
count_where-zero p (x ∷ xs) a h e = ground (arith, count_where-zero p xs a)

pub count_where-all :
    (p : ℕ → Bool) (xs : List ℕ) → ((k : ℕ) → p k ≡ true) → count_where p xs ≡ length xs
count_where-all p [] h = refl
count_where-all p (x ∷ xs) h = ground (arith, h x, count_where-all p xs h)

pub append-ne-nil {ℓ} : {A : Type ℓ} (xs : List A) (x : A) → xs ++ x ∷ [] ≢ []
append-ne-nil [] x e = cc
append-ne-nil (y ∷ xs) x e = cc

-- A suffix that starts at index `i` of the whole list.
abbrev pub IsSuffix {ℓ} : {A : Type ℓ} → List A → ℕ → List A → Type ℓ
IsSuffix all i xs = (k : ℕ) → get_elem? xs k ≡ get_elem? all (k + i)

module _ {ℓ} {A : Type ℓ} (whole : List A) where
  pub IsSuffix-whole : IsSuffix whole 0 whole
  IsSuffix-whole k = rw add-zero refl

  pub IsSuffix-head :
      (i : ℕ) (x : A) (xs : List A) → IsSuffix whole i (x ∷ xs) → get_elem? whole i ≡ some x
  IsSuffix-head i x xs h = sym (rw zero-add at (h 0))

  pub IsSuffix-tail :
      (i : ℕ) (x : A) (xs : List A) → IsSuffix whole i (x ∷ xs) → IsSuffix whole (suc i) xs
  IsSuffix-tail i x xs h k =
      let e : suc k + i ≡ k + suc i = omega arith in h (suc k) ∙ ap (get_elem? whole) e

-- A predicate on every entry.
abbrev pub All {ℓ κ} : {A : Type ℓ} → (A → Type κ) → List A → Type κ
All P [] = Unit
All P (x ∷ xs) = P x × All P xs

module _ {ℓ κ} {A : Type ℓ} (P : A → Type κ) where
  pub All-append : (xs ys : List A) → All P xs → All P ys → All P (xs ++ ys)
  All-append [] ys hx hy = hy
  All-append (x ∷ xs) ys hx hy = (hx.0, All-append xs ys hx.1 hy)

  pub All-get_elem? : (xs : List A) (i : ℕ) (a : A) → All P xs → get_elem? xs i ≡ some a → P a
  All-get_elem? [] i a h e = cc
  All-get_elem? (x ∷ xs) zero a h e = subst P (some-injective _ _ e) h.0
  All-get_elem? (x ∷ xs) (suc i) a h e = All-get_elem? xs i a h.1 e

-- No entry stands twice.
abbrev pub IsDistinct : List ℕ → Type 0
IsDistinct [] = Unit
IsDistinct (x ∷ xs) = (contains xs x ≡ false) × IsDistinct xs
