-- ===== src/Engine/Planning/Places.antt =====
-- internal/engine/cycles.go: the place where `rotationKey` starts, and the places of a rotation.
use native.Mathlib.Nat.{add-mod_right, mod-eq_of_lt}
use scampi.Base.{
  ℕ, zero, suc, ◌+◌, ◌%◌, ◌<◌, ◌≤◌, ◌≡◌, refl, sym, ap, subst, ◌∙◌, inl, inr, true, false, some,
  List, [], ◌∷◌, ◌++◌, arith, length, get_elem?, drop, ◌==◌, ltb, if◌then◌else◌, Bytes, Bool-cases,
}
use scampi.Engine.Cycles.Simple.{close}
use scampi.Engine.Planning.{bytes_lt, key_at, key_of, least_place}
use scampi.Engine.Planning.Rotations.{turn, rotate, length-rotate}

pub bytes_lt_irrefl : (a : Bytes) → bytes_lt a a ≡ false
bytes_lt_irrefl [] = refl
bytes_lt_irrefl (x ∷ a) = ground (arith, bytes_lt_irrefl a)

bytes_lt_trans : (a b c : Bytes) → bytes_lt a b ≡ true → bytes_lt b c ≡ true → bytes_lt a c ≡ true
bytes_lt_trans a [] [] h k = cc
bytes_lt_trans a (y ∷ b) [] h k = cc
bytes_lt_trans [] [] (z ∷ c) h k = cc
bytes_lt_trans [] (y ∷ b) (z ∷ c) h k = refl
bytes_lt_trans (x ∷ a) [] (z ∷ c) h k = cc
bytes_lt_trans (x ∷ a) (y ∷ b) (z ∷ c) h k = ground (arith, bytes_lt_trans a b c)

pub bytes_lt_total : (a b : Bytes) → bytes_lt a b ≡ false → bytes_lt b a ≡ false → a ≡ b
bytes_lt_total [] [] h k = refl
bytes_lt_total [] (y ∷ b) h k = cc
bytes_lt_total (x ∷ a) [] h k = cc
bytes_lt_total (x ∷ a) (y ∷ b) h k = ground (arith, bytes_lt_total a b)

get_elem?-close : (xs : List ℕ) (i : ℕ) → i < length xs → get_elem? (close xs) i ≡ get_elem? xs i
get_elem?-close [] i h = absurd (omega (arith, h))
get_elem?-close (x ∷ xs) zero h = refl
get_elem?-close (x ∷ xs) (suc i) h = past xs i (omega (arith, h))
  where
    past : (ys : List ℕ) (j : ℕ) → j < length ys → get_elem? (ys ++ x ∷ []) j ≡ get_elem? ys j
    past [] j h = absurd (omega (arith, h))
    past (y ∷ ys) zero h = refl
    past (y ∷ ys) (suc j) h = past ys j (omega (arith, h))

-- What the loop of `rotationKey` knows of its best place so far.
abbrev pub IsLeast : (ℕ → Bytes) → List ℕ → ℕ → ℕ → Type 0
IsLeast key c i l = (l < i) × ((j : ℕ) → j < i → bytes_lt (key_at key c j) (key_at key c l) ≡ false)

IsLeast-suc :
    (key : ℕ → Bytes) (c : List ℕ) (i l : ℕ)
    → IsLeast key c i l
    → IsLeast key c (suc i) (if bytes_lt (key_at key c i) (key_at key c l) then i else l)
IsLeast-suc key c i l h = elim (Bool-cases (bytes_lt (key_at key c i) (key_at key c l))) [
  | inr e ↦ rw (e) (
    omega (arith, h.0),
    λ j b. elim (Bool-cases (j == i)) [
      | inl s ↦ let same : j ≡ i = ground (arith, s) in rw (same) e
      | inr n ↦ h.1 j (ground (arith, b, n))
    ],
  )
  | inl e ↦ rw (e) (
    omega arith,
    λ j b. elim (Bool-cases (j == i)) [
      | inl s ↦ let same : j ≡ i = ground (arith, s) in rw (same) (bytes_lt_irrefl (key_at key c i))
      | inr n ↦ ground (
        arith,
        e,
        h.1 j (ground (arith, b, n)),
        bytes_lt_trans (key_at key c j) (key_at key c i) (key_at key c l),
      )
    ],
  )
]

pub least_place-IsLeast :
    (key : ℕ → Bytes) (c : List ℕ) (n i l : ℕ)
    → IsLeast key c i l
    → IsLeast key c (i + n) (least_place key c n i l)
unfolding least_place
least_place-IsLeast key c zero i l h =
    let e : i ≡ i + 0 = omega arith in subst (λ k. IsLeast key c k l) e h
least_place-IsLeast key c (suc n) i l h =
    let next = if bytes_lt (key_at key c i) (key_at key c l) then i else l in
    let e : suc i + n ≡ i + suc n = omega arith in
    subst (λ k. IsLeast key c k (least_place key c n (suc i) next)) e
      (least_place-IsLeast key c n (suc i) next (IsLeast-suc key c i l h))

-- A rotation by `l` is read from place `l` on, round the list.
get_elem?-turn :
    (ys : List ℕ) (i : ℕ)
    → i < length ys
    → get_elem? (turn ys) i
      ≡ (if ltb (suc i) (length ys) then get_elem? ys (suc i) else get_elem? ys 0)
get_elem?-turn [] i h = absurd (omega (arith, h))
get_elem?-turn (x ∷ ys) i h = past ys i h
  where
    past :
        (zs : List ℕ) (j : ℕ)
        → j < suc (length zs)
        → get_elem? (zs ++ x ∷ []) j
          ≡ (if ltb (suc j) (suc (length zs)) then get_elem? zs j else some x)
    past [] zero h = refl
    past [] (suc j) h = absurd (omega (arith, h))
    past (z ∷ zs) zero h = ground arith
    past (z ∷ zs) (suc j) h = ground (arith, past zs j (omega (arith, h)))

pub get_elem?-rotate :
    (l : ℕ) (xs : List ℕ) (i : ℕ)
    → i < length xs
    → get_elem? (rotate l xs) i ≡ get_elem? xs ((l + i) % length xs)
get_elem?-rotate zero xs i h = let e : 0 + i ≡ i = omega arith in rw (e, mod-eq_of_lt h) refl
get_elem?-rotate (suc l) xs i h =
    let n = length xs in
    let turned = get_elem?-turn (rotate l xs) i (rw (length-rotate l xs) h) in
    elim (Bool-cases (ltb (suc i) n)) [
      | inl e ↦
          let shift : l + suc i ≡ suc l + i = omega arith in
          turned
          ∙ rw (length-rotate l xs, e)
              (get_elem?-rotate l xs (suc i) (ground (arith, e))
                ∙ ap (λ k. get_elem? xs (k % n)) shift)
      | inr e ↦
          let around : suc l + i ≡ l + 0 + n = ground (arith, e, h) in
          turned
          ∙ rw (length-rotate l xs, e)
              (get_elem?-rotate l xs 0 (ground (arith, h))
                ∙ ap (λ k. get_elem? xs k) (sym (add-mod_right (l + 0) n))
                ∙ ap (λ k. get_elem? xs (k % n)) (sym around))
    ]

pub drop-le : (i : ℕ) (ys : List ℕ) → length ys ≤ i → drop i ys ≡ []
drop-le zero [] h = refl
drop-le zero (y ∷ ys) h = absurd (omega (arith, h))
drop-le (suc i) [] h = refl
drop-le (suc i) (y ∷ ys) h = drop-le i ys (omega (arith, h))

pub drop-lt :
    (i : ℕ) (ys : List ℕ)
    → i < length ys
    → (y : ℕ) × (get_elem? ys i ≡ some y) × (drop i ys ≡ y ∷ drop (suc i) ys)
drop-lt i [] h = absurd (omega (arith, h))
drop-lt zero (y ∷ ys) h = (y, refl, refl)
drop-lt (suc i) (y ∷ ys) h = drop-lt i ys (omega (arith, h))

pub key_at-close :
    (key : ℕ → Bytes) (xs : List ℕ) (i : ℕ)
    → i < length xs
    → key_at key (close xs) i ≡ key_at key xs i
key_at-close key xs i h = ap (key_of key) (get_elem?-close xs i h)
