-- ===== src/Engine/Planning/Rotations.antt =====
-- internal/engine/cycles.go: rotations of a list of nodes.
use mathlib.Core.List.{append-nil, append_assoc, head-eq_of_cons-eq, tail-eq_of_cons-eq}
use scampi.Base.{
  ℕ, zero, suc, ◌+◌, ◌≡◌, refl, sym, ap, ◌∙◌, false, List, [], ◌∷◌, ◌++◌, arith, length,
  length-append, contains, contains-append, IsDistinct, ==_iff,
}

-- The first entry becomes the last one.
abbrev pub turn : List ℕ → List ℕ
turn [] = []
turn (x ∷ xs) = xs ++ x ∷ []

abbrev pub rotate : ℕ → List ℕ → List ℕ
rotate zero xs = xs
rotate (suc k) xs = turn (rotate k xs)

abbrev pub Rotates : List ℕ → List ℕ → Type 0
Rotates xs ys = (k : ℕ) × (rotate k xs ≡ ys)

rotate-add : (j k : ℕ) (xs : List ℕ) → rotate (j + k) xs ≡ rotate j (rotate k xs)
rotate-add zero k xs = let e : 0 + k ≡ k = omega arith in rw (e) refl
rotate-add (suc j) k xs =
    let e : suc j + k ≡ suc (j + k) = omega arith in rw (e) (ap turn (rotate-add j k xs))

rotate-turn : (k : ℕ) (xs : List ℕ) → rotate k (turn xs) ≡ turn (rotate k xs)
rotate-turn zero xs = refl
rotate-turn (suc k) xs = ap turn (rotate-turn k xs)

pub Rotates-trans : (xs ys zs : List ℕ) → Rotates xs ys → Rotates ys zs → Rotates xs zs
Rotates-trans xs ys zs (j, e) (k, f) = (k + j, rotate-add k j xs ∙ ap (rotate k) e ∙ f)

rotate-append : (a b : List ℕ) → rotate (length a) (a ++ b) ≡ b ++ a
rotate-append [] b = sym (append-nil b)
rotate-append (x ∷ a) b =
    sym (rotate-turn (length a) (x ∷ a ++ b))
    ∙ ap (rotate (length a)) (append_assoc a b (x ∷ []))
    ∙ rotate-append a (b ++ x ∷ [])
    ∙ append_assoc b (x ∷ []) a

turn-Rotates : (xs : List ℕ) → Rotates (turn xs) xs
turn-Rotates [] = (0, refl)
turn-Rotates (x ∷ xs) = (length xs, rotate-append xs (x ∷ []))

pub Rotates-sym : (xs ys : List ℕ) → Rotates xs ys → Rotates ys xs
Rotates-sym xs ys (k, e) = back k ys e
  where
    back : (k : ℕ) (ys : List ℕ) → rotate k xs ≡ ys → Rotates ys xs
    back zero ys e = (0, sym e)
    back (suc k) ys e =
        let (j, f) = turn-Rotates (rotate k xs) in
        Rotates-trans ys (rotate k xs) xs (j, ap (rotate j) (sym e) ∙ f) (back k (rotate k xs) refl)

-- A rotation moves a beginning to the end.
rotate-halves :
    (k : ℕ) (xs : List ℕ) → (a : List ℕ) × (b : List ℕ) × (xs ≡ a ++ b) × (rotate k xs ≡ b ++ a)
rotate-halves zero xs = ([], xs, refl, sym (append-nil xs))
rotate-halves (suc k) xs = step (rotate-halves k xs)
  where
    step :
        (a : List ℕ) × (b : List ℕ) × (xs ≡ a ++ b) × (rotate k xs ≡ b ++ a)
        → (a : List ℕ) × (b : List ℕ) × (xs ≡ a ++ b) × (turn (rotate k xs) ≡ b ++ a)
    step (a, y ∷ b, e, f) =
        (a ++ y ∷ [], b, e ∙ sym (append_assoc a (y ∷ []) b), ap turn f ∙ append_assoc b a (y ∷ []))
    step (x ∷ a, [], e, f) = (x ∷ [], a, e ∙ append-nil (x ∷ a), ap turn f)
    step ([], [], e, f) = ([], [], e, ap turn f)

pub contains-rotate : (k : ℕ) (xs : List ℕ) (a : ℕ) → contains (rotate k xs) a ≡ contains xs a
contains-rotate zero xs a = refl
contains-rotate (suc k) xs a = contains-turn (rotate k xs) ∙ contains-rotate k xs a
  where
    contains-turn : (ys : List ℕ) → contains (turn ys) a ≡ contains ys a
    contains-turn [] = refl
    contains-turn (y ∷ ys) = ground (arith, contains-append ys (y ∷ []) a)

append-IsDistinct :
    (x : ℕ) (xs : List ℕ) → contains xs x ≡ false → IsDistinct xs → IsDistinct (xs ++ x ∷ [])
append-IsDistinct x [] h d = (refl, tt)
append-IsDistinct x (y ∷ xs) h d = (
  ground (arith, contains-append xs (x ∷ []) y, ==_iff x y, ==_iff y x),
  append-IsDistinct x xs (ground arith) d.1,
)

pub rotate-IsDistinct : (k : ℕ) (xs : List ℕ) → IsDistinct xs → IsDistinct (rotate k xs)
rotate-IsDistinct zero xs d = d
rotate-IsDistinct (suc k) xs d = turn-IsDistinct (rotate k xs) (rotate-IsDistinct k xs d)
  where
    turn-IsDistinct : (ys : List ℕ) → IsDistinct ys → IsDistinct (turn ys)
    turn-IsDistinct [] d = tt
    turn-IsDistinct (y ∷ ys) d = append-IsDistinct y ys d.0 d.1

-- Two rotations that begin with one node are equal, where no node comes twice.
pub Rotates-head :
    (x : ℕ) (p q : List ℕ) → IsDistinct (x ∷ p) → Rotates (x ∷ p) (x ∷ q) → x ∷ p ≡ x ∷ q
Rotates-head x p q d (k, e) = halves (rotate-halves k (x ∷ p))
  where
    halves :
        (a : List ℕ) × (b : List ℕ) × (x ∷ p ≡ a ++ b) × (rotate k (x ∷ p) ≡ b ++ a) → x ∷ p ≡ x ∷ q
    halves ([], b, f, g) = f ∙ sym (append-nil b) ∙ sym g ∙ e
    halves (y ∷ a, [], f, g) = f ∙ append-nil (y ∷ a) ∙ sym g ∙ e
    halves (y ∷ a, z ∷ b, f, g) =
        let first : x ≡ z = head-eq_of_cons-eq (sym e ∙ g) in
        let rest : contains p x ≡ contains (a ++ z ∷ b) x =
          ap (λ l. contains l x) (tail-eq_of_cons-eq f) in
        absurd (ground (arith, rest, contains-append a (z ∷ b) x, ==_iff z x, first, d.0))

pub length-rotate : (k : ℕ) (xs : List ℕ) → length (rotate k xs) ≡ length xs
length-rotate zero xs = refl
length-rotate (suc k) xs = length-turn (rotate k xs) ∙ length-rotate k xs
  where
    length-turn : (ys : List ℕ) → length (turn ys) ≡ length ys
    length-turn [] = refl
    length-turn (y ∷ ys) = omega (arith, length-append ys (y ∷ []))

pub Rotates-contains : (xs ys : List ℕ) (a : ℕ) → Rotates xs ys → contains xs a ≡ contains ys a
Rotates-contains xs ys a (k, e) = sym (contains-rotate k xs a) ∙ ap (λ l. contains l a) e
