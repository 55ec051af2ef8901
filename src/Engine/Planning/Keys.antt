-- ===== src/Engine/Planning/Keys.antt =====
-- internal/engine/cycles.go: `rotationKey` names a cycle up to rotation.
use mathlib.Core.List.{head-eq_of_cons-eq, tail-eq_of_cons-eq}
use native.Mathlib.Nat.{mod-eq_of_lt, mod-lt}
use scampi.Base.{
  ℕ, zero, suc, ◌+◌, ◌-◌, ◌%◌, ◌<◌, ◌≡◌, refl, sym, ap, subst, ◌∙◌, inl, inr, true, false, some,
  List, [], ◌∷◌, ◌++◌, arith, length, length-append, contains, IsDistinct, get_elem?, drop, ◌==◌,
  Bytes, Bool-cases, List-cases,
}
use scampi.Engine.Cycles.Simple.{close}
use scampi.Engine.Planning.{bytes_lt, key_at, key_of, least_place, write_keys, rotation_key}
use scampi.Engine.Planning.Rotations.{
  rotate, Rotates, Rotates-trans, Rotates-sym, Rotates-head, rotate-IsDistinct, length-rotate,
  Rotates-contains,
}
use scampi.Engine.Planning.Places.{
  bytes_lt_irrefl, bytes_lt_total, get_elem?-rotate, IsLeast, least_place-IsLeast, drop-le, drop-lt,
  key_at-close,
}

-- The nodes of a cycle, whose last entry repeats the first one.
abbrev pub body : List ℕ → List ℕ
body [] = []
body (x ∷ []) = []
body (x ∷ y ∷ r) = x ∷ body (y ∷ r)

abbrev pub spell : (ℕ → Bytes) → List ℕ → Bytes
spell key [] = []
spell key (x ∷ xs) = key x ++ b'>' ∷ spell key xs

-- The keys that are written are those of the rotation.
write_keys-spell :
    (key : ℕ → Bytes) (xs : List ℕ) (l left i : ℕ)
    → left + i ≡ length xs
    → write_keys key (close xs) (length xs) l left i ≡ spell key (drop i (rotate l xs))
unfolding write_keys
write_keys-spell key xs l zero i h =
    let R = rotate l xs in
    let none_left : drop i R ≡ [] = drop-le i R (omega (arith, h, length-rotate l xs)) in
    rw (none_left) refl
write_keys-spell key xs l (suc left) i h =
    let R = rotate l xs in
    let n = length xs in
    let low : i < n = omega (arith, h) in
    let (y, at, next) = drop-lt i R (omega (arith, low, length-rotate l xs)) in
    let here : key_at key (close xs) ((l + i) % n) ≡ key y =
      key_at-close key xs ((l + i) % n) (mod-lt (l + i) (omega (arith, low)))
      ∙ ap (key_of key) (sym (get_elem?-rotate l xs i low) ∙ at) in
    rw (next, here, write_keys-spell key xs l left (suc i) (omega (arith, h))) refl

contains→get_elem? :
    (xs : List ℕ) (a : ℕ)
    → contains xs a ≡ true
    → (i : ℕ) × (get_elem? xs i ≡ some a) × (i < length xs)
contains→get_elem? [] a h = cc
contains→get_elem? (x ∷ xs) a h = elim (Bool-cases (x == a)) [
  | inl e ↦ (0, ground (arith, e), omega arith)
  | inr e ↦
      let (i, at, low) = contains→get_elem? xs a (ground (arith, h, e)) in
      (suc i, at, omega (arith, low))
]

-- A rotation of the nodes that begins with one of the least key.
record Leads (key : ℕ → Bytes) (xs : List ℕ) : Type 0 where
  head : ℕ
  tail : List ℕ
  turned : Rotates xs (head ∷ tail)
  spelled : rotation_key key (close xs) ≡ spell key (head ∷ tail)
  least : (z : ℕ) → contains xs z ≡ true → bytes_lt (key z) (key head) ≡ false

length-close : (x : ℕ) (xs : List ℕ) → length (close (x ∷ xs)) - 1 ≡ suc (length xs)
length-close x xs = omega (arith, length-append xs (x ∷ []))

rotation_key-spell :
    (key : ℕ → Bytes) (x : ℕ) (xs : List ℕ)
    → (l : ℕ) × (IsLeast key (close (x ∷ xs)) (suc (length xs)) l)
      × (rotation_key key (close (x ∷ xs)) ≡ spell key (rotate l (x ∷ xs)))
unfolding rotation_key
rotation_key-spell key x xs =
    let c = close (x ∷ xs) in
    let l = least_place key c (length xs) 1 0 in
    let one : 1 + length xs ≡ suc (length xs) = omega arith in
    let first : IsLeast key c 1 0 =
      (omega arith, λ j b. let e : j ≡ 0 = omega arith in rw (e) (bytes_lt_irrefl (key x))) in
    let rest : suc (length xs) - 1 ≡ length xs = omega arith in
    (
      l,
      subst (λ k. IsLeast key c k l) one (least_place-IsLeast key c (length xs) 1 0 first),
      rw (length-close x xs, rest)
          (write_keys-spell key (x ∷ xs) l (suc (length xs)) 0 (omega arith)),
    )

key-Leads : (key : ℕ → Bytes) (x : ℕ) (xs : List ℕ) → Leads key (x ∷ xs)
key-Leads key x xs =
    let (l, (low, least), spelled) = rotation_key-spell key x xs in
    let all = x ∷ xs in
    let (y, at, cut) = drop-lt 0 (rotate l all) (omega (arith, length-rotate l all)) in
    let place : (l + 0) % length all ≡ l =
      ap (λ k. k % length all) (omega arith) ∙ mod-eq_of_lt low in
    let here : key_at key (close all) l ≡ key y =
      key_at-close key all l low
      ∙ ap (λ k. key_at key all k) (sym place)
      ∙ ap (key_of key) (sym (get_elem?-rotate l all 0 (omega arith)) ∙ at) in
    record {
      head = y;
      tail = drop 1 (rotate l all);
      turned = (l, cut);
      spelled = spelled ∙ ap (spell key) cut;
      least = λ z c.
          let (j, found, b) = contains→get_elem? all z c in
          let there : key_at key (close all) j ≡ key z =
            key_at-close key all j b ∙ ap (key_of key) found in
          ap (λ k. bytes_lt k (key y)) (sym there)
          ∙ ap (bytes_lt (key_at key (close all) j)) (sym here)
          ∙ least j b;
    }

-- Keys that end at the first separator.
spell_cut :
    (a b r s : Bytes)
    → contains a b'>' ≡ false
    → contains b b'>' ≡ false
    → a ++ b'>' ∷ r ≡ b ++ b'>' ∷ s
    → (a ≡ b) × (r ≡ s)
spell_cut [] [] r s f g e = (refl, tail-eq_of_cons-eq e)
spell_cut [] (y ∷ b) r s f g e = absurd (ground (arith, g, head-eq_of_cons-eq e))
spell_cut (x ∷ a) [] r s f g e = absurd (ground (arith, f, head-eq_of_cons-eq e))
spell_cut (x ∷ a) (y ∷ b) r s f g e =
    let (same, rest) =
      spell_cut a b r s (ground (arith, f)) (ground (arith, g)) (tail-eq_of_cons-eq e) in
    (ap (λ k. k ∷ a) (head-eq_of_cons-eq e) ∙ ap (λ k. y ∷ k) same, rest)

module _ (key : ℕ → Bytes) (injective : (x y : ℕ) → key x ≡ key y → x ≡ y)
    (plain : (x : ℕ) → contains (key x) b'>' ≡ false) where
  spell-injective : (xs ys : List ℕ) → spell key xs ≡ spell key ys → xs ≡ ys
  spell-injective [] [] e = refl
  spell-injective [] (y ∷ ys) e = absurd (ground (arith, List-cases (key y), ap length e))
  spell-injective (x ∷ xs) [] e = absurd (ground (arith, List-cases (key x), ap length e))
  spell-injective (x ∷ xs) (y ∷ ys) e =
      let (same, rest) =
        spell_cut (key x) (key y) (spell key xs) (spell key ys) (plain x) (plain y) e in
      ap (λ k. k ∷ xs) (injective x y same) ∙ ap (λ l. y ∷ l) (spell-injective xs ys rest)

  -- Cycles with one key are rotations of each other.
  pub rotation_key→Rotates :
      (x y : ℕ) (xs ys : List ℕ)
      → rotation_key key (close (x ∷ xs)) ≡ rotation_key key (close (y ∷ ys))
      → Rotates (x ∷ xs) (y ∷ ys)
  rotation_key→Rotates x y xs ys e =
      let a = key-Leads key x xs in
      let b = key-Leads key y ys in
      let same =
        spell-injective (a.head ∷ a.tail) (b.head ∷ b.tail) (sym a.spelled ∙ e ∙ b.spelled) in
      Rotates-trans (x ∷ xs) (b.head ∷ b.tail) (y ∷ ys) (subst (Rotates (x ∷ xs)) same a.turned)
        (Rotates-sym (y ∷ ys) (b.head ∷ b.tail) b.turned)

  contains_self : (z : ℕ) (zs : List ℕ) → contains (z ∷ zs) z ≡ true
  contains_self z zs = ground arith

  -- Rotations have one key, where no node comes twice.
  pub Rotates→rotation_key :
      (x y : ℕ) (xs ys : List ℕ)
      → IsDistinct (x ∷ xs)
      → Rotates (x ∷ xs) (y ∷ ys)
      → rotation_key key (close (x ∷ xs)) ≡ rotation_key key (close (y ∷ ys))
  Rotates→rotation_key x y xs ys d (k, e) =
      let a = key-Leads key x xs in
      let b = key-Leads key y ys in
      let has_a : contains (y ∷ ys) a.head ≡ true =
        sym (Rotates-contains (x ∷ xs) (y ∷ ys) a.head (k, e))
        ∙ Rotates-contains (x ∷ xs) (a.head ∷ a.tail) a.head a.turned
        ∙ contains_self a.head a.tail in
      let has_b : contains (x ∷ xs) b.head ≡ true =
        Rotates-contains (x ∷ xs) (y ∷ ys) b.head (k, e)
        ∙ Rotates-contains (y ∷ ys) (b.head ∷ b.tail) b.head b.turned
        ∙ contains_self b.head b.tail in
      let same : a.head ≡ b.head =
        injective a.head b.head (
          bytes_lt_total (key a.head) (key b.head) (b.least a.head has_a) (a.least b.head has_b)) in
      let (j, turned) = a.turned in
      let joined : Rotates (a.head ∷ a.tail) (a.head ∷ b.tail) =
        Rotates-trans (a.head ∷ a.tail) (x ∷ xs) (a.head ∷ b.tail)
          (Rotates-sym (x ∷ xs) (a.head ∷ a.tail) a.turned)
          (Rotates-trans (x ∷ xs) (y ∷ ys) (a.head ∷ b.tail) (k, e)
            (subst (λ h. Rotates (y ∷ ys) (h ∷ b.tail)) (sym same) b.turned)) in
      a.spelled
      ∙ ap (spell key) (
          Rotates-head a.head a.tail b.tail
            (subst IsDistinct turned (rotate-IsDistinct j (x ∷ xs) d)) joined
          ∙ ap (λ h. h ∷ b.tail) same)
      ∙ sym b.spelled
