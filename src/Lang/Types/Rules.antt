-- ===== src/Lang/Types/Rules.antt =====
-- `IsAssignableTo` against rules for assignment.
use scampi.Base.{
  ℕ, ◌≡◌, ◌↔◌, refl, ap, subst, inl, inr, Bool, true, false, ◌&&◌, ◌||◌, none, some, List, Bytes,
  bytes_eq, bytes_beq_iff, beq_refl, arith, or-cases,
}
use scampi.Lang.Types.{
  Ty, none_type, any_type, optional, list_of, map_of, struct_type, enum_type, opaque_type, inner_of,
  elem_of, pair_of, struct_name, enum_name, opaque_name, is_any, is_none_type, has_name,
  is_assignable_to,
}

-- A value of the first type may stand where the second one is expected.
pub data Assigns : Ty → Ty → Type 0 where
  itself : {t : Ty} → Assigns t t
  to_any : {t : Ty} → Assigns t any_type
  none_to_optional : {t : Ty} → Assigns none_type (optional t)
  promoted : {s t : Ty} → Assigns s t → Assigns s (optional t)
  optionals : {s t : Ty} → Assigns s t → Assigns (optional s) (optional t)
  empty_list : {t : Ty} → Assigns (list_of any_type) (list_of t)
  lists : {s t : Ty} → Assigns s t → Assigns (list_of s) (list_of t)
  maps : {j k v w : Ty} → Assigns j k → Assigns v w → Assigns (map_of j v) (map_of k w)
  structs : {i j : ℕ} {n : Bytes} → Assigns (struct_type i n) (struct_type j n)
  enums : {i j : ℕ} {n : Bytes} {vs ws : List Bytes} → Assigns (enum_type i n vs) (enum_type j n ws)
  opaques : {i j : ℕ} {n : Bytes} → Assigns (opaque_type i n) (opaque_type j n)

-- The kinds that only their pointer tells apart.
abbrev pub is_leaf : Ty → Bool
is_leaf (optional t) = false
is_leaf (list_of t) = false
is_leaf (map_of k v) = false
is_leaf (struct_type i n) = false
is_leaf (enum_type i n vs) = false
is_leaf (opaque_type i n) = false
is_leaf t = true

-- What is relied on of a comparison of pointers: equal pointers lead to one type, and a builtin type,
-- of which there is one, or a type with one's own number, is at one pointer.
pub record IsIdentity (same : Ty → Ty → Bool) : Type 0 where
  pub sound : (s t : Ty) → same s t ≡ true → s ≡ t
  pub one : (t : Ty) → is_leaf t ≡ true → same t t ≡ true

module _ (same : Ty → Ty → Bool) where
  -- The parts of the clauses behind the comparison of pointers.
  abbrev to_optional : Ty → Ty → Bool
  to_optional s d = elim (inner_of s) [
    | some u ↦ is_assignable_to same u d
    | none ↦ is_none_type s || is_assignable_to same s d
  ]

  abbrev to_list : Ty → Ty → Bool
  to_list s d = elim (elem_of s) [ some u ↦ is_any u || is_assignable_to same u d | none ↦ false ]

  abbrev to_map : Ty → Ty → Ty → Bool
  to_map s k v = elim (pair_of s) [
    | some e ↦ is_assignable_to same e.0 k && is_assignable_to same e.1 v
    | none ↦ false
  ]

  to_optional-Assigns :
      (s d : Ty)
      → ((u : Ty) → is_assignable_to same u d ≡ true → Assigns u d)
      → to_optional s d ≡ true
      → Assigns s (optional d)
  to_optional-Assigns (optional u) d ih r = optionals (ih u r)
  to_optional-Assigns none_type d ih r = none_to_optional
  to_optional-Assigns s d ih r = promoted (ih s r)

  to_list-Assigns :
      (s d : Ty)
      → ((u : Ty) → is_assignable_to same u d ≡ true → Assigns u d)
      → to_list s d ≡ true
      → Assigns s (list_of d)
  to_list-Assigns (list_of any_type) d ih r = empty_list
  to_list-Assigns (list_of u) d ih r = lists (ih u r)
  to_list-Assigns s d ih r = absurd cc

  to_map-Assigns :
      (s k v : Ty)
      → ((u : Ty) → is_assignable_to same u k ≡ true → Assigns u k)
      → ((u : Ty) → is_assignable_to same u v ≡ true → Assigns u v)
      → to_map s k v ≡ true
      → Assigns s (map_of k v)
  to_map-Assigns (map_of j w) k v ik iv r = maps (ik j (ground arith)) (iv w (ground arith))
  to_map-Assigns s k v ik iv r = absurd cc

  struct_name-Assigns :
      (s : Ty) (i : ℕ) (n : Bytes) → has_name n (struct_name s) ≡ true → Assigns s (struct_type i n)
  struct_name-Assigns (struct_type j m) i n r =
      subst (λ k. Assigns (struct_type j m) (struct_type i k)) ((bytes_beq_iff m n).0 r) structs
  struct_name-Assigns s i n r = absurd cc

  enum_name-Assigns :
      (s : Ty) (i : ℕ) (n : Bytes) (vs : List Bytes)
      → has_name n (enum_name s) ≡ true
      → Assigns s (enum_type i n vs)
  enum_name-Assigns (enum_type j m ws) i n vs r =
      subst (λ k. Assigns (enum_type j m ws) (enum_type i k vs)) ((bytes_beq_iff m n).0 r) enums
  enum_name-Assigns s i n vs r = absurd cc

  opaque_name-Assigns :
      (s : Ty) (i : ℕ) (n : Bytes) → has_name n (opaque_name s) ≡ true → Assigns s (opaque_type i n)
  opaque_name-Assigns (opaque_type j m) i n r =
      subst (λ k. Assigns (opaque_type j m) (opaque_type i k)) ((bytes_beq_iff m n).0 r) opaques
  opaque_name-Assigns s i n r = absurd cc

module _ (same : Ty → Ty → Bool) (h : IsIdentity same) where
  same-Assigns : (s t : Ty) → same s t ≡ true → Assigns s t
  same-Assigns s t e = subst (λ u. Assigns s u) (h.sound s t e) itself

  sound_rules : (s t : Ty) → is_assignable_to same s t ≡ true → Assigns s t
  unfolding is_assignable_to
  sound_rules s any_type e = to_any
  sound_rules s (optional d) e = elim (or-cases _ _ e) [
    | inl p ↦ same-Assigns s (optional d) p
    | inr r ↦ to_optional-Assigns same s d (λ u. sound_rules u d) r
  ]
  sound_rules s (list_of d) e = elim (or-cases _ _ e) [
    | inl p ↦ same-Assigns s (list_of d) p
    | inr r ↦ to_list-Assigns same s d (λ u. sound_rules u d) r
  ]
  sound_rules s (map_of k v) e = elim (or-cases _ _ e) [
    | inl p ↦ same-Assigns s (map_of k v) p
    | inr r ↦ to_map-Assigns same s k v (λ u. sound_rules u k) (λ u. sound_rules u v) r
  ]
  sound_rules s (struct_type i n) e = elim (or-cases _ _ e) [
    | inl p ↦ same-Assigns s (struct_type i n) p
    | inr r ↦ struct_name-Assigns same s i n r
  ]
  sound_rules s (enum_type i n vs) e = elim (or-cases _ _ e) [
    | inl p ↦ same-Assigns s (enum_type i n vs) p
    | inr r ↦ enum_name-Assigns same s i n vs r
  ]
  sound_rules s (opaque_type i n) e = elim (or-cases _ _ e) [
    | inl p ↦ same-Assigns s (opaque_type i n) p
    | inr r ↦ opaque_name-Assigns same s i n r
  ]
  sound_rules s t e = same-Assigns s t e

  or_true : (b c : Bool) → c ≡ true → (b || c) ≡ true
  or_true b c e = ground arith

  and_true : (b c : Bool) → b ≡ true → c ≡ true → (b && c) ≡ true
  and_true b c e f = ground arith

  assigns_itself : (t : Ty) → is_assignable_to same t t ≡ true
  unfolding is_assignable_to
  assigns_itself any_type = or_true _ _ refl
  assigns_itself (optional t) = or_true _ _ (assigns_itself t)
  assigns_itself (list_of t) = or_true _ _ (or_true _ _ (assigns_itself t))
  assigns_itself (map_of k v) = or_true _ _ (and_true _ _ (assigns_itself k) (assigns_itself v))
  assigns_itself (struct_type i n) = or_true _ _ (beq_refl n)
  assigns_itself (enum_type i n vs) = or_true _ _ (beq_refl n)
  assigns_itself (opaque_type i n) = or_true _ _ (beq_refl n)
  assigns_itself t = h.one t refl

  to_optional_promoted :
      (s d : Ty)
      → ((u : Ty) → is_assignable_to same (optional u) d ≡ true → is_assignable_to same u d ≡ true)
      → is_assignable_to same s d ≡ true
      → is_assignable_to same s (optional d) ≡ true
  unfolding is_assignable_to
  to_optional_promoted (optional u) d strip e = or_true _ _ (strip u e)
  to_optional_promoted none_type d strip e = or_true _ _ refl
  to_optional_promoted s d strip e = or_true (same s (optional d)) _ e

  -- What takes an optional value takes the value.
  stripped :
      (u d : Ty) → is_assignable_to same (optional u) d ≡ true → is_assignable_to same u d ≡ true
  unfolding is_assignable_to
  stripped u any_type e = or_true _ _ refl
  stripped u (optional d) e = elim (or-cases _ _ e) [
    | inl p ↦
        let eq = h.sound (optional u) (optional d) p in
        let inner : u ≡ d = ap (λ t. elim t [ optional v ↦ v | _ ↦ u ]) eq in
        to_optional_promoted u d (λ w. stripped w d)
          (subst (λ t. is_assignable_to same u t ≡ true) inner (assigns_itself u))
    | inr r ↦ to_optional_promoted u d (λ w. stripped w d) r
  ]
  stripped u t e = absurd (ground (arith, h.sound (optional u) t, e))

  complete_rules : {s t : Ty} → Assigns s t → is_assignable_to same s t ≡ true
  unfolding is_assignable_to
  complete_rules (itself {t}) = assigns_itself t
  complete_rules to_any = or_true _ _ refl
  complete_rules none_to_optional = or_true _ _ refl
  complete_rules (promoted {s} {t} a) =
      to_optional_promoted s t (λ u. stripped u t) (complete_rules a)
  complete_rules (optionals a) = or_true _ _ (complete_rules a)
  complete_rules empty_list = or_true _ _ refl
  complete_rules (lists a) = or_true _ _ (or_true _ _ (complete_rules a))
  complete_rules (maps a b) = or_true _ _ (and_true _ _ (complete_rules a) (complete_rules b))
  complete_rules (structs {n}) = or_true _ _ (beq_refl n)
  complete_rules (enums {n}) = or_true _ _ (beq_refl n)
  complete_rules (opaques {n}) = or_true _ _ (beq_refl n)

-- `IsAssignableTo` answers yes exactly where the rules for assignment allow it: a type for itself,
-- anything for `any`, `none` and a plain value for an optional one at any depth, an empty list for
-- any list (it is a list of `any`), and lists, maps and optional values by their parts; structs, enums and opaque types
-- go by their names. The rule that promotes a value may be used on an optional value too, though the
-- code takes off both marks there. Pointers that are equal lead to equal types, and a builtin,
-- a block, a function, a declaration and an attribute type are equal to themselves.
pub is_assignable_to-Assigns :
    (same : Ty → Ty → Bool) (s t : Ty)
    → IsIdentity same
    → (is_assignable_to same s t ≡ true) ↔ Assigns s t
is_assignable_to-Assigns same s t h = (sound_rules same h s t, complete_rules same h)
