-- ===== src/Tests/Typing.antt =====
-- internal/lang/check/types.go: pointers that are equal at the kinds that only they tell apart.
use scampi.Base.{◌≡◌, ◌↔◌, refl, Bool, true, false, ◌==◌, ==_iff, ap}
use scampi.Lang.Types.{
  Ty, string_type, int_type, bool_type, none_type, any_type, optional, list_of, block_type,
  func_type, decl_type, attr_type, is_assignable_to,
}
use scampi.Lang.Types.Rules.{Assigns, IsIdentity, is_leaf, is_assignable_to-Assigns}

abbrev same : Ty → Ty → Bool
same string_type string_type = true
same int_type int_type = true
same bool_type bool_type = true
same none_type none_type = true
same any_type any_type = true
same (block_type i) (block_type j) = i == j
same (func_type i) (func_type j) = i == j
same (decl_type i) (decl_type j) = i == j
same (attr_type i) (attr_type j) = i == j
same s t = false

same-eq : (s t : Ty) → same s t ≡ true → s ≡ t
same-eq string_type string_type h = refl
same-eq int_type int_type h = refl
same-eq bool_type bool_type h = refl
same-eq none_type none_type h = refl
same-eq any_type any_type h = refl
same-eq (block_type i) (block_type j) h = ap block_type ((==_iff i j).0 h)
same-eq (func_type i) (func_type j) h = ap func_type ((==_iff i j).0 h)
same-eq (decl_type i) (decl_type j) h = ap decl_type ((==_iff i j).0 h)
same-eq (attr_type i) (attr_type j) h = ap attr_type ((==_iff i j).0 h)
same-eq s t h = absurd cc

same-leaf : (t : Ty) → is_leaf t ≡ true → same t t ≡ true
same-leaf string_type h = refl
same-leaf int_type h = refl
same-leaf bool_type h = refl
same-leaf none_type h = refl
same-leaf any_type h = refl
same-leaf (block_type i) h = (==_iff i i).1 refl
same-leaf (func_type i) h = (==_iff i i).1 refl
same-leaf (decl_type i) h = (==_iff i i).1 refl
same-leaf (attr_type i) h = (==_iff i i).1 refl
same-leaf t h = absurd cc

same-IsIdentity : IsIdentity same
same-IsIdentity = record { sound = same-eq; one = same-leaf }

is_assignable_to-Assigns_example :
    (is_assignable_to same (list_of (optional int_type)) (list_of (optional any_type)) ≡ true)
    ↔ Assigns (list_of (optional int_type)) (list_of (optional any_type))
is_assignable_to-Assigns_example =
    is_assignable_to-Assigns same (list_of (optional int_type)) (list_of (optional any_type))
      same-IsIdentity

-- A list of `any` may stand for any list, so assignment is not transitive.
through_any :
    (is_assignable_to same (list_of string_type) (list_of any_type) ≡ true)
    × (is_assignable_to same (list_of any_type) (list_of int_type) ≡ true)
    × (is_assignable_to same (list_of string_type) (list_of int_type) ≡ false)
unfolding is_assignable_to
through_any = (refl, refl, refl)
