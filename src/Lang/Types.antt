-- ===== src/Lang/Types.antt =====
-- internal/lang/check/types.go: the types of the configuration language. A type is reached through a
-- pointer: the kinds that are told apart by their pointers alone carry a number for it, and
-- the comparison of two pointers, `src == dst`, is an argument.
pub mod Rules
use scampi.Base.{
  ℕ, Bool, true, false, ◌&&◌, ◌||◌, Option, none, some, List, [], ◌∷◌, Bytes, bytes_eq, bytes_beq,
  elem, if◌then◌else◌,
}

-- The fields of structs and the parameters of functions are not read here.
pub data Ty : Type 0 where
  string_type int_type bool_type none_type any_type : Ty
  optional list_of : Ty → Ty
  map_of : Ty → Ty → Ty
  struct_type opaque_type : ℕ → Bytes → Ty
  enum_type : ℕ → Bytes → List Bytes → Ty
  block_type func_type decl_type attr_type : ℕ → Ty

-- The type assertions `src.(*Optional)` and so on.
abbrev pub inner_of : Ty → Option Ty
inner_of (optional t) = some t
inner_of _ = none

abbrev pub elem_of : Ty → Option Ty
elem_of (list_of t) = some t
elem_of _ = none

abbrev pub pair_of : Ty → Option (Ty × Ty)
pair_of (map_of k v) = some (k, v)
pair_of _ = none

abbrev pub struct_name : Ty → Option Bytes
struct_name (struct_type i n) = some n
struct_name _ = none

abbrev pub enum_name : Ty → Option Bytes
enum_name (enum_type i n vs) = some n
enum_name _ = none

abbrev pub opaque_name : Ty → Option Bytes
opaque_name (opaque_type i n) = some n
opaque_name _ = none

abbrev pub is_any : Ty → Bool
is_any any_type = true
is_any _ = false

abbrev pub is_none_type : Ty → Bool
is_none_type none_type = true
is_none_type _ = false

abbrev pub has_name : Bytes → Option Bytes → Bool
has_name n none = false
has_name n (some m) = bytes_beq m n

unfoldable pub has_variant : List Bytes → Bytes → Bool
has_variant variants v = elem variants v

-- `IsAssignableTo`. The clauses are the kinds of `dst`; each tests `src` as the code does.
module _ (same : Ty → Ty → Bool) where
  unfoldable pub is_assignable_to : Ty → Ty → Bool
  is_assignable_to src any_type = same src any_type || true
  is_assignable_to src (optional d) = same src (optional d) || elim (inner_of src) [
    | some s ↦ is_assignable_to s d
    | none ↦ is_none_type src || is_assignable_to src d
  ]
  is_assignable_to src (list_of d) =
      same src (list_of d)
      || elim (elem_of src) [ some s ↦ is_any s || is_assignable_to s d | none ↦ false ]
  is_assignable_to src (map_of k v) = same src (map_of k v) || elim (pair_of src) [
    | some e ↦ is_assignable_to e.0 k && is_assignable_to e.1 v
    | none ↦ false
  ]
  is_assignable_to src (struct_type i n) =
      same src (struct_type i n) || has_name n (struct_name src)
  is_assignable_to src (enum_type i n vs) =
      same src (enum_type i n vs) || has_name n (enum_name src)
  is_assignable_to src (opaque_type i n) =
      same src (opaque_type i n) || has_name n (opaque_name src)
  is_assignable_to src dst = same src dst
