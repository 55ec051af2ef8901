-- ===== src/Lang/Scope/Imports.antt =====
-- The imports that a chain of scopes shows.
use scampi.Base.{
  ◌≡◌, refl, ap, ◌∙◌, inl, inr, Bool, true, false, not, ◌&&◌, Option, none, some, List, [], ◌∷◌,
  ◌++◌, Bytes, bytes_eq, bytes_beq, bytes_beq_iff, elem, lookup, IsMap, insert-IsMap, map,
  if◌then◌else◌, arith, Bool-cases, Option-cases,
}
use scampi.Lang.Scope.{
  Symbol, Scope, outermost, inside, is_import, Gathered, gather_symbol, gather, gather_all,
  all_imports, define, or_symbol,
}

-- Each name has one symbol in each scope.
abbrev pub IsWellFormed : Scope → Type 0
IsWellFormed (outermost m k) = IsMap m
IsWellFormed (inside m k parent) = IsMap m × IsWellFormed parent

pub define-IsWellFormed : (s : Symbol) (c : Scope) → IsWellFormed c → IsWellFormed (define s c).1
unfolding define
define-IsWellFormed s (outermost m k) h = elim (Option-cases (lookup s.name m)) [
  | inl e ↦ rw (e) (insert-IsMap s.name s m h)
  | inr (old, e) ↦ rw (e) h
]
define-IsWellFormed s (inside m k parent) h = elim (Option-cases (lookup s.name m)) [
  | inl e ↦ rw (e) (insert-IsMap s.name s m h.0, h.1)
  | inr (old, e) ↦ rw (e) h
]

abbrev pub only_import : Option Symbol → Option Symbol
only_import none = none
only_import (some s) = if is_import s.kind then some s else none

-- The import of a name in the nearest scope where the name is an import.
abbrev pub import_of : Scope → Bytes → Option Symbol
import_of (outermost m k) name = only_import (lookup name m)
import_of (inside m k parent) name = or_symbol (only_import (lookup name m)) (import_of parent name)

abbrev is_some : Option Symbol → Bool
is_some none = false
is_some (some s) = true

abbrev pub second : Bytes × Symbol → Symbol
second x = x.1

-- What was gathered are the values of a map.
record Gathers (g : Gathered) (f : Bytes → Option Symbol) : Type 0 where
  table : List (Bytes × Symbol)
  listed : g.imports ≡ map second table
  single : IsMap table
  same_seen : (name : Bytes) → elem g.seen name ≡ is_some (lookup name table)
  same_lookup : (name : Bytes) → lookup name table ≡ f name

lookup-append :
    (name key : Bytes) (s : Symbol) (m : List (Bytes × Symbol))
    → lookup name (m ++ (key, s) ∷ [])
      ≡ or_symbol (lookup name m) (if bytes_beq key name then some s else none)
lookup-append name key s [] = refl
lookup-append name key s ((k, t) ∷ m) = ground (arith, lookup-append name key s m)

append-IsMap :
    (key : Bytes) (s : Symbol) (m : List (Bytes × Symbol))
    → IsMap m
    → lookup key m ≡ none
    → IsMap (m ++ (key, s) ∷ [])
append-IsMap key s [] h e = (refl, tt)
append-IsMap key s ((k, t) ∷ m) h e = (
  ground (arith, lookup-append k key s m, bytes_beq_iff k key, bytes_beq_iff key k),
  append-IsMap key s m h.1 (ground arith),
)

map-append :
    (m : List (Bytes × Symbol)) (x : Bytes × Symbol)
    → map second (m ++ x ∷ []) ≡ map second m ++ x.1 ∷ []
map-append [] x = refl
map-append (y ∷ m) x = ap (λ l. y.1 ∷ l) (map-append m x)

Gathers-same :
    (g : Gathered) (f h : Bytes → Option Symbol)
    → Gathers g f
    → ((name : Bytes) → f name ≡ h name)
    → Gathers g h
Gathers-same g f h a e = record {
  table = a.table;
  listed = a.listed;
  single = a.single;
  same_seen = a.same_seen;
  same_lookup = λ n. a.same_lookup n ∙ e n;
}

-- One more symbol, which counts where the name is not known yet.
abbrev with_symbol : Bytes → Symbol → (Bytes → Option Symbol) → Bytes → Option Symbol
with_symbol key s f name =
    or_symbol (f name) (only_import (if bytes_beq key name then some s else none))

gather_symbol-Gathers :
    (key : Bytes) (s : Symbol) (g : Gathered) (f : Bytes → Option Symbol)
    → Gathers g f
    → Gathers (gather_symbol key s g) (with_symbol key s f)
gather_symbol-Gathers key s g f a = elim (Bool-cases (is_import s.kind && not (elem g.seen key))) [
  | inl e ↦ rw (e) record {
    table = a.table ++ (key, s) ∷ [];
    listed = rw (a.listed, map-append a.table (key, s)) refl;
    single = append-IsMap key s a.table a.single (ground (arith, a.same_seen key));
    same_seen = λ n. ground (arith, a.same_seen n, lookup-append n key s a.table);
    same_lookup = λ n. ground (arith, a.same_lookup n, lookup-append n key s a.table);
  }
  | inr e ↦ rw (e) record {
    table = a.table;
    listed = a.listed;
    single = a.single;
    same_seen = a.same_seen;
    same_lookup =
        λ n. ground (arith, a.same_lookup n, a.same_seen n, a.same_seen key, bytes_beq_iff key n);
  }
]

with_symbol-lookup :
    (key : Bytes) (s : Symbol) (m : List (Bytes × Symbol)) (f : Bytes → Option Symbol)
    (name : Bytes)
    → lookup key m ≡ none
    → or_symbol (with_symbol key s f name) (only_import (lookup name m))
      ≡ or_symbol (f name) (only_import (lookup name ((key, s) ∷ m)))
with_symbol-lookup key s m f name e = ground (arith, bytes_beq_iff key name)

gather-Gathers :
    (m : List (Bytes × Symbol)) (g : Gathered) (f : Bytes → Option Symbol)
    → IsMap m
    → Gathers g f
    → Gathers (gather m g) (λ n. or_symbol (f n) (only_import (lookup n m)))
unfolding gather
gather-Gathers [] g f h a = Gathers-same g f _ a (λ n. ground arith)
gather-Gathers ((key, s) ∷ m) g f h a =
    Gathers-same _ _ _
      (gather-Gathers m (gather_symbol key s g) (with_symbol key s f) h.1
        (gather_symbol-Gathers key s g f a))
      (λ n. with_symbol-lookup key s m f n h.0)

gather_all-Gathers :
    (c : Scope) (g : Gathered) (f : Bytes → Option Symbol)
    → IsWellFormed c
    → Gathers g f
    → Gathers (gather_all c g) (λ n. or_symbol (f n) (import_of c n))
unfolding gather_all
gather_all-Gathers (outermost m k) g f h a = gather-Gathers m g f h a
gather_all-Gathers (inside m k parent) g f h a =
    Gathers-same _ _ _ (gather_all-Gathers parent (gather m g) _ h.1 (gather-Gathers m g f h.0 a))
      (λ n. ground arith)

-- Where each scope of a chain has at most one symbol for a name, `AllImports` lists the values of a map, one
-- for each key, and the map gives every name its import in the nearest scope that has the name as an
-- import: symbols of the name that are no imports do not hide it.
pub all_imports-import_of :
    (c : Scope)
    → IsWellFormed c
    → (table : List (Bytes × Symbol)) × (all_imports c ≡ map second table)
      × IsMap table
      × ((name : Bytes) → lookup name table ≡ import_of c name)
unfolding all_imports
all_imports-import_of c h =
    let none_yet : Gathered = record { imports = []; seen = [] } in
    let start : Gathers none_yet (λ n. none) = record {
      table = [];
      listed = refl;
      single = tt;
      same_seen = λ n. refl;
      same_lookup = λ n. refl;
    } in
    let a = gather_all-Gathers c none_yet (λ n. none) h start in
    (a.table, a.listed, a.single, a.same_lookup)
