-- ===== src/Tests/Scoping.antt =====
-- internal/lang/check/scope.go: a function in a file that imports `a` and `b`. A parameter is named `a`, and the
-- function imports another `b`.
use scampi.Base.{
  ℕ, ◌≡◌, refl, true, false, none, some, List, [], ◌∷◌, Bytes, bytes_eq, lookup, IsMap, map,
}
use scampi.Lang.Types.{any_type}
use scampi.Lang.Scope.{
  Symbol, SymbolKind, sym_import, sym_param, Scope, scope_file, scope_func, scope_block, new_scope,
  define, lookup_symbol, public_view, all_imports, allows_mutation,
}
use scampi.Lang.Scope.Imports.{
  IsWellFormed, define-IsWellFormed, import_of, second, all_imports-import_of,
}

abbrev symbol_of : ℕ → SymbolKind → ℕ → Symbol
symbol_of c k start = record {
  name = c ∷ [];
  type = any_type;
  kind = k;
  is_public = false;
  span = record { start = start; end = start };
}

abbrev file_scope : Scope
file_scope =
    (define (symbol_of 98 sym_import 2)
      (define (symbol_of 97 sym_import 1) (new_scope none scope_file)).1).1

abbrev func_scope : Scope
func_scope =
    (define (symbol_of 98 sym_import 4)
      (define (symbol_of 97 sym_param 3) (new_scope (some file_scope) scope_func)).1).1

func_scope-IsWellFormed : IsWellFormed func_scope
unfolding define
func_scope-IsWellFormed =
    define-IsWellFormed (symbol_of 98 sym_import 4)
      (define (symbol_of 97 sym_param 3) (new_scope (some file_scope) scope_func)).1
      (define-IsWellFormed (symbol_of 97 sym_param 3) (new_scope (some file_scope) scope_func) (
        tt,
        define-IsWellFormed (symbol_of 98 sym_import 2)
            (define (symbol_of 97 sym_import 1) (new_scope none scope_file)).1
            (define-IsWellFormed (symbol_of 97 sym_import 1) (new_scope none scope_file) tt),
      ))

both_imports : all_imports func_scope ≡ symbol_of 98 sym_import 4 ∷ symbol_of 97 sym_import 1 ∷ []
unfolding all_imports define
both_imports = refl

param_hides : lookup_symbol func_scope (97 ∷ []) ≡ some (symbol_of 97 sym_param 3)
unfolding lookup_symbol define
param_hides = refl

twice_refused : (define (symbol_of 97 sym_import 5) func_scope).0 ≡ false
unfolding define
twice_refused = refl

nothing_public : lookup_symbol (public_view func_scope) (97 ∷ []) ≡ none
unfolding lookup_symbol public_view define
nothing_public = refl

block_allows : allows_mutation (new_scope (some func_scope) scope_block) ≡ true
unfolding allows_mutation define
block_allows = refl

all_imports-import_of_example :
    (table : List (Bytes × Symbol)) × (all_imports func_scope ≡ map second table)
    × IsMap table
    × ((name : Bytes) → lookup name table ≡ import_of func_scope name)
all_imports-import_of_example = all_imports-import_of func_scope func_scope-IsWellFormed
