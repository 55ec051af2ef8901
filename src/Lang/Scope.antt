-- ===== src/Lang/Scope.antt =====
-- internal/lang/check/scope.go: the chain of scopes. A pointer to a scope is its value; a map of symbols is an
-- association list, in whose order it is iterated.
pub mod Imports
use scampi.Base.{
  Bool, true, false, not, ◌&&◌, Option, none, some, List, [], ◌∷◌, ◌++◌, Bytes, bytes_eq, elem,
  lookup, insert, if◌then◌else◌,
}
use scampi.Lang.Parse.{Span}
use scampi.Lang.Types.{Ty}

pub data ScopeKind : Type 0 where
  scope_file : ScopeKind
  scope_func : ScopeKind
  scope_decl : ScopeKind
  scope_block : ScopeKind

pub data SymbolKind : Type 0 where
  sym_let : SymbolKind
  sym_param : SymbolKind
  sym_func : SymbolKind
  sym_decl : SymbolKind
  sym_type : SymbolKind
  sym_enum : SymbolKind
  sym_import : SymbolKind
  sym_attr_type : SymbolKind

pub record Symbol : Type 0 where
  pub name : Bytes
  pub type : Ty
  pub kind : SymbolKind
  pub is_public : Bool
  pub span : Span

-- `outermost` has no parent.
pub data Scope : Type 0 where
  outermost : List (Bytes × Symbol) → ScopeKind → Scope
  inside : List (Bytes × Symbol) → ScopeKind → Scope → Scope

abbrev pub symbols : Scope → List (Bytes × Symbol)
symbols (outermost m k) = m
symbols (inside m k parent) = m

abbrev pub kind_of : Scope → ScopeKind
kind_of (outermost m k) = k
kind_of (inside m k parent) = k

abbrev pub new_scope : Option Scope → ScopeKind → Scope
new_scope none k = outermost [] k
new_scope (some parent) k = inside [] k parent

abbrev with_symbols : List (Bytes × Symbol) → Scope → Scope
with_symbols m (outermost old k) = outermost m k
with_symbols m (inside old k parent) = inside m k parent

abbrev define_in : Option Symbol → Symbol → Scope → Bool × Scope
define_in (some old) sym s = (false, s)
define_in none sym s = (true, with_symbols (insert sym.name sym (symbols s)) s)

unfoldable pub define : Symbol → Scope → Bool × Scope
define sym s = define_in (lookup sym.name (symbols s)) sym s

abbrev pub or_symbol : Option Symbol → Option Symbol → Option Symbol
or_symbol (some sym) other = some sym
or_symbol none other = other

unfoldable pub lookup_symbol : Scope → Bytes → Option Symbol
lookup_symbol (outermost m k) name = lookup name m
lookup_symbol (inside m k parent) name = or_symbol (lookup name m) (lookup_symbol parent name)

abbrev pub public_symbols : List (Bytes × Symbol) → List (Bytes × Symbol)
public_symbols [] = []
public_symbols ((name, sym) ∷ m) =
    if sym.is_public then (name, sym) ∷ public_symbols m else public_symbols m

unfoldable pub public_view : Scope → Scope
public_view s = outermost (public_symbols (symbols s)) (kind_of s)

abbrev pub is_import : SymbolKind → Bool
is_import sym_import = true
is_import _ = false

pub record Gathered : Type 0 where
  pub imports : List Symbol
  pub seen : List Bytes

abbrev pub gather_symbol : Bytes → Symbol → Gathered → Gathered
gather_symbol name sym g =
    if is_import sym.kind && not (elem g.seen name)
    then record { imports = g.imports ++ sym ∷ []; seen = name ∷ g.seen }
    else g

-- The loop over the symbols of one scope.
unfoldable pub gather : List (Bytes × Symbol) → Gathered → Gathered
gather [] g = g
gather ((name, sym) ∷ m) g = gather m (gather_symbol name sym g)

-- The loop over the chain.
unfoldable pub gather_all : Scope → Gathered → Gathered
unfolding gather
gather_all (outermost m k) g = gather m g
gather_all (inside m k parent) g = gather_all parent (gather m g)

unfoldable pub all_imports : Scope → List Symbol
unfolding gather_all
all_imports s = (gather_all s (record { imports = []; seen = [] })).imports

unfoldable pub allows_mutation : Scope → Bool
allows_mutation (outermost m scope_func) = true
allows_mutation (outermost m scope_decl) = true
allows_mutation (outermost m _) = false
allows_mutation (inside m scope_func parent) = true
allows_mutation (inside m scope_decl parent) = true
allows_mutation (inside m scope_block parent) = allows_mutation parent
allows_mutation (inside m scope_file parent) = false
