-- ===== src/Scope/Find.antt =====
-- carbonc/scope.cc: `find_symbol` looks in the enclosing scopes, from the current one outwards, and
-- in the modules that each of them imports.
pub mod Round
pub mod Outward
use carbonlang.Prelude.{ℕ, zero, suc, Option, some, none, List, [], ◌∷◌, length, get_elem?}
use carbonlang.TypeId.{TypeId}
use carbonlang.Scope.{
  StringHash, SymbolKind, SymbolInfo, lookup, ScopeImport, ScopeDef, TypeSystem, ◌>>=◌,
}

abbrev pub in_scope : ℕ → StringHash → TypeSystem → Option SymbolInfo
in_scope i hash ts = do s ← get_elem? ts.scopes i; lookup s.symbols hash.hash

abbrev pub or_else : {A : Type 0} → Option A → Option A → Option A
or_else none b = b
or_else (some a) b = some a

-- The imports without an alias, up to one whose module is missing.
unfoldable pub find_imported : List ScopeImport → StringHash → TypeSystem → Option SymbolInfo
find_imported [] hash ts = none
find_imported (imp ∷ imps) hash ts =
    let rest = find_imported imps hash ts in
    elim imp.alias [
      | some alias ↦ rest
      | none ↦ elim (lookup ts.module_scopes imp.qual_name.hash) [
        | none ↦ none
        | some module_scope ↦ or_else (in_scope module_scope hash ts) rest
      ]
    ]

unfoldable pub find_qualified : ScopeDef → StringHash → StringHash → TypeSystem → Option SymbolInfo
find_qualified s alias hash ts = do
  n ← lookup s.imports_map alias.hash
  imp ← get_elem? s.imports n
  module_scope ← lookup ts.module_scopes imp.qual_name.hash
  in_scope module_scope hash ts

-- One round of the loop.
unfoldable pub find_here : ScopeDef → StringHash → StringHash → TypeSystem → Option SymbolInfo
unfolding find_imported find_qualified
find_here s alias hash ts = elim alias.str [
  | [] ↦ or_else (lookup s.symbols hash.hash) (find_imported s.imports hash ts)
  | c ∷ cs ↦ find_qualified s alias hash ts
]

unfoldable pub find_from : ℕ → Option ℕ → StringHash → StringHash → TypeSystem → Option SymbolInfo
unfolding find_here
find_from n none alias hash ts = none
find_from zero (some i) alias hash ts = none
find_from (suc n) (some i) alias hash ts = do
  s ← get_elem? ts.scopes i
  or_else (find_here s alias hash ts) (find_from n s.parent alias hash ts)

unfoldable pub find_symbol : StringHash → StringHash → TypeSystem → Option SymbolInfo
unfolding find_from
find_symbol alias hash ts = find_from (length ts.scopes) ts.current_scope alias hash ts

abbrev type_of : SymbolKind → SymbolInfo → TypeId
type_of SymbolKind.type sym = record { scope = some sym.scope; type_index = sym.type_index }
type_of _ sym = record { scope = none; type_index = none }

unfoldable pub find_type_by_id_hash : StringHash → StringHash → TypeSystem → TypeId
unfolding find_symbol
find_type_by_id_hash alias hash ts = elim (find_symbol alias hash ts) [
  | some sym ↦ type_of sym.kind sym
  | none ↦ record { scope = none; type_index = none }
]
