-- ===== src/Scope/Declare.antt =====
-- carbonc/scope.cc: declarations in the current scope.
use carbonlang.Prelude.{
  if◌then◌else◌, ℕ, Bool, true, false, Option, some, none, [], ◌∷◌, ◌++◌, length, get_elem?, ◌==◌,
}
use carbonlang.TypeId.{TypeId}
use carbonlang.Scope.{
  StringHash, SymbolKind, SymbolInfo, Table, lookup, insert, ScopeDef, TypeSystem, update_scope,
  pass_token, ◌>>=◌, current,
}

-- The fields that every declaration sets.
abbrev pub symbol : SymbolKind → StringHash → ℕ → TypeSystem → SymbolInfo
symbol kind hash scope ts = record {
  kind = kind;
  scope = scope;
  id = hash;
  pass_token = pass_token ts;
  local_index = none;
  type_index = none;
  ctvalue = none;
  cttype = none;
}

-- A name that the current scope has is refused; otherwise the scope is changed as given, and
-- perhaps the name of a definition.
abbrev declare_with :
    StringHash
    → (Table StringHash → Table StringHash)
    → (ℕ → ScopeDef → ScopeDef)
    → TypeSystem
    → Option (Bool × TypeSystem)
declare_with hash rename change ts = do
  (i, s) ← current ts
  elim (lookup s.symbols hash.hash) [
    | some info ↦ some (false, ts)
    | none ↦ some (true, record (update_scope i (change i) ts) { names = rename ts.names })
  ]

abbrev same_names : Table StringHash → Table StringHash
same_names t = t

abbrev named : ℕ → StringHash → Table StringHash → Table StringHash
named ld hash t = insert t ld hash

abbrev pub local_symbol : SymbolKind → StringHash → ℕ → ScopeDef → TypeSystem → SymbolInfo
local_symbol kind hash i s ts = record (symbol kind hash i ts) {
  local_index = some (length s.local_defs);
}

abbrev pub with_symbol : StringHash → SymbolInfo → ScopeDef → ScopeDef
with_symbol hash info s = record s { symbols = insert s.symbols hash.hash info }

abbrev pub with_local : SymbolKind → StringHash → ℕ → TypeSystem → ℕ → ScopeDef → ScopeDef
with_local kind hash ld ts i s = record s {
  local_defs = s.local_defs ++ ld ∷ [];
  symbols = insert s.symbols hash.hash (local_symbol kind hash i s ts);
}

unfoldable pub declare_global_symbol : StringHash → ℕ → TypeSystem → Option (Bool × TypeSystem)
declare_global_symbol hash ld ts =
    declare_with hash (named ld hash) (with_local SymbolKind.global hash ld ts) ts

unfoldable pub declare_local_symbol : StringHash → ℕ → TypeSystem → Option (Bool × TypeSystem)
declare_local_symbol hash ld ts =
    declare_with hash (named ld hash) (with_local SymbolKind.local hash ld ts) ts

unfoldable pub declare_top_level_func_symbol :
    StringHash → ℕ → TypeSystem → Option (Bool × TypeSystem)
declare_top_level_func_symbol hash ld ts =
    declare_with hash same_names (with_local SymbolKind.top_level_func hash ld ts) ts

abbrev pub with_type : StringHash → ℕ → TypeSystem → ℕ → ScopeDef → ScopeDef
with_type hash node ts i s = record s {
  symbols =
      insert s.symbols hash.hash
        (record (symbol SymbolKind.type hash i ts) { type_index = some (length s.tdefs) });
  tdefs = s.tdefs ++ node ∷ [];
}

-- It looks for the name in the current scope, but declares it in the scope that it is given.
unfoldable pub declare_type_symbol_in : ℕ → StringHash → ℕ → TypeSystem → Option (Bool × TypeSystem)
declare_type_symbol_in scope hash node ts = do
  (i, s) ← current ts
  elim (lookup s.symbols hash.hash) [
    | some info ↦ some (false, ts)
    | none ↦ some (true, update_scope scope (with_type hash node ts scope) ts)
  ]

unfoldable pub declare_type_symbol : StringHash → ℕ → TypeSystem → Option (Bool × TypeSystem)
unfolding declare_type_symbol_in
declare_type_symbol hash node ts = do (i, s) ← current ts; declare_type_symbol_in i hash node ts

unfoldable pub declare_const_symbol :
    StringHash → ℕ → TypeId → TypeSystem → Option (Bool × TypeSystem)
declare_const_symbol hash value tid ts =
    declare_with hash same_names
      (λ i. with_symbol hash (record (symbol SymbolKind.const_value hash i ts) {
        ctvalue = some value;
        cttype = some tid;
      }))
      ts

unfoldable pub declare_overloaded_func_base_symbol :
    StringHash → TypeSystem → Option (Bool × TypeSystem)
declare_overloaded_func_base_symbol hash ts =
    declare_with hash same_names
      (λ i. with_symbol hash (symbol SymbolKind.overloaded_func_base hash i ts)) ts

unfoldable pub find_symbol_in_current_scope : StringHash → TypeSystem → Option SymbolInfo
find_symbol_in_current_scope hash ts = do (i, s) ← current ts; lookup s.symbols hash.hash

-- A symbol of an earlier pass counts as missing once, and gets the token of this pass.
unfoldable pub find_symbol_in_current_scope_thispass :
    StringHash → TypeSystem → Option (Option SymbolInfo × TypeSystem)
find_symbol_in_current_scope_thispass hash ts = do
  (i, s) ← current ts
  elim (lookup s.symbols hash.hash) [
    | none ↦ some (none, ts)
    | some info ↦
        if info.pass_token == pass_token ts
        then some (some info, ts)
        else some (
          none,
          update_scope i
              (λ s. record s {
                symbols = insert s.symbols hash.hash (record info { pass_token = pass_token ts });
              })
              ts,
        )
  ]

-- `none` for a symbol that has no local definition.
unfoldable pub get_symbol_local : SymbolInfo → TypeSystem → Option ℕ
get_symbol_local sym ts = do
  n ← sym.local_index
  s ← get_elem? ts.scopes sym.scope
  get_elem? s.local_defs n

-- The type that a symbol names.
unfoldable pub get_symbol_type : SymbolInfo → TypeSystem → Option ℕ
get_symbol_type sym ts = do
  n ← sym.type_index
  s ← get_elem? ts.scopes sym.scope
  get_elem? s.tdefs n
