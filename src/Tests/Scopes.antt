-- ===== src/Tests/Scopes.antt =====
-- carbonc/scope.cc: the theorems on scopes at concrete ones.
use carbonlang.Prelude.{subst, zero, suc, ◌≡◌, refl, some, none, [], ◌∷◌, arith, codes}
use carbonlang.Scope.{
  StringHash, SymbolKind, SymbolInfo, ScopeKind, ScopeDef, empty_scope, TypeSystem, current,
}
use carbonlang.Scope.Declare.{symbol}
use carbonlang.Scope.Declared.{local, Succeeds, declare_fresh}
use carbonlang.Scope.Find.{find_symbol}
use carbonlang.Scope.Find.Outward.{Before, Finds, IsNested, find_symbol-Finds}

abbrev empty : TypeSystem
empty = record {
  scopes = [];
  current_scope = none;
  module_scopes = [];
  pass = 1;
  subpass = 0;
  names = [];
}

abbrev x : StringHash
x = record { str = codes "x"; hash = 77 }

abbrev y : StringHash
y = record { str = codes "y"; hash = 78 }

abbrev unqualified : StringHash
unqualified = record { str = []; hash = 0 }

abbrev x_info : SymbolInfo
x_info = record (symbol SymbolKind.local x 0 empty) { local_index = some 0 }

abbrev outer_scope : ScopeDef
outer_scope = record (empty_scope ScopeKind.func_body none) {
  local_defs = 5 ∷ [];
  symbols = (77, x_info) ∷ [];
  children = 1 ∷ [];
}

abbrev inner_scope : ScopeDef
inner_scope = empty_scope ScopeKind.block (some 0)

-- A block in a function that declares `x`.
abbrev nested : TypeSystem
nested = record empty { scopes = outer_scope ∷ inner_scope ∷ []; current_scope = some 1 }

abbrev in_function : TypeSystem
in_function = record nested { current_scope = some 0 }

finds_outer : find_symbol unqualified x nested ≡ some x_info
unfolding find_symbol
finds_outer = refl

nested-IsNested : IsNested nested
nested-IsNested zero s h = let e : outer_scope ≡ s = cc in subst (λ t. Before t.parent 0) e tt
nested-IsNested (suc zero) s h =
    let e : inner_scope ≡ s = cc in subst (λ t. Before t.parent 1) e (omega arith)
nested-IsNested (suc (suc i)) s h = ground arith

find_symbol-Finds_example : Finds unqualified x nested (some 1) (find_symbol unqualified x nested)
find_symbol-Finds_example = find_symbol-Finds unqualified x nested nested-IsNested (omega arith)

nested-current : current nested ≡ some (1, inner_scope)
unfolding current
nested-current = refl

in_function-current : current in_function ≡ some (0, outer_scope)
unfolding current
in_function-current = refl

declare_fresh_example : Succeeds (local 6) x nested
declare_fresh_example = declare_fresh x nested 1 inner_scope nested-current (local 6) refl
