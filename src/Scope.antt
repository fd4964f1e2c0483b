-- ===== src/Scope.antt =====
-- carbonc/scope.cc, with the records of carbonc/type_system.hh that it works on: nested scopes and
-- their tables of symbols. A scope is named by its place in the store of scopes, a node by a number.
pub mod Tables
pub mod Declare
pub mod Declared
pub mod Find
use carbonlang.Prelude.{
  ℕ, zero, suc, ◌+◌, ◌*◌, Bool, true, false, Option, some, none, List, [], ◌∷◌, ◌++◌, Bytes, length,
  get_elem?, ◌==◌, if◌then◌else◌,
}
use carbonlang.TypeId.{TypeId}

-- `operator ==` compares the hashes, and so do the hash tables.
pub record StringHash : Type 0 where
  pub str : Bytes
  pub hash : ℕ

pub data SymbolKind : Type 0 where
  global local top_level_func overloaded_func_base type const_value : SymbolKind

pub data ScopeKind : Type 0 where
  invalid builtin module_ func_body block type_scope : ScopeKind

-- An index of -1 is `none`.
pub record SymbolInfo : Type 0 where
  pub kind : SymbolKind
  pub scope : ℕ
  pub id : StringHash
  pub pass_token : ℕ
  pub local_index : Option ℕ
  pub type_index : Option ℕ
  pub ctvalue : Option ℕ
  pub cttype : Option TypeId

-- A hash table with keys of that kind.
abbrev pub Table : Type 0 → Type 0
Table A = List (ℕ × A)

abbrev pub lookup : {A : Type 0} → Table A → ℕ → Option A
lookup [] k = none
lookup ((j, a) ∷ t) k = if j == k then some a else lookup t k

-- `t[k] = a`
abbrev pub insert : {A : Type 0} → Table A → ℕ → A → Table A
insert [] k a = (k, a) ∷ []
insert ((j, b) ∷ t) k a = let rest = insert t k a in if j == k then (k, a) ∷ t else (j, b) ∷ rest

pub record ScopeImport : Type 0 where
  pub qual_name : StringHash
  pub alias : Option StringHash

pub record ScopeDef : Type 0 where
  pub kind : ScopeKind
  pub tdefs : List ℕ
  pub local_defs : List ℕ
  pub imports : List ScopeImport
  pub symbols : Table SymbolInfo
  pub imports_map : Table ℕ
  pub children : List ℕ
  pub parent : Option ℕ

abbrev pub empty_scope : ScopeKind → Option ℕ → ScopeDef
empty_scope k p = record {
  kind = k;
  tdefs = [];
  local_defs = [];
  imports = [];
  symbols = [];
  imports_map = [];
  children = [];
  parent = p;
}

-- What the scopes are to the type system. `names` holds what a declaration writes to `ld.local`.
pub record TypeSystem : Type 0 where
  pub scopes : List ScopeDef
  pub current_scope : Option ℕ
  pub module_scopes : Table ℕ
  pub pass : ℕ
  pub subpass : ℕ
  pub names : Table StringHash

abbrev pub update_at : {A : Type 0} → List A → ℕ → (A → A) → List A
update_at [] i f = []
update_at (x ∷ xs) zero f = f x ∷ xs
update_at (x ∷ xs) (suc i) f = x ∷ update_at xs i f

abbrev pub update_scope : ℕ → (ScopeDef → ScopeDef) → TypeSystem → TypeSystem
update_scope i f ts = record ts { scopes = update_at ts.scopes i f }

abbrev pub pass_token : TypeSystem → ℕ
pass_token ts = ts.pass * 1000 + ts.subpass

infixl 5 ◌>>=◌
abbrev pub ◌>>=◌ {ℓ κ} : {A : Type ℓ} {B : Type κ} → Option A → (A → Option B) → Option B
none >>= f = none
some a >>= f = f a

-- `none` where the program would use a null pointer.
unfoldable pub current : TypeSystem → Option (ℕ × ScopeDef)
current ts = do i ← ts.current_scope; s ← get_elem? ts.scopes i; some (i, s)

abbrev add_child : Option ℕ → ℕ → List ScopeDef → List ScopeDef
add_child none child scopes = scopes
add_child (some p) child scopes =
    update_at scopes p (λ s. record s { children = s.children ++ child ∷ [] })

-- A module scope is registered under the key that is made from the module's path.
unfoldable pub add_scope : ScopeKind → Option ℕ → TypeSystem → TypeSystem
add_scope k module_key ts =
    let self = length ts.scopes in
    record ts {
      scopes = add_child ts.current_scope self ts.scopes ++ empty_scope k ts.current_scope ∷ [];
      current_scope = some self;
      module_scopes = elim module_key [
        | some key ↦ insert ts.module_scopes key self
        | none ↦ ts.module_scopes
      ];
    }

unfoldable pub enter_scope_local : ℕ → TypeSystem → TypeSystem
enter_scope_local node_scope ts =
    record (update_scope node_scope (λ s. record s { parent = ts.current_scope }) ts) {
      current_scope = some node_scope;
    }

unfoldable pub leave_scope_local : TypeSystem → Option TypeSystem
unfolding current
leave_scope_local ts = do (i, s) ← current ts; some (record ts { current_scope = s.parent })

abbrev pub is_kind : ScopeKind → ScopeKind → Bool
is_kind invalid invalid = true
is_kind builtin builtin = true
is_kind module_ module_ = true
is_kind func_body func_body = true
is_kind block block = true
is_kind type_scope type_scope = true
is_kind _ _ = false

-- The loop over enclosing scopes, on fuel: the number of scopes.
unfoldable pub find_nearest : ℕ → List ScopeDef → ScopeKind → Option ℕ → Option ℕ
find_nearest n scopes kind none = none
find_nearest zero scopes kind (some i) = none
find_nearest (suc n) scopes kind (some i) = do
  s ← get_elem? scopes i
  let rest = find_nearest n scopes kind s.parent
  if is_kind s.kind kind then some i else rest

unfoldable pub find_nearest_scope_local : ScopeKind → TypeSystem → Option ℕ
unfolding find_nearest
find_nearest_scope_local kind ts = find_nearest (length ts.scopes) ts.scopes kind ts.current_scope
