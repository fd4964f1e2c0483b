-- ===== src/Scope/Declared.antt =====
-- carbonc/scope.cc: what each of the six kinds of declaration does to the current scope.
use carbonlang.Prelude.{
  ℕ, ◌≡◌, refl, sym, ap, ◌∙◌, Bool, true, false, Option, some, none, arith, List, length, get_elem?,
  ◌==◌,
}
use carbonlang.TypeId.{TypeId}
use carbonlang.Scope.{
  StringHash, SymbolKind, SymbolInfo, lookup, insert, ScopeDef, TypeSystem, update_at, update_scope,
  pass_token, current, ◌>>=◌,
}
use carbonlang.Scope.Tables.{
  lookup-insert, lookup-insert_other, get_elem?-update_at, get_elem?-last,
}
use carbonlang.Scope.Declare.{
  with_local, local_symbol, with_symbol, with_type, symbol, declare_global_symbol,
  declare_local_symbol, declare_top_level_func_symbol, declare_type_symbol, declare_type_symbol_in,
  declare_const_symbol, declare_overloaded_func_base_symbol, find_symbol_in_current_scope,
  get_symbol_local, get_symbol_type,
}

pub data Declaration : Type 0 where
  global local func type : ℕ → Declaration
  const : ℕ → TypeId → Declaration
  overloaded : Declaration

unfoldable pub declare : Declaration → StringHash → TypeSystem → Option (Bool × TypeSystem)
unfolding declare_global_symbol declare_local_symbol declare_top_level_func_symbol
    declare_type_symbol declare_type_symbol_in declare_const_symbol
    declare_overloaded_func_base_symbol
declare (global ld) hash ts = declare_global_symbol hash ld ts
declare (local ld) hash ts = declare_local_symbol hash ld ts
declare (func ld) hash ts = declare_top_level_func_symbol hash ld ts
declare (type node) hash ts = declare_type_symbol hash node ts
declare (const value tid) hash ts = declare_const_symbol hash value tid ts
declare overloaded hash ts = declare_overloaded_func_base_symbol hash ts

abbrev pub kind_of : Declaration → SymbolKind
kind_of (global ld) = SymbolKind.global
kind_of (local ld) = SymbolKind.local
kind_of (func ld) = SymbolKind.top_level_func
kind_of (type node) = SymbolKind.type
kind_of (const value tid) = SymbolKind.const_value
kind_of overloaded = SymbolKind.overloaded_func_base

-- A symbol leads back to what was declared.
abbrev pub LeadsTo : Declaration → SymbolInfo → TypeSystem → Type 0
LeadsTo (global ld) info ts = get_symbol_local info ts ≡ some ld
LeadsTo (local ld) info ts = get_symbol_local info ts ≡ some ld
LeadsTo (func ld) info ts = get_symbol_local info ts ≡ some ld
LeadsTo (type node) info ts = get_symbol_type info ts ≡ some node
LeadsTo (const value tid) info ts = (info.ctvalue ≡ some value) × (info.cttype ≡ some tid)
LeadsTo overloaded info ts = Unit

pub record IsDeclared (d : Declaration) (hash : StringHash) (ts ts' : TypeSystem) : Type 0 where
  pub info : SymbolInfo
  pub found : find_symbol_in_current_scope hash ts' ≡ some info
  pub kind : info.kind ≡ kind_of d
  pub token : info.pass_token ≡ pass_token ts
  pub leads_to : LeadsTo d info ts'
  pub others :
      (other : StringHash)
      → (hash.hash == other.hash) ≡ false
      → find_symbol_in_current_scope other ts' ≡ find_symbol_in_current_scope other ts

pub record Succeeds (d : Declaration) (hash : StringHash) (ts : TypeSystem) : Type 0 where
  pub after : TypeSystem
  pub result : declare d hash ts ≡ some (true, after)
  pub declared : IsDeclared d hash ts after

abbrev scoped : ℕ → ScopeDef → Option (ℕ × ScopeDef)
scoped i s = some (i, s)

module _ (i : ℕ) (s : ScopeDef) where
  opened_two :
      (j : ℕ) (o : Option ScopeDef) → (o >>= scoped j) ≡ some (i, s) → (j ≡ i) × (o ≡ some s)
  opened_two j none h = ground arith
  opened_two j (some x) h = (cc, cc)

  opened_one :
      (c : Option ℕ) (scopes : List ScopeDef)
      → (c >>= λ j. get_elem? scopes j >>= scoped j) ≡ some (i, s)
      → (c ≡ some i) × (get_elem? scopes i ≡ some s)
  opened_one none scopes h = ground arith
  opened_one (some j) scopes h =
      let (e, f) = opened_two j (get_elem? scopes j) h in
      (ap some e, ap (get_elem? scopes) (sym e) ∙ f)

module _ (hash : StringHash) (ts : TypeSystem) (i : ℕ) (s : ScopeDef)
    (here : current ts ≡ some (i, s)) where
  is_current : (ts.current_scope ≡ some i) × (get_elem? ts.scopes i ≡ some s)
  unfolding current
  is_current = opened_one i s ts.current_scope ts.scopes here

  current_updated :
      (ts' : TypeSystem) (c : ScopeDef → ScopeDef)
      → ts'.current_scope ≡ ts.current_scope
      → ts'.scopes ≡ update_at ts.scopes i c
      → (current ts' ≡ some (i, c s)) × (get_elem? ts'.scopes i ≡ some (c s))
  unfolding current
  current_updated ts' c hc hs =
      let at : get_elem? ts'.scopes i ≡ some (c s) =
        ap (λ x. get_elem? x i) hs ∙ get_elem?-update_at ts.scopes i c s is_current.1 in
      (rw (hc, is_current.0, at) refl, at)

  find_in :
      (ts' : TypeSystem) (other : StringHash) (s' : ScopeDef)
      → current ts' ≡ some (i, s')
      → find_symbol_in_current_scope other ts' ≡ lookup s'.symbols other.hash
  unfolding find_symbol_in_current_scope
  find_in ts' other s' e = rw e refl

  -- The change of the table, with everything that follows from it alone.
  IsDeclared-by :
      (d : Declaration) (ts' : TypeSystem) (c : ScopeDef → ScopeDef) (info : SymbolInfo)
      → ts'.current_scope ≡ ts.current_scope
      → ts'.scopes ≡ update_at ts.scopes i c
      → (c s).symbols ≡ insert s.symbols hash.hash info
      → info.kind ≡ kind_of d
      → info.pass_token ≡ pass_token ts
      → LeadsTo d info ts'
      → IsDeclared d hash ts ts'
  IsDeclared-by d ts' c info hc hs table kind token leads =
      let now = (current_updated ts' c hc hs).0 in
      record {
        info = info;
        found =
            find_in ts' hash (c s) now
            ∙ ap (λ t. lookup t hash.hash) table
            ∙ lookup-insert s.symbols hash.hash info;
        kind = kind;
        token = token;
        leads_to = leads;
        others = λ other e.
            find_in ts' other (c s) now
            ∙ ap (λ t. lookup t other.hash) table
            ∙ lookup-insert_other s.symbols hash.hash other.hash info e
            ∙ sym (find_in ts other s here);
      }

  -- A name that the current scope does not have is declared there: it is found afterwards, with
  -- its kind and the token of the current pass, and leads to the node (or the constant) that was
  -- declared; names with other hashes are found as before.
  pub declare_fresh : (d : Declaration) → lookup s.symbols hash.hash ≡ none → Succeeds d hash ts
  unfolding declare declare_global_symbol declare_local_symbol declare_top_level_func_symbol
      declare_type_symbol declare_type_symbol_in declare_const_symbol
      declare_overloaded_func_base_symbol get_symbol_local get_symbol_type
  declare_fresh (global ld) h =
      let c = with_local SymbolKind.global hash ld ts i in
      let after : TypeSystem = record (update_scope i c ts) { names = insert ts.names ld hash } in
      record {
        after = after;
        result = rw (here, ◌>>=◌, h) refl;
        declared =
            IsDeclared-by (global ld) after c (local_symbol SymbolKind.global hash i s ts) refl refl
              refl refl refl
              (rw (current_updated after c refl refl).1 (get_elem?-last s.local_defs ld));
      }
  declare_fresh (local ld) h =
      let c = with_local SymbolKind.local hash ld ts i in
      let after : TypeSystem = record (update_scope i c ts) { names = insert ts.names ld hash } in
      record {
        after = after;
        result = rw (here, ◌>>=◌, h) refl;
        declared =
            IsDeclared-by (local ld) after c (local_symbol SymbolKind.local hash i s ts) refl refl
              refl refl refl
              (rw (current_updated after c refl refl).1 (get_elem?-last s.local_defs ld));
      }
  declare_fresh (func ld) h =
      let c = with_local SymbolKind.top_level_func hash ld ts i in
      let after : TypeSystem = record (update_scope i c ts) { names = ts.names } in
      record {
        after = after;
        result = rw (here, ◌>>=◌, h) refl;
        declared =
            IsDeclared-by (func ld) after c (local_symbol SymbolKind.top_level_func hash i s ts)
              refl refl refl refl refl
              (rw (current_updated after c refl refl).1 (get_elem?-last s.local_defs ld));
      }
  declare_fresh (type node) h =
      let c = with_type hash node ts i in
      let after = update_scope i c ts in
      record {
        after = after;
        result = rw (here, ◌>>=◌, h) refl;
        declared =
            IsDeclared-by (type node) after c
              (record (symbol SymbolKind.type hash i ts) { type_index = some (length s.tdefs) })
              refl refl refl refl refl
              (rw (current_updated after c refl refl).1 (get_elem?-last s.tdefs node));
      }
  declare_fresh (const value tid) h =
      let c = with_symbol hash (record (symbol SymbolKind.const_value hash i ts) {
        ctvalue = some value;
        cttype = some tid;
      }) in
      record {
        after = update_scope i c ts;
        result = rw (here, ◌>>=◌, h) refl;
        declared =
            IsDeclared-by (const value tid) (update_scope i c ts) c _ refl refl refl refl refl
              (refl, refl);
      }
  declare_fresh overloaded h =
      let c = with_symbol hash (symbol SymbolKind.overloaded_func_base hash i ts) in
      record {
        after = update_scope i c ts;
        result = rw (here, ◌>>=◌, h) refl;
        declared = IsDeclared-by overloaded (update_scope i c ts) c _ refl refl refl refl refl tt;
      }
