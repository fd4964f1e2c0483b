-- ===== src/Scope/Find/Outward.antt =====
-- carbonc/scope.cc, `find_symbol`: what a search from a scope outwards gives.
use carbonlang.Prelude.{
  ℕ, zero, suc, ◌<◌, ◌≡◌, subst, inl, inr, Option, some, none, arith, length, get_elem?,
  Option-cases,
}
use carbonlang.Scope.{StringHash, SymbolInfo, ScopeDef, TypeSystem, ◌>>=◌}
use carbonlang.Scope.Find.{or_else, find_here, find_from, find_symbol}
use carbonlang.Scope.Find.Round.{Gives, find_here-Gives}

abbrev pub Before : Option ℕ → ℕ → Type 0
Before none i = Unit
Before (some p) i = p < i

-- A scope's parent was made before it.
abbrev pub IsNested : TypeSystem → Type 0
IsNested ts = (i : ℕ) (s : ScopeDef) → get_elem? ts.scopes i ≡ some s → Before s.parent i

Before-trans : (start : Option ℕ) (i n : ℕ) → Before start i → i < suc n → Before start n
Before-trans none i n h k = tt
Before-trans (some p) i n h k = omega arith

-- What a search from a scope outwards gives: the first scope that gives something for the name
-- decides, and a name that no enclosing scope gives anything for is not found.
pub data Finds (alias hash : StringHash) (ts : TypeSystem)
    : Option ℕ → Option SymbolInfo → Type 0 where
  outside : Finds alias hash ts none none
  no_scope : (i : ℕ) → get_elem? ts.scopes i ≡ none → Finds alias hash ts (some i) none
  here :
      (i : ℕ) (s : ScopeDef) (info : SymbolInfo)
      → get_elem? ts.scopes i ≡ some s
      → Gives s alias hash ts (some info)
      → Finds alias hash ts (some i) (some info)
  outer :
      (i : ℕ) (s : ScopeDef) (r : Option SymbolInfo)
      → get_elem? ts.scopes i ≡ some s
      → Gives s alias hash ts none
      → Finds alias hash ts s.parent r
      → Finds alias hash ts (some i) r

find_from-Finds :
    (n : ℕ) (start : Option ℕ) (alias hash : StringHash) (ts : TypeSystem)
    → IsNested ts
    → Before start n
    → Finds alias hash ts start (find_from n start alias hash ts)
unfolding find_from
find_from-Finds n none alias hash ts nested hn = outside
find_from-Finds zero (some i) alias hash ts nested hn = ground arith
find_from-Finds (suc n) (some i) alias hash ts nested hn =
    elim (Option-cases (get_elem? ts.scopes i)) [
      | inl e ↦ rw (e, ◌>>=◌) (no_scope i e)
      | inr (s, e) ↦
          let gives = find_here-Gives s alias hash ts in
          elim (Option-cases (find_here s alias hash ts)) [
            | inl missing ↦
                rw (e, ◌>>=◌, missing, or_else)
                  (outer i s _ e (subst (Gives s alias hash ts) missing gives) (
                    find_from-Finds n s.parent alias hash ts nested
                      (Before-trans s.parent i n (nested i s e) hn)))
            | inr (info, found) ↦
                rw (e, ◌>>=◌, found, or_else)
                  (here i s info e (subst (Gives s alias hash ts) found gives))
          ]
    ]

-- Where parents were made before their children, a search from the current scope ends, and the
-- innermost enclosing scope that gives something for the name decides: without a qualifier its own
-- symbol, or that of the first module that it imports without an alias and that has the name, unless
-- a module before it is missing; with a qualifier the symbol of the module that the scope imports
-- under that alias. If no enclosing scope gives anything, nothing is found.
pub find_symbol-Finds :
    (alias hash : StringHash) (ts : TypeSystem)
    → IsNested ts
    → Before ts.current_scope (length ts.scopes)
    → Finds alias hash ts ts.current_scope (find_symbol alias hash ts)
unfolding find_symbol
find_symbol-Finds alias hash ts nested inside =
    find_from-Finds (length ts.scopes) ts.current_scope alias hash ts nested inside
