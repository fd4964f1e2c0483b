-- ===== src/Scope/Find/Round.antt =====
-- carbonc/scope.cc, `find_symbol`: what one scope gives for a name.
use carbonlang.Prelude.{
  ℕ, suc, ◌≡◌, ◌≢◌, ◌⊎◌, refl, sym, subst, inl, inr, Option, some, none, List, [], ◌∷◌, Bytes, All,
  take, arith, get_elem?, Option-cases,
}
use carbonlang.Scope.{StringHash, SymbolInfo, lookup, ScopeImport, ScopeDef, TypeSystem, ◌>>=◌}
use carbonlang.Scope.Find.{in_scope, or_else, find_imported, find_qualified, find_here}

-- The scope at the index has the name.
abbrev pub Has : ℕ → StringHash → TypeSystem → SymbolInfo → Type 0
Has i hash ts info =
    (s : ScopeDef) × (get_elem? ts.scopes i ≡ some s) × (lookup s.symbols hash.hash ≡ some info)

-- The import with the module that it names, by its scope.
abbrev pub IsImport : ScopeImport → TypeSystem → ℕ → Type 0
IsImport imp ts m = lookup ts.module_scopes imp.qual_name.hash ≡ some m

-- An import that a name without a qualifier is not found in: it has an alias, or its module is there
-- and lacks the name.
abbrev pub Skips : StringHash → TypeSystem → ScopeImport → Type 0
Skips hash ts imp =
    ((alias : StringHash) × (imp.alias ≡ some alias))
    ⊎ ((imp.alias ≡ none)
        × ((m : ℕ) × IsImport imp ts m × ((info : SymbolInfo) → ¬ Has m hash ts info)))

-- What the imports give for a name without a qualifier: the first import without an alias whose
-- module has it decides; a module that is missing ends the search.
pub data Imports (hash : StringHash) (ts : TypeSystem) (imps : List ScopeImport)
    : Option SymbolInfo → Type 0 where
  imported :
      (n : ℕ) (imp : ScopeImport) (m : ℕ) (info : SymbolInfo)
      → get_elem? imps n ≡ some imp
      → All (Skips hash ts) (take n imps)
      → imp.alias ≡ none
      → IsImport imp ts m
      → Has m hash ts info
      → Imports hash ts imps (some info)
  missing_module :
      (n : ℕ) (imp : ScopeImport)
      → get_elem? imps n ≡ some imp
      → All (Skips hash ts) (take n imps)
      → imp.alias ≡ none
      → lookup ts.module_scopes imp.qual_name.hash ≡ none
      → Imports hash ts imps none
  not_imported : All (Skips hash ts) imps → Imports hash ts imps none

-- The qualifier names an import of the scope, whose module has the name.
abbrev pub HasQualified : ScopeDef → StringHash → StringHash → TypeSystem → SymbolInfo → Type 0
HasQualified s alias hash ts info =
    (n : ℕ) × (imp : ScopeImport) × (m : ℕ) × (lookup s.imports_map alias.hash ≡ some n)
    × (get_elem? s.imports n ≡ some imp)
    × IsImport imp ts m
    × Has m hash ts info

-- What one scope gives for a name, which has a qualifier or not.
pub data Gives (s : ScopeDef) (alias hash : StringHash) (ts : TypeSystem)
    : Option SymbolInfo → Type 0 where
  own :
      (info : SymbolInfo)
      → alias.str ≡ []
      → lookup s.symbols hash.hash ≡ some info
      → Gives s alias hash ts (some info)
  by_import :
      (r : Option SymbolInfo)
      → alias.str ≡ []
      → lookup s.symbols hash.hash ≡ none
      → Imports hash ts s.imports r
      → Gives s alias hash ts r
  qualified :
      (info : SymbolInfo)
      → alias.str ≢ []
      → HasQualified s alias hash ts info
      → Gives s alias hash ts (some info)
  not_qualified :
      alias.str ≢ []
      → ((info : SymbolInfo) → ¬ HasQualified s alias hash ts info)
      → Gives s alias hash ts none

in_scope-Has :
    (i : ℕ) (hash : StringHash) (ts : TypeSystem) (info : SymbolInfo)
    → in_scope i hash ts ≡ some info
    → Has i hash ts info
in_scope-Has i hash ts info h = elim (Option-cases (get_elem? ts.scopes i)) [
  | inl gone ↦ ground (arith, rw (gone, ◌>>=◌) at h)
  | inr (s, e) ↦ (s, e, rw (e, ◌>>=◌) at h)
]

in_scope-none :
    (i : ℕ) (hash : StringHash) (ts : TypeSystem)
    → in_scope i hash ts ≡ none
    → (info : SymbolInfo) → ¬ Has i hash ts info
in_scope-none i hash ts h info (s, e, f) = ground (arith, f, rw (e, ◌>>=◌) at h)

Imports-cons :
    (hash : StringHash) (ts : TypeSystem) (imp : ScopeImport) (imps : List ScopeImport)
    (r : Option SymbolInfo)
    → Skips hash ts imp
    → Imports hash ts imps r
    → Imports hash ts (imp ∷ imps) r
Imports-cons hash ts imp imps _ k (imported n i m info e a u p h) =
    imported (suc n) i m info e (k, a) u p h
Imports-cons hash ts imp imps _ k (missing_module n i e a u p) =
    missing_module (suc n) i e (k, a) u p
Imports-cons hash ts imp imps _ k (not_imported a) = not_imported (k, a)

find_imported-Imports :
    (imps : List ScopeImport) (hash : StringHash) (ts : TypeSystem)
    → Imports hash ts imps (find_imported imps hash ts)
unfolding find_imported
find_imported-Imports [] hash ts = not_imported tt
find_imported-Imports (imp ∷ imps) hash ts =
    let rest = find_imported-Imports imps hash ts in
    let is : (r : Option SymbolInfo)
        → find_imported (imp ∷ imps) hash ts ≡ r
        → Imports hash ts (imp ∷ imps) r
        → Imports hash ts (imp ∷ imps) (find_imported (imp ∷ imps) hash ts) =
      λ r e h. subst (Imports hash ts (imp ∷ imps)) (sym e) h in
    elim (Option-cases imp.alias) [
      | inr (alias, e) ↦ is _ (rw e refl) (Imports-cons hash ts imp imps _ (inl (alias, e)) rest)
      | inl e ↦ elim (Option-cases (lookup ts.module_scopes imp.qual_name.hash)) [
        | inl gone ↦ is none (rw (e, gone) refl) (missing_module 0 imp refl tt e gone)
        | inr (m, p) ↦ elim (Option-cases (in_scope m hash ts)) [
          | inr (info, found) ↦
              is (some info) (rw (e, p, found, or_else) refl)
                (imported 0 imp m info refl tt e p (in_scope-Has m hash ts info found))
          | inl lacking ↦ is (find_imported imps hash ts) (rw (e, p, lacking, or_else) refl) (
              Imports-cons hash ts imp imps _ (inr (e, (m, p, in_scope-none m hash ts lacking)))
                rest)
        ]
      ]
    ]

find_qualified-Gives :
    (s : ScopeDef) (alias hash : StringHash) (ts : TypeSystem)
    → alias.str ≢ []
    → Gives s alias hash ts (find_qualified s alias hash ts)
unfolding find_qualified
find_qualified-Gives s alias hash ts q = elim (Option-cases (lookup s.imports_map alias.hash)) [
  | inl gone ↦
      rw (gone, ◌>>=◌) (not_qualified q λ info (n, imp, m, e, f, p, h). ground (arith, gone, e))
  | inr (n, e) ↦ elim (Option-cases (get_elem? s.imports n)) [
    | inl gone ↦ rw (e, ◌>>=◌, gone) (not_qualified q λ info (n', imp, m, e', f, p, h). cc)
    | inr (imp, f) ↦ elim (Option-cases (lookup ts.module_scopes imp.qual_name.hash)) [
      | inl gone ↦ rw (e, ◌>>=◌, f, gone) (not_qualified q λ info (n', imp', m, e', f', p, h). cc)
      | inr (m, p) ↦ elim (Option-cases (in_scope m hash ts)) [
        | inl lacking ↦
            rw (e, ◌>>=◌, f, p, lacking) (not_qualified q λ info (n', imp', m', e', f', p', h). cc)
        | inr (info, found) ↦
            rw (e, ◌>>=◌, f, p, found)
              (qualified info q (n, imp, m, e, f, p, in_scope-Has m hash ts info found))
      ]
    ]
  ]
]

List-cases {ℓ} : {A : Type ℓ} (xs : List A) → (xs ≡ []) ⊎ (xs ≢ [])
List-cases [] = inl refl
List-cases (x ∷ xs) = inr cc

unqualified_round :
    (s : ScopeDef) (alias hash : StringHash) (ts : TypeSystem)
    → alias.str ≡ []
    → find_here s alias hash ts
      ≡ or_else (lookup s.symbols hash.hash) (find_imported s.imports hash ts)
unfolding find_here
unqualified_round s alias hash ts e = rw e refl

qualified_round :
    (s : ScopeDef) (alias hash : StringHash) (ts : TypeSystem)
    → alias.str ≢ []
    → find_here s alias hash ts ≡ find_qualified s alias hash ts
unfolding find_here
qualified_round s alias hash ts q = go alias.str q
  where
    go :
        (str : Bytes)
        → str ≢ []
        → (elim str [
          | [] ↦ or_else (lookup s.symbols hash.hash) (find_imported s.imports hash ts)
          | c ∷ cs ↦ find_qualified s alias hash ts
        ])
          ≡ find_qualified s alias hash ts
    go [] n = absurd (n refl)
    go (c ∷ cs) n = refl

pub find_here-Gives :
    (s : ScopeDef) (alias hash : StringHash) (ts : TypeSystem)
    → Gives s alias hash ts (find_here s alias hash ts)
find_here-Gives s alias hash ts = elim (List-cases alias.str) [
  | inr q ↦
      subst (Gives s alias hash ts) (sym (qualified_round s alias hash ts q))
        (find_qualified-Gives s alias hash ts q)
  | inl u ↦
      subst (Gives s alias hash ts) (sym (unqualified_round s alias hash ts u))
        (elim (Option-cases (lookup s.symbols hash.hash)) [
          | inr (info, found) ↦ rw (found, or_else) (own info u found)
          | inl missing ↦
              rw (missing, or_else)
                (by_import _ u missing (find_imported-Imports s.imports hash ts))
        ])
]
