-- ===== src/Types/Query/Found.antt =====
-- What the searches of Query.antt find.
use carbonlang.Prelude.{
  ℕ, zero, suc, ◌+◌, ◌<◌, ◌≡◌, ◌⊎◌, inl, inr, refl, sym, ap, ◌∙◌, Bool, true, false, Option, some,
  none, List, [], ◌∷◌, ◌++◌, Bytes, All, arith, length, length-append, get_elem?, take,
  append_assoc, append-nil, Bool-cases, bytes_eq, bytes_eq_iff, subst,
}
use carbonlang.TypeId.{TypeId}
use carbonlang.Types.{TypeSystem, StructField, valid, get_type_fields, is_aggregate}
use carbonlang.Types.Answers.{Answers, answers, Answers-if, Answers-map}
use carbonlang.Types.Query.{
  elem_type, TypeQuery, deeper, has_element, tquery, any_name, find_field_from,
  aggregate_find_field,
}

-- From a type over elements to another one, past the types of the list.
pub data Trail (ts : TypeSystem) : TypeId → List TypeId → TypeId → Type 0 where
  here : {t : TypeId} → Trail ts t [] t
  inside :
      {t u : TypeId} {passed : List TypeId}
      → valid t ≡ true
      → has_element (ts.get t).kind ≡ true
      → Trail ts (ts.get t).elem_type passed u
      → Trail ts t (t ∷ passed) u

-- The search ends at the last type of the trail, because that is found, or because nothing is behind it.
abbrev pub Ends : TypeSystem → (TypeId → Bool) → TypeQuery → TypeQuery → TypeId → Type 0
Ends ts found q q' last =
    ((valid last ≡ true) × (found last ≡ true) × (q'.result ≡ last))
    ⊎ ((q'.result ≡ q.result)
        × ((valid last ≡ false)
            ⊎ ((found last ≡ false) × (has_element (ts.get last).kind ≡ false))))

abbrev pub Finds : TypeSystem → (TypeId → Bool) → TypeQuery → TypeId → TypeQuery → Type 0
Finds ts found q root q' =
    (passed : List TypeId) × (last : TypeId) × Trail ts root passed last
    × (q'.history ≡ q.history ++ passed)
    × (length q'.path ≡ length q.path + length passed)
    × All (λ t. found t ≡ false) passed
    × Ends ts found q q' last

module _ (ts : TypeSystem) (found : TypeId → Bool) (rank : TypeId → ℕ)
    (falls : (t : TypeId)
      → has_element (ts.get t).kind ≡ true
      → rank (ts.get t).elem_type < rank t) where
  -- Where a rank falls from a pointer, an array or a slice to its element, each of the three searches
  -- ends, by fuel above the rank: it goes over elements, past types that are not found, each of which
  -- is one step of the history and of the path, to the first type that is found, or to one that is
  -- invalid or has no element, and then the result stays as it was.
  pub tquery-Finds :
      (f : ℕ) (q : TypeQuery) (root : TypeId)
      → rank root < f
      → Answers (Finds ts found q root) (tquery ts found f q root)
  unfolding tquery
  tquery-Finds zero q root h = absurd (omega arith)
  tquery-Finds (suc f) q root h =
      Answers-if (valid root)
        (λ v.
          Answers-if (found root)
            (λ g.
              answers
                ([], root, here, sym (append-nil q.history), omega arith, tt, inl (v, g, refl)))
            λ g.
              Answers-if (has_element (ts.get root).kind)
                (λ e.
                  Answers-map (tquery ts found f (deeper q root) (ts.get root).elem_type)
                    (tquery-Finds f (deeper q root) (ts.get root).elem_type
                      (omega (arith, falls root e)))
                    λ q' (passed, last, trail, hist, len, none_found, end). (
                      root ∷ passed,
                      last,
                      inside v e trail,
                      hist ∙ append_assoc q.history (root ∷ []) passed,
                      len ∙ omega (arith, length-append q.path (elem_type ∷ [])),
                      (g, none_found),
                      end,
                    ))
                λ e. answers (
                  [],
                  root,
                  here,
                  sym (append-nil q.history),
                  omega arith,
                  tt,
                  inr (refl, inr (g, e)),
                ))
        λ v.
          answers ([], root, here, sym (append-nil q.history), omega arith, tt, inr (refl, inl v))

-- One of the names of a field.
pub data IsAmong (name : Bytes) : List Bytes → Type 0 where
  first : {xs : List Bytes} → IsAmong name (name ∷ xs)
  further : {x : Bytes} {xs : List Bytes} → IsAmong name xs → IsAmong name (x ∷ xs)

any_name-true : (name : Bytes) (xs : List Bytes) → any_name name xs ≡ true → IsAmong name xs
unfolding any_name
any_name-true name [] h = cc
any_name-true name (x ∷ xs) h = elim (Bool-cases (bytes_eq x name)) [
  | inl same ↦ subst (λ y. IsAmong name (y ∷ xs)) (sym ((bytes_eq_iff x name).0 same)) first
  | inr differ ↦ further (any_name-true name xs (rw differ at h))
]

any_name-cons :
    (name x : Bytes) (xs : List Bytes)
    → any_name name (x ∷ xs) ≡ false
    → (bytes_eq x name ≡ false) × (any_name name xs ≡ false)
unfolding any_name
any_name-cons name x xs h = elim (Bool-cases (bytes_eq x name)) [
  | inl same ↦ cc (rw same at h)
  | inr differ ↦ (differ, rw differ at h)
]

any_name-false : (name : Bytes) (xs : List Bytes) → any_name name xs ≡ false → ¬ IsAmong name xs
any_name-false name [] h m = elim m [ ]
any_name-false name (x ∷ xs) h first =
    cc ((any_name-cons name name xs h).0, (bytes_eq_iff name name).1 refl)
any_name-false name (x ∷ xs) h (further m) = any_name-false name xs (any_name-cons name x xs h).1 m

-- The field at the index has the name and none before it has; without an index no field has it.
abbrev pub IsFirstField : Bytes → List StructField → Option ℕ → Type 0
IsFirstField name xs none = All (λ x. ¬ IsAmong name x.names) xs
IsFirstField name xs (some i) =
    (x : StructField) × (get_elem? xs i ≡ some x)
    × IsAmong name x.names
    × All (λ y. ¬ IsAmong name y.names) (take i xs)

abbrev shift : ℕ → Option ℕ → Option ℕ
shift i none = none
shift i (some j) = some (i + j)

later :
    (name : Bytes) (x : StructField) (xs : List StructField) (i : ℕ) (o : Option ℕ)
    → ¬ IsAmong name x.names
    → (r : Option ℕ) × (o ≡ shift (suc i) r) × IsFirstField name xs r
    → (r : Option ℕ) × (o ≡ shift i r) × IsFirstField name (x ∷ xs) r
later name x xs i o h (none, e, p) = (none, e, (h, p))
later name x xs i o h (some j, e, (y, g, n, p)) =
    (some (suc j), e ∙ ap (λ k. some k) (omega arith), (y, g, n, (h, p)))

find_field_from-IsFirst :
    (name : Bytes) (xs : List StructField) (i : ℕ)
    → (r : Option ℕ) × (find_field_from i name xs ≡ shift i r) × IsFirstField name xs r
unfolding find_field_from
find_field_from-IsFirst name [] i = (none, refl, tt)
find_field_from-IsFirst name (x ∷ xs) i = elim (Bool-cases (any_name name x.names)) [
  | inl h ↦
      (some 0, rw h (ap (λ k. some k) (omega arith)), (x, refl, any_name-true name x.names h, tt))
  | inr h ↦
      later name x xs i (find_field_from i name (x ∷ xs)) (any_name-false name x.names h)
        (let (r, e, p) = find_field_from-IsFirst name xs (suc i) in (r, rw h e, p))
]

shift_zero : (r : Option ℕ) → shift 0 r ≡ r
shift_zero none = refl
shift_zero (some j) = ap (λ k. some k) (omega arith)

-- The search for a name among the fields of an aggregate gives the first field that has it among its
-- names, and gives none when no field has it.
pub aggregate_find_field-IsFirstField :
    (ts : TypeSystem) (depth : ℕ) (t : TypeId) (name : Bytes) (fields : List StructField)
    → is_aggregate ts t ≡ true
    → get_type_fields ts depth t ≡ some fields
    → (r : Option ℕ) × (aggregate_find_field ts depth t name ≡ some r) × IsFirstField name fields r
unfolding aggregate_find_field
aggregate_find_field-IsFirstField ts depth t name fields a e =
    let (r, g, p) = find_field_from-IsFirst name fields 0 in (r, rw (a, e, g, shift_zero r) refl, p)
