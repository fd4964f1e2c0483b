-- ===== src/Types/Query.antt =====
-- carbonc/type_system.cc: the search for a type behind pointers, arrays and slices, and for a field
-- of an aggregate.
pub mod Found
use carbonlang.Prelude.{
  ℕ, zero, suc, ◌+◌, Bool, true, false, ◌&&◌, Option, some, none, List, [], ◌∷◌, ◌++◌, Bytes,
  bytes_eq, ◌==◌, if◌then◌else◌, length,
}
use carbonlang.TypeId.{TypeId, invalid_type}
use carbonlang.Types.{
  TypeKind, ptr, static_array, slice, is_kind, StructField, TypeDef, TypeSystem, same, valid,
  get_type_fields, is_aggregate, and_then,
}

pub data Segment : Type 0 where
  invalid elem_type : Segment

pub record TypeQuery : Type 0 where
  pub result : TypeId
  pub path : List Segment
  pub history : List TypeId

abbrev pub new_query : TypeQuery
new_query = record { result = invalid_type; path = []; history = [] }

unfoldable pub has_element : TypeKind → Bool
has_element ptr = true
has_element static_array = true
has_element slice = true
has_element _ = false

unfoldable pub any_name : Bytes → List Bytes → Bool
any_name name [] = false
any_name name (x ∷ xs) =
    let rest : Bool = any_name name xs in if bytes_eq x name then true else rest

-- The index of the first field with the name, counted from `i`; `none` stands for -1.
unfoldable pub find_field_from : ℕ → Bytes → List StructField → Option ℕ
unfolding any_name
find_field_from i name [] = none
find_field_from i name (x ∷ xs) =
    let rest : Option ℕ = find_field_from (suc i) name xs in
    if any_name name x.names then some i else rest

-- One step, from a type to its element.
abbrev pub deeper : TypeQuery → TypeId → TypeQuery
deeper q root = record q { path = q.path ++ (elem_type ∷ []); history = q.history ++ (root ∷ []) }

module _ (ts : TypeSystem) where
  -- The three searches differ in the test that ends them.
  unfoldable pub tquery : (TypeId → Bool) → ℕ → TypeQuery → TypeId → Option TypeQuery
  unfolding valid has_element
  tquery found zero q root = none
  tquery found (suc f) q root =
      let behind : Option TypeQuery = tquery found f (deeper q root) (ts.get root).elem_type in
      if valid root
      then if found root
        then some (record q { result = root })
        else if has_element (ts.get root).kind
        then behind
        else some q
      else some q

  unfoldable pub tquery_for_type_kind : ℕ → TypeQuery → TypeId → TypeKind → Option TypeQuery
  unfolding tquery is_kind
  tquery_for_type_kind f q root k = tquery (λ t. is_kind (ts.get t).kind k) f q root

  unfoldable pub tquery_for_type_id : ℕ → TypeQuery → TypeId → TypeId → Option TypeQuery
  unfolding tquery same
  tquery_for_type_id f q root target = tquery (λ t. same t target) f q root

  unfoldable pub tquery_for_type_with_constructor :
      ℕ → TypeQuery → TypeId → TypeId → Option TypeQuery
  unfolding tquery same
  tquery_for_type_with_constructor f q root ctor =
      tquery (λ t. same (ts.get t).constructor_type ctor) f q root

  unfoldable pub aggregate_find_field : ℕ → TypeId → Bytes → Option (Option ℕ)
  unfolding is_aggregate get_type_fields find_field_from
  aggregate_find_field depth tid name =
      let found : Option (Option ℕ) =
        and_then (get_type_fields ts depth tid) λ fields. some (find_field_from 0 name fields) in
      if is_aggregate ts tid then found else some none
