-- ===== src/Types/Assign.antt =====
-- carbonc/type_system.cc: is_assignable_to, is_convertible_to, is_comparable, is_castable_to and
-- what depends on them. `depth` is the fuel for the aliases and the fields of one type, the fuel
-- after it that for elements and fields of both.
pub mod Total
pub mod Rules
pub mod Pure
pub mod Widen
use carbonlang.Prelude.{
  ℕ, zero, suc, Bool, true, false, not, ◌&&◌, ◌||◌, Option, some, none, List, [], ◌∷◌, ltb, leb,
  ◌==◌, if◌then◌else◌, length,
}
use carbonlang.TypeId.{TypeId, invalid_type}
use carbonlang.Types.{
  TypeKind, nil, ptr, integral, enum_, enumflags, error, real, slice, structure, tuple,
  func_pointer, is_kind, is_pure, StructField, TypeDef, TypeSystem, same, any_invalid, has_flag,
  get_alias_root, get_type_fields, is_aggregate, and_then,
}

-- `if (c) { return true; }` before the rest.
abbrev pub some_or : Bool → Option Bool → Option Bool
some_or true rest = some true
some_or false rest = rest

-- Whether two lists of fields agree, by a test on their types.
unfoldable pub fields_assignable :
    (TypeId → TypeId → Option Bool) → List StructField → List StructField → Option Bool
fields_assignable test [] [] = some true
fields_assignable test (x ∷ xs) (y ∷ ys) =
    let rest : Option Bool = fields_assignable test xs ys in
    and_then (test x.type y.type) λ ok. if ok then rest else some false
fields_assignable test _ _ = some false

module _ (ts : TypeSystem) (depth : ℕ) where
  -- `get_alias_root(ts, t)` is one of the two pointers without a type.
  unfoldable pub is_opaque : TypeId → Option Bool
  unfolding get_alias_root same
  is_opaque t =
      and_then (get_alias_root ts depth t)
        λ root. some (same root ts.opaque_ptr_type || same root ts.pure_opaque_ptr_type)

  unfoldable pub is_assignable_to : ℕ → TypeId → TypeId → Option Bool
  unfolding any_invalid same is_kind has_flag is_aggregate get_type_fields fields_assignable
      is_opaque
  is_assignable_to zero a b = none
  is_assignable_to (suc f) a b =
      let s : TypeDef = ts.get a in
      let t : TypeDef = ts.get b in
      let elements : Option Bool = is_assignable_to f s.elem_type t.elem_type in
      let pointers : Option Bool = and_then (is_opaque b) λ o. if o then some true else elements in
      let tuples : Option Bool = and_then (get_type_fields ts depth a) λ xs.
        and_then (get_type_fields ts depth b) λ ys.
          if length xs == length ys
          then fields_assignable (is_assignable_to f) xs ys
          else some false in
      if any_invalid a b
      then some false
      else if same a b
      then some true
      else if same s.alias_to b || same t.alias_to a
      then some true
      else if is_kind s.kind nil && is_aggregate ts b
      then some true
      else if is_kind s.kind ptr && is_kind t.kind ptr
      then pointers
      else if is_kind s.kind ptr && is_kind t.kind nil
      then some true
      else if is_kind s.kind nil && is_kind t.kind ptr
      then some true
      else if is_kind s.kind slice && is_kind t.kind slice
      then elements
      else if is_kind s.kind func_pointer && is_kind t.kind func_pointer
      then some true
      else if is_kind s.kind tuple && (is_kind t.kind tuple || is_kind t.kind structure)
      then tuples
      else some (has_flag t.flags is_pure && same t.elem_type a)

  -- The pair of `is_convertible_to`: whether, and whether with a cast.
  unfoldable pub is_convertible_to : ℕ → TypeId → TypeId → Option (Bool × Bool)
  unfolding is_assignable_to any_invalid same is_kind get_alias_root
  is_convertible_to f a b =
      let roots : Option (Bool × Bool) = and_then (get_alias_root ts depth a) λ ra.
        and_then (get_alias_root ts depth b) λ rb.
          if is_kind (ts.get ra).kind enumflags && same rb ts.bool_type
          then some (true, true)
          else if same a ts.bool_type || same b ts.bool_type
          then some (false, false)
          else if is_kind (ts.get ra).kind integral && is_kind (ts.get rb).kind integral
          then some (leb (ts.get ra).size (ts.get rb).size, true)
          else if is_kind (ts.get ra).kind integral && is_kind (ts.get rb).kind ptr
          then some ((ts.get rb).size == (ts.get ra).size, false)
          else if same ra ts.noflags_type && is_kind (ts.get rb).kind enumflags
          then some (leb (ts.get ra).size (ts.get rb).size, true)
          else some (false, false) in
      if any_invalid a b
      then some (false, false)
      else and_then (is_assignable_to f a b)
          λ assignable. if assignable then some (true, false) else roots

  -- Whether, whether with a cast, and which side is converted.
  unfoldable pub is_comparable : ℕ → TypeId → TypeId → Option (Bool × Bool × ℕ)
  unfolding is_convertible_to
  is_comparable f a b = and_then (is_convertible_to f a b) λ (left, cast).
      let right : Option (Bool × Bool × ℕ) =
        and_then (is_convertible_to f b a) λ (ok, cast'). some (ok, cast', 1) in
      if left then some (true, cast, 0) else right

  unfoldable pub can_integral_be_cast_from : TypeId → TypeId → Option Bool
  unfolding same is_kind is_opaque
  can_integral_be_cast_from self from =
      if same self ts.uintptr_type
      then if is_kind (ts.get from).kind ptr then is_opaque from else some false
      else some (
          is_kind (ts.get from).kind integral
          || is_kind (ts.get from).kind real
          || is_kind (ts.get from).kind enum_
          || is_kind (ts.get from).kind enumflags
          || is_kind (ts.get from).kind error)

  unfoldable pub can_enum_be_cast_from : TypeId → Bool
  unfolding is_kind
  can_enum_be_cast_from from =
      is_kind (ts.get from).kind integral
      || is_kind (ts.get from).kind enum_
      || is_kind (ts.get from).kind enumflags

  -- With the question for the types that the pointers are to.
  unfoldable pub can_pointer_be_cast_from : Option Bool → TypeId → TypeId → Option Bool
  unfolding same is_kind is_opaque get_alias_root
  can_pointer_be_cast_from elements self from = and_then (is_opaque self) λ opaque.
      and_then (get_alias_root ts depth from) λ root.
        some_or (opaque && (is_kind (ts.get from).kind ptr || is_kind (ts.get from).kind integral))
          (some_or (same root ts.opaque_ptr_type)
            (if is_kind (ts.get from).kind ptr then elements else some false))

  -- The table of the checks by the kind of the target.
  unfoldable pub cast_check : TypeKind → Option Bool → TypeId → TypeId → Option Bool
  unfolding can_pointer_be_cast_from can_integral_be_cast_from can_enum_be_cast_from
  cast_check ptr elements a b = can_pointer_be_cast_from elements b a
  cast_check integral elements a b = can_integral_be_cast_from b a
  cast_check enum_ elements a b = some (can_enum_be_cast_from a)
  cast_check enumflags elements a b = some (can_enum_be_cast_from a)
  cast_check _ elements a b = some false

  unfoldable pub is_castable_to : ℕ → TypeId → TypeId → Option Bool
  unfolding any_invalid is_convertible_to cast_check
  is_castable_to zero a b = none
  is_castable_to (suc f) a b =
      let elements : Option Bool = is_castable_to f (ts.get a).elem_type (ts.get b).elem_type in
      let check : Option Bool = cast_check (ts.get b).kind elements a b in
      if any_invalid a b
      then some false
      else and_then (is_convertible_to f a b)
          λ (convertible, cast). if convertible then some true else check
