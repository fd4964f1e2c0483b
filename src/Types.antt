-- ===== src/Types.antt =====
-- carbonc/type_system.hh and carbonc/type_system.cc: type definitions and the questions asked of
-- them, which type is assignable, convertible or castable to which. The types of a compilation are a
-- function from their identifiers to their definitions; `get` of an identifier that is not valid
-- stands for nothing in the program, and no function asks for it.
-- A chain of types (aliases, elements, fields) is followed on fuel, `none` when it runs out.
pub mod Answers
pub mod Assign
pub mod Query
pub mod Coerce
use carbonlang.Prelude.{
  ℕ, zero, suc, Bool, true, false, not, ◌&&◌, ◌||◌, Option, some, none, List, [], ◌∷◌, Bytes,
  bytes_eq, bit_and, ltb, leb, ◌==◌, if◌then◌else◌, length,
}
use carbonlang.Prelude.Int.{ℤ}
use carbonlang.TypeId.{TypeId, invalid_type, type_id_eq}

pub data TypeKind : Type 0 where
  void_ nil ptr integral enum_ enumflags error real static_array slice structure : TypeKind
  c_structure tuple func func_pointer type constructor : TypeKind

unfoldable pub kind_code : TypeKind → ℕ
kind_code void_ = 0
kind_code nil = 1
kind_code ptr = 2
kind_code integral = 3
kind_code enum_ = 4
kind_code enumflags = 5
kind_code error = 6
kind_code real = 7
kind_code static_array = 8
kind_code slice = 9
kind_code structure = 10
kind_code c_structure = 11
kind_code tuple = 12
kind_code func = 13
kind_code func_pointer = 14
kind_code type = 15
kind_code constructor = 16

unfoldable pub is_kind : TypeKind → TypeKind → Bool
unfolding kind_code
is_kind a b = kind_code a == kind_code b

abbrev pub is_alias : ℕ
is_alias = 1

abbrev pub is_pure : ℕ
is_pure = 2

abbrev pub is_auto : ℕ
is_auto = 4

pub record StructField : Type 0 where
  pub names : List Bytes
  pub type : TypeId
  pub offset : ℕ

-- The fields that the functions of this component read.
pub record TypeDef : Type 0 where
  pub kind : TypeKind
  pub size : ℕ
  pub is_signed : Bool
  pub numeric_max : ℕ
  pub fields : List StructField
  pub flags : ℕ
  pub alias_to : TypeId
  pub elem_type : TypeId
  pub constructor_type : TypeId

-- The types, and those that the compiler registers for itself.
pub record TypeSystem : Type 0 where
  pub get : TypeId → TypeDef
  pub opaque_ptr_type : TypeId
  pub pure_opaque_ptr_type : TypeId
  pub bool_type : TypeId
  pub noflags_type : TypeId
  pub uintptr_type : TypeId
  pub int8_type : TypeId
  pub int16_type : TypeId
  pub int32_type : TypeId
  pub int64_type : TypeId
  pub uint8_type : TypeId
  pub uint16_type : TypeId
  pub uint32_type : TypeId
  pub uint64_type : TypeId

unfoldable pub valid : TypeId → Bool
valid t = elim t.scope [
  | none ↦ false
  | some s ↦ elim t.type_index [ none ↦ false | some i ↦ true ]
]

-- `a == b`, and the test against the invalid type that the questions begin with.
unfoldable pub same : TypeId → TypeId → Bool
unfolding type_id_eq
same a b = type_id_eq a b

unfoldable pub any_invalid : TypeId → TypeId → Bool
unfolding same
any_invalid a b = same a invalid_type || same b invalid_type

unfoldable pub has_flag : ℕ → ℕ → Bool
has_flag flags flag = not (bit_and flags flag == 0)

module _ (ts : TypeSystem) where
  unfoldable pub get_unsigned_type : TypeId → TypeId
  unfolding same
  get_unsigned_type tid =
      if same tid ts.int8_type
      then ts.uint8_type
      else if same tid ts.int16_type
      then ts.uint16_type
      else if same tid ts.int32_type
      then ts.uint32_type
      else if same tid ts.int64_type
      then ts.uint64_type
      else invalid_type

  unfoldable pub get_alias_root : ℕ → TypeId → Option TypeId
  unfolding valid
  get_alias_root zero tid = none
  get_alias_root (suc f) tid =
      let root : Option TypeId = get_alias_root f (ts.get tid).alias_to in
      if not (valid tid) then some tid else if valid (ts.get tid).alias_to then root else some tid

  unfoldable pub get_type_fields : ℕ → TypeId → Option (List StructField)
  unfolding has_flag
  get_type_fields zero tid = none
  get_type_fields (suc f) tid =
      let inner : Option (List StructField) = get_type_fields f (ts.get tid).elem_type in
      if has_flag (ts.get tid).flags 6 then inner else some (ts.get tid).fields

  unfoldable pub is_pointer : TypeId → Bool
  unfolding valid is_kind
  is_pointer tid = valid tid && is_kind (ts.get tid).kind ptr

  is_aggregate_kind : TypeKind → Bool
  is_aggregate_kind structure = true
  is_aggregate_kind c_structure = true
  is_aggregate_kind tuple = true
  is_aggregate_kind static_array = true
  is_aggregate_kind slice = true
  is_aggregate_kind _ = false

  unfoldable pub is_aggregate : TypeId → Bool
  unfolding valid is_aggregate_kind
  is_aggregate tid = valid tid && is_aggregate_kind (ts.get tid).kind

  unfoldable pub is_aggregate_root : TypeId → Bool
  unfolding valid is_aggregate_kind
  is_aggregate_root tid =
      valid tid && (ts.get tid).flags == 0 && is_aggregate_kind (ts.get tid).kind

-- A call after another one, within the fuel of both.
abbrev pub and_then {ℓ κ} : {A : Type ℓ} {B : Type κ} → Option A → (A → Option B) → Option B
and_then none k = none
and_then (some a) k = k a
