-- ===== src/Tests/Typing.antt =====
-- The questions about types of carbonc/type_system.cc on concrete types.
use carbonlang.Prelude.{
  ℕ, zero, suc, ◌<◌, ◌≡◌, refl, Bool, true, false, ◌||◌, Option, some, List, [], ◌∷◌, Bytes, codes,
  arith,
}
use carbonlang.TypeId.{TypeId, invalid_type}
use carbonlang.Types.{
  TypeKind, void_, ptr, integral, structure, tuple, slice, is_kind, is_pure, StructField, TypeDef,
  TypeSystem, same, valid, any_invalid, has_flag, get_type_fields, is_aggregate,
}
use carbonlang.Types.Answers.{Answers, Any}
use carbonlang.Types.Assign.{
  is_opaque, is_assignable_to, is_convertible_to, is_comparable, is_castable_to,
}
use carbonlang.Types.Assign.Total.{Ranked, questions_end}
use carbonlang.Types.Assign.Rules.{Assignable}
use carbonlang.Types.Assign.Pure.{pure_pointer}
use carbonlang.Types.Assign.Widen.{Converts, is_comparable-is_comparable}
use carbonlang.Types.Query.{new_query, has_element, tquery, aggregate_find_field}
use carbonlang.Types.Query.Found.{
  Finds, IsFirstField, tquery-Finds, aggregate_find_field-IsFirstField,
}
use carbonlang.Types.Coerce.{Value, try_coerce_to, Coerced, try_coerce_to-Coerced}

abbrev tid : ℕ → TypeId
tid i = record { scope = some 0; type_index = some i }

abbrev plain_type : TypeKind → ℕ → TypeDef
plain_type k n = record {
  kind = k;
  size = n;
  is_signed = true;
  numeric_max = 100;
  fields = [];
  flags = 0;
  alias_to = invalid_type;
  elem_type = invalid_type;
  constructor_type = invalid_type;
}

abbrev pointer_to : ℕ → TypeDef
pointer_to i = record (plain_type ptr 8) { elem_type = tid i }

abbrev field : Bytes → ℕ → StructField
field name i = record { names = name ∷ []; type = tid i; offset = 0 }

-- `int32`, a pointer to it, the pure type of that, `int64`, a structure of both, and nothing else.
abbrev types : Option ℕ → TypeDef
types (some zero) = plain_type integral 4
types (some (suc zero)) = pointer_to 0
types (some (suc (suc zero))) = record (pointer_to 1) { flags = is_pure }
types (some (suc (suc (suc zero)))) = plain_type integral 8
types (some (suc (suc (suc (suc zero))))) = record (plain_type structure 16) {
  fields = field (codes "x") 0 ∷ field (codes "y") 3 ∷ [];
}
types _ = plain_type void_ 0

abbrev ts : TypeSystem
ts = record {
  get = λ t. types t.type_index;
  opaque_ptr_type = tid 5;
  pure_opaque_ptr_type = tid 6;
  bool_type = tid 7;
  noflags_type = tid 8;
  uintptr_type = tid 9;
  int8_type = tid 10;
  int16_type = tid 10;
  int32_type = tid 0;
  int64_type = tid 3;
  uint8_type = tid 10;
  uint16_type = tid 10;
  uint32_type = tid 10;
  uint64_type = tid 10;
}

abbrev level : Option ℕ → ℕ
level (some (suc zero)) = 1
level (some (suc (suc zero))) = 2
level _ = 0

level-le : (o : Option ℕ) → level o < 3
level-le (some zero) = omega arith
level-le (some (suc zero)) = omega arith
level-le (some (suc (suc zero))) = omega arith
level-le _ = omega arith

valid-alias : (o : Option ℕ) → valid (types o).alias_to ≡ false
unfolding valid
valid-alias (some zero) = refl
valid-alias (some (suc zero)) = refl
valid-alias (some (suc (suc zero))) = refl
valid-alias (some (suc (suc (suc zero)))) = refl
valid-alias (some (suc (suc (suc (suc zero))))) = refl
valid-alias _ = refl

level-element :
    (o : Option ℕ)
    → has_element (types o).kind ≡ true
    → level (types o).elem_type.type_index < level o
unfolding has_element
level-element (some zero) h = cc
level-element (some (suc zero)) h = omega arith
level-element (some (suc (suc zero))) h = omega arith
level-element (some (suc (suc (suc zero)))) h = cc
level-element (some (suc (suc (suc (suc zero))))) h = cc
level-element _ h = cc

has_element-kind : (k : TypeKind) → (is_kind k ptr || is_kind k slice) ≡ true → has_element k ≡ true
unfolding is_kind has_element
has_element-kind _ h = ground arith

level-wrapped :
    (o : Option ℕ)
    → has_flag (types o).flags 6 ≡ true
    → (level (types o).elem_type.type_index < level o)
      × (is_kind (types o).kind tuple ≡ true
          → is_kind (types (types o).elem_type.type_index).kind tuple ≡ true)
unfolding has_flag is_kind
level-wrapped (some zero) h = cc
level-wrapped (some (suc zero)) h = cc
level-wrapped (some (suc (suc zero))) h = (omega arith, λ k. cc)
level-wrapped (some (suc (suc (suc zero)))) h = cc
level-wrapped (some (suc (suc (suc (suc zero))))) h = cc
level-wrapped _ h = cc

no_tuple : (o : Option ℕ) → is_kind (types o).kind tuple ≡ true → ⊥
unfolding is_kind
no_tuple (some zero) h = cc
no_tuple (some (suc zero)) h = cc
no_tuple (some (suc (suc zero))) h = cc
no_tuple (some (suc (suc (suc zero)))) h = cc
no_tuple (some (suc (suc (suc (suc zero))))) h = cc
no_tuple _ h = cc

clash : {b : Bool} → b ≡ false → b ≡ true → ⊥
clash e h = cc

abbrev rank : TypeId → ℕ
rank t = level t.type_index

ts-Ranked : Ranked ts 3
ts-Ranked = record {
  rank = rank;
  below = λ t. level-le t.type_index;
  alias = λ t h. absurd (clash (valid-alias t.type_index) h);
  element = λ t h. level-element t.type_index (has_element-kind (types t.type_index).kind h);
  wrapped = λ t h. level-wrapped t.type_index h;
  field = λ t h. absurd (no_tuple t.type_index h);
}

questions_end_example :
    Answers Any (is_assignable_to ts 3 3 (tid 1) (tid 2))
    × Answers Any (is_convertible_to ts 3 3 (tid 1) (tid 2))
    × Answers Any (is_comparable ts 3 3 (tid 1) (tid 2))
    × Answers Any (is_castable_to ts 3 4 (tid 1) (tid 2))
questions_end_example = questions_end ts 3 ts-Ranked (tid 1) (tid 2)

assign_self : is_assignable_to ts 3 3 (tid 1) (tid 1) ≡ some true
unfolding is_assignable_to
assign_self = refl

widen_int : is_convertible_to ts 3 3 (tid 0) (tid 3) ≡ some (true, true)
unfolding is_convertible_to
widen_int = refl

compare_left : is_comparable ts 3 3 (tid 0) (tid 3) ≡ some (true, true, 0)
unfolding is_comparable
compare_left = refl

compare_right : is_comparable ts 3 3 (tid 3) (tid 0) ≡ some (true, true, 1)
unfolding is_comparable
compare_right = refl

is_comparable-is_comparable_example :
    (true ≡ true) × Converts ts 3 3 (tid 0) (tid 3) (true, true, 0)
is_comparable-is_comparable_example =
    is_comparable-is_comparable ts 3 3 (tid 0) (tid 3) true true true true 0 1 compare_left
      compare_right

pure-has_flag : has_flag is_pure is_pure ≡ true
unfolding has_flag
pure-has_flag = refl

zero-has_flag : has_flag 0 is_pure ≡ false
unfolding has_flag
zero-has_flag = refl

pure-is_opaque : is_opaque ts 3 (tid 2) ≡ some false
unfolding is_opaque
pure-is_opaque = refl

differ :
    (any_invalid (tid 1) (tid 2) ≡ false)
    × (same (tid 1) (tid 2) ≡ false)
    × ((same invalid_type (tid 2) || same invalid_type (tid 1)) ≡ false)
unfolding any_invalid same
differ = (refl, refl, refl)

differ_element :
    (any_invalid (tid 0) (tid 1) ≡ false)
    × (same (tid 0) (tid 1) ≡ false)
    × ((same invalid_type (tid 1) || same invalid_type (tid 0)) ≡ false)
unfolding any_invalid same
differ_element = (refl, refl, refl)

pure_pointer_example :
    Assignable ts 3 (tid 1) (tid 2) × (is_assignable_to ts 3 5 (tid 1) (tid 2) ≡ some false)
pure_pointer_example =
    pure_pointer ts 3 3 (tid 1) (tid 2) refl refl refl refl pure-has_flag zero-has_flag
      pure-is_opaque differ.0 differ.1 differ.2 differ_element.0 differ_element.1 differ_element.2

abbrev is_number : TypeId → Bool
is_number t = is_kind (ts.get t).kind integral

tquery-Finds_example :
    Answers (Finds ts is_number new_query (tid 2)) (tquery ts is_number 3 new_query (tid 2))
tquery-Finds_example =
    tquery-Finds ts is_number rank (λ t h. level-element t.type_index h) 3 new_query (tid 2)
      (omega arith)

abbrev two_fields : List StructField
two_fields = field (codes "x") 0 ∷ field (codes "y") 3 ∷ []

structure-fields : get_type_fields ts 3 (tid 4) ≡ some two_fields
unfolding get_type_fields has_flag
structure-fields = refl

structure-is_aggregate : is_aggregate ts (tid 4) ≡ true
unfolding is_aggregate
structure-is_aggregate = refl

aggregate_find_field-IsFirstField_example :
    (r : Option ℕ) × (aggregate_find_field ts 3 (tid 4) (codes "y") ≡ some r)
    × IsFirstField (codes "y") two_fields r
aggregate_find_field-IsFirstField_example =
    aggregate_find_field-IsFirstField ts 3 (tid 4) (codes "y") two_fields structure-is_aggregate
      structure-fields

-- The literal 7 of type `int64`, wanted as an `int32`.
abbrev seven : Value
seven = record { is_int_literal = true; int_value = 7; tid = tid 3 }

try_coerce_to-Coerced_example : Coerced ts seven (tid 0) (try_coerce_to ts seven (tid 0))
try_coerce_to-Coerced_example = try_coerce_to-Coerced ts seven (tid 0)
