-- ===== src/Types/Assign/Rules.antt =====
-- is_assignable_to of carbonc/type_system.cc against rules of assignment.
use carbonlang.Prelude.{
  ℕ, zero, suc, ◌≡◌, refl, ap, ◌∙◌, Bool, true, false, ◌&&◌, ◌||◌, Option, some, List, [], ◌∷◌,
  ◌==◌, length,
}
use carbonlang.TypeId.{TypeId}
use carbonlang.Types.{
  TypeKind, nil, ptr, slice, structure, tuple, func_pointer, is_kind, is_pure, StructField, TypeDef,
  TypeSystem, same, any_invalid, has_flag, get_type_fields, is_aggregate,
}
use carbonlang.Types.Answers.{
  and_both, Says, says, nothing, Says-if, Says-and_then, Says-map, Says-some,
}
use carbonlang.Types.Assign.{fields_assignable, is_opaque, is_assignable_to}

-- The two types are of these kinds.
abbrev pub Kinds : TypeSystem → TypeId → TypeId → TypeKind → TypeKind → Type 0
Kinds ts a b k l = (is_kind (ts.get a).kind k ≡ true) × (is_kind (ts.get b).kind l ≡ true)

mutual
  pub data Assignable (ts : TypeSystem) (depth : ℕ) : TypeId → TypeId → Type 0 where
    itself : {a b : TypeId} → same a b ≡ true → Assignable ts depth a b
    alias : {a b : TypeId} → same (ts.get a).alias_to b ≡ true → Assignable ts depth a b
    aliased : {a b : TypeId} → same (ts.get b).alias_to a ≡ true → Assignable ts depth a b
    nil_aggregate :
        {a b : TypeId}
        → is_kind (ts.get a).kind nil ≡ true
        → is_aggregate ts b ≡ true
        → Assignable ts depth a b
    nil_pointer : {a b : TypeId} → Kinds ts a b nil ptr → Assignable ts depth a b
    pointer_nil : {a b : TypeId} → Kinds ts a b ptr nil → Assignable ts depth a b
    opaque :
        {a b : TypeId}
        → Kinds ts a b ptr ptr
        → is_opaque ts depth b ≡ some true
        → Assignable ts depth a b
    pointers :
        {a b : TypeId}
        → Kinds ts a b ptr ptr
        → Assignable ts depth (ts.get a).elem_type (ts.get b).elem_type
        → Assignable ts depth a b
    slices :
        {a b : TypeId}
        → Kinds ts a b slice slice
        → Assignable ts depth (ts.get a).elem_type (ts.get b).elem_type
        → Assignable ts depth a b
    functions : {a b : TypeId} → Kinds ts a b func_pointer func_pointer → Assignable ts depth a b
    tuples :
        {a b : TypeId} {xs ys : List StructField}
        → is_kind (ts.get a).kind tuple ≡ true
        → (is_kind (ts.get b).kind tuple || is_kind (ts.get b).kind structure) ≡ true
        → get_type_fields ts depth a ≡ some xs
        → get_type_fields ts depth b ≡ some ys
        → FieldsAssignable ts depth xs ys
        → Assignable ts depth a b
    pure :
        {a b : TypeId}
        → has_flag (ts.get b).flags is_pure ≡ true
        → same (ts.get b).elem_type a ≡ true
        → Assignable ts depth a b

  -- Field by field, and as many.
  pub data FieldsAssignable (ts : TypeSystem) (depth : ℕ)
      : List StructField → List StructField → Type 0 where
    no_field : FieldsAssignable ts depth [] []
    one_more :
        {x y : StructField} {xs ys : List StructField}
        → Assignable ts depth x.type y.type
        → FieldsAssignable ts depth xs ys
        → FieldsAssignable ts depth (x ∷ xs) (y ∷ ys)

either : {P : Type 0} (a : Bool) {b : Bool} → (a || b) ≡ true → (a ≡ true → P) → (b ≡ true → P) → P
either true h p q = p refl
either false h p q = q h

module _ (ts : TypeSystem) (depth : ℕ) where
  fields_assignable-Says :
      (test : TypeId → TypeId → Option Bool)
      → ((a b : TypeId) → Says (λ r. r ≡ true → Assignable ts depth a b) (test a b))
      → (xs ys : List StructField)
      → Says (λ r. r ≡ true → FieldsAssignable ts depth xs ys) (fields_assignable test xs ys)
  unfolding fields_assignable
  fields_assignable-Says test h [] [] = says λ _. no_field
  fields_assignable-Says test h (x ∷ xs) (y ∷ ys) = Says-and_then (test x.type y.type) λ ok e.
      Says-if ok
        (λ t.
          Says-map (fields_assignable test xs ys) (fields_assignable-Says test h xs ys)
            λ r k g. one_more (Says-some (h x.type y.type) e t) (k g))
        λ _. says λ g. cc
  fields_assignable-Says test h [] (y ∷ ys) = says λ g. cc
  fields_assignable-Says test h (x ∷ xs) [] = says λ g. cc

  alias_either :
      (a b : TypeId)
      → (same (ts.get a).alias_to b || same (ts.get b).alias_to a) ≡ true
      → Assignable ts depth a b
  alias_either a b c = either (same (ts.get a).alias_to b) c alias aliased

  is_assignable_to-Says :
      (f : ℕ) (a b : TypeId)
      → Says (λ r. r ≡ true → Assignable ts depth a b) (is_assignable_to ts depth f a b)
  unfolding is_assignable_to
  is_assignable_to-Says zero a b = nothing
  is_assignable_to-Says (suc f) a b =
      let s : TypeDef = ts.get a in
      let t : TypeDef = ts.get b in
      Says-if (any_invalid a b) (λ _. says λ g. cc)
        λ _.
          Says-if (same a b) (λ c. says λ _. itself c)
            λ _.
              Says-if (same s.alias_to b || same t.alias_to a) (λ c. says λ _. alias_either a b c)
                λ _.
                  Says-if (is_kind s.kind nil && is_aggregate ts b)
                    (λ c.
                      let (k, l) = and_both (is_kind s.kind nil) _ c in says λ _. nil_aggregate k l)
                    λ _.
                      Says-if (is_kind s.kind ptr && is_kind t.kind ptr)
                        (λ c.
                          let k = and_both (is_kind s.kind ptr) _ c in
                          Says-and_then (is_opaque ts depth b) λ o e.
                            Says-if o (λ h. says λ _. opaque k (e ∙ ap (λ r. some r) h))
                              λ _.
                                Says-map (is_assignable_to ts depth f s.elem_type t.elem_type)
                                  (is_assignable_to-Says f s.elem_type t.elem_type)
                                  λ r h g. pointers k (h g))
                        λ _.
                          Says-if (is_kind s.kind ptr && is_kind t.kind nil)
                            (λ c. says λ _. pointer_nil (and_both (is_kind s.kind ptr) _ c))
                            λ _.
                              Says-if (is_kind s.kind nil && is_kind t.kind ptr)
                                (λ c. says λ _. nil_pointer (and_both (is_kind s.kind nil) _ c))
                                λ _.
                                  Says-if (is_kind s.kind slice && is_kind t.kind slice)
                                    (λ c.
                                      Says-map (is_assignable_to ts depth f s.elem_type t.elem_type)
                                        (is_assignable_to-Says f s.elem_type t.elem_type)
                                        λ r h g. slices (and_both (is_kind s.kind slice) _ c) (h g))
                                    λ _.
                                      Says-if
                                        (is_kind s.kind func_pointer && is_kind t.kind func_pointer)
                                        (λ c. says λ _.
                                          functions (and_both (is_kind s.kind func_pointer) _ c))
                                        λ _.
                                          Says-if
                                            (is_kind s.kind tuple
                                              && (is_kind t.kind tuple || is_kind t.kind structure))
                                            (λ c.
                                              let (k, l) = and_both (is_kind s.kind tuple) _ c in
                                              Says-and_then (get_type_fields ts depth a) λ xs e.
                                                Says-and_then (get_type_fields ts depth b) λ ys e'.
                                                  Says-if (length xs == length ys)
                                                    (λ _.
                                                      Says-map
                                                        (fields_assignable
                                                          (is_assignable_to ts depth f) xs ys)
                                                        (fields_assignable-Says
                                                          (is_assignable_to ts depth f)
                                                          (is_assignable_to-Says f) xs ys)
                                                        λ r h g. tuples k l e e' (h g))
                                                    λ _. says λ g. cc)
                                            λ _. says λ g.
                                              let (k, l) =
                                                and_both (has_flag t.flags is_pure) _ g in
                                              pure k l

-- A type that the compiler takes for assignable is assignable by the rules.
pub is_assignable_to-Assignable :
    (ts : TypeSystem) (depth f : ℕ) (a b : TypeId)
    → is_assignable_to ts depth f a b ≡ some true
    → Assignable ts depth a b
is_assignable_to-Assignable ts depth f a b e =
    Says-some (is_assignable_to-Says ts depth f a b) e refl
