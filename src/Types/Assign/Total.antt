-- ===== src/Types/Assign/Total.antt =====
-- The questions of carbonc/type_system.cc about two types have an answer where every chain of
-- aliases, elements and fields ends.
use carbonlang.Prelude.{
  ℕ, zero, suc, ◌<◌, ◌≡◌, Bool, true, false, not, ◌&&◌, ◌||◌, Option, List, [], ◌∷◌, All, arith,
  ◌==◌, length,
}
use carbonlang.TypeId.{TypeId}
use carbonlang.Types.{
  TypeKind, nil, ptr, integral, enum_, enumflags, slice, structure, tuple, func_pointer, is_kind,
  StructField, TypeDef, TypeSystem, same, valid, any_invalid, has_flag, get_alias_root,
  get_type_fields, is_aggregate,
}
use carbonlang.Types.Answers.{
  and_both, Answers, answers, Any, Answers-if, Answers-and_then, Answers-map,
}
use carbonlang.Types.Assign.{
  some_or, fields_assignable, is_opaque, is_assignable_to, is_convertible_to, is_comparable,
  can_integral_be_cast_from, can_pointer_be_cast_from, cast_check, is_castable_to,
}

some_or-Answers : (c : Bool) {rest : Option Bool} → Answers Any rest → Answers Any (some_or c rest)
some_or-Answers true h = answers tt
some_or-Answers false h = h

-- A rank that falls along every chain that the questions follow. A structure has no such chain: no
-- question looks into a structure that is assigned.
pub record Ranked (ts : TypeSystem) (depth : ℕ) : Type 0 where
  pub rank : TypeId → ℕ
  pub below : (t : TypeId) → rank t < depth
  pub alias : (t : TypeId) → valid (ts.get t).alias_to ≡ true → rank (ts.get t).alias_to < rank t
  pub element :
      (t : TypeId)
      → (is_kind (ts.get t).kind ptr || is_kind (ts.get t).kind slice) ≡ true
      → rank (ts.get t).elem_type < rank t
  pub wrapped :
      (t : TypeId)
      → has_flag (ts.get t).flags 6 ≡ true
      → (rank (ts.get t).elem_type < rank t)
        × (is_kind (ts.get t).kind tuple ≡ true
            → is_kind (ts.get (ts.get t).elem_type).kind tuple ≡ true)
  pub field :
      (t : TypeId)
      → is_kind (ts.get t).kind tuple ≡ true
      → All (λ x. rank x.type < rank t) (ts.get t).fields

module _ (ts : TypeSystem) (depth : ℕ) (r : Ranked ts depth) where
  get_alias_root-Answers : (f : ℕ) (t : TypeId) → r.rank t < f → Answers Any (get_alias_root ts f t)
  unfolding get_alias_root
  get_alias_root-Answers zero t h = absurd (omega arith)
  get_alias_root-Answers (suc f) t h =
      Answers-if (not (valid t)) (λ _. answers tt)
        λ _.
          Answers-if (valid (ts.get t).alias_to)
            (λ e. get_alias_root-Answers f (ts.get t).alias_to (omega (arith, r.alias t e)))
            λ _. answers tt

  All-weaken :
      (m n : ℕ)
      → m < n
      → (xs : List StructField) → All (λ x. r.rank x.type < m) xs
      → All (λ x. r.rank x.type < n) xs
  All-weaken m n h [] a = tt
  All-weaken m n h (x ∷ xs) (a, bs) = (omega arith, All-weaken m n h xs bs)

  get_type_fields-Answers :
      (f : ℕ) (t : TypeId)
      → r.rank t < f
      → Answers
          (λ xs. is_kind (ts.get t).kind tuple ≡ true → All (λ x. r.rank x.type < r.rank t) xs)
          (get_type_fields ts f t)
  unfolding get_type_fields
  get_type_fields-Answers zero t h = absurd (omega arith)
  get_type_fields-Answers (suc f) t h =
      Answers-if (has_flag (ts.get t).flags 6)
        (λ e.
          let (d, k) = r.wrapped t e in
          Answers-map (get_type_fields ts f (ts.get t).elem_type)
            (get_type_fields-Answers f (ts.get t).elem_type (omega arith))
            λ xs a c. All-weaken (r.rank (ts.get t).elem_type) (r.rank t) d xs (a (k c)))
        λ _. answers (r.field t)

  is_opaque-Answers : (t : TypeId) → Answers Any (is_opaque ts depth t)
  unfolding is_opaque
  is_opaque-Answers t =
      Answers-and_then (get_alias_root ts depth t) (get_alias_root-Answers depth t (r.below t))
        λ _ _. answers tt

  fields_assignable-Answers :
      (test : TypeId → TypeId → Option Bool) (n : ℕ)
      → ((a b : TypeId) → r.rank a < n → Answers Any (test a b))
      → (xs ys : List StructField) → All (λ x. r.rank x.type < n) xs
      → Answers Any (fields_assignable test xs ys)
  unfolding fields_assignable
  fields_assignable-Answers test n h [] [] a = answers tt
  fields_assignable-Answers test n h (x ∷ xs) (y ∷ ys) (a, bs) =
      Answers-and_then (test x.type y.type) (h x.type y.type a)
        λ ok _. Answers-if ok (λ _. fields_assignable-Answers test n h xs ys bs) λ _. answers tt
  fields_assignable-Answers test n h [] (y ∷ ys) a = answers tt
  fields_assignable-Answers test n h (x ∷ xs) [] a = answers tt

  pointer :
      (a b : TypeId)
      → (is_kind (ts.get a).kind ptr && is_kind (ts.get b).kind ptr) ≡ true
      → (is_kind (ts.get a).kind ptr || is_kind (ts.get a).kind slice) ≡ true
  pointer a b e = ground (arith)

  slices :
      (a b : TypeId)
      → (is_kind (ts.get a).kind slice && is_kind (ts.get b).kind slice) ≡ true
      → (is_kind (ts.get a).kind ptr || is_kind (ts.get a).kind slice) ≡ true
  slices a b e = ground (arith)

  is_assignable_to-Answers :
      (f : ℕ) (a b : TypeId) → r.rank a < f → Answers Any (is_assignable_to ts depth f a b)
  unfolding is_assignable_to
  is_assignable_to-Answers zero a b h = absurd (omega arith)
  is_assignable_to-Answers (suc f) a b h =
      let s : TypeDef = ts.get a in
      let t : TypeDef = ts.get b in
      Answers-if (any_invalid a b) (λ _. answers tt)
        λ _.
          Answers-if (same a b) (λ _. answers tt)
            λ _.
              Answers-if (same s.alias_to b || same t.alias_to a) (λ _. answers tt)
                λ _.
                  Answers-if (is_kind s.kind nil && is_aggregate ts b) (λ _. answers tt)
                    λ _.
                      Answers-if (is_kind s.kind ptr && is_kind t.kind ptr)
                        (λ e. Answers-and_then (is_opaque ts depth b) (is_opaque-Answers b) λ o _.
                          Answers-if o (λ _. answers tt)
                            λ _.
                              is_assignable_to-Answers f s.elem_type t.elem_type
                                (omega (arith, r.element a (pointer a b e))))
                        λ _.
                          Answers-if (is_kind s.kind ptr && is_kind t.kind nil) (λ _. answers tt)
                            λ _.
                              Answers-if (is_kind s.kind nil && is_kind t.kind ptr)
                                (λ _. answers tt)
                                λ _.
                                  Answers-if (is_kind s.kind slice && is_kind t.kind slice)
                                    (λ e.
                                      is_assignable_to-Answers f s.elem_type t.elem_type
                                        (omega (arith, r.element a (slices a b e))))
                                    λ _.
                                      Answers-if
                                        (is_kind s.kind func_pointer && is_kind t.kind func_pointer)
                                        (λ _. answers tt)
                                        λ _.
                                          Answers-if
                                            (is_kind s.kind tuple
                                              && (is_kind t.kind tuple || is_kind t.kind structure))
                                            (λ e.
                                              Answers-and_then (get_type_fields ts depth a)
                                                (get_type_fields-Answers depth a (r.below a))
                                                λ xs bs.
                                                  Answers-and_then (get_type_fields ts depth b)
                                                    (get_type_fields-Answers depth b (r.below b))
                                                    λ ys _.
                                                      Answers-if (length xs == length ys)
                                                        (λ _.
                                                          fields_assignable-Answers
                                                            (is_assignable_to ts depth f) (r.rank a)
                                                            (λ c d k.
                                                            is_assignable_to-Answers f c d
                                                            (omega arith))
                                                            xs ys
                                                            (bs (
                                                            (and_both (is_kind s.kind tuple) _
                                                            e).0)))
                                                        λ _. answers tt)
                                            λ _. answers tt

  is_convertible_to-Answers :
      (f : ℕ) (a b : TypeId) → r.rank a < f → Answers Any (is_convertible_to ts depth f a b)
  unfolding is_convertible_to
  is_convertible_to-Answers f a b h =
      Answers-if (any_invalid a b) (λ _. answers tt)
        λ _.
          Answers-and_then (is_assignable_to ts depth f a b) (is_assignable_to-Answers f a b h)
            λ assignable _.
              Answers-if assignable (λ _. answers tt)
                λ _.
                  Answers-and_then (get_alias_root ts depth a)
                    (get_alias_root-Answers depth a (r.below a))
                    λ ra _.
                      Answers-and_then (get_alias_root ts depth b)
                        (get_alias_root-Answers depth b (r.below b))
                        λ rb _.
                          Answers-if (is_kind (ts.get ra).kind enumflags && same rb ts.bool_type)
                            (λ _. answers tt)
                            λ _.
                              Answers-if (same a ts.bool_type || same b ts.bool_type)
                                (λ _. answers tt)
                                λ _.
                                  Answers-if
                                    (is_kind (ts.get ra).kind integral
                                      && is_kind (ts.get rb).kind integral)
                                    (λ _. answers tt)
                                    λ _.
                                      Answers-if
                                        (is_kind (ts.get ra).kind integral
                                          && is_kind (ts.get rb).kind ptr)
                                        (λ _. answers tt)
                                        λ _.
                                          Answers-if
                                            (same ra ts.noflags_type
                                              && is_kind (ts.get rb).kind enumflags)
                                            (λ _. answers tt) λ _. answers tt

  is_comparable-Answers :
      (f : ℕ) (a b : TypeId)
      → r.rank a < f
      → r.rank b < f
      → Answers Any (is_comparable ts depth f a b)
  unfolding is_comparable
  is_comparable-Answers f a b h k =
      Answers-and_then (is_convertible_to ts depth f a b) (is_convertible_to-Answers f a b h)
        λ (left, cast) _.
          Answers-if left (λ _. answers tt)
            λ _.
              Answers-and_then (is_convertible_to ts depth f b a)
                (is_convertible_to-Answers f b a k) λ _ _. answers tt

  can_pointer_be_cast_from-Answers :
      (elements : Option Bool) (a b : TypeId)
      → (is_kind (ts.get a).kind ptr ≡ true → Answers Any elements)
      → Answers Any (can_pointer_be_cast_from ts depth elements b a)
  unfolding can_pointer_be_cast_from
  can_pointer_be_cast_from-Answers elements a b h =
      Answers-and_then (is_opaque ts depth b) (is_opaque-Answers b) λ o _.
        Answers-and_then (get_alias_root ts depth a) (get_alias_root-Answers depth a (r.below a))
          λ root _.
            some_or-Answers (o && (is_kind (ts.get a).kind ptr || is_kind (ts.get a).kind integral))
              (some_or-Answers (same root ts.opaque_ptr_type)
                (Answers-if (is_kind (ts.get a).kind ptr) h λ _. answers tt))

  cast_check-Answers :
      (k : TypeKind) (elements : Option Bool) (a b : TypeId)
      → (is_kind (ts.get a).kind ptr ≡ true → Answers Any elements)
      → Answers Any (cast_check ts depth k elements a b)
  unfolding cast_check can_integral_be_cast_from
  cast_check-Answers ptr elements a b h = can_pointer_be_cast_from-Answers elements a b h
  cast_check-Answers integral elements a b h =
      Answers-if (same b ts.uintptr_type)
        (λ _. Answers-if (is_kind (ts.get a).kind ptr) (λ _. is_opaque-Answers a) λ _. answers tt)
        λ _. answers tt
  cast_check-Answers enum_ elements a b h = answers tt
  cast_check-Answers enumflags elements a b h = answers tt
  cast_check-Answers _ elements a b h = answers tt

  pointer_element :
      (a : TypeId)
      → is_kind (ts.get a).kind ptr ≡ true
      → (is_kind (ts.get a).kind ptr || is_kind (ts.get a).kind slice) ≡ true
  pointer_element a e = ground arith

  is_castable_to-Answers :
      (f : ℕ) (a b : TypeId) → suc (r.rank a) < f → Answers Any (is_castable_to ts depth f a b)
  unfolding is_castable_to
  is_castable_to-Answers zero a b h = absurd (omega arith)
  is_castable_to-Answers (suc f) a b h =
      Answers-if (any_invalid a b) (λ _. answers tt)
        λ _.
          Answers-and_then (is_convertible_to ts depth f a b)
            (is_convertible_to-Answers f a b (omega arith))
            λ (c, cast) _.
              Answers-if c (λ _. answers tt)
                λ _.
                  cast_check-Answers (ts.get b).kind
                    (is_castable_to ts depth f (ts.get a).elem_type (ts.get b).elem_type) a b
                    λ e.
                      is_castable_to-Answers f (ts.get a).elem_type (ts.get b).elem_type
                        (omega (arith, r.element a (pointer_element a e)))

-- Where a rank falls along aliases, the elements of pointers and slices, what automatic and pure types
-- wrap and the fields of tuples, the questions whether one type is assignable, convertible or castable
-- to another or comparable with it have an answer, with fuel above the ranks.
pub questions_end :
    (ts : TypeSystem) (depth : ℕ)
    → Ranked ts depth
    → (a b : TypeId)
    → Answers Any (is_assignable_to ts depth depth a b)
      × Answers Any (is_convertible_to ts depth depth a b)
      × Answers Any (is_comparable ts depth depth a b)
      × Answers Any (is_castable_to ts depth (suc depth) a b)
questions_end ts depth r a b = (
  is_assignable_to-Answers ts depth r depth a b (r.below a),
  is_convertible_to-Answers ts depth r depth a b (r.below a),
  is_comparable-Answers ts depth r depth a b (r.below a) (r.below b),
  is_castable_to-Answers ts depth r (suc depth) a b (omega (arith, r.below a)),
)
