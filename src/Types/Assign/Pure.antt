-- ===== src/Types/Assign/Pure.antt =====
-- Pointers and their pure types in is_assignable_to of carbonc/type_system.cc.
use carbonlang.Prelude.{
  ℕ, suc, ◌≡◌, refl, sym, subst, ap, ◌∙◌, Bool, true, false, ◌&&◌, ◌||◌, Option, some,
  if◌then◌else◌,
}
use carbonlang.TypeId.{TypeId, type_id_eq_iff}
use carbonlang.Types.{
  TypeKind, nil, ptr, integral, slice, structure, tuple, func_pointer, is_kind, is_pure, TypeSystem,
  same, any_invalid, has_flag, is_aggregate, and_then,
}
use carbonlang.Types.Answers.{if_false, if_true}
use carbonlang.Types.Assign.{is_opaque, is_assignable_to}
use carbonlang.Types.Assign.Rules.{Assignable, pure}

kinds_false : (a b : TypeKind) (c : Bool) → is_kind a b ≡ false → (is_kind a b && c) ≡ false
kinds_false a b c e = rw e refl

not_opaque :
    (o rest : Option Bool) → o ≡ some false → and_then o (λ r. if r then some true else rest) ≡ rest
not_opaque o rest e = rw e refl

-- One step between pointers.
pointers_step :
    (ts : TypeSystem) (depth f : ℕ) (a b : TypeId)
    → any_invalid a b ≡ false
    → same a b ≡ false
    → (same (ts.get a).alias_to b || same (ts.get b).alias_to a) ≡ false
    → is_kind (ts.get a).kind nil ≡ false
    → (is_kind (ts.get a).kind ptr && is_kind (ts.get b).kind ptr) ≡ true
    → is_opaque ts depth b ≡ some false
    → is_assignable_to ts depth (suc f) a b
      ≡ is_assignable_to ts depth f (ts.get a).elem_type (ts.get b).elem_type
unfolding is_assignable_to
pointers_step ts depth f a b v s l n k o =
    if_false (any_invalid a b) (some false) v
    ∙ if_false (same a b) (some true) s
    ∙ if_false (same (ts.get a).alias_to b || same (ts.get b).alias_to a) (some true) l
    ∙ if_false (is_kind (ts.get a).kind nil && is_aggregate ts b) (some true)
        (kinds_false (ts.get a).kind nil (is_aggregate ts b) n)
    ∙ if_true (is_kind (ts.get a).kind ptr && is_kind (ts.get b).kind ptr) _ k
    ∙ not_opaque (is_opaque ts depth b)
        (is_assignable_to ts depth f (ts.get a).elem_type (ts.get b).elem_type) o

same_refl : (a : TypeId) → same a a ≡ true
unfolding same
same_refl a = (type_id_eq_iff a a).1 refl

integral_kinds :
    (k : TypeKind)
    → k ≡ integral
    → (is_kind k nil ≡ false)
      × (is_kind k ptr ≡ false)
      × (is_kind k slice ≡ false)
      × (is_kind k func_pointer ≡ false)
      × (is_kind k tuple ≡ false)
unfolding is_kind
integral_kinds k e = rw e (refl, refl, refl, refl, refl)

pointer_kinds :
    (k l : TypeKind)
    → k ≡ ptr
    → l ≡ ptr
    → (is_kind k nil ≡ false) × ((is_kind k ptr && is_kind l ptr) ≡ true)
unfolding is_kind
pointer_kinds k l e e' = rw (e, e') (refl, refl)

-- A number is not assigned to a pointer.
integral_step :
    (ts : TypeSystem) (depth f : ℕ) (a b : TypeId)
    → any_invalid a b ≡ false
    → same a b ≡ false
    → (same (ts.get a).alias_to b || same (ts.get b).alias_to a) ≡ false
    → (ts.get a).kind ≡ integral
    → has_flag (ts.get b).flags is_pure ≡ false
    → is_assignable_to ts depth (suc f) a b ≡ some false
unfolding is_assignable_to
integral_step ts depth f a b v s l k p =
    let (k₁, k₂, k₃, k₄, k₅) = integral_kinds (ts.get a).kind k in
    if_false (any_invalid a b) (some false) v
    ∙ if_false (same a b) (some true) s
    ∙ if_false (same (ts.get a).alias_to b || same (ts.get b).alias_to a) (some true) l
    ∙ if_false _ (some true) (kinds_false (ts.get a).kind nil (is_aggregate ts b) k₁)
    ∙ if_false _ _ (kinds_false (ts.get a).kind ptr (is_kind (ts.get b).kind ptr) k₂)
    ∙ if_false _ (some true) (kinds_false (ts.get a).kind ptr (is_kind (ts.get b).kind nil) k₂)
    ∙ if_false _ (some true) (kinds_false (ts.get a).kind nil (is_kind (ts.get b).kind ptr) k₁)
    ∙ if_false _ _ (kinds_false (ts.get a).kind slice (is_kind (ts.get b).kind slice) k₃)
    ∙ if_false _ (some true)
        (kinds_false (ts.get a).kind func_pointer (is_kind (ts.get b).kind func_pointer) k₄)
    ∙ if_false _ _ (
        kinds_false (ts.get a).kind tuple
          (is_kind (ts.get b).kind tuple || is_kind (ts.get b).kind structure) k₅)
    ∙ ap (λ c. some (c && same (ts.get b).elem_type a)) p

-- A pointer to a number is assignable to the pure type made of it, by the rule for pure types, but
-- the compiler, which looks at the elements of two pointers first, refuses it. The conditions: the
-- three types are valid and different where they are compared, none is an alias of another, the
-- pointer itself is not pure, and the pure type's root is no pointer without a type.
pub pure_pointer :
    (ts : TypeSystem) (depth f : ℕ) (a b : TypeId)
    → (ts.get a).kind ≡ ptr
    → (ts.get b).kind ≡ ptr
    → (ts.get b).elem_type ≡ a
    → (ts.get (ts.get a).elem_type).kind ≡ integral
    → has_flag (ts.get b).flags is_pure ≡ true
    → has_flag (ts.get a).flags is_pure ≡ false
    → is_opaque ts depth b ≡ some false
    → any_invalid a b ≡ false
    → same a b ≡ false
    → (same (ts.get a).alias_to b || same (ts.get b).alias_to a) ≡ false
    → any_invalid (ts.get a).elem_type a ≡ false
    → same (ts.get a).elem_type a ≡ false
    → (same (ts.get (ts.get a).elem_type).alias_to a
        || same (ts.get a).alias_to (ts.get a).elem_type)
      ≡ false
    → Assignable ts depth a b × (is_assignable_to ts depth (suc (suc f)) a b ≡ some false)
unfolding same
pure_pointer ts depth f a b ka kb eb ke pb pa o v s l v' s' l' =
    let (n, k) = pointer_kinds (ts.get a).kind (ts.get b).kind ka kb in
    (
      pure pb (subst (λ t. same t a ≡ true) (sym eb) (same_refl a)),
      pointers_step ts depth (suc f) a b v s l n k o
          ∙ ap (is_assignable_to ts depth (suc f) (ts.get a).elem_type) eb
          ∙ integral_step ts depth f (ts.get a).elem_type a v' s' l' ke pa,
    )
