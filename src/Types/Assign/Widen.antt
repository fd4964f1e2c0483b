-- ===== src/Types/Assign/Widen.antt =====
-- What an answer of is_convertible_to, is_comparable and is_castable_to of carbonc/type_system.cc
-- means.
use carbonlang.Prelude.{
  ℕ, suc, ◌≤◌, ◌≡◌, ◌⊎◌, inl, inr, refl, ◌∙◌, Bool, true, false, ◌&&◌, ◌||◌, Option, some, leb→le,
  ◌==◌, if◌then◌else◌,
}
use carbonlang.TypeId.{TypeId}
use carbonlang.Types.{
  ptr, integral, enumflags, is_kind, TypeSystem, same, any_invalid, get_alias_root, and_then,
}
use carbonlang.Types.Answers.{and_both, if_false, Says, says, Says-if, Says-and_then, Says-some}
use carbonlang.Types.Assign.{
  is_assignable_to, is_convertible_to, is_comparable, cast_check, is_castable_to,
}

-- Flags are compared with none, or numbers become numbers that are no shorter, or the empty set of
-- flags gets a type.
abbrev pub Widens : TypeSystem → TypeId → TypeId → Type 0
Widens ts a b =
    ((is_kind (ts.get a).kind enumflags ≡ true) × (same b ts.bool_type ≡ true))
    ⊎ (((is_kind (ts.get a).kind integral ≡ true)
          × (is_kind (ts.get b).kind integral ≡ true)
          × ((ts.get a).size ≤ (ts.get b).size))
        ⊎ ((same a ts.noflags_type ≡ true)
            × (is_kind (ts.get b).kind enumflags ≡ true)
            × ((ts.get a).size ≤ (ts.get b).size)))

-- The types are numbers and pointers of one size.
abbrev pub IsAddress : TypeSystem → TypeId → TypeId → Type 0
IsAddress ts a b =
    (is_kind (ts.get a).kind integral ≡ true)
    × (is_kind (ts.get b).kind ptr ≡ true)
    × (((ts.get b).size == (ts.get a).size) ≡ true)

-- What a positive answer rests on.
abbrev pub Means : TypeSystem → ℕ → ℕ → TypeId → TypeId → Bool × Bool → Type 0
Means ts depth f a b (convertible, cast) =
    convertible ≡ true
    → (any_invalid a b ≡ false)
      × ((is_assignable_to ts depth f a b ≡ some true) × (cast ≡ false)
          ⊎ ((ra : TypeId) × (rb : TypeId) × (get_alias_root ts depth a ≡ some ra)
              × (get_alias_root ts depth b ≡ some rb)
              × ((cast ≡ true) × Widens ts ra rb ⊎ (cast ≡ false) × IsAddress ts ra rb)))

module _ (ts : TypeSystem) (depth f : ℕ) (a b : TypeId) where
  is_convertible_to-Says : Says (Means ts depth f a b) (is_convertible_to ts depth f a b)
  unfolding is_convertible_to
  is_convertible_to-Says =
      Says-if (any_invalid a b) (λ _. says λ h. cc)
        λ v. Says-and_then (is_assignable_to ts depth f a b) λ assignable e.
          Says-if assignable (λ t. says λ h. (v, inl (cc, refl)))
            λ _. Says-and_then (get_alias_root ts depth a) λ ra p.
              Says-and_then (get_alias_root ts depth b) λ rb q.
                Says-if (is_kind (ts.get ra).kind enumflags && same rb ts.bool_type)
                  (λ c. says λ h. (
                    v,
                    inr (
                      ra,
                      rb,
                      p,
                      q,
                      inl (refl, inl (and_both (is_kind (ts.get ra).kind enumflags) _ c)),
                    ),
                  ))
                  λ _.
                    Says-if (same a ts.bool_type || same b ts.bool_type) (λ _. says λ h. cc)
                      λ _.
                        Says-if
                          (is_kind (ts.get ra).kind integral && is_kind (ts.get rb).kind integral)
                          (λ c.
                            let (i, j) = and_both (is_kind (ts.get ra).kind integral) _ c in
                            says λ h. (
                              v,
                              inr (
                                ra,
                                rb,
                                p,
                                q,
                                inl (
                                  refl,
                                  inr (inl (i, j, leb→le (ts.get ra).size (ts.get rb).size h)),
                                ),
                              ),
                            ))
                          λ _.
                            Says-if
                              (is_kind (ts.get ra).kind integral && is_kind (ts.get rb).kind ptr)
                              (λ c.
                                let (i, j) = and_both (is_kind (ts.get ra).kind integral) _ c in
                                says λ h. (v, inr (ra, rb, p, q, inr (refl, (i, j, h)))))
                              λ _.
                                Says-if
                                  (same ra ts.noflags_type && is_kind (ts.get rb).kind enumflags)
                                  (λ c.
                                    let (i, j) = and_both (same ra ts.noflags_type) _ c in
                                    says λ h. (
                                      v,
                                      inr (
                                        ra,
                                        rb,
                                        p,
                                        q,
                                        inl (
                                          refl,
                                          inr (
                                              inr
                                                (i, j, leb→le (ts.get ra).size (ts.get rb).size h)),
                                        ),
                                      ),
                                    ))
                                  λ _. says λ h. cc

-- An implicit conversion is an assignment, and then no cast, or the roots of the aliases are
-- involved: with a cast flags become a truth value, a number one that is no shorter, or the empty set
-- of flags gets a type, and without a cast a number becomes a pointer of its size.
pub is_convertible_to-Means :
    (ts : TypeSystem) (depth f : ℕ) (a b : TypeId) (cast : Bool)
    → is_convertible_to ts depth f a b ≡ some (true, cast)
    → (any_invalid a b ≡ false)
      × ((is_assignable_to ts depth f a b ≡ some true) × (cast ≡ false)
          ⊎ ((ra : TypeId) × (rb : TypeId) × (get_alias_root ts depth a ≡ some ra)
              × (get_alias_root ts depth b ≡ some rb)
              × ((cast ≡ true) × Widens ts ra rb ⊎ (cast ≡ false) × IsAddress ts ra rb)))
is_convertible_to-Means ts depth f a b cast e =
    Says-some (is_convertible_to-Says ts depth f a b) e refl

convertible_first :
    (o : Option (Bool × Bool)) (cast : Bool) (check : Option Bool)
    → o ≡ some (true, cast)
    → and_then o (λ (c, k). if c then some true else check) ≡ some true
convertible_first o cast check e = rw e refl

castable :
    (ts : TypeSystem) (depth f : ℕ) (a b : TypeId) (cast : Bool)
    → is_convertible_to ts depth f a b ≡ some (true, cast)
    → is_castable_to ts depth (suc f) a b ≡ some true
unfolding is_castable_to
castable ts depth f a b cast e =
    let (v, _) = is_convertible_to-Means ts depth f a b cast e in
    let check : Option Bool =
      cast_check ts depth (ts.get b).kind
        (is_castable_to ts depth f (ts.get a).elem_type (ts.get b).elem_type) a b in
    if_false (any_invalid a b) (some false) v
    ∙ convertible_first (is_convertible_to ts depth f a b) cast check e

-- Which of the two operands of a comparison is converted, and that it can be.
abbrev pub ComparedBy : TypeSystem → ℕ → ℕ → TypeId → TypeId → Bool × Bool × ℕ → Type 0
ComparedBy ts depth f a b (c, cast, side) =
    ((side ≡ 0) × (c ≡ true) × (is_convertible_to ts depth f a b ≡ some (true, cast)))
    ⊎ ((side ≡ 1)
        × ((k : Bool) × (is_convertible_to ts depth f a b ≡ some (false, k)))
        × (is_convertible_to ts depth f b a ≡ some (c, cast)))

is_comparable-Says :
    (ts : TypeSystem) (depth f : ℕ) (a b : TypeId)
    → Says (ComparedBy ts depth f a b) (is_comparable ts depth f a b)
unfolding is_comparable
is_comparable-Says ts depth f a b =
    Says-and_then (is_convertible_to ts depth f a b) λ (left, cast) e.
      Says-if left (λ h. says (inl (refl, refl, cc)))
        λ h.
          Says-and_then (is_convertible_to ts depth f b a)
            λ (c, k) e'. says (inr (refl, (cast, cc), e'))

agree :
    (ts : TypeSystem) (depth f : ℕ) (a b : TypeId) (r r' : Bool × Bool × ℕ)
    → ComparedBy ts depth f a b r
    → ComparedBy ts depth f b a r'
    → r.0 ≡ r'.0
agree ts depth f a b r r' (inl (_, c, _)) (inl (_, c', _)) = cc
agree ts depth f a b r r' (inl (_, c, e)) (inr (_, _, e')) = cc
agree ts depth f a b r r' (inr (_, _, e)) (inl (_, c', e')) = cc
agree ts depth f a b r r' (inr (_, (k, e), g)) (inr (_, (k', e'), g')) = cc

-- A comparison converts the side that the answer names, which can be cast as well, or neither side
-- converts.
abbrev pub Converts : TypeSystem → ℕ → ℕ → TypeId → TypeId → Bool × Bool × ℕ → Type 0
Converts ts depth f a b (true, cast, side) =
    ((side ≡ 0)
      × (is_convertible_to ts depth f a b ≡ some (true, cast))
      × (is_castable_to ts depth (suc f) a b ≡ some true))
    ⊎ ((side ≡ 1)
        × ((k : Bool) × (is_convertible_to ts depth f a b ≡ some (false, k)))
        × (is_convertible_to ts depth f b a ≡ some (true, cast))
        × (is_castable_to ts depth (suc f) b a ≡ some true))
Converts ts depth f a b (false, cast, side) =
    ((k : Bool) × (is_convertible_to ts depth f a b ≡ some (false, k)))
    × ((k : Bool) × (is_convertible_to ts depth f b a ≡ some (false, k)))

ComparedBy-Converts :
    (ts : TypeSystem) (depth f : ℕ) (a b : TypeId) (c cast : Bool) (side : ℕ)
    → ComparedBy ts depth f a b (c, cast, side)
    → Converts ts depth f a b (c, cast, side)
ComparedBy-Converts ts depth f a b true cast side (inl (z, _, e)) =
    inl (z, e, castable ts depth f a b cast e)
ComparedBy-Converts ts depth f a b true cast side (inr (z, k, e)) =
    inr (z, k, e, castable ts depth f b a cast e)
ComparedBy-Converts ts depth f a b false cast side (inl (z, c, e)) = cc
ComparedBy-Converts ts depth f a b false cast side (inr (z, k, e)) = (k, (cast, e))

-- Two operands that are compared are compared in either order. When they can be, the side that the
-- answer names converts to the other one, with a cast as the answer says, and can be cast to it, and
-- the right side is named only when the left one does not convert; when they cannot, neither side
-- converts.
pub is_comparable-is_comparable :
    (ts : TypeSystem) (depth f : ℕ) (a b : TypeId) (c cast c' cast' : Bool) (side side' : ℕ)
    → is_comparable ts depth f a b ≡ some (c, cast, side)
    → is_comparable ts depth f b a ≡ some (c', cast', side')
    → (c ≡ c') × Converts ts depth f a b (c, cast, side)
is_comparable-is_comparable ts depth f a b c cast c' cast' side side' e e' =
    let x : ComparedBy ts depth f a b (c, cast, side) =
      Says-some (is_comparable-Says ts depth f a b) e in
    let y : ComparedBy ts depth f b a (c', cast', side') =
      Says-some (is_comparable-Says ts depth f b a) e' in
    (
      agree ts depth f a b (c, cast, side) (c', cast', side') x y,
      ComparedBy-Converts ts depth f a b c cast side x,
    )
