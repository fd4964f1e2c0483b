-- ===== src/Types/Coerce.antt =====
-- carbonc/type_system.cc: try_coerce_to, which gives an integer literal the type that is wanted, and
-- get_conversion_error_detail.
use carbonlang.Prelude.{
  ℕ, ◌<◌, ◌≤◌, ◌≡◌, ◌⊎◌, inl, inr, refl, Bool, true, false, not, ◌&&◌, ltb, ltb→lt, arith,
  if◌then◌else◌,
}
use carbonlang.TypeId.{TypeId}
use carbonlang.Types.Answers.{and_both}
use carbonlang.Types.{ptr, integral, is_kind, TypeDef, TypeSystem, valid}

-- The fields of a node that are read; `int_value` as the unsigned number it is compared as.
pub record Value : Type 0 where
  pub is_int_literal : Bool
  pub int_value : ℕ
  pub tid : TypeId

module _ (ts : TypeSystem) where
  unfoldable pub try_coerce_to : Value → TypeId → Value
  unfolding valid is_kind
  try_coerce_to from to =
      let a : TypeDef = ts.get from.tid in
      let b : TypeDef = ts.get to in
      let coerced : Value = record from { tid = to } in
      if not (valid from.tid)
      then from
      else if not (valid to)
      then from
      else if is_kind a.kind integral && is_kind b.kind integral
      then if ltb b.size a.size
        then if from.is_int_literal && ltb from.int_value b.numeric_max then coerced else from
        else if from.is_int_literal
        then coerced
        else from
      else if is_kind a.kind integral && is_kind b.kind ptr
      then if from.is_int_literal then coerced else from
      else from

  -- Whether there is a detail to tell: the conversion narrows.
  unfoldable pub get_conversion_error_detail : TypeId → TypeId → Bool
  unfolding valid is_kind
  get_conversion_error_detail a b =
      valid a
      && valid b
      && is_kind (ts.get a).kind integral
      && is_kind (ts.get b).kind integral
      && ltb (ts.get b).size (ts.get a).size

-- A literal of an integral type gets the wanted type, an integral one that is no shorter or holds the
-- literal's value below its maximum, or a pointer.
abbrev pub IsCoerced : TypeSystem → Value → TypeId → Type 0
IsCoerced ts from to =
    (from.is_int_literal ≡ true)
    × (is_kind (ts.get from.tid).kind integral ≡ true)
    × (((is_kind (ts.get to).kind integral ≡ true)
          × (((ts.get from.tid).size ≤ (ts.get to).size)
              ⊎ (from.int_value < (ts.get to).numeric_max)))
        ⊎ (is_kind (ts.get to).kind ptr ≡ true))

ltb-false : (a b : ℕ) → ltb a b ≡ false → b ≤ a
ltb-false a b h = ground arith

-- The value is left, and where a detail of the error is told it is no literal or not below the maximum
-- of the shorter type; or it is a literal whose type has changed as above.
pub data Coerced (ts : TypeSystem) (from : Value) (to : TypeId) : Value → Type 0 where
  left :
      (get_conversion_error_detail ts from.tid to ≡ true
        → (from.is_int_literal && ltb from.int_value (ts.get to).numeric_max) ≡ false)
      → Coerced ts from to from
  changed : IsCoerced ts from to → Coerced ts from to (record from { tid = to })

Coerced-if :
    {ts : TypeSystem} {from : Value} {to : TypeId} (c : Bool) {x y : Value}
    → (c ≡ true → Coerced ts from to x)
    → (c ≡ false → Coerced ts from to y)
    → Coerced ts from to (if c then x else y)
Coerced-if true h k = h refl
Coerced-if false h k = k refl

-- Coercion leaves a value as it is, or gives a literal the wanted type: an integral one that is no
-- shorter or whose maximum is above the literal's value, or a pointer. Where a narrowing conversion
-- is reported and the value was left, it is no such literal.
pub try_coerce_to-Coerced :
    (ts : TypeSystem) (from : Value) (to : TypeId) → Coerced ts from to (try_coerce_to ts from to)
unfolding try_coerce_to get_conversion_error_detail
try_coerce_to-Coerced ts from to =
    let a : TypeDef = ts.get from.tid in
    let b : TypeDef = ts.get to in
    Coerced-if (not (valid from.tid)) (λ h. left λ d. ground arith)
      λ _.
        Coerced-if (not (valid to)) (λ h. left λ d. ground arith)
          λ _.
            Coerced-if (is_kind a.kind integral && is_kind b.kind integral)
              (λ c.
                let (k, l) = and_both (is_kind a.kind integral) _ c in
                Coerced-if (ltb b.size a.size)
                  (λ _.
                    Coerced-if (from.is_int_literal && ltb from.int_value b.numeric_max)
                      (λ g.
                        let (i, g') = and_both from.is_int_literal _ g in
                        changed (i, k, inl (l, inr (ltb→lt from.int_value b.numeric_max g'))))
                      λ g. left λ _. g)
                  λ n.
                    Coerced-if from.is_int_literal
                      (λ i. changed (i, k, inl (l, inl (ltb-false b.size a.size n))))
                      λ i. left λ _. rw i refl)
              λ c.
                Coerced-if (is_kind a.kind integral && is_kind b.kind ptr)
                  (λ c'.
                    let (k, l) = and_both (is_kind a.kind integral) _ c' in
                    Coerced-if from.is_int_literal (λ i. changed (i, k, inr l))
                      λ i. left λ _. rw i refl)
                  λ _. left λ d. ground (arith)
