-- ===== src/Token/Operators.antt =====
-- The operator table of carbonc/token.cc: what the classes of operators have to do with one another.
use carbonlang.Prelude.{
  ◌<◌, ◌≤◌, ◌≡◌, refl, Option, some, none, Bool, true, false, ◌||◌, [], ◌∷◌, ◌++◌, Bytes, codes,
  arith, ltb, ◌==◌,
}
use carbonlang.Token.{
  TokenType, chr, shl, shr, plus_assign, minus_assign, mul_assign, div_assign, and_assign,
  or_assign, shl_assign, shr_assign, dotdot, arrow_right, is_binary_op, is_right_assoc,
  is_assignment_sugar_op, is_logic_binary_op, is_arith_binary_op, is_cmp_binary_op, precedence,
  get_desugared_assignment_op,
}

-- There is a result, and it satisfies the predicate.
abbrev pub Gives : {A : Type 0} → Option A → (A → Type 0) → Type 0
Gives none P = ⊥
Gives (some a) P = P a

-- How the source text of a program spells an operator.
abbrev pub spelling : TokenType → Bytes
spelling (chr c) = c ∷ []
spelling shl = codes "<<"
spelling shr = codes ">>"
spelling plus_assign = codes "+="
spelling minus_assign = codes "-="
spelling mul_assign = codes "*="
spelling div_assign = codes "/="
spelling and_assign = codes "&="
spelling or_assign = codes "|="
spelling shl_assign = codes "<<="
spelling shr_assign = codes ">>="
spelling _ = []

-- Every assignment-sugar operator desugars, to an arithmetic binary operator that is no sugar
-- itself and binds tighter than the assignment did.
desugar_sugar :
    (t : TokenType)
    → is_assignment_sugar_op t ≡ true
    → Gives (get_desugared_assignment_op t) (λ o.
      (spelling t ≡ spelling o ++ codes "=")
      × (is_arith_binary_op o ≡ true)
      × (is_binary_op o ≡ true)
      × (is_assignment_sugar_op o ≡ false)
      × (precedence t < precedence o))
unfolding is_assignment_sugar_op is_binary_op is_arith_binary_op precedence
    get_desugared_assignment_op
desugar_sugar (chr c) h = ground arith
desugar_sugar _ h = ground arith

-- Only the eight sugar operators desugar: any other stops the compiler.
desugar_other :
    (t : TokenType) → is_assignment_sugar_op t ≡ false → get_desugared_assignment_op t ≡ none
unfolding is_assignment_sugar_op get_desugared_assignment_op
desugar_other (chr c) h = refl
desugar_other _ h = ground arith

-- An assignment-sugar operator desugars to the operator that is spelled like it without the `=` at its
-- end, which is an arithmetic binary operator, no sugar itself, and binds tighter than the assignment
-- did; any other operator stops the compiler.
pub get_desugared_assignment_op_lem :
    (t : TokenType)
    → (is_assignment_sugar_op t ≡ true
        → Gives (get_desugared_assignment_op t) (λ o.
          (spelling t ≡ spelling o ++ codes "=")
          × (is_arith_binary_op o ≡ true)
          × (is_binary_op o ≡ true)
          × (is_assignment_sugar_op o ≡ false)
          × (precedence t < precedence o)))
      × (is_assignment_sugar_op t ≡ false → get_desugared_assignment_op t ≡ none)
get_desugared_assignment_op_lem t = (desugar_sugar t, desugar_other t)

precedence_binary : (t : TokenType) → is_binary_op t ≡ ltb 0 (precedence t)
unfolding is_binary_op precedence
precedence_binary (chr c) = ground arith
precedence_binary _ = refl

pub is_right_assoc-false : (t : TokenType) → is_right_assoc t ≡ false
unfolding is_right_assoc
is_right_assoc-false (chr c) = ground arith
is_right_assoc-false _ = refl

precedence_logic : (t : TokenType) → is_logic_binary_op t ≡ true → precedence t ≤ 500
unfolding is_logic_binary_op precedence
precedence_logic (chr c) h = ground arith
precedence_logic _ h = ground arith

precedence_cmp : (t : TokenType) → is_cmp_binary_op t ≡ true → 700 ≤ precedence t
unfolding is_cmp_binary_op precedence
precedence_cmp (chr c) h = ground arith
precedence_cmp _ h = ground arith

-- A token is a binary operator exactly when it has a precedence, no operator is right
-- associative, a logic operator binds looser than every comparison.
operator_table :
    (t u : TokenType)
    → (is_binary_op t ≡ ltb 0 (precedence t))
      × (is_right_assoc t ≡ false)
      × (is_logic_binary_op t ≡ true → is_cmp_binary_op u ≡ true → precedence t < precedence u)
operator_table t u = (
  precedence_binary t,
  is_right_assoc-false t,
  λ h k. omega (arith, precedence_logic t h, precedence_cmp u k),
)

-- The binary operators that no class test knows: the remainder, the range and the arrow.
unfoldable pub is_unclassified : TokenType → Bool
is_unclassified (chr c) = c == b'%'
is_unclassified dotdot = true
is_unclassified arrow_right = true
is_unclassified _ = false

-- The classes of logic, comparison and arithmetic operators are disjoint and all binary, and with
-- the assignment sugar, `%`, `..` and `->` they are all the binary operators there are.
pub operator_classes :
    (t : TokenType)
    → (is_logic_binary_op t ≡ true
        → (is_binary_op t ≡ true) × (is_cmp_binary_op t ≡ false) × (is_arith_binary_op t ≡ false))
      × (is_cmp_binary_op t ≡ true → (is_binary_op t ≡ true) × (is_arith_binary_op t ≡ false))
      × (is_arith_binary_op t ≡ true → is_binary_op t ≡ true)
      × (is_binary_op t ≡ true
          → (is_logic_binary_op t
              || is_cmp_binary_op t
              || is_arith_binary_op t
              || is_assignment_sugar_op t
              || is_unclassified t)
            ≡ true)
unfolding is_logic_binary_op is_cmp_binary_op is_arith_binary_op is_binary_op is_assignment_sugar_op
    is_unclassified
operator_classes (chr c) = ground arith
operator_classes _ = ground arith
