-- ===== src/Tests/Tokens.antt =====
-- carbonc/token.cc: the theorems on operators at concrete tokens.
use carbonlang.Prelude.{none, ◌<◌, ◌≡◌, ◌++◌, codes, true, false, ◌||◌}
use carbonlang.Token.{
  eqeq, plus_assign, is_binary_op, is_logic_binary_op, is_cmp_binary_op, is_arith_binary_op,
  is_assignment_sugar_op, precedence, get_desugared_assignment_op,
}
use carbonlang.Token.Operators.{
  Gives, spelling, get_desugared_assignment_op_lem, is_unclassified, operator_classes,
}

get_desugared_assignment_op_lem_example :
    (is_assignment_sugar_op plus_assign ≡ true
      → Gives (get_desugared_assignment_op plus_assign) (λ o.
        (spelling plus_assign ≡ spelling o ++ codes "=")
        × (is_arith_binary_op o ≡ true)
        × (is_binary_op o ≡ true)
        × (is_assignment_sugar_op o ≡ false)
        × (precedence plus_assign < precedence o)))
    × (is_assignment_sugar_op plus_assign ≡ false → get_desugared_assignment_op plus_assign ≡ none)
get_desugared_assignment_op_lem_example = get_desugared_assignment_op_lem plus_assign

operator_classes_example :
    (is_logic_binary_op eqeq ≡ true
      → (is_binary_op eqeq ≡ true)
        × (is_cmp_binary_op eqeq ≡ false)
        × (is_arith_binary_op eqeq ≡ false))
    × (is_cmp_binary_op eqeq ≡ true
        → (is_binary_op eqeq ≡ true) × (is_arith_binary_op eqeq ≡ false))
    × (is_arith_binary_op eqeq ≡ true → is_binary_op eqeq ≡ true)
    × (is_binary_op eqeq ≡ true
        → (is_logic_binary_op eqeq
            || is_cmp_binary_op eqeq
            || is_arith_binary_op eqeq
            || is_assignment_sugar_op eqeq
            || is_unclassified eqeq)
          ≡ true)
operator_classes_example = operator_classes eqeq
