-- ===== src/Parser/Binary.antt =====
-- `parse_binary_expr` of carbonc/parser.cc, the climbing of precedences over the operands that
-- `parse_unary_expr` reads. Its two loops are recursions on fuel.
pub mod Grammar
pub mod Complete
use carbonlang.Prelude.{ℕ, zero, suc, Bool, true, false, ◌&&◌, ◌||◌, ltb, leb, ◌==◌, if◌then◌else◌}
use carbonlang.Token.{TokenType, chr, eof, is_binary_op, is_right_assoc, precedence}
use carbonlang.Parser.{
  Tokens, Node, binary_expr, unfinished_expression, Result, ok, error, out_of_fuel, bind, Parser,
  tok, next, ◌>>=◌,
}

-- `precedence_cmp(a, b) > 0` and `precedence_cmp(a, b) >= 0`.
unfoldable pub binds_tighter : TokenType → TokenType → Bool
binds_tighter a b = ltb (precedence b) (precedence a)

unfoldable pub binds_as_tight : TokenType → TokenType → Bool
binds_as_tight a b = leb (precedence b) (precedence a)

-- The conditions of the two loops.
unfoldable pub continues : ℕ → TokenType → Bool
continues min_prec t = is_binary_op t && leb min_prec (precedence t)

unfoldable pub extends_rhs : TokenType → TokenType → Bool
unfolding binds_tighter binds_as_tight
extends_rhs op t =
    is_binary_op t && (binds_tighter t op || (is_right_assoc t && binds_as_tight t op))

unfoldable pub is_unfinished : TokenType → Bool
is_unfinished (chr c) = c == b'\n'
is_unfinished eof = true
is_unfinished _ = false

module _ (parse_unary_expr : Parser Node) where
  unfoldable mutual
    -- The outer loop, from a left operand.
    pub parse_binary_expr : ℕ → ℕ → Node → Parser Node
    parse_binary_expr zero min_prec lhs ts = out_of_fuel
    parse_binary_expr (suc f) min_prec lhs ts =
        let operand : Result (Node × Tokens) = bind (parse_unary_expr (next ts)) λ (rhs, ts₁).
          bind (parse_rhs f (tok ts) rhs ts₁)
            λ (rhs', ts₂). parse_binary_expr f min_prec (binary_expr (tok ts) lhs rhs') ts₂ in
        if continues min_prec (tok ts)
        then if is_unfinished (tok (next ts)) then error unfinished_expression else operand
        else ok (lhs, ts)

    -- The inner loop, from the right operand of `op`.
    pub parse_rhs : ℕ → TokenType → Node → Parser Node
    parse_rhs zero op rhs ts = out_of_fuel
    parse_rhs (suc f) op rhs ts =
        let longer : Result (Node × Tokens) =
          bind (parse_binary_expr f (precedence (tok ts)) rhs ts)
            λ (rhs', ts₁). parse_rhs f op rhs' ts₁ in
        if extends_rhs op (tok ts) then longer else ok (rhs, ts)

  -- `parse_binary_expr(parse_unary_expr(), min_prec)`.
  unfoldable pub parse_operators : ℕ → ℕ → Parser Node
  parse_operators f min_prec ts =
      bind (parse_unary_expr ts) λ (lhs, ts₁). parse_binary_expr f min_prec lhs ts₁
