-- ===== src/Tests/Parsing.antt =====
-- The parser of carbonc/parser.cc on concrete tokens.
use mathlib.Core.Logic.{◌↔◌}
use carbonlang.Prelude.{ℕ, ◌≤◌, ◌≢◌, [], ◌∷◌, ◌≡◌, refl, false, codes, Bytes, length, arith}
use carbonlang.Token
use carbonlang.Token.{TokenType, chr, is_unary_op, is_binary_op}
use carbonlang.Parser
use carbonlang.Parser.{
  Tokens, Node, none, more, null, plain, int_literal, binary_expr, unary_expr, if_stmt, return_stmt,
  break_stmt, identifier, Parser, Result, ok, null_deref, out_of_fuel, tok, tok_char, next, Ensures,
  returned, Shrinks, length-next_le,
}
use carbonlang.Parser.Binary.{
  continues, extends_rhs, is_unfinished, parse_binary_expr, parse_operators,
}
use carbonlang.Parser.Binary.Grammar.{Chain}
use carbonlang.Parser.Binary.Complete.{parse_operators-Chain}
use carbonlang.Parser.Args.{is_coloncolon, parse_arg_list, parse_qualified_identifier}
use carbonlang.Parser.Args.Limits.{IsShortName, lists_are_short}
use carbonlang.Parser.Expr.{parse_ternary_expr, parse_unary_expr, parse_braceless_tuple_expr}
use carbonlang.Parser.Parts.{is_then}
use carbonlang.Parser.Expr.Fuel.{parse_unary_expr-Ensures}
use carbonlang.Parser.Stmt.{parse_stmt}
use carbonlang.Parser.Stmt.Fuel.{parse_stmt-out_of_fuel}
use carbonlang.Parser.Expr.Printer.{
  Formula, number, name, prefix, join, IsFormula, node, number_token, name_token, print_at, Follows,
}
use carbonlang.Parser.Expr.RoundTrip.{IsEnd, parse_braceless_tuple_expr-print_at}

abbrev op : ℕ → Parser.Token
op c = plain (chr c)

abbrev x : Bytes
x = codes "x"

-- `1 - 2 * x - 4;`
abbrev sum : Tokens
sum =
    number_token 1
    ∷ op b'-'
    ∷ number_token 2
    ∷ op b'*'
    ∷ name_token x
    ∷ op b'-'
    ∷ number_token 4
    ∷ op b';'
    ∷ []

abbrev sum_node : Node
sum_node =
    binary_expr (chr b'-')
      (binary_expr (chr b'-') (int_literal 1)
        (binary_expr (chr b'*') (int_literal 2) (identifier (x ∷ []))))
      (int_literal 4)

sum-parse : parse_braceless_tuple_expr 280 sum ≡ ok (sum_node, op b';' ∷ [])
unfolding parse_braceless_tuple_expr parse_binary_expr continues extends_rhs is_unfinished
    is_binary_op carbonlang.Token.precedence carbonlang.Token.is_right_assoc
sum-parse = refl

parse_operators-Chain_example :
    (parse_operators (parse_unary_expr 280) 280 0 sum ≡ ok (sum_node, op b';' ∷ [])) ↔ (
      Chain (parse_unary_expr 280) 0 sum sum_node (op b';' ∷ [])
      × (continues 0 (tok (op b';' ∷ [])) ≡ false))
parse_operators-Chain_example =
    parse_operators-Chain (parse_unary_expr 280) 8
      (λ us h. parse_unary_expr-Ensures 280 us (omega arith)) 280 0 sum sum_node (op b';' ∷ [])
      (omega arith) (omega arith)

parse_stmt-out_of_fuel_example :
    (parse_stmt 267 sum ≢ out_of_fuel)
    × ((t : Node) (rest : Tokens) → parse_stmt 267 sum ≡ ok (t, rest) → length rest ≤ length sum)
    × (parse_braceless_tuple_expr 267 sum ≢ out_of_fuel)
    × ((t : Node) (rest : Tokens)
        → parse_braceless_tuple_expr 267 sum ≡ ok (t, rest)
        → length rest ≤ length sum)
parse_stmt-out_of_fuel_example = parse_stmt-out_of_fuel 267 sum (omega arith)

-- `if (x) return 1; else break`
abbrev branch : Tokens
branch =
    plain Token.if_
    ∷ op b'('
    ∷ name_token x
    ∷ op b')'
    ∷ plain Token.return_
    ∷ number_token 1
    ∷ plain Token.else_
    ∷ plain Token.break_
    ∷ op b';'
    ∷ []

branch-parse :
    parse_stmt 300 branch
    ≡ ok (if_stmt (identifier (x ∷ [])) (return_stmt (int_literal 1)) break_stmt, op b';' ∷ [])
unfolding parse_stmt parse_braceless_tuple_expr parse_binary_expr continues is_binary_op
    carbonlang.Token.precedence
branch-parse = refl

-- `(1 - -x) * 2`
abbrev product : Formula
product = join (chr b'*') (join (chr b'-') (number 1) (prefix (chr b'-') (name x))) (number 2)

product-IsFormula : IsFormula product
unfolding is_binary_op is_unary_op
product-IsFormula = (refl, (refl, tt, (refl, tt)), tt)

semicolon-Follows : Follows (op b';' ∷ [])
unfolding tok_char is_coloncolon
semicolon-Follows = (refl, refl, refl, refl, refl, refl)

semicolon-IsEnd : IsEnd (op b';' ∷ [])
unfolding is_binary_op tok tok_char is_then
semicolon-IsEnd = (refl, refl, refl)

product_tokens :
    print_at 0 product (op b';' ∷ [])
    ≡ op b'('
      ∷ number_token 1
      ∷ op b'-'
      ∷ op b'-'
      ∷ name_token x
      ∷ op b')'
      ∷ op b'*'
      ∷ number_token 2
      ∷ op b';'
      ∷ []
unfolding carbonlang.Parser.Expr.Printer.print_bare carbonlang.Token.precedence
product_tokens = refl

product-length : length (print_at 0 product (op b';' ∷ [])) ≡ 9
product-length = rw product_tokens refl

parse_braceless_tuple_expr-print_at_example :
    parse_braceless_tuple_expr 400 (print_at 0 product (op b';' ∷ []))
    ≡ ok (node product, op b';' ∷ [])
parse_braceless_tuple_expr-print_at_example =
    parse_braceless_tuple_expr-print_at product product-IsFormula 400 (op b';' ∷ [])
      semicolon-Follows semicolon-IsEnd (omega (arith, product-length))

-- `(1, 2)`
abbrev pair : Tokens
pair = op b'(' ∷ number_token 1 ∷ op b',' ∷ number_token 2 ∷ op b')' ∷ []

pair-read :
    parse_arg_list (parse_ternary_expr 280) b')' pair
    ≡ ok (more (int_literal 1) (more (int_literal 2) none), [])
unfolding parse_arg_list parse_ternary_expr parse_binary_expr continues extends_rhs is_unfinished
    is_binary_op carbonlang.Token.precedence carbonlang.Token.is_right_assoc is_then
pair-read = refl

abbrev qualified : Tokens
qualified = name_token x ∷ plain Token.coloncolon ∷ name_token x ∷ op b';' ∷ []

qualified-read : parse_qualified_identifier qualified ≡ ok (identifier (x ∷ x ∷ []), op b';' ∷ [])
unfolding parse_qualified_identifier
qualified-read = refl

lists_are_short_example : (2 ≤ 32) × IsShortName (identifier (x ∷ x ∷ []), op b';' ∷ [])
lists_are_short_example =
    lists_are_short (parse_ternary_expr 280) b')' pair qualified [] (op b';' ∷ [])
      (more (int_literal 1) (more (int_literal 2) none)) (identifier (x ∷ x ∷ [])) pair-read
      qualified-read
