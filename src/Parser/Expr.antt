-- ===== src/Parser/Expr.antt =====
-- The expressions and types of carbonc/parser.cc. Each function calls the others with less fuel. A
-- function as an expression and the type of a structure, whose parsing reads declarations, are
-- `left_out`.
pub mod Fuel
pub mod Printer
pub mod RoundTrip
use carbonlang.Prelude.{ℕ, zero, suc, Bool, true, false, codes, [], ◌∷◌, ◌==◌, if◌then◌else◌}
use carbonlang.Token
use carbonlang.Token.{
  TokenType, chr, eof, bool_literal_false, bool_literal_true, noinit, noflags, noerror, func, type,
  struct_, enum_, enumflags, then_, else_, cast_, arrow_right, is_unary_op, token_to_char,
}
use carbonlang.Parser
use carbonlang.Parser.{
  Tokens, Node, Nodes, none, more, null, bool_literal, float_literal, int_literal, char_literal,
  string_literal, nil, init_tag, identifier, func_overload_selector, const_expr, unary_expr,
  ternary_expr, cast_expr, init_expr, call_expr, arg_list, let_decl, type_expr, slice_type,
  tuple_type, type_qualifier, type_constructor_instance, array_type, func_pointer_type, enum_type,
  is_null, expected_then_expression, expected_else_token, expected_else_expression, invalid_cast,
  unexpected_eof, expected_paren, expected_type, invalid_type, expected_designator,
  expected_designator_assign, expected_designator_value, expected_return_type, expected_array_size,
  expected_array_end, expected_array_item, expected_enum_begin, expected_enum_end, Result, ok,
  error, null_deref, left_out, out_of_fuel, bind, Parser, tok, tok_char, next, int_value,
  string_value,
}
use carbonlang.Parser.Binary.{parse_operators}
use carbonlang.Parser.Args.{
  is_identifier, parse_qualified_identifier, parse_arg_list, parse_tuple_rest, parse_enum_members,
  parse_postfix,
}
use carbonlang.Parser.Parts.{
  expect, is_arrow_right, is_cast, is_else, is_eof, is_none, is_then, parse_array_type_expr,
  parse_branches, parse_cast, parse_const_type, parse_enum_body, parse_enum_type_expr,
  parse_init_item, parse_init_list_expr, parse_name, parse_named_type, parse_paren_expr,
  parse_tuple_item, parse_tuple_type_expr, parse_unary_op, require, throw_at,
  transform_to_type_expr, tuple_or_func_pointer, wrap_type,
}

unfoldable mutual
  unfolding tok tok_char next int_value string_value parse_operators parse_tuple_rest parse_postfix
      parse_init_list_expr parse_tuple_type_expr parse_array_type_expr parse_enum_type_expr
      parse_named_type wrap_type parse_paren_expr parse_unary_op parse_cast parse_branches
      parse_name parse_const_type is_null is_then is_cast is_eof is_unary_op token_to_char
      transform_to_type_expr

  pub parse_braceless_tuple_expr : ℕ → Parser Node
  parse_braceless_tuple_expr zero ts = out_of_fuel
  parse_braceless_tuple_expr (suc f) ts = bind (parse_ternary_expr f ts) λ (expr, ts₁).
      let tuple : Result (Node × Tokens) =
        bind (parse_tuple_rest (parse_ternary_expr f) f ts₁)
          λ (exprs, ts₂). ok (init_expr null (arg_list (more expr exprs)), ts₂) in
      if tok_char ts₁ == b',' then if is_null expr then null_deref else tuple else ok (expr, ts₁)

  pub parse_ternary_expr : ℕ → Parser Node
  parse_ternary_expr zero ts = out_of_fuel
  parse_ternary_expr (suc f) ts = bind (parse_operators (parse_unary_expr f) f 0 ts) λ (expr, ts₁).
      let ternary : Result (Node × Tokens) =
        parse_branches (parse_braceless_tuple_expr f) expr (next ts₁) in
      if is_then (tok ts₁) then ternary else ok (expr, ts₁)

  pub parse_unary_expr : ℕ → Parser Node
  parse_unary_expr zero ts = out_of_fuel
  parse_unary_expr (suc f) ts =
      let unary : Result (Node × Tokens) = parse_unary_op (parse_cast_expr f) ts in
      let other : Result (Node × Tokens) = parse_cast_expr f ts in
      if is_unary_op (tok ts) then unary else other

  pub parse_cast_expr : ℕ → Parser Node
  parse_cast_expr zero ts = out_of_fuel
  parse_cast_expr (suc f) ts =
      let cast : Result (Node × Tokens) =
        parse_cast (parse_type_expr f false false) (parse_unary_expr f) ts in
      let other : Result (Node × Tokens) = parse_init_expr f ts in
      if is_cast (tok ts) then cast else other

  pub parse_init_expr : ℕ → Parser Node
  parse_init_expr zero ts = out_of_fuel
  parse_init_expr (suc f) ts = bind (parse_call_or_index_or_field_expr f ts) λ (expr, ts₁).
      let object : Result (Node × Tokens) =
        parse_init_list_expr (parse_ternary_expr f) (transform_to_type_expr expr) ts₁ in
      let typed : Result (Node × Tokens) =
        bind (parse_type_expr f true false ts₁) λ (try_type, ts₂).
          let items : Result (Node × Tokens) =
            parse_init_list_expr (parse_ternary_expr f) try_type ts₂ in
          if is_null try_type then ok (null, ts₂) else items in
      if is_null expr then typed else if tok_char ts₁ == b'{' then object else ok (expr, ts₁)

  pub parse_call_or_index_or_field_expr : ℕ → Parser Node
  parse_call_or_index_or_field_expr zero ts = out_of_fuel
  parse_call_or_index_or_field_expr (suc f) ts =
      bind (parse_primary_expr f (tok ts) ts) λ (expr, ts₁).
        parse_postfix (parse_ternary_expr f) (parse_braceless_tuple_expr f) f expr ts₁

  -- By the type of the current token.
  pub parse_primary_expr : ℕ → TokenType → Parser Node
  parse_primary_expr zero t ts = out_of_fuel
  parse_primary_expr (suc f) bool_literal_true ts = ok (bool_literal true, next ts)
  parse_primary_expr (suc f) bool_literal_false ts = ok (bool_literal false, next ts)
  parse_primary_expr (suc f) Token.float_literal ts = ok (float_literal (int_value ts), next ts)
  parse_primary_expr (suc f) Token.int_literal ts = ok (int_literal (int_value ts), next ts)
  parse_primary_expr (suc f) Token.char_literal ts = ok (char_literal (int_value ts), next ts)
  parse_primary_expr (suc f) Token.string_literal ts =
      ok (string_literal (string_value ts), next ts)
  parse_primary_expr (suc f) Token.nil ts = ok (nil, next ts)
  parse_primary_expr (suc f) noinit ts = ok (init_tag noinit, next ts)
  parse_primary_expr (suc f) noflags ts = ok (init_tag noflags, next ts)
  parse_primary_expr (suc f) noerror ts = ok (init_tag noerror, next ts)
  parse_primary_expr (suc f) Token.identifier ts = parse_name (parse_type_expr f false false) ts
  parse_primary_expr (suc f) func ts = left_out
  parse_primary_expr (suc f) type ts = parse_const_type (parse_type_expr f false false) ts
  parse_primary_expr (suc f) t ts =
      let paren : Result (Node × Tokens) = parse_paren_expr (parse_braceless_tuple_expr f) ts in
      let items : Result (Node × Tokens) = parse_init_list_expr (parse_ternary_expr f) null ts in
      let unary : Result (Node × Tokens) = parse_unary_op (parse_cast_expr f) ts in
      if token_to_char t == b'('
      then paren
      else if token_to_char t == b'{'
      then items
      else if is_unary_op t
      then unary
      else if is_eof t
      then error unexpected_eof
      else ok (null, ts)

  pub parse_type_expr : ℕ → Bool → Bool → Parser Node
  parse_type_expr zero no_error no_wrap ts = out_of_fuel
  parse_type_expr (suc f) no_error no_wrap ts =
      bind (parse_type_contents f (tok ts) ts) (wrap_type no_error no_wrap)

  pub parse_type_contents : ℕ → TokenType → Parser Node
  parse_type_contents zero t ts = out_of_fuel
  parse_type_contents (suc f) struct_ ts = left_out
  parse_type_contents (suc f) enum_ ts =
      parse_enum_type_expr (parse_type_expr f false false) f false ts
  parse_type_contents (suc f) enumflags ts =
      parse_enum_type_expr (parse_type_expr f false false) f true ts
  parse_type_contents (suc f) Token.pure ts =
      bind (parse_type_expr f false true (next ts))
        λ (t, ts₁). ok (type_qualifier Parser.pure t, ts₁)
  parse_type_contents (suc f) Token.identifier ts =
      parse_named_type (parse_type_expr f false false) ts
  parse_type_contents (suc f) Token.error ts = ok (identifier (codes "$error" ∷ []), next ts)
  parse_type_contents (suc f) Token.nil ts = ok (identifier (codes "$nil" ∷ []), next ts)
  parse_type_contents (suc f) t ts =
      let tuple : Result (Node × Tokens) =
        parse_tuple_type_expr (parse_type_expr f false false) ts in
      let array : Result (Node × Tokens) =
        parse_array_type_expr (parse_ternary_expr f) (parse_type_expr f false false) (next ts) in
      let pointer : Result (Node × Tokens) =
        bind (parse_type_expr f false true (next ts))
          λ (u, ts₁). ok (type_qualifier Parser.ptr u, ts₁) in
      if token_to_char t == b'{'
      then tuple
      else if token_to_char t == b'['
      then array
      else if token_to_char t == b'&'
      then pointer
      else ok (null, ts)
