-- ===== src/Parser/Parts.antt =====
-- The parts of the functions for expressions and types of carbonc/parser.cc, over the parsers that
-- they call.
use carbonlang.Prelude.{ℕ, Bool, true, false, [], ◌∷◌, ◌==◌, if◌then◌else◌}
use carbonlang.Token.{TokenType, eof, then_, else_, cast_, arrow_right}
use carbonlang.Parser
use carbonlang.Parser.{
  Tokens, Node, Nodes, none, more, null, bool_literal, float_literal, int_literal, char_literal,
  string_literal, nil, init_tag, identifier, func_overload_selector, const_expr, unary_expr,
  ternary_expr, cast_expr, init_expr, call_expr, arg_list, let_decl, type_expr, slice_type,
  tuple_type, type_qualifier, type_constructor_instance, array_type, func_pointer_type, enum_type,
  is_null, expected_then_expression, expected_else_token, expected_else_expression, invalid_cast,
  unexpected_eof, expected_paren, expected_type, invalid_type, expected_designator,
  expected_designator_assign, expected_designator_value, expected_return_type, expected_array_size,
  expected_array_end, expected_array_item, expected_enum_begin, expected_enum_end, Result, ok,
  error, null_deref, left_out, out_of_fuel, bind, Parser, tok, tok_char, next, int_value,
  string_value,
}
use carbonlang.Parser.Args.{
  is_identifier, parse_qualified_identifier, parse_arg_list, parse_enum_members,
}

unfoldable pub is_then : TokenType → Bool
is_then then_ = true
is_then _ = false

unfoldable pub is_else : TokenType → Bool
is_else else_ = true
is_else _ = false

unfoldable pub is_cast : TokenType → Bool
is_cast cast_ = true
is_cast _ = false

unfoldable pub is_eof : TokenType → Bool
is_eof eof = true
is_eof _ = false

unfoldable pub is_arrow_right : TokenType → Bool
is_arrow_right arrow_right = true
is_arrow_right _ = false

-- A bracket that has to follow.
unfoldable pub expect : ℕ → Parser.Message → Tokens → Result Tokens
unfolding tok_char next
expect c message ts = if tok_char ts == c then ok (next ts) else error message

-- `throw` where the result of a call is null.
unfoldable pub require : Parser.Message → Node → Result Node
unfolding is_null
require message expr = if is_null expr then error message else ok expr

-- An expression before `{` is the type of the object.
unfoldable mutual
  pub transform_to_type_expr : Node → Node
  transform_to_type_expr (call_expr f (arg_list args)) =
      type_expr
        (type_constructor_instance (transform_to_type_expr f) (arg_list (transform_args args)))
  transform_to_type_expr (identifier parts) = type_expr (identifier parts)
  transform_to_type_expr expr = expr

  transform_args : Nodes → Nodes
  transform_args none = none
  transform_args (more arg args) = more (transform_to_type_expr arg) (transform_args args)

-- The functions that an item of a list is read by.
unfoldable pub parse_init_item : Parser Node → Parser Node
unfolding tok tok_char next string_value is_identifier expect require
parse_init_item parse_expr ts =
    let designated : Result (Node × Tokens) =
      bind (expect b'=' expected_designator_assign (next (next ts))) λ ts₁.
        bind (parse_expr ts₁) λ (expr, ts₂).
          bind (require expected_designator_value expr)
            λ value. ok (let_decl (identifier (string_value (next ts) ∷ [])) value, ts₂) in
    if tok_char ts == b'.'
    then if is_identifier (tok (next ts)) then designated else error expected_designator
    else parse_expr ts

unfoldable pub parse_tuple_item : Parser Node → Parser Node
unfolding tok_char
parse_tuple_item parse_type_expr ts =
    if tok_char ts == b'}' then ok (null, ts) else parse_type_expr ts

unfoldable pub parse_init_list_expr : Parser Node → Node → Parser Node
unfolding parse_arg_list parse_init_item
parse_init_list_expr parse_expr init_type ts =
    bind (parse_arg_list (parse_init_item parse_expr) b'}' ts)
      λ (items, ts₁). ok (init_expr init_type (arg_list items), ts₁)

unfoldable pub is_none : Nodes → Bool
is_none none = true
is_none _ = false

-- After the fields of a tuple type.
unfoldable pub tuple_or_func_pointer : Parser Node → Nodes → Parser Node
unfolding tok next is_arrow_right is_none require
tuple_or_func_pointer parse_type_expr fields ts =
    let pointer : Result (Node × Tokens) = bind (parse_type_expr (next ts)) λ (t, ts₁).
      bind (require expected_return_type t)
        λ ret_type. ok (func_pointer_type (arg_list fields) ret_type, ts₁) in
    if is_arrow_right (tok ts)
    then pointer
    else ok (tuple_type (if is_none fields then null else arg_list fields), ts)

unfoldable pub parse_tuple_type_expr : Parser Node → Parser Node
unfolding parse_arg_list parse_tuple_item tuple_or_func_pointer
parse_tuple_type_expr parse_type_expr ts =
    bind (parse_arg_list (parse_tuple_item parse_type_expr) b'}' ts)
      λ (fields, ts₁). tuple_or_func_pointer parse_type_expr fields ts₁

-- After the opening bracket.
unfoldable pub parse_array_type_expr : Parser Node → Parser Node → Parser Node
unfolding tok_char next expect require
parse_array_type_expr parse_expr parse_type_expr ts =
    let slice : Result (Node × Tokens) = bind (parse_type_expr (next ts)) λ (t, ts₁).
      bind (require expected_array_item t) λ item_type. ok (slice_type item_type, ts₁) in
    let array : Result (Node × Tokens) = bind (parse_expr ts) λ (e, ts₁).
      bind (require expected_array_size e) λ size_expr.
        bind (expect b']' expected_array_end ts₁) λ ts₂. bind (parse_type_expr ts₂) λ (t, ts₃).
          bind (require expected_array_item t)
            λ item_type. ok (array_type size_expr item_type, ts₃) in
    if tok_char ts == b']' then slice else array

-- The members of an enumeration, after its base type.
unfoldable pub parse_enum_body : ℕ → Bool → Node → Parser Node
unfolding parse_enum_members expect
parse_enum_body f is_flags base_type ts = bind (expect b'{' expected_enum_begin ts) λ ts₁.
    bind (parse_enum_members f ts₁) λ (members, ts₂).
      bind (expect b'}' expected_enum_end ts₂)
        λ ts₃. ok (enum_type base_type (arg_list members) is_flags, ts₃)

unfoldable pub parse_enum_type_expr : Parser Node → ℕ → Bool → Parser Node
unfolding tok_char next parse_enum_body
parse_enum_type_expr parse_type_expr f is_flags ts =
    let based : Result (Node × Tokens) =
      bind (parse_type_expr (next (next ts))) λ (t, ts₁). parse_enum_body f is_flags t ts₁ in
    if tok_char (next ts) == b':' then based else parse_enum_body f is_flags null (next ts)

-- A type that starts with an identifier may be an instance of a constructor.
unfoldable pub parse_named_type : Parser Node → Parser Node
unfolding tok_char parse_arg_list parse_qualified_identifier
parse_named_type parse_type_expr ts = bind (parse_qualified_identifier ts) λ (id, ts₁).
    let instance_of : Result (Node × Tokens) =
      bind (parse_arg_list parse_type_expr b')' ts₁)
        λ (args, ts₂). ok (type_constructor_instance (type_expr id) (arg_list args), ts₂) in
    if tok_char ts₁ == b'(' then instance_of else ok (id, ts₁)

-- The wrapping of what `parse_type_expr` has read, or the error when it is nothing.
unfoldable pub wrap_type : Bool → Bool → Node × Tokens → Result (Node × Tokens)
unfolding is_null
wrap_type no_error no_wrap (t, ts) =
    if is_null t
    then if no_error then ok (null, ts) else error invalid_type
    else ok (if no_wrap then t else type_expr t, ts)

unfoldable pub parse_paren_expr : Parser Node → Parser Node
unfolding next expect
parse_paren_expr parse_braceless_tuple_expr ts =
    bind (parse_braceless_tuple_expr (next ts))
      λ (expr, ts₁). bind (expect b')' expected_paren ts₁) λ ts₂. ok (expr, ts₂)

unfoldable pub parse_unary_op : Parser Node → Parser Node
unfolding tok next
parse_unary_op parse_cast_expr ts =
    bind (parse_cast_expr (next ts)) λ (expr, ts₁). ok (unary_expr (tok ts) expr, ts₁)

unfoldable pub parse_cast : Parser Node → Parser Node → Parser Node
unfolding next expect require
parse_cast parse_type_expr parse_unary_expr ts = bind (expect b'(' invalid_cast (next ts)) λ ts₁.
    bind (parse_type_expr ts₁) λ (t, ts₂). bind (expect b')' invalid_cast ts₂) λ ts₃.
      bind (parse_unary_expr ts₃)
        λ (v, ts₄). bind (require invalid_cast v) λ value. ok (cast_expr t value, ts₄)

-- `throw` at the position of an expression, which is read off it.
unfoldable pub throw_at : {A : Type 0} → Node → Parser.Message → Result A
unfolding is_null
throw_at expr message = if is_null expr then null_deref else error message

-- After the condition and `then`.
unfoldable pub parse_branches : Parser Node → Node → Parser Node
unfolding tok next is_else is_null throw_at
parse_branches parse_braceless_tuple_expr cond ts =
    bind (parse_braceless_tuple_expr ts) λ (then_expr, ts₁).
      let branch : Result (Node × Tokens) =
        bind (parse_braceless_tuple_expr (next ts₁)) λ (else_expr, ts₂).
          if is_null else_expr
          then throw_at cond expected_else_expression
          else if is_null cond
          then null_deref
          else ok (ternary_expr cond then_expr else_expr, ts₂) in
      if is_null then_expr
      then throw_at cond expected_then_expression
      else if is_else (tok ts₁)
      then branch
      else throw_at cond expected_else_token

-- An identifier, or the selection of one of its overloads by a type.
unfoldable pub parse_name : Parser Node → Parser Node
unfolding tok_char next parse_qualified_identifier
parse_name parse_type_expr ts = bind (parse_qualified_identifier ts) λ (id, ts₁).
    let selector : Result (Node × Tokens) =
      bind (parse_type_expr (next ts₁)) λ (t, ts₂). ok (func_overload_selector id t, ts₂) in
    if tok_char ts₁ == b'\\' then selector else ok (id, ts₁)

-- After `type`.
unfoldable pub parse_const_type : Parser Node → Parser Node
unfolding next require
parse_const_type parse_type_expr ts =
    bind (parse_type_expr (next ts))
      λ (t, ts₁). bind (require expected_type t) λ expr. ok (const_expr expr, ts₁)
