-- ===== src/Parser/Args.antt =====
-- The loops of carbonc/parser.cc that read lists: the parts of a qualified identifier, the
-- arguments between brackets, the members of an enumeration, the items of a tuple without brackets,
-- and the calls, fields and indices after an expression.
pub mod Fuel
pub mod Limits
use carbonlang.Prelude.{
  ℕ, zero, suc, Bool, true, false, not, ◌||◌, List, [], ◌∷◌, Bytes, ◌==◌, if◌then◌else◌,
}
use carbonlang.Token.{TokenType, identifier, coloncolon}
use carbonlang.Parser
use carbonlang.Parser.{
  Tokens, Node, Nodes, none, more, null, arg_list, call_expr, field_expr, index_expr, is_null,
  expected_identifier, expected_arg_end, expected_field, expected_index_end, Result, ok, error,
  out_of_fuel, bind, Parser, tok, tok_char, next, string_value,
}

unfoldable pub is_identifier : TokenType → Bool
is_identifier identifier = true
is_identifier _ = false

unfoldable pub is_coloncolon : TokenType → Bool
is_coloncolon coloncolon = true
is_coloncolon _ = false

-- The bounds of the loops.
abbrev pub limit : ℕ
limit = 32

-- The parts after the first one, at most so many.
unfoldable pub parse_id_parts : ℕ → Parser (List Bytes)
unfolding tok next string_value is_identifier is_coloncolon
parse_id_parts zero ts = ok ([], ts)
parse_id_parts (suc i) ts =
    let part : Result (List Bytes × Tokens) =
      bind (parse_id_parts i (next (next ts)))
        λ (parts, ts₁). ok (string_value (next ts) ∷ parts, ts₁) in
    if is_coloncolon (tok ts)
    then if is_identifier (tok (next ts)) then part else error expected_identifier
    else ok ([], ts)

unfoldable pub parse_qualified_identifier : Parser Node
unfolding parse_id_parts next string_value
parse_qualified_identifier ts =
    bind (parse_id_parts limit (next ts))
      λ (parts, ts₁). ok (Parser.identifier (string_value ts ∷ parts), ts₁)

module _ (parse_arg : Parser Node) where
  -- The arguments, at most so many.
  unfoldable pub parse_args : ℕ → ℕ → Parser Nodes
  unfolding tok_char next is_null
  parse_args zero end ts = ok (none, ts)
  parse_args (suc i) end ts = bind (parse_arg ts) λ (arg, ts₁).
      let rest : Result (Nodes × Tokens) =
        bind (parse_args i end (next ts₁)) λ (args, ts₂). ok (more arg args, ts₂) in
      if is_null arg
      then ok (none, ts₁)
      else if not (tok_char ts₁ == b',') || tok_char ts₁ == end
      then ok (more arg none, ts₁)
      else rest

  -- The opening token is taken without a look at it.
  unfoldable pub parse_arg_list : ℕ → Parser Nodes
  unfolding parse_args tok_char next
  parse_arg_list end ts =
      bind
        (if tok_char (next ts) == end then ok (none, next ts) else parse_args limit end (next ts))
        λ (args, ts₁). if tok_char ts₁ == end then ok (args, next ts₁) else error expected_arg_end

  -- The items of a tuple after the first one.
  unfoldable pub parse_tuple_rest : ℕ → Parser Nodes
  unfolding tok_char next is_null
  parse_tuple_rest zero ts = out_of_fuel
  parse_tuple_rest (suc f) ts =
      let item : Result (Nodes × Tokens) = bind (parse_arg (next ts)) λ (expr, ts₁).
        let rest : Result (Nodes × Tokens) =
          bind (parse_tuple_rest f ts₁) λ (exprs, ts₂). ok (more expr exprs, ts₂) in
        if is_null expr then ok (none, ts₁) else rest in
      if tok_char ts == b',' then item else ok (none, ts)

-- The members of an enumeration, each with an optional semicolon.
unfoldable pub parse_enum_members : ℕ → Parser Nodes
unfolding tok tok_char next parse_qualified_identifier is_identifier
parse_enum_members zero ts = out_of_fuel
parse_enum_members (suc f) ts =
    let member : Result (Nodes × Tokens) = bind (parse_qualified_identifier ts) λ (id, ts₁).
      bind (parse_enum_members f (if tok_char ts₁ == b';' then next ts₁ else ts₁))
        λ (ids, ts₂). ok (more id ids, ts₂) in
    if is_identifier (tok ts) then member else ok (none, ts)

module _ (parse_expr parse_braceless_tuple_expr : Parser Node) where
  -- What follows a primary expression.
  unfoldable pub parse_postfix : ℕ → Node → Parser Node
  unfolding parse_arg_list parse_qualified_identifier tok tok_char next is_null is_identifier
  parse_postfix zero expr ts = out_of_fuel
  parse_postfix (suc f) expr ts =
      let call : Result (Node × Tokens) =
        bind (parse_arg_list parse_expr b')' ts)
          λ (args, ts₁). parse_postfix f (call_expr expr (arg_list args)) ts₁ in
      let field : Result (Node × Tokens) =
        bind (parse_qualified_identifier (next ts))
          λ (id, ts₁). parse_postfix f (field_expr expr id) ts₁ in
      let index : Result (Node × Tokens) = bind (parse_braceless_tuple_expr (next ts)) λ (i, ts₁).
        let rest : Result (Node × Tokens) = parse_postfix f (index_expr expr i) (next ts₁) in
        if tok_char ts₁ == b']' then rest else error expected_index_end in
      if is_null expr
      then ok (expr, ts)
      else if tok_char ts == b'('
      then call
      else if tok_char ts == b'.'
      then if is_identifier (tok (next ts)) then field else error expected_field
      else if tok_char ts == b'['
      then index
      else ok (expr, ts)
