-- ===== src/Parser/Stmt.antt =====
-- The statements of carbonc/parser.cc. A statement that starts as a declaration, and `asm`, are
-- `left_out`.
pub mod Fuel
use carbonlang.Prelude.{ℕ, zero, suc, Bool, true, false, not, ◌&&◌, ◌||◌, ◌==◌, if◌then◌else◌}
use carbonlang.Token
use carbonlang.Token.{
  TokenType, chr, eof, for_, continue_, break_, if_, else_, return_, asm_, defer, in_, const_, let_,
  pure, func, type, typealias, error, import_, extern_, export_, public_, private_, internal_,
  struct_,
}
use carbonlang.Parser
use carbonlang.Parser.{
  Tokens, Node, Nodes, none, more, null, binary_expr, break_stmt, continue_stmt, return_stmt,
  defer_stmt, if_stmt, for_cond_stmt, for_numeric_stmt, stmt_list, compound_stmt, is_null,
  expected_block_end, expected_if_begin, expected_if_end, expected_for_begin, expected_for_end,
  expected_second_identifier, expected_iterator, Result, ok, null_deref, left_out, out_of_fuel,
  bind, Parser, tok, tok_char, next,
}
use carbonlang.Parser.Expr.{parse_braceless_tuple_expr, parse_ternary_expr, parse_primary_expr}
use carbonlang.Parser.Parts.{is_else, is_eof, expect, require}

unfoldable pub is_in : TokenType → Bool
is_in in_ = true
is_in _ = false

unfoldable pub is_name : Node → Bool
is_name (Parser.identifier parts) = true
is_name _ = false

-- Whether parse_decl reads anything at a token.
unfoldable pub starts_decl : TokenType → Bool
starts_decl (chr c) = c == b'#'
starts_decl const_ = true
starts_decl let_ = true
starts_decl pure = true
starts_decl func = true
starts_decl type = true
starts_decl typealias = true
starts_decl error = true
starts_decl import_ = true
starts_decl asm_ = true
starts_decl extern_ = true
starts_decl export_ = true
starts_decl public_ = true
starts_decl private_ = true
starts_decl internal_ = true
starts_decl struct_ = true
starts_decl _ = false

abbrev pub limit : ℕ
limit = 8192

unfoldable pub parse_assignment_stmt : Parser Node → Parser Node
unfolding tok_char next
parse_assignment_stmt parse_tuple ts = bind (parse_tuple ts) λ (lhs, ts₁).
    let assignment : Result (Node × Tokens) =
      bind (parse_tuple (next ts₁)) λ (rhs, ts₂). ok (binary_expr (chr b'=') lhs rhs, ts₂) in
    if tok_char ts₁ == b'=' then assignment else ok (lhs, ts₁)

-- An empty list of statements is no node.
unfoldable pub stmt_list_or_null : Nodes → Node
stmt_list_or_null none = null
stmt_list_or_null (more stmt stmts) = stmt_list (more stmt stmts)

-- `ids->children.push_back`.
unfoldable pub add_last : Nodes → Node → Nodes
add_last none node = more node none
add_last (more id ids) node = more id (add_last ids node)

module _ (parse_stmt : Parser Node) where
  -- The statements of a list, at most so many.
  unfoldable pub parse_stmts : ℕ → Parser Nodes
  unfolding tok_char next is_null
  parse_stmts zero ts = ok (none, ts)
  parse_stmts (suc i) ts = bind (parse_stmt ts) λ (stmt, ts₁).
      let rest : Result (Nodes × Tokens) =
        bind (parse_stmts i (next ts₁)) λ (stmts, ts₂). ok (more stmt stmts, ts₂) in
      if is_null stmt
      then ok (none, ts₁)
      else if tok_char ts₁ == b';'
      then rest
      else ok (more stmt none, ts₁)

  unfoldable pub parse_stmt_list : Parser Node
  unfolding parse_stmts stmt_list_or_null
  parse_stmt_list ts = bind (parse_stmts limit ts) λ (stmts, ts₁). ok (stmt_list_or_null stmts, ts₁)

  -- The lists of a block, at most so many. A declaration is left out, so no list of them is read.
  unfoldable pub parse_blocks : ℕ → Parser Nodes
  unfolding tok tok_char next is_null is_eof starts_decl parse_stmt_list
  parse_blocks zero ts = ok (none, ts)
  parse_blocks (suc i) ts =
      let list : Result (Nodes × Tokens) = bind (parse_stmt_list ts) λ (stmts, ts₁).
        let rest : Result (Nodes × Tokens) = parse_blocks i ts₁ in
        let longer : Result (Nodes × Tokens) =
          bind rest λ (lists, ts₂). ok (more stmts lists, ts₂) in
        if is_null stmts
        then if tok_char ts₁ == b'}' || is_eof (tok ts₁) then ok (none, ts₁) else rest
        else longer in
      if starts_decl (tok ts) then left_out else list

  unfoldable pub parse_compound_stmt : Parser Node
  unfolding next parse_blocks expect
  parse_compound_stmt ts = bind (parse_blocks limit (next ts)) λ (children, ts₁).
      bind (expect b'}' expected_block_end ts₁) λ ts₂. ok (compound_stmt children, ts₂)

  -- After the condition's closing bracket.
  unfoldable pub parse_if_bodies : Node → Parser Node
  unfolding tok next is_else
  parse_if_bodies cond ts = bind (parse_stmt ts) λ (body, ts₁).
      let with_else : Result (Node × Tokens) =
        bind (parse_stmt (next ts₁)) λ (elsebody, ts₂). ok (if_stmt cond body elsebody, ts₂) in
      if is_else (tok ts₁) then with_else else ok (if_stmt cond body null, ts₁)

  unfoldable pub parse_if_stmt : Parser Node → Parser Node
  unfolding next expect parse_if_bodies
  parse_if_stmt parse_expr ts = bind (expect b'(' expected_if_begin (next ts)) λ ts₁.
      bind (parse_expr ts₁)
        λ (cond, ts₂). bind (expect b')' expected_if_end ts₂) λ ts₃. parse_if_bodies cond ts₃

  unfoldable pub parse_defer_stmt : Parser Node
  unfolding next
  parse_defer_stmt ts = bind (parse_stmt (next ts)) λ (stmt, ts₁). ok (defer_stmt stmt, ts₁)

  module _ (parse_tuple parse_primary : Parser Node) where
    -- A second identifier after a comma. The first one has then been moved away.
    unfoldable pub parse_second : Node → Parser (Nodes × Node)
    unfolding tok_char next is_null is_name
    parse_second expr ts =
        let second : Result ((Nodes × Node) × Tokens) = bind (parse_primary (next ts)) λ (id2, ts₁).
          if is_null id2
          then null_deref
          else if is_name id2
          then ok ((more expr (more id2 none), null), ts₁)
          else Parser.error expected_second_identifier in
        if tok_char ts == b',' then second else ok ((none, expr), ts)

    -- The variables and the iterator, which is null where there is no `in`.
    unfoldable pub parse_iterator : Nodes → Node → Parser (Nodes × Node)
    unfolding tok next is_in require add_last
    parse_iterator ids expr ts =
        let iterator : Result ((Nodes × Node) × Tokens) =
          bind (parse_tuple (next ts)) λ (iter, ts₁).
            bind (require expected_iterator iter) λ iter'. ok ((add_last ids expr, iter'), ts₁) in
        if is_in (tok ts) then iterator else ok ((ids, null), ts)

    -- After the variables or the condition.
    unfoldable pub parse_for_body : Node → Nodes → Node → Parser Node
    unfolding expect is_null
    parse_for_body expr ids iter ts = bind (expect b')' expected_for_end ts) λ ts₁.
        bind (parse_stmt ts₁) λ (body, ts₂).
          if is_null iter
          then ok (for_cond_stmt expr body, ts₂)
          else ok (for_numeric_stmt ids iter body, ts₂)

    unfoldable pub parse_for_stmt : Parser Node
    unfolding next expect is_null is_name parse_second parse_iterator parse_for_body
    parse_for_stmt ts = bind (expect b'(' expected_for_begin (next ts)) λ ts₁.
        bind (parse_tuple ts₁) λ (expr, ts₂).
          let named : Result (Node × Tokens) = bind (parse_second expr ts₂) λ ((ids, left), ts₃).
            bind (parse_iterator ids left ts₃)
              λ ((ids', iter), ts₄). parse_for_body left ids' iter ts₄ in
          let condition : Result (Node × Tokens) = parse_for_body expr none null ts₂ in
          if is_null expr then null_deref else if is_name expr then named else condition

unfoldable mutual
  unfolding tok tok_char next parse_assignment_stmt parse_compound_stmt parse_if_stmt
      parse_defer_stmt parse_for_stmt

  -- By the type of the current token.
  pub parse_stmt_at : ℕ → TokenType → Parser Node
  parse_stmt_at zero t ts = out_of_fuel
  parse_stmt_at (suc f) (chr c) ts =
      let block : Result (Node × Tokens) = parse_compound_stmt (parse_stmt f) ts in
      let assignment : Result (Node × Tokens) =
        parse_assignment_stmt (parse_braceless_tuple_expr f) ts in
      if tok_char ts == b'{' then block else assignment
  parse_stmt_at (suc f) for_ ts =
      parse_for_stmt (parse_stmt f) (parse_braceless_tuple_expr f)
        (λ us. parse_primary_expr f (tok us) us) ts
  parse_stmt_at (suc f) continue_ ts = ok (continue_stmt, next ts)
  parse_stmt_at (suc f) break_ ts = ok (break_stmt, next ts)
  parse_stmt_at (suc f) if_ ts = parse_if_stmt (parse_stmt f) (parse_ternary_expr f) ts
  parse_stmt_at (suc f) return_ ts =
      bind (parse_braceless_tuple_expr f (next ts)) λ (expr, ts₁). ok (return_stmt expr, ts₁)
  parse_stmt_at (suc f) asm_ ts = left_out
  parse_stmt_at (suc f) defer ts = parse_defer_stmt (parse_stmt f) ts
  parse_stmt_at (suc f) _ ts = parse_assignment_stmt (parse_braceless_tuple_expr f) ts

  pub parse_stmt : ℕ → Parser Node
  parse_stmt zero ts = out_of_fuel
  parse_stmt (suc f) ts = parse_stmt_at f (tok ts) ts
