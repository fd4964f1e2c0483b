-- ===== src/Parser/Stmt/Fuel.antt =====
-- The statements of Stmt.antt are kept within a fuel that grows with the input.
use carbonlang.Prelude.{ℕ, zero, suc, ◌+◌, ◌*◌, ◌≤◌, ◌<◌, ◌≡◌, ◌≢◌, refl, ◌||◌, length, arith, ◌==◌}
use carbonlang.Token.{TokenType, chr, for_, continue_, break_, if_, return_, asm_, defer}
use carbonlang.Parser.{
  Tokens, Node, Nodes, none, null, is_null, ok, out_of_fuel, Parser, tok, tok_char, next, Ensures,
  returned, thrown, crashed, skipped, Ensures-if, Ensures-bind, Ensures-map, Ensures-ok,
  Ensures-out_of_fuel, Shrinks, length-next_le, length-next_char,
}
use carbonlang.Parser.Expr.{parse_braceless_tuple_expr, parse_ternary_expr, parse_primary_expr}
use carbonlang.Parser.Parts.{is_else, is_eof}
use carbonlang.Parser.Expr.Fuel.{
  parse_braceless_tuple_expr-Ensures, parse_ternary_expr-Ensures, parse_primary_expr-Ensures,
  next_token, Below-Shrinks,
}
use carbonlang.Parser.Expr.Fuel.Helpers.{Upto, Below, expect-Ensures, require-Ensures}
use carbonlang.Parser.Stmt.{
  is_in, is_name, starts_decl, limit, parse_assignment_stmt, parse_stmts, parse_stmt_list,
  parse_blocks, parse_compound_stmt, parse_if_bodies, parse_if_stmt, parse_defer_stmt, parse_second,
  parse_iterator, parse_for_body, parse_for_stmt, parse_stmt_at, parse_stmt,
}

parse_assignment_stmt-Ensures :
    (p : Parser Node) (n : ℕ) → Upto n p → Upto n (parse_assignment_stmt p)
unfolding parse_assignment_stmt
parse_assignment_stmt-Ensures p n h ts g = Ensures-bind (h ts g) λ (lhs, ts₁) d.
    Ensures-if (tok_char ts₁ == b'=')
      (λ _.
        Ensures-bind (h (next ts₁) (omega (arith, length-next_le ts₁)))
          λ _ d'. returned (omega (arith, length-next_le ts₁)))
      λ _. returned d

module _ (p : Parser Node) (n : ℕ) (p-Ensures : Upto n p) where
  parse_stmts-Ensures :
      (i : ℕ) (ts : Tokens) → length ts ≤ n → Ensures (Shrinks ts) (parse_stmts p i ts)
  unfolding parse_stmts
  parse_stmts-Ensures zero ts h = returned (omega arith)
  parse_stmts-Ensures (suc i) ts h = Ensures-bind (p-Ensures ts h) λ (stmt, ts₁) d.
      Ensures-if (is_null stmt) (λ _. returned d)
        λ _.
          Ensures-if (tok_char ts₁ == b';')
            (λ _.
              Ensures-bind (parse_stmts-Ensures i (next ts₁) (omega (arith, length-next_le ts₁)))
                λ _ d'. returned (omega (arith, length-next_le ts₁)))
            λ _. returned d

  parse_stmt_list-Ensures : Upto n (parse_stmt_list p)
  unfolding parse_stmt_list
  parse_stmt_list-Ensures ts h = Ensures-bind (parse_stmts-Ensures limit ts h) λ _ d. returned d

  parse_blocks-Ensures :
      (i : ℕ) (ts : Tokens) → length ts ≤ n → Ensures (Shrinks ts) (parse_blocks p i ts)
  unfolding parse_blocks
  parse_blocks-Ensures zero ts h = returned (omega arith)
  parse_blocks-Ensures (suc i) ts h =
      Ensures-if (starts_decl (tok ts)) (λ _. skipped)
        λ _. Ensures-bind (parse_stmt_list-Ensures ts h) λ (stmts, ts₁) d.
          let later : Ensures (Shrinks ts) (parse_blocks p i ts₁) =
            Ensures-map (λ _ d'. omega arith) (parse_blocks-Ensures i ts₁ (omega arith)) in
          Ensures-if (is_null stmts)
            (λ _.
              Ensures-if (tok_char ts₁ == b'}' || is_eof (tok ts₁)) (λ _. returned d) λ _. later)
            λ _. Ensures-bind later λ _ d'. returned d'

  parse_compound_stmt-Ensures :
      (ts : Tokens) → length (next ts) ≤ n → Ensures (Below ts) (parse_compound_stmt p ts)
  unfolding parse_compound_stmt
  parse_compound_stmt-Ensures ts h =
      Ensures-bind (parse_blocks-Ensures limit (next ts) h) λ (children, ts₁) d.
        Ensures-bind (expect-Ensures b'}' _ ts₁) λ ts₂ d'. returned (omega arith)

  parse_if_bodies-Ensures : (cond : Node) → Upto n (parse_if_bodies p cond)
  unfolding parse_if_bodies
  parse_if_bodies-Ensures cond ts h = Ensures-bind (p-Ensures ts h) λ (body, ts₁) d.
      Ensures-if (is_else (tok ts₁))
        (λ _.
          Ensures-bind (p-Ensures (next ts₁) (omega (arith, length-next_le ts₁)))
            λ _ d'. returned (omega (arith, length-next_le ts₁)))
        λ _. returned d

  parse_if_stmt-Ensures :
      (q : Parser Node)
      → Upto n q
      → (ts : Tokens) → length (next ts) ≤ n
      → Ensures (Below ts) (parse_if_stmt p q ts)
  unfolding parse_if_stmt
  parse_if_stmt-Ensures q q-Ensures ts h = Ensures-bind (expect-Ensures b'(' _ (next ts)) λ ts₁ d.
      Ensures-bind (q-Ensures ts₁ (omega arith)) λ (cond, ts₂) d₁.
        Ensures-bind (expect-Ensures b')' _ ts₂) λ ts₃ d₂.
          Ensures-map (λ _ d₃. omega arith) (parse_if_bodies-Ensures cond ts₃ (omega arith))

  parse_defer_stmt-Ensures :
      (ts : Tokens) → length (next ts) ≤ n → Ensures (Below ts) (parse_defer_stmt p ts)
  unfolding parse_defer_stmt
  parse_defer_stmt-Ensures ts h = Ensures-bind (p-Ensures (next ts) h) λ _ d. returned d

  parse_for_body-Ensures :
      (q r : Parser Node) (expr : Node) (ids : Nodes) (iter : Node)
      → Upto n (parse_for_body p q r expr ids iter)
  unfolding parse_for_body
  parse_for_body-Ensures q r expr ids iter ts h = Ensures-bind (expect-Ensures b')' _ ts) λ ts₁ d.
      Ensures-bind (p-Ensures ts₁ (omega arith)) λ (body, ts₂) d'.
        Ensures-if (is_null iter) (λ _. returned (omega arith)) λ _. returned (omega arith)

  module _ (q r : Parser Node) (q-Ensures : Upto n q) (r-Ensures : Upto n r) where
    parse_second-Ensures :
        (expr : Node) (ts : Tokens)
        → length ts ≤ n
        → Ensures (Shrinks ts) (parse_second p q r expr ts)
    unfolding parse_second
    parse_second-Ensures expr ts h =
        Ensures-if (tok_char ts == b',')
          (λ _.
            Ensures-bind (r-Ensures (next ts) (omega (arith, length-next_le ts))) λ (id2, ts₁) d.
              Ensures-if (is_null id2) (λ _. crashed)
                λ _.
                  Ensures-if (is_name id2) (λ _. returned (omega (arith, length-next_le ts)))
                    λ _. thrown)
          λ _. returned (omega arith)

    parse_iterator-Ensures :
        (ids : Nodes) (expr : Node) (ts : Tokens)
        → length ts ≤ n
        → Ensures (Shrinks ts) (parse_iterator p q r ids expr ts)
    unfolding parse_iterator
    parse_iterator-Ensures ids expr ts h =
        Ensures-if (is_in (tok ts))
          (λ _.
            Ensures-bind (q-Ensures (next ts) (omega (arith, length-next_le ts))) λ (iter, ts₁) d.
              Ensures-bind (require-Ensures _ iter)
                λ _ _. returned (omega (arith, length-next_le ts)))
          λ _. returned (omega arith)

    parse_for_stmt-Ensures :
        (ts : Tokens) → length (next ts) ≤ n → Ensures (Below ts) (parse_for_stmt p q r ts)
    unfolding parse_for_stmt
    parse_for_stmt-Ensures ts h = Ensures-bind (expect-Ensures b'(' _ (next ts)) λ ts₁ d.
        Ensures-bind (q-Ensures ts₁ (omega arith)) λ (expr, ts₂) d₁.
          Ensures-if (is_null expr) (λ _. crashed)
            λ _.
              Ensures-if (is_name expr)
                (λ _.
                  Ensures-bind (parse_second-Ensures expr ts₂ (omega arith))
                    λ ((ids, left), ts₃) d₂.
                      Ensures-bind (parse_iterator-Ensures ids left ts₃ (omega arith))
                        λ ((ids', iter), ts₄) d₃.
                          Ensures-map (λ _ d₄. omega arith)
                            (parse_for_body-Ensures q r left ids' iter ts₄ (omega arith)))
                λ _.
                  Ensures-map (λ _ d₄. omega arith)
                    (parse_for_body-Ensures q r expr none null ts₂ (omega arith))

tuple-Upto : (f n : ℕ) → 32 * n + 9 ≤ f → Upto n (parse_braceless_tuple_expr f)
tuple-Upto f n h us g = parse_braceless_tuple_expr-Ensures f us (omega arith)

mutual
  unfolding parse_stmt_at is_eof

  parse_stmt_at-Ensures :
      (f : ℕ) (t : TokenType) (ts : Tokens)
      → tok ts ≡ t
      → 32 * length ts + 10 ≤ f
      → Ensures (Shrinks ts) (parse_stmt_at f t ts)
  parse_stmt_at-Ensures zero t ts e h = absurd (omega arith)
  parse_stmt_at-Ensures (suc f) (chr c) ts e h =
      Ensures-if (tok_char ts == b'{')
        (λ c.
          let g : length (next ts) < length ts = length-next_char ts b'{' (omega arith) c in
          Below-Shrinks ts (
            parse_compound_stmt-Ensures (parse_stmt f) (length (next ts))
              (λ us k. parse_stmt-Ensures f us (omega arith)) ts (omega arith)))
        λ _.
          parse_assignment_stmt-Ensures (parse_braceless_tuple_expr f) (length ts)
            (tuple-Upto f (length ts) (omega arith)) ts (omega arith)
  parse_stmt_at-Ensures (suc f) for_ ts e h =
      let g : length (next ts) < length ts = next_token ts for_ e refl in
      Below-Shrinks ts (
        parse_for_stmt-Ensures (parse_stmt f) (length (next ts))
          (λ us k. parse_stmt-Ensures f us (omega arith)) (parse_braceless_tuple_expr f)
          (λ us. parse_primary_expr f (tok us) us) (tuple-Upto f (length (next ts)) (omega arith))
          (λ us k. parse_primary_expr-Ensures f (tok us) us refl (omega arith)) ts (omega arith))
  parse_stmt_at-Ensures (suc f) continue_ ts e h = returned (length-next_le ts)
  parse_stmt_at-Ensures (suc f) break_ ts e h = returned (length-next_le ts)
  parse_stmt_at-Ensures (suc f) if_ ts e h =
      let g : length (next ts) < length ts = next_token ts if_ e refl in
      Below-Shrinks ts (
        parse_if_stmt-Ensures (parse_stmt f) (length (next ts))
          (λ us k. parse_stmt-Ensures f us (omega arith)) (parse_ternary_expr f)
          (λ us k. parse_ternary_expr-Ensures f us (omega arith)) ts (omega arith))
  parse_stmt_at-Ensures (suc f) return_ ts e h =
      let g : length (next ts) < length ts = next_token ts return_ e refl in
      Ensures-bind (parse_braceless_tuple_expr-Ensures f (next ts) (omega arith))
        λ _ d. returned (omega arith)
  parse_stmt_at-Ensures (suc f) asm_ ts e h = skipped
  parse_stmt_at-Ensures (suc f) defer ts e h =
      let g : length (next ts) < length ts = next_token ts defer e refl in
      Below-Shrinks ts (
        parse_defer_stmt-Ensures (parse_stmt f) (length (next ts))
          (λ us k. parse_stmt-Ensures f us (omega arith)) ts (omega arith))
  parse_stmt_at-Ensures (suc f) _ ts e h =
      parse_assignment_stmt-Ensures (parse_braceless_tuple_expr f) (length ts)
        (tuple-Upto f (length ts) (omega arith)) ts (omega arith)

  parse_stmt-Ensures :
      (f : ℕ) (ts : Tokens) → 32 * length ts + 11 ≤ f → Ensures (Shrinks ts) (parse_stmt f ts)
  parse_stmt-Ensures zero ts h = absurd (omega arith)
  parse_stmt-Ensures (suc f) ts h = parse_stmt_at-Ensures f (tok ts) ts refl (omega arith)

-- With fuel for the length of the input the parsing of a statement, and of an expression, ends: it
-- returns a node and no more tokens than it was given, throws, or stops at a construct that is left
-- out or at a null pointer.
pub parse_stmt-out_of_fuel :
    (f : ℕ) (ts : Tokens)
    → 32 * length ts + 11 ≤ f
    → (parse_stmt f ts ≢ out_of_fuel)
      × ((t : Node) (rest : Tokens) → parse_stmt f ts ≡ ok (t, rest) → length rest ≤ length ts)
      × (parse_braceless_tuple_expr f ts ≢ out_of_fuel)
      × ((t : Node) (rest : Tokens)
          → parse_braceless_tuple_expr f ts ≡ ok (t, rest)
          → length rest ≤ length ts)
parse_stmt-out_of_fuel f ts h =
    let e : Ensures (Shrinks ts) (parse_braceless_tuple_expr f ts) =
      parse_braceless_tuple_expr-Ensures f ts (omega arith) in
    (
      Ensures-out_of_fuel (parse_stmt-Ensures f ts h),
      (λ t rest k. Ensures-ok (parse_stmt-Ensures f ts h) k),
      Ensures-out_of_fuel e,
      λ t rest k. Ensures-ok e k,
    )
