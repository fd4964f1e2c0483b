-- ===== src/Parser/Expr/Fuel/Helpers.antt =====
-- The functions of Parts.antt read on and are kept within their fuel, where the parsers that they
-- are given are and do.
use carbonlang.Prelude.{ℕ, ◌≤◌, ◌<◌, ◌≡◌, Bool, false, length, arith, ◌==◌}
use carbonlang.Parser
use carbonlang.Parser.{
  Tokens, Node, Nodes, null, is_null, Result, ok, error, null_deref, bind, Parser, tok, tok_char,
  next, type_expr, Ensures, returned, thrown, crashed, Ensures-if, Ensures-bind, Ensures-map,
  Shrinks, length-next_le, length-next_char,
}
use carbonlang.Parser.Args.{is_identifier}
use carbonlang.Parser.Args.Fuel.{
  parse_qualified_identifier-Ensures, parse_arg_list-Ensures, parse_enum_members-Ensures,
}
use carbonlang.Parser.Parts.{
  is_arrow_right, is_else, expect, require, throw_at, parse_init_item, parse_tuple_item,
  parse_init_list_expr, tuple_or_func_pointer, parse_tuple_type_expr, parse_array_type_expr,
  parse_enum_body, parse_enum_type_expr, parse_named_type, wrap_type, parse_paren_expr,
  parse_unary_op, parse_cast, parse_branches, parse_name, parse_const_type,
}

-- On the inputs up to a length.
abbrev pub Upto : ℕ → Parser Node → Type 0
Upto n p = (ts : Tokens) → length ts ≤ n → Ensures (Shrinks ts) (p ts)

-- Of a type, nothing is read, or a token is.
abbrev pub Consumes : Tokens → Node × Tokens → Type 0
Consumes ts r = (length r.1 ≤ length ts) × (is_null r.0 ≡ false → length r.1 < length ts)

-- What is left is within the rest of the input after its current token.
abbrev pub Below : {A : Type 0} → Tokens → A × Tokens → Type 0
Below ts r = length r.1 ≤ length (next ts)

pub expect-Ensures :
    (c : ℕ) (m : Parser.Message) (ts : Tokens)
    → Ensures (λ ts₁. length ts₁ ≤ length ts) (expect c m ts)
unfolding expect
expect-Ensures c m ts =
    Ensures-if (tok_char ts == c) (λ _. returned (length-next_le ts)) λ _. thrown

pub require-Ensures :
    (m : Parser.Message) (expr : Node) → Ensures (λ e. is_null e ≡ false) (require m expr)
unfolding require
require-Ensures m expr = Ensures-if (is_null expr) (λ _. thrown) λ h. returned h

throw_at-Ensures :
    {A : Type 0} {P : A → Type 0} (expr : Node) (m : Parser.Message)
    → Ensures P (throw_at {A = A} expr m)
unfolding throw_at
throw_at-Ensures expr m = Ensures-if (is_null expr) (λ _. crashed) λ _. thrown

pub wrap_type-Ensures :
    (no_error no_wrap : Bool) (ts : Tokens) (t : Node) (rest : Tokens)
    → Consumes ts (t, rest)
    → Ensures (Consumes ts) (wrap_type no_error no_wrap (t, rest))
unfolding wrap_type is_null
wrap_type-Ensures no_error no_wrap ts t rest (d, c) =
    Ensures-if (is_null t) (λ _. Ensures-if no_error (λ _. returned (d, λ h. cc)) λ _. thrown)
      λ h. returned (d, λ _. c h)

parse_enum_body-Ensures :
    (f : ℕ) (is_flags : Bool) (base : Node) (ts : Tokens)
    → length ts < f
    → Ensures (Shrinks ts) (parse_enum_body f is_flags base ts)
unfolding parse_enum_body
parse_enum_body-Ensures f is_flags base ts h = Ensures-bind (expect-Ensures b'{' _ ts) λ ts₁ d.
    Ensures-bind (parse_enum_members-Ensures f ts₁ (omega arith))
      λ (_, ts₂) d₁. Ensures-bind (expect-Ensures b'}' _ ts₂) λ ts₃ d₂. returned (omega arith)

module _ (p : Parser Node) (n : ℕ) (p-Ensures : Upto n p) where
  parse_init_item-Ensures : Upto n (parse_init_item p)
  unfolding parse_init_item
  parse_init_item-Ensures ts h =
      Ensures-if (tok_char ts == b'.')
        (λ _.
          Ensures-if (is_identifier (tok (next ts)))
            (λ _.
              let g : length (next (next ts)) ≤ length ts =
                omega (arith, length-next_le ts, length-next_le (next ts)) in
              Ensures-bind (expect-Ensures b'=' _ (next (next ts))) λ ts₁ d.
                Ensures-bind (p-Ensures ts₁ (omega arith)) λ (expr, ts₂) d'.
                  Ensures-bind (require-Ensures _ expr) λ _ _. returned (omega arith))
            λ _. thrown)
        λ _. p-Ensures ts h

  parse_tuple_item-Ensures : Upto n (parse_tuple_item p)
  unfolding parse_tuple_item
  parse_tuple_item-Ensures ts h =
      Ensures-if (tok_char ts == b'}') (λ _. returned (omega arith)) λ _. p-Ensures ts h

  pub parse_init_list_expr-Ensures :
      (t : Node) (ts : Tokens)
      → length (next ts) ≤ n
      → Ensures (Below ts) (parse_init_list_expr p t ts)
  unfolding parse_init_list_expr
  parse_init_list_expr-Ensures t ts h =
      Ensures-bind (parse_arg_list-Ensures (parse_init_item p) n parse_init_item-Ensures b'}' ts h)
        λ _ d. returned d

  tuple_or_func_pointer-Ensures :
      (fields : Nodes)
      → (ts : Tokens) → length ts ≤ n
      → Ensures (Shrinks ts) (tuple_or_func_pointer p fields ts)
  unfolding tuple_or_func_pointer
  tuple_or_func_pointer-Ensures fields ts h =
      Ensures-if (is_arrow_right (tok ts))
        (λ _. Ensures-bind (p-Ensures (next ts) (omega (arith, length-next_le ts))) λ (t, ts₁) d.
          Ensures-bind (require-Ensures _ t) λ _ _. returned (omega (arith, length-next_le ts, d)))
        λ _. returned (omega arith)

  pub parse_tuple_type_expr-Ensures :
      (ts : Tokens) → length (next ts) ≤ n → Ensures (Below ts) (parse_tuple_type_expr p ts)
  unfolding parse_tuple_type_expr
  parse_tuple_type_expr-Ensures ts h =
      Ensures-bind
        (parse_arg_list-Ensures (parse_tuple_item p) n parse_tuple_item-Ensures b'}' ts h)
        λ (fields, ts₁) d.
          Ensures-map (λ _ d'. omega arith) (tuple_or_func_pointer-Ensures fields ts₁ (omega arith))

  pub parse_array_type_expr-Ensures :
      (q : Parser Node)
      → Upto n q
      → (ts : Tokens) → length ts ≤ n
      → Ensures (Shrinks ts) (parse_array_type_expr q p ts)
  unfolding parse_array_type_expr
  parse_array_type_expr-Ensures q q-Ensures ts h =
      Ensures-if (tok_char ts == b']')
        (λ _. Ensures-bind (p-Ensures (next ts) (omega (arith, length-next_le ts))) λ (t, ts₁) d.
          Ensures-bind (require-Ensures _ t) λ _ _. returned (omega (arith, length-next_le ts, d)))
        λ _. Ensures-bind (q-Ensures ts h) λ (e, ts₁) d. Ensures-bind (require-Ensures _ e) λ _ _.
          Ensures-bind (expect-Ensures b']' _ ts₁) λ ts₂ d₁.
            Ensures-bind (p-Ensures ts₂ (omega arith))
              λ (t, ts₃) d₂. Ensures-bind (require-Ensures _ t) λ _ _. returned (omega arith)

  pub parse_enum_type_expr-Ensures :
      (f : ℕ) (is_flags : Bool) (ts : Tokens)
      → length (next ts) ≤ n
      → n < f
      → Ensures (Below ts) (parse_enum_type_expr p f is_flags ts)
  unfolding parse_enum_type_expr
  parse_enum_type_expr-Ensures f is_flags ts h g =
      Ensures-if (tok_char (next ts) == b':')
        (λ _.
          Ensures-bind (p-Ensures (next (next ts)) (omega (arith, length-next_le (next ts))))
            λ (t, ts₁) d.
              Ensures-map (λ _ d'. omega (arith, length-next_le (next ts)))
                (parse_enum_body-Ensures f is_flags t ts₁
                  (omega (arith, length-next_le (next ts)))))
        λ _. parse_enum_body-Ensures f is_flags null (next ts) (omega arith)

  pub parse_named_type-Ensures :
      (ts : Tokens) → length (next ts) ≤ n → Ensures (Below ts) (parse_named_type p ts)
  unfolding parse_named_type
  parse_named_type-Ensures ts h =
      Ensures-bind (parse_qualified_identifier-Ensures ts) λ (id, ts₁) d.
        Ensures-if (tok_char ts₁ == b'(')
          (λ _.
            Ensures-bind
              (parse_arg_list-Ensures p n p-Ensures b')' ts₁ (omega (arith, length-next_le ts₁)))
              λ _ d'. returned (omega (arith, length-next_le ts₁)))
          λ _. returned d

  pub parse_paren_expr-Ensures :
      (ts : Tokens) → length (next ts) ≤ n → Ensures (Below ts) (parse_paren_expr p ts)
  unfolding parse_paren_expr
  parse_paren_expr-Ensures ts h =
      Ensures-bind (p-Ensures (next ts) h)
        λ (e, ts₁) d. Ensures-bind (expect-Ensures b')' _ ts₁) λ ts₂ d'. returned (omega arith)

  pub parse_unary_op-Ensures :
      (ts : Tokens) → length (next ts) ≤ n → Ensures (Below ts) (parse_unary_op p ts)
  unfolding parse_unary_op
  parse_unary_op-Ensures ts h = Ensures-bind (p-Ensures (next ts) h) λ _ d. returned d

  pub parse_cast-Ensures :
      (q : Parser Node)
      → Upto n q
      → (ts : Tokens) → length (next ts) ≤ n
      → Ensures (Below ts) (parse_cast p q ts)
  unfolding parse_cast
  parse_cast-Ensures q q-Ensures ts h = Ensures-bind (expect-Ensures b'(' _ (next ts)) λ ts₁ d.
      Ensures-bind (p-Ensures ts₁ (omega arith)) λ (t, ts₂) d₁.
        Ensures-bind (expect-Ensures b')' _ ts₂) λ ts₃ d₂.
          Ensures-bind (q-Ensures ts₃ (omega arith))
            λ (v, ts₄) d₃. Ensures-bind (require-Ensures _ v) λ _ _. returned (omega arith)

  pub parse_branches-Ensures :
      (cond : Node) (ts : Tokens) → length ts ≤ n → Ensures (Shrinks ts) (parse_branches p cond ts)
  unfolding parse_branches
  parse_branches-Ensures cond ts h = Ensures-bind (p-Ensures ts h) λ (t, ts₁) d.
      Ensures-if (is_null t) (λ _. throw_at-Ensures cond _)
        λ _.
          Ensures-if (is_else (tok ts₁))
            (λ _.
              Ensures-bind (p-Ensures (next ts₁) (omega (arith, length-next_le ts₁))) λ (e, ts₂) d'.
                Ensures-if (is_null e) (λ _. throw_at-Ensures cond _)
                  λ _.
                    Ensures-if (is_null cond) (λ _. crashed)
                      λ _. returned (omega (arith, length-next_le ts₁)))
            λ _. throw_at-Ensures cond _

  pub parse_name-Ensures :
      (ts : Tokens) → length (next ts) ≤ n → Ensures (Below ts) (parse_name p ts)
  unfolding parse_name
  parse_name-Ensures ts h = Ensures-bind (parse_qualified_identifier-Ensures ts) λ (id, ts₁) d.
      Ensures-if (tok_char ts₁ == b'\\')
        (λ _.
          Ensures-bind (p-Ensures (next ts₁) (omega (arith, length-next_le ts₁)))
            λ _ d'. returned (omega (arith, length-next_le ts₁)))
        λ _. returned d

  pub parse_const_type-Ensures :
      (ts : Tokens) → length (next ts) ≤ n → Ensures (Below ts) (parse_const_type p ts)
  unfolding parse_const_type
  parse_const_type-Ensures ts h =
      Ensures-bind (p-Ensures (next ts) h)
        λ (t, ts₁) d. Ensures-bind (require-Ensures _ t) λ _ _. returned d
