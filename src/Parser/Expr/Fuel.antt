-- ===== src/Parser/Expr/Fuel.antt =====
-- The functions of Expr.antt are kept within a fuel that grows with the input. A call on the same
-- tokens goes to a function of lower rank.
pub mod Helpers
use carbonlang.Prelude.{
  ℕ, zero, suc, ◌+◌, ◌*◌, ◌≤◌, ◌<◌, ◌≡◌, ◌≢◌, refl, Bool, true, false, not, length, arith, ◌==◌,
  if◌then◌else◌,
}
use carbonlang.Token
use carbonlang.Token.{
  TokenType, chr, eof, bool_literal_false, bool_literal_true, noinit, noflags, noerror, func, type,
  struct_, enum_, enumflags, is_unary_op, token_to_char,
}
use carbonlang.Parser.{
  Tokens, Node, null, unexpected_eof, type_qualifier, ptr, is_null, Result, ok, out_of_fuel, Parser,
  tok, tok_char, next, Ensures, returned, thrown, crashed, skipped, Ensures-if, Ensures-bind,
  Ensures-map, Ensures-ok, Ensures-out_of_fuel, Shrinks, length-next_le, length-next_lt,
  length-next_char,
}
use carbonlang.Parser.Binary.Complete.{parse_operators-Ensures}
use carbonlang.Parser.Args.Fuel.{parse_tuple_rest-Ensures, parse_postfix-Ensures}
use carbonlang.Parser.Expr.{
  parse_braceless_tuple_expr, parse_ternary_expr, parse_unary_expr, parse_cast_expr,
  parse_init_expr, parse_call_or_index_or_field_expr, parse_primary_expr, parse_type_expr,
  parse_type_contents,
}
use carbonlang.Parser.Parts.{is_then, is_cast, is_eof, transform_to_type_expr}
use carbonlang.Parser.Expr.Fuel.Helpers.{
  Upto, Consumes, Below, wrap_type-Ensures, parse_init_list_expr-Ensures,
  parse_tuple_type_expr-Ensures, parse_array_type_expr-Ensures, parse_enum_type_expr-Ensures,
  parse_named_type-Ensures, parse_paren_expr-Ensures, parse_unary_op-Ensures, parse_cast-Ensures,
  parse_branches-Ensures, parse_name-Ensures, parse_const_type-Ensures,
}

pub next_token :
    (ts : Tokens) (t : TokenType) → tok ts ≡ t → is_eof t ≡ false → length (next ts) < length ts
unfolding is_eof
next_token ts t e h = length-next_lt ts (λ u. not (is_eof u)) refl (cc)

next_char :
    (ts : Tokens) (t : TokenType) (c : ℕ)
    → 0 < c
    → tok ts ≡ t
    → (token_to_char t == c) ≡ true
    → length (next ts) < length ts
unfolding tok_char
next_char ts t c g e h = length-next_char ts c g (cc)

is_then-eof : is_then eof ≡ false
unfolding is_then
is_then-eof = refl

is_cast-eof : is_cast eof ≡ false
unfolding is_cast
is_cast-eof = refl

is_unary_op-eof : (t : TokenType) → is_unary_op t ≡ true → is_eof t ≡ false
unfolding is_unary_op is_eof
is_unary_op-eof (chr c) h = refl
is_unary_op-eof _ h = ground arith

-- A token has been read.
Below-Consumes :
    (ts : Tokens) {r : Result (Node × Tokens)}
    → length (next ts) < length ts
    → Ensures (Below ts) r
    → Ensures (Consumes ts) r
Below-Consumes ts h = Ensures-map λ _ d. (omega arith, λ _. omega arith)

pub Below-Shrinks :
    (ts : Tokens) {r : Result (Node × Tokens)} → Ensures (Below ts) r → Ensures (Shrinks ts) r
Below-Shrinks ts = Ensures-map λ _ d. omega (arith, length-next_le ts)

Consumes-Shrinks :
    (ts : Tokens) {r : Result (Node × Tokens)} → Ensures (Consumes ts) r → Ensures (Shrinks ts) r
Consumes-Shrinks ts = Ensures-map λ _ d. d.0

mutual
  unfolding parse_braceless_tuple_expr is_eof

  pub parse_braceless_tuple_expr-Ensures :
      (f : ℕ) (ts : Tokens)
      → 32 * length ts + 9 ≤ f
      → Ensures (Shrinks ts) (parse_braceless_tuple_expr f ts)
  parse_braceless_tuple_expr-Ensures zero ts h = absurd (omega arith)
  parse_braceless_tuple_expr-Ensures (suc f) ts h =
      Ensures-bind (parse_ternary_expr-Ensures f ts (omega arith)) λ (expr, ts₁) d.
        Ensures-if (tok_char ts₁ == b',')
          (λ _.
            Ensures-if (is_null expr) (λ _. crashed)
              λ _.
                Ensures-bind
                  (parse_tuple_rest-Ensures (parse_ternary_expr f) (length ts)
                    (λ us k. parse_ternary_expr-Ensures f us (omega arith)) f ts₁ (omega arith)
                    (omega arith))
                  λ _ d'. returned (omega arith))
          λ _. returned d

  pub parse_ternary_expr-Ensures :
      (f : ℕ) (ts : Tokens)
      → 32 * length ts + 8 ≤ f
      → Ensures (Shrinks ts) (parse_ternary_expr f ts)
  parse_ternary_expr-Ensures zero ts h = absurd (omega arith)
  parse_ternary_expr-Ensures (suc f) ts h =
      Ensures-bind
        (parse_operators-Ensures (parse_unary_expr f) (length ts)
          (λ us k. parse_unary_expr-Ensures f us (omega arith)) f 0 ts (omega arith) (omega arith))
        λ (expr, ts₁) (_, _, d).
          Ensures-if (is_then (tok ts₁))
            (λ c.
              let g : length (next ts₁) < length ts₁ = length-next_lt ts₁ is_then (is_then-eof) c in
              Ensures-map (λ _ d'. omega arith)
                (parse_branches-Ensures (parse_braceless_tuple_expr f) (length (next ts₁))
                  (λ us k. parse_braceless_tuple_expr-Ensures f us (omega arith)) expr (next ts₁)
                  (omega arith)))
            λ _. returned d

  pub parse_unary_expr-Ensures :
      (f : ℕ) (ts : Tokens) → 32 * length ts + 7 ≤ f → Ensures (Shrinks ts) (parse_unary_expr f ts)
  parse_unary_expr-Ensures zero ts h = absurd (omega arith)
  parse_unary_expr-Ensures (suc f) ts h =
      Ensures-if (is_unary_op (tok ts))
        (λ _. Below-Shrinks ts (
          parse_unary_op-Ensures (parse_cast_expr f) (length ts)
            (λ us k. parse_cast_expr-Ensures f us (omega arith)) ts (length-next_le ts)))
        λ _. parse_cast_expr-Ensures f ts (omega arith)

  parse_cast_expr-Ensures :
      (f : ℕ) (ts : Tokens) → 32 * length ts + 6 ≤ f → Ensures (Shrinks ts) (parse_cast_expr f ts)
  parse_cast_expr-Ensures zero ts h = absurd (omega arith)
  parse_cast_expr-Ensures (suc f) ts h =
      Ensures-if (is_cast (tok ts))
        (λ c.
          let g : length (next ts) < length ts = length-next_lt ts is_cast is_cast-eof c in
          Below-Shrinks ts (
            parse_cast-Ensures (parse_type_expr f false false) (length (next ts))
              (λ us k. Consumes-Shrinks us (parse_type_expr-Ensures f false false us (omega arith)))
              (parse_unary_expr f) (λ us k. parse_unary_expr-Ensures f us (omega arith)) ts
              (omega arith)))
        λ _. parse_init_expr-Ensures f ts (omega arith)

  parse_init_expr-Ensures :
      (f : ℕ) (ts : Tokens) → 32 * length ts + 5 ≤ f → Ensures (Shrinks ts) (parse_init_expr f ts)
  parse_init_expr-Ensures zero ts h = absurd (omega arith)
  parse_init_expr-Ensures (suc f) ts h =
      Ensures-bind (parse_call_or_index_or_field_expr-Ensures f ts (omega arith)) λ (expr, ts₁) d.
        Ensures-if (is_null expr)
          (λ _.
            Ensures-bind (parse_type_expr-Ensures f true false ts₁ (omega arith))
              λ (t, ts₂) (d₁, c).
                Ensures-if (is_null t) (λ _. returned (omega arith))
                  λ e.
                    let g : length ts₂ < length ts₁ = c e in
                    Ensures-map (λ _ d₂. omega (arith, length-next_le ts₂))
                      (parse_init_list_expr-Ensures (parse_ternary_expr f) (length (next ts₂))
                        (λ us k.
                          parse_ternary_expr-Ensures f us (omega (arith, length-next_le ts₂)))
                        t ts₂ (omega arith)))
          λ _.
            Ensures-if (tok_char ts₁ == b'{')
              (λ c.
                let g : length (next ts₁) < length ts₁ =
                  length-next_char ts₁ b'{' (omega arith) c in
                Ensures-map (λ _ d₂. omega arith)
                  (parse_init_list_expr-Ensures (parse_ternary_expr f) (length (next ts₁))
                    (λ us k. parse_ternary_expr-Ensures f us (omega arith))
                    (transform_to_type_expr expr) ts₁ (omega arith)))
              λ _. returned d

  parse_call_or_index_or_field_expr-Ensures :
      (f : ℕ) (ts : Tokens)
      → 32 * length ts + 4 ≤ f
      → Ensures (Shrinks ts) (parse_call_or_index_or_field_expr f ts)
  parse_call_or_index_or_field_expr-Ensures zero ts h = absurd (omega arith)
  parse_call_or_index_or_field_expr-Ensures (suc f) ts h =
      Ensures-bind (parse_primary_expr-Ensures f (tok ts) ts refl (omega arith)) λ (expr, ts₁) d.
        Ensures-map (λ _ d'. omega arith)
          (parse_postfix-Ensures (parse_ternary_expr f) (parse_braceless_tuple_expr f) (length ts₁)
            (λ us k. parse_ternary_expr-Ensures f us (omega arith))
            (λ us k. parse_braceless_tuple_expr-Ensures f us (omega arith)) f expr ts₁ (omega arith)
            (omega arith))

  pub parse_primary_expr-Ensures :
      (f : ℕ) (t : TokenType) (ts : Tokens)
      → tok ts ≡ t
      → 32 * length ts + 3 ≤ f
      → Ensures (Shrinks ts) (parse_primary_expr f t ts)
  parse_primary_expr-Ensures zero t ts e h = absurd (omega arith)
  parse_primary_expr-Ensures (suc f) bool_literal_true ts e h = returned (length-next_le ts)
  parse_primary_expr-Ensures (suc f) bool_literal_false ts e h = returned (length-next_le ts)
  parse_primary_expr-Ensures (suc f) Token.float_literal ts e h = returned (length-next_le ts)
  parse_primary_expr-Ensures (suc f) Token.int_literal ts e h = returned (length-next_le ts)
  parse_primary_expr-Ensures (suc f) Token.char_literal ts e h = returned (length-next_le ts)
  parse_primary_expr-Ensures (suc f) Token.string_literal ts e h = returned (length-next_le ts)
  parse_primary_expr-Ensures (suc f) Token.nil ts e h = returned (length-next_le ts)
  parse_primary_expr-Ensures (suc f) noinit ts e h = returned (length-next_le ts)
  parse_primary_expr-Ensures (suc f) noflags ts e h = returned (length-next_le ts)
  parse_primary_expr-Ensures (suc f) noerror ts e h = returned (length-next_le ts)
  parse_primary_expr-Ensures (suc f) Token.identifier ts e h =
      let g : length (next ts) < length ts = next_token ts Token.identifier e refl in
      Below-Shrinks ts (
        parse_name-Ensures (parse_type_expr f false false) (length (next ts))
          (λ us k. Consumes-Shrinks us (parse_type_expr-Ensures f false false us (omega arith))) ts
          (omega arith))
  parse_primary_expr-Ensures (suc f) func ts e h = skipped
  parse_primary_expr-Ensures (suc f) type ts e h =
      let g : length (next ts) < length ts = next_token ts type e refl in
      Below-Shrinks ts (
        parse_const_type-Ensures (parse_type_expr f false false) (length (next ts))
          (λ us k. Consumes-Shrinks us (parse_type_expr-Ensures f false false us (omega arith))) ts
          (omega arith))
  parse_primary_expr-Ensures (suc f) t ts e h =
      Ensures-if (token_to_char t == b'(')
        (λ c.
          let g : length (next ts) < length ts = next_char ts t b'(' (omega arith) e c in
          Below-Shrinks ts (
            parse_paren_expr-Ensures (parse_braceless_tuple_expr f) (length (next ts))
              (λ us k. parse_braceless_tuple_expr-Ensures f us (omega arith)) ts (omega arith)))
        λ _.
          Ensures-if (token_to_char t == b'{')
            (λ c.
              let g : length (next ts) < length ts = next_char ts t b'{' (omega arith) e c in
              Below-Shrinks ts (
                parse_init_list_expr-Ensures (parse_ternary_expr f) (length (next ts))
                  (λ us k. parse_ternary_expr-Ensures f us (omega arith)) null ts (omega arith)))
            λ _.
              Ensures-if (is_unary_op t)
                (λ c.
                  let g : length (next ts) < length ts = next_token ts t e (is_unary_op-eof t c) in
                  Below-Shrinks ts (
                    parse_unary_op-Ensures (parse_cast_expr f) (length (next ts))
                      (λ us k. parse_cast_expr-Ensures f us (omega arith)) ts (omega arith)))
                λ _.
                  Ensures-if (is_eof t) (λ _. thrown {m = unexpected_eof})
                    λ _. returned {a = (null, ts)} (omega arith)

  parse_type_expr-Ensures :
      (f : ℕ) (no_error no_wrap : Bool) (ts : Tokens)
      → 32 * length ts + 2 ≤ f
      → Ensures (Consumes ts) (parse_type_expr f no_error no_wrap ts)
  parse_type_expr-Ensures zero no_error no_wrap ts h = absurd (omega arith)
  parse_type_expr-Ensures (suc f) no_error no_wrap ts h =
      Ensures-bind (parse_type_contents-Ensures f (tok ts) ts refl (omega arith))
        λ (t, ts₁) c. wrap_type-Ensures no_error no_wrap ts t ts₁ c

  parse_type_contents-Ensures :
      (f : ℕ) (t : TokenType) (ts : Tokens)
      → tok ts ≡ t
      → 32 * length ts + 1 ≤ f
      → Ensures (Consumes ts) (parse_type_contents f t ts)
  parse_type_contents-Ensures zero t ts e h = absurd (omega arith)
  parse_type_contents-Ensures (suc f) struct_ ts e h = skipped
  parse_type_contents-Ensures (suc f) enum_ ts e h =
      let g : length (next ts) < length ts = next_token ts enum_ e refl in
      Below-Consumes ts g (
        parse_enum_type_expr-Ensures (parse_type_expr f false false) (length (next ts))
          (λ us k. Consumes-Shrinks us (parse_type_expr-Ensures f false false us (omega arith))) f
          false ts (omega arith) (omega arith))
  parse_type_contents-Ensures (suc f) enumflags ts e h =
      let g : length (next ts) < length ts = next_token ts enumflags e refl in
      Below-Consumes ts g (
        parse_enum_type_expr-Ensures (parse_type_expr f false false) (length (next ts))
          (λ us k. Consumes-Shrinks us (parse_type_expr-Ensures f false false us (omega arith))) f
          true ts (omega arith) (omega arith))
  parse_type_contents-Ensures (suc f) Token.pure ts e h =
      let g : length (next ts) < length ts = next_token ts Token.pure e refl in
      Ensures-bind (parse_type_expr-Ensures f false true (next ts) (omega arith))
        λ (t, ts₁) (d, _). returned (omega arith, λ _. omega arith)
  parse_type_contents-Ensures (suc f) Token.identifier ts e h =
      let g : length (next ts) < length ts = next_token ts Token.identifier e refl in
      Below-Consumes ts g (
        parse_named_type-Ensures (parse_type_expr f false false) (length (next ts))
          (λ us k. Consumes-Shrinks us (parse_type_expr-Ensures f false false us (omega arith))) ts
          (omega arith))
  parse_type_contents-Ensures (suc f) Token.error ts e h =
      let g : length (next ts) < length ts = next_token ts Token.error e refl in
      returned (omega arith, λ _. g)
  parse_type_contents-Ensures (suc f) Token.nil ts e h =
      let g : length (next ts) < length ts = next_token ts Token.nil e refl in
      returned (omega arith, λ _. g)
  parse_type_contents-Ensures (suc f) t ts e h =
      Ensures-if (token_to_char t == b'{')
        (λ c.
          let g : length (next ts) < length ts = next_char ts t b'{' (omega arith) e c in
          Below-Consumes ts g (
            parse_tuple_type_expr-Ensures (parse_type_expr f false false) (length (next ts))
              (λ us k. Consumes-Shrinks us (parse_type_expr-Ensures f false false us (omega arith)))
              ts (omega arith)))
        λ _.
          Ensures-if (token_to_char t == b'[')
            (λ c.
              let g : length (next ts) < length ts = next_char ts t b'[' (omega arith) e c in
              Below-Consumes ts g (
                parse_array_type_expr-Ensures (parse_type_expr f false false) (length (next ts))
                  (λ us k.
                    Consumes-Shrinks us (parse_type_expr-Ensures f false false us (omega arith)))
                  (parse_ternary_expr f) (λ us k. parse_ternary_expr-Ensures f us (omega arith))
                  (next ts) (omega arith)))
            λ _.
              Ensures-if (token_to_char t == b'&')
                (λ c.
                  let g : length (next ts) < length ts = next_char ts t b'&' (omega arith) e c in
                  Ensures-bind (parse_type_expr-Ensures f false true (next ts) (omega arith))
                    λ (u, ts₁) (d, _).
                      returned {a = (type_qualifier ptr u, ts₁)} (omega arith, λ _. omega arith))
                λ _. returned {a = (null, ts)} (omega arith, λ k. cc)

-- With fuel for the length of the input the parsing of an expression ends: it returns a node and no
-- more tokens than it was given, throws, or stops at a construct that is left out or at a null
-- pointer.
pub parse_braceless_tuple_expr-out_of_fuel :
    (f : ℕ) (ts : Tokens)
    → 32 * length ts + 9 ≤ f
    → (parse_braceless_tuple_expr f ts ≢ out_of_fuel)
      × ((t : Node) (rest : Tokens)
          → parse_braceless_tuple_expr f ts ≡ ok (t, rest)
          → length rest ≤ length ts)
parse_braceless_tuple_expr-out_of_fuel f ts h = (
  Ensures-out_of_fuel (parse_braceless_tuple_expr-Ensures f ts h),
  λ t rest e. Ensures-ok (parse_braceless_tuple_expr-Ensures f ts h) e,
)
