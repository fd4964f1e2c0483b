-- ===== src/Parser.antt =====
-- carbonc/parser.cc: what the parsing functions share, the tokens that the lexer delivers, the nodes
-- of the syntax tree, and the outcome of a call. The list of tokens is the input from the current
-- token on; at its end the lexer delivers `eof`. Positions, which only messages show, are left out.
pub mod Binary
pub mod Args
pub mod Parts
pub mod Expr
pub mod Stmt
use carbonlang.Prelude.{
  ℕ, Bool, true, false, List, [], ◌∷◌, Bytes, ◌==◌, ◌≡◌, ◌≢◌, refl, ◌≤◌, ◌<◌, arith, length, subst,
  if◌then◌else◌,
}
use carbonlang.Token.{TokenType, chr, eof, token_to_char}

-- A token with the value that the lexer holds for it: `int_value`, which is the bit pattern of
-- `float_value` for a number with a fraction, and `string_value`.
pub record Token : Type 0 where
  pub type : TokenType
  pub int_value : ℕ
  pub string_value : Bytes

abbrev pub Tokens : Type 0
Tokens = List Token

-- A token without a value.
abbrev pub plain : TokenType → Token
plain t = record { type = t; int_value = 0; string_value = [] }

-- `TOK`, `TOK_CHAR`, `lex->next()` and the values of the current token.
unfoldable pub tok : Tokens → TokenType
tok [] = eof
tok (t ∷ ts) = t.type

unfoldable pub tok_char : Tokens → ℕ
unfolding tok token_to_char
tok_char ts = token_to_char (tok ts)

unfoldable pub next : Tokens → Tokens
next [] = []
next (t ∷ ts) = ts

unfoldable pub int_value : Tokens → ℕ
int_value [] = 0
int_value (t ∷ ts) = t.int_value

unfoldable pub string_value : Tokens → Bytes
string_value [] = []
string_value (t ∷ ts) = t.string_value

pub data TypeQualifier : Type 0 where
  ptr pure : TypeQualifier

-- The nodes that the functions make; `null` is the empty `arena_ptr`.
mutual
  pub data Node : Type 0 where
    null : Node
    bool_literal : Bool → Node
    float_literal int_literal char_literal : ℕ → Node
    string_literal : Bytes → Node
    nil : Node
    init_tag : TokenType → Node
    identifier : List Bytes → Node
    func_overload_selector : Node → Node → Node
    const_expr : Node → Node
    unary_expr : TokenType → Node → Node
    binary_expr : TokenType → Node → Node → Node
    ternary_expr : Node → Node → Node → Node
    cast_expr init_expr call_expr index_expr field_expr : Node → Node → Node
    arg_list : Nodes → Node
    let_decl : Node → Node → Node
    type_expr slice_type tuple_type : Node → Node
    type_qualifier : TypeQualifier → Node → Node
    type_constructor_instance array_type func_pointer_type : Node → Node → Node
    enum_type : Node → Node → Bool → Node
    break_stmt continue_stmt : Node
    return_stmt defer_stmt : Node → Node
    if_stmt : Node → Node → Node → Node
    for_cond_stmt : Node → Node → Node
    for_numeric_stmt : Nodes → Node → Node → Node
    stmt_list compound_stmt : Nodes → Node

  pub data Nodes : Type 0 where
    none : Nodes
    more : Node → Nodes → Nodes

-- `if (expr)`.
unfoldable pub is_null : Node → Bool
is_null null = true
is_null _ = false

-- The outcome of a call: `error` is a thrown `parse_error`, by a name for its message, `null_deref`
-- the use of a null pointer, `left_out` a construct outside the model. The program has no
-- `out_of_fuel`.
pub data Message : Type 0 where
  unfinished_expression expected_then_expression expected_else_token expected_else_expression :
      Message
  invalid_cast expected_field expected_index_end unexpected_eof expected_paren : Message
  expected_identifier expected_arg_end expected_type invalid_type expected_designator : Message
  expected_designator_assign expected_designator_value : Message
  expected_return_type expected_array_size expected_array_end expected_array_item : Message
  expected_enum_begin expected_enum_end expected_block_end expected_if_begin expected_if_end :
      Message
  expected_for_begin expected_for_end expected_second_identifier expected_iterator : Message

pub data Result {ℓ} (A : Type ℓ) : Type ℓ where
  ok : A → Result A
  error : Message → Result A
  null_deref left_out out_of_fuel : Result A

abbrev pub bind {ℓ κ} : {A : Type ℓ} {B : Type κ} → Result A → (A → Result B) → Result B
bind (ok a) f = f a
bind (error m) f = error m
bind null_deref f = null_deref
bind left_out f = left_out
bind out_of_fuel f = out_of_fuel

abbrev pub Parser {ℓ} : Type ℓ → Type ℓ
Parser A = Tokens → Result (A × Tokens)

infixl 1 ◌>>=◌
abbrev pub ◌>>=◌ {ℓ κ} : {A : Type ℓ} {B : Type κ} → Parser A → (A → Parser B) → Parser B
p >>= f = λ ts. bind (p ts) λ (a, rest). f a rest

-- What becomes of a call: it is kept within its fuel, and what it returns satisfies the predicate.
pub data Ensures {ℓ κ} {A : Type ℓ} (P : A → Type κ) : Result A → Type (ℓ ⊔ κ) where
  returned : {a : A} → P a → Ensures P (ok a)
  thrown : {m : Message} → Ensures P (error m)
  crashed : Ensures P null_deref
  skipped : Ensures P left_out

module _ {ℓ κ} {A : Type ℓ} {P : A → Type κ} where
  -- Both branches of a test, each under its outcome.
  pub Ensures-if :
      (c : Bool) {x y : Result A}
      → (c ≡ true → Ensures P x)
      → (c ≡ false → Ensures P y)
      → Ensures P (if c then x else y)
  Ensures-if true h k = h refl
  Ensures-if false h k = k refl

  pub Ensures-bind {ℓ' κ'} :
      {B : Type ℓ'} {Q : B → Type κ'} {r : Result A} {f : A → Result B}
      → Ensures P r
      → ((a : A) → P a → Ensures Q (f a))
      → Ensures Q (bind r f)
  Ensures-bind (returned {a} p) k = k a p
  Ensures-bind thrown k = thrown
  Ensures-bind crashed k = crashed
  Ensures-bind skipped k = skipped

  pub Ensures-map {κ'} :
      {Q : A → Type κ'} {r : Result A} → ((a : A) → P a → Q a) → Ensures P r → Ensures Q r
  Ensures-map k (returned {a} p) = returned (k a p)
  Ensures-map k thrown = thrown
  Ensures-map k crashed = crashed
  Ensures-map k skipped = skipped

  -- The predicate may name the call.
  pub Ensures-self : {r : Result A} → Ensures P r → Ensures (λ a. P a × (r ≡ ok a)) r
  Ensures-self (returned p) = returned (p, refl)
  Ensures-self thrown = thrown
  Ensures-self crashed = crashed
  Ensures-self skipped = skipped

  pub Ensures-ok : {r : Result A} {a : A} → Ensures P r → r ≡ ok a → P a
  Ensures-ok (returned p) e = subst P (cc) p
  Ensures-ok thrown e = cc
  Ensures-ok crashed e = cc
  Ensures-ok skipped e = cc

  pub Ensures-out_of_fuel : {r : Result A} → Ensures P r → r ≢ out_of_fuel
  Ensures-out_of_fuel (returned p) = cc
  Ensures-out_of_fuel thrown = cc
  Ensures-out_of_fuel crashed = cc
  Ensures-out_of_fuel skipped = cc

-- What a call leaves of its input.
abbrev pub Shrinks : {A : Type 0} → Tokens → A × Tokens → Type 0
Shrinks ts r = length r.1 ≤ length ts

pub length-next_le : (ts : Tokens) → length (next ts) ≤ length ts
unfolding next
length-next_le [] = omega arith
length-next_le (t ∷ ts) = omega arith

-- A token that is not the end of the input is taken off it.
pub length-next_lt :
    (ts : Tokens) (f : TokenType → Bool)
    → f eof ≡ false
    → f (tok ts) ≡ true
    → length (next ts) < length ts
unfolding next tok
length-next_lt [] f e h = cc
length-next_lt (t ∷ ts) f e h = omega arith

pub length-next_char :
    (ts : Tokens) (c : ℕ) → 0 < c → (tok_char ts == c) ≡ true → length (next ts) < length ts
unfolding next tok tok_char token_to_char
length-next_char [] c g h = ground arith
length-next_char (t ∷ ts) c g h = omega arith
