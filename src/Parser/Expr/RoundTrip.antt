-- ===== src/Parser/Expr/RoundTrip.antt =====
-- What the printer of Printer.antt writes, the functions of Expr.antt read.
use carbonlang.Prelude.{
  ℕ, zero, suc, ◌+◌, ◌*◌, ◌≤◌, ◌<◌, ◌≡◌, ◌∙◌, if◌then◌else◌, refl, Bool, true, false, ltb, ◌==◌, [],
  ◌∷◌, Bytes, length, arith,
}
use carbonlang.Token
use carbonlang.Token.{TokenType, chr, is_unary_op, is_binary_op, precedence}
use carbonlang.Parser
use carbonlang.Parser.{
  Tokens, Node, is_null, Parser, plain, int_literal, unary_expr, binary_expr, tok, tok_char, next,
  Result, ok,
}
use carbonlang.Parser.Args.{is_coloncolon, parse_postfix, parse_qualified_identifier}
use carbonlang.Parser.Binary.{continues}
use carbonlang.Parser.Binary.Grammar.{Chain, operand, joined}
use carbonlang.Parser.Binary.Complete.{parse_operators-Chain}
use carbonlang.Parser.Expr.{
  parse_init_expr, parse_call_or_index_or_field_expr, parse_primary_expr,
  parse_braceless_tuple_expr, parse_ternary_expr, parse_unary_expr, parse_cast_expr,
}
use carbonlang.Parser.Parts.{is_then, is_cast}
use carbonlang.Parser.Expr.Fuel.{parse_unary_expr-Ensures}
use carbonlang.Parser.Expr.Printer.{
  Formula, number, name, prefix, join, IsFormula, node, number_token, name_token, operand_level,
  needs_brackets, brackets, print_bare, print_at, length-print_bare, length-print_at, Follows,
  binary-Follows, paren-Follows, print_at-is_unfinished,
}

-- The printed form is read back as an operand, or as the operators of a level.
Reads : Formula → Type 0
Reads e =
    (m f : ℕ) (rest : Tokens)
    → needs_brackets m e ≡ false
    → Follows rest
    → 32 * length (print_bare e rest) + 7 ≤ f
    → Chain (parse_unary_expr f) m (print_bare e rest) (node e) rest

abbrev pub IsEnd : Tokens → Type 0
IsEnd ts =
    (is_binary_op (tok ts) ≡ false) × (is_then (tok ts) ≡ false) × ((tok_char ts == b',') ≡ false)

needs_brackets-zero : (e : Formula) → needs_brackets 0 e ≡ false
unfolding needs_brackets
needs_brackets-zero (number n) = refl
needs_brackets-zero (name s) = refl
needs_brackets-zero (prefix op e) = refl
needs_brackets-zero (join op l r) = ground arith

continues-false : (m : ℕ) (t : TokenType) → is_binary_op t ≡ false → continues m t ≡ false
unfolding continues
continues-false m t h = ground arith

ltb-false : (a b : ℕ) → ltb a b ≡ false → b ≤ a
ltb-false a b h = ground arith

paren-IsEnd : (ts : Tokens) → IsEnd (plain (chr b')') ∷ ts)
unfolding is_binary_op tok tok_char is_then
paren-IsEnd ts = (refl, refl, refl)

-- The whole of an expression.
whole :
    (e : Formula)
    → Reads e
    → (f : ℕ) (rest : Tokens) → Follows rest
    → IsEnd rest
    → 32 * length (print_bare e rest) + 9 ≤ f
    → parse_braceless_tuple_expr f (print_bare e rest) ≡ ok (node e, rest)
unfolding parse_braceless_tuple_expr Reads
whole e r zero rest w x h = absurd (omega arith)
whole e r (suc zero) rest w x h = absurd (omega arith)
whole e r (suc (suc f)) rest w (b, t, c) h =
    let k =
      (parse_operators-Chain (parse_unary_expr f) (length (print_bare e rest))
          (λ us g. parse_unary_expr-Ensures f us (omega arith)) f 0 (print_bare e rest) (node e)
          rest (omega arith) (omega arith)).1
        (r 0 f rest (needs_brackets-zero e) w (omega arith), continues-false 0 (tok rest) b) in
    rw (k, t, c) refl

print_whole :
    (e : Formula)
    → Reads e
    → (b : Bool) → b ≡ false
    → (f : ℕ) (rest : Tokens) → Follows rest
    → IsEnd rest
    → 32 * length (brackets b (print_bare e) rest) + 9 ≤ f
    → parse_braceless_tuple_expr f (brackets b (print_bare e) rest) ≡ ok (node e, rest)
print_whole e r true n f rest w x h = cc
print_whole e r false n f rest w x h = whole e r f rest w x h

node-is_null : (e : Formula) → is_null (node e) ≡ false
unfolding is_null
node-is_null (number n) = refl
node-is_null (name s) = refl
node-is_null (prefix op e) = refl
node-is_null (join op l r) = refl

if_same : (b : Bool) {A : Type 0} {x : A} → (if b then x else x) ≡ x
if_same true = refl
if_same false = refl

qualified_end :
    (s : Bytes) (rest : Tokens)
    → is_coloncolon (tok rest) ≡ false
    → parse_qualified_identifier (name_token s ∷ rest) ≡ ok (Parser.identifier (s ∷ []), rest)
unfolding parse_qualified_identifier
qualified_end s rest h = rw h refl

-- One call after the other, where an operand ends.
cast_init :
    (f : ℕ) (ts : Tokens)
    → is_cast (tok ts) ≡ false
    → parse_cast_expr (suc f) ts ≡ parse_init_expr f ts
unfolding parse_cast_expr
cast_init f ts h = rw h refl

init_call :
    (f : ℕ) (ts : Tokens) (t : Node) (rest : Tokens)
    → parse_call_or_index_or_field_expr f ts ≡ ok (t, rest)
    → is_null t ≡ false
    → (tok_char rest == b'{') ≡ false
    → parse_init_expr (suc f) ts ≡ ok (t, rest)
unfolding parse_init_expr
init_call f ts t rest e n w = rw (e, n, w) refl

postfix_end :
    (p q : Parser Node) (f : ℕ) (t : Node) (rest : Tokens)
    → Follows rest
    → parse_postfix p q (suc f) t rest ≡ ok (t, rest)
unfolding parse_postfix
postfix_end p q f t rest (w₁, w₂, w₃, _, _, _) = rw (w₁, w₂, w₃) (if_same (is_null t))

call_primary :
    (f : ℕ) (ts : Tokens) (t : Node) (rest : Tokens)
    → parse_primary_expr (suc f) (tok ts) ts ≡ ok (t, rest)
    → Follows rest
    → parse_call_or_index_or_field_expr (suc (suc f)) ts ≡ ok (t, rest)
unfolding parse_call_or_index_or_field_expr
call_primary f ts t rest e w =
    rw (e, postfix_end (parse_ternary_expr (suc f)) (parse_braceless_tuple_expr (suc f)) f t rest w)
      refl

cast_primary :
    (f : ℕ) (ts : Tokens) (t : Node) (rest : Tokens)
    → is_cast (tok ts) ≡ false
    → parse_primary_expr (suc f) (tok ts) ts ≡ ok (t, rest)
    → is_null t ≡ false
    → Follows rest
    → parse_cast_expr (suc (suc (suc (suc f)))) ts ≡ ok (t, rest)
cast_primary f ts t rest c e n w =
    let (_, _, _, w₄, _, _) = w in
    cast_init (suc (suc (suc f))) ts c
    ∙ init_call (suc (suc f)) ts t rest (call_primary f ts t rest e w) n w₄

primary_paren :
    (f : ℕ) (ts : Tokens) (t : Node) (rest : Tokens)
    → parse_braceless_tuple_expr f ts ≡ ok (t, plain (chr b')') ∷ rest)
    → parse_primary_expr (suc f) (chr b'(') (plain (chr b'(') ∷ ts) ≡ ok (t, rest)
unfolding parse_primary_expr
primary_paren f ts t rest e = rw e refl

primary_name :
    (f : ℕ) (s : Bytes) (rest : Tokens)
    → Follows rest
    → parse_primary_expr (suc f) Token.identifier (name_token s ∷ rest)
      ≡ ok (Parser.identifier (s ∷ []), rest)
unfolding parse_primary_expr
primary_name f s rest (_, _, _, _, w₅, w₆) = rw (qualified_end s rest w₆, w₅) refl

-- An expression in brackets is an operand.
paren :
    (e : Formula)
    → Reads e
    → (f : ℕ) (rest : Tokens) → Follows rest
    → 32 * length (print_bare e (plain (chr b')') ∷ rest)) + 38 ≤ f
    → parse_cast_expr f (brackets true (print_bare e) rest) ≡ ok (node e, rest)
unfolding tok is_cast
paren e r (suc (suc (suc (suc (suc f))))) rest w h =
    cast_primary (suc f) (brackets true (print_bare e) rest) (node e) rest refl
      (primary_paren (suc f) (print_bare e (plain (chr b')') ∷ rest)) (node e) rest (
        whole e r (suc f) (plain (chr b')') ∷ rest) (paren-Follows rest) (paren-IsEnd rest)
          (omega arith)))
      (node-is_null e) w
paren e r _ rest w h = absurd (omega arith)

precedence_le : (t : TokenType) → precedence t ≤ 1200
unfolding precedence
precedence_le (chr c) = ground arith
precedence_le _ = omega arith

-- An operand of a unary operator.
bare :
    (e : Formula) (f : ℕ) (rest : Tokens)
    → needs_brackets operand_level e ≡ false
    → Follows rest
    → 7 ≤ f
    → parse_cast_expr f (print_bare e rest) ≡ ok (node e, rest)
unfolding tok is_cast print_bare needs_brackets parse_primary_expr is_null
bare (number n) (suc (suc (suc (suc f)))) rest b w h =
    cast_primary f (number_token n ∷ rest) (int_literal n) rest refl refl refl w
bare (name s) (suc (suc (suc (suc f)))) rest b w h =
    cast_primary f (name_token s ∷ rest) (Parser.identifier (s ∷ [])) rest refl
      (primary_name f s rest w) refl w
bare (prefix op e) f rest b w h = cc
bare (join op l r) f rest b w h = absurd (ground (arith, precedence_le op))
bare _ _ rest b w h = absurd (omega arith)

cast_at :
    (e : Formula)
    → Reads e
    → (b : Bool) → needs_brackets operand_level e ≡ b
    → (f : ℕ) (rest : Tokens) → Follows rest
    → 32 * length (brackets b (print_bare e) rest) + 6 ≤ f
    → parse_cast_expr f (brackets b (print_bare e) rest) ≡ ok (node e, rest)
cast_at e r true b f rest w h = paren e r f rest w (omega arith)
cast_at e r false b f rest w h = bare e f rest b w (omega (arith, length-print_bare e rest))

unary_operand :
    (op : TokenType) (f : ℕ) (ts : Tokens) (t : Node) (rest : Tokens)
    → is_unary_op op ≡ true
    → parse_cast_expr f ts ≡ ok (t, rest)
    → parse_unary_expr (suc f) (plain op ∷ ts) ≡ ok (unary_expr op t, rest)
unfolding parse_unary_expr
unary_operand op f ts t rest h e = rw (h, e) refl

plain_operand :
    (f : ℕ) (ts : Tokens) (t : Node) (rest : Tokens)
    → is_unary_op (tok ts) ≡ false
    → parse_cast_expr f ts ≡ ok (t, rest)
    → parse_unary_expr (suc f) ts ≡ ok (t, rest)
unfolding parse_unary_expr
plain_operand f ts t rest h e = rw (h, e) refl

-- With its brackets an expression is read at every level.
Chain-at :
    (e : Formula)
    → Reads e
    → (m : ℕ) (b : Bool) → needs_brackets m e ≡ b
    → (f : ℕ) (rest : Tokens) → Follows rest
    → 32 * length (brackets b (print_bare e) rest) + 7 ≤ f
    → Chain (parse_unary_expr f) m (brackets b (print_bare e) rest) (node e) rest
unfolding Reads is_unary_op tok
Chain-at e r m true b (suc f) rest w h = operand (
    plain_operand f (brackets true (print_bare e) rest) (node e) rest refl
      (paren e r f rest w (omega arith)))
Chain-at e r m false b f rest w h = r m f rest b w h
Chain-at e r m true b zero rest w h = absurd (omega arith)

reads : (e : Formula) → IsFormula e → Reads e
unfolding Reads print_bare needs_brackets is_unary_op tok next
reads (number n) v m (suc f) rest b w h = operand (
    plain_operand f (number_token n ∷ rest) (int_literal n) rest refl
      (bare (number n) f rest refl w (omega arith)))
reads (name s) v m (suc f) rest b w h = operand (
    plain_operand f (name_token s ∷ rest) (Parser.identifier (s ∷ [])) rest refl
      (bare (name s) f rest refl w (omega arith)))
reads (prefix op e) (u, v) m (suc f) rest b w h = operand (
    unary_operand op f (print_at operand_level e rest) (node e) rest u
      (cast_at e (reads e v) (needs_brackets operand_level e) refl f rest w (omega arith)))
reads (join op l r) (u, v, v') m f rest b w h =
    let q : ℕ = precedence op in
    let mid : Tokens = plain op ∷ print_at (suc q) r rest in
    let g : length mid < length (print_at q l mid) = length-print_at q l mid in
    joined {mid = mid} u (omega (arith, ltb-false q m b)) (print_at-is_unfinished (suc q) r v' rest)
      (Chain-at l (reads l v) q (needs_brackets q l) refl f mid
        (binary-Follows op (print_at (suc q) r rest) u) h)
      (Chain-at r (reads r v') (suc q) (needs_brackets (suc q) r) refl f rest w (omega arith))
reads (number n) v m zero rest b w h = absurd (omega arith)
reads (name s) v m zero rest b w h = absurd (omega arith)
reads (prefix op e) v m zero rest b w h = absurd (omega arith)

-- An expression of numbers, names, unary and binary operators that is printed with brackets only
-- where precedence and association ask for them is read back as its tree, and nothing that follows
-- it is touched: what follows neither goes on with the last operand nor is an operator, `then` or a
-- comma. The fuel is 32 times the number of
-- tokens and 9 more.
pub parse_braceless_tuple_expr-print_at :
    (e : Formula)
    → IsFormula e
    → (f : ℕ) (rest : Tokens) → Follows rest
    → IsEnd rest
    → 32 * length (print_at 0 e rest) + 9 ≤ f
    → parse_braceless_tuple_expr f (print_at 0 e rest) ≡ ok (node e, rest)
parse_braceless_tuple_expr-print_at e v f rest w x h =
    print_whole e (reads e v) (needs_brackets 0 e) (needs_brackets-zero e) f rest w x h
