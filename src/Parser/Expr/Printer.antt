-- ===== src/Parser/Expr/Printer.antt =====
-- Expressions of operators as text: a printer that puts brackets only where the precedences of
-- carbonc/token.cc ask for them.
use carbonlang.Prelude.{
  ℕ, suc, ◌<◌, ◌≡◌, refl, Bool, true, false, ltb, ◌==◌, [], ◌∷◌, Bytes, length, arith,
}
use carbonlang.Token
use carbonlang.Token.{TokenType, chr, is_unary_op, is_binary_op, precedence}
use carbonlang.Parser
use carbonlang.Parser.{Tokens, Node, plain, int_literal, unary_expr, binary_expr, tok, tok_char}
use carbonlang.Parser.Args.{is_coloncolon}
use carbonlang.Parser.Binary.{is_unfinished}

pub data Formula : Type 0 where
  number : ℕ → Formula
  name : Bytes → Formula
  prefix : TokenType → Formula → Formula
  join : TokenType → Formula → Formula → Formula

abbrev pub IsFormula : Formula → Type 0
IsFormula (number n) = Unit
IsFormula (name s) = Unit
IsFormula (prefix op e) = (is_unary_op op ≡ true) × IsFormula e
IsFormula (join op l r) = (is_binary_op op ≡ true) × IsFormula l × IsFormula r

-- The tree that the source text stands for.
abbrev pub node : Formula → Node
node (number n) = int_literal n
node (name s) = Parser.identifier (s ∷ [])
node (prefix op e) = unary_expr op (node e)
node (join op l r) = binary_expr op (node l) (node r)

abbrev pub number_token : ℕ → Parser.Token
number_token n = record { type = Token.int_literal; int_value = n; string_value = [] }

abbrev pub name_token : Bytes → Parser.Token
name_token s = record { type = Token.identifier; int_value = 0; string_value = s }

-- The level of an operand of a unary operator, above every precedence.
abbrev pub operand_level : ℕ
operand_level = 2001

unfoldable pub needs_brackets : ℕ → Formula → Bool
needs_brackets m (number n) = false
needs_brackets m (name s) = false
needs_brackets m (prefix op e) = ltb 2000 m
needs_brackets m (join op l r) = ltb (precedence op) m

abbrev pub brackets : Bool → (Tokens → Tokens) → Tokens → Tokens
brackets true print rest = plain (chr b'(') ∷ print (plain (chr b')') ∷ rest)
brackets false print rest = print rest

-- The tokens of an expression, before those that follow it.
unfoldable pub print_bare : Formula → Tokens → Tokens
unfolding needs_brackets
print_bare (number n) rest = number_token n ∷ rest
print_bare (name s) rest = name_token s ∷ rest
print_bare (prefix op e) rest =
    plain op ∷ brackets (needs_brackets operand_level e) (print_bare e) rest
print_bare (join op l r) rest =
    brackets (needs_brackets (precedence op) l) (print_bare l)
      (plain op ∷ brackets (needs_brackets (suc (precedence op)) r) (print_bare r) rest)

-- The tokens of an expression where one of a level is read.
abbrev pub print_at : ℕ → Formula → Tokens → Tokens
print_at m e = brackets (needs_brackets m e) (print_bare e)

length-brackets :
    (b : Bool) (print : Tokens → Tokens)
    → ((rest : Tokens) → length rest < length (print rest))
    → (rest : Tokens) → length rest < length (brackets b print rest)
length-brackets true print h rest = omega (arith, h (plain (chr b')') ∷ rest))
length-brackets false print h rest = h rest

pub length-print_bare : (e : Formula) (rest : Tokens) → length rest < length (print_bare e rest)
unfolding print_bare
length-print_bare (number n) rest = omega arith
length-print_bare (name s) rest = omega arith
length-print_bare (prefix op e) rest = omega (
  arith,
  length-brackets (needs_brackets operand_level e) (print_bare e) (length-print_bare e) rest,
)
length-print_bare (join op l r) rest =
    let right : Tokens = brackets (needs_brackets (suc (precedence op)) r) (print_bare r) rest in
    omega (
      arith,
      length-brackets (needs_brackets (suc (precedence op)) r) (print_bare r) (length-print_bare r)
          rest,
      length-brackets (needs_brackets (precedence op) l) (print_bare l) (length-print_bare l)
          (plain op ∷ right),
    )

pub length-print_at :
    (m : ℕ) (e : Formula) (rest : Tokens) → length rest < length (print_at m e rest)
length-print_at m e rest =
    length-brackets (needs_brackets m e) (print_bare e) (length-print_bare e) rest

-- What may follow an operand: no token that goes on with a primary expression.
abbrev pub Follows : Tokens → Type 0
Follows ts =
    ((tok_char ts == b'(') ≡ false)
    × ((tok_char ts == b'.') ≡ false)
    × ((tok_char ts == b'[') ≡ false)
    × ((tok_char ts == b'{') ≡ false)
    × ((tok_char ts == b'\\') ≡ false)
    × (is_coloncolon (tok ts) ≡ false)

pub binary-Follows :
    (op : TokenType) (ts : Tokens) → is_binary_op op ≡ true → Follows (plain op ∷ ts)
unfolding is_binary_op tok_char is_coloncolon
binary-Follows (chr c) ts h =
    (ground arith, ground arith, ground arith, ground arith, ground arith, refl)
binary-Follows _ ts h = ground arith

pub paren-Follows : (ts : Tokens) → Follows (plain (chr b')') ∷ ts)
unfolding tok_char is_coloncolon
paren-Follows ts = (refl, refl, refl, refl, refl, refl)

unary-is_unfinished : (op : TokenType) → is_unary_op op ≡ true → is_unfinished op ≡ false
unfolding is_unary_op is_unfinished
unary-is_unfinished (chr c) h = ground arith
unary-is_unfinished _ h = ground arith

brackets-is_unfinished :
    (b : Bool) (print : Tokens → Tokens)
    → ((rest : Tokens) → is_unfinished (tok (print rest)) ≡ false)
    → (rest : Tokens) → is_unfinished (tok (brackets b print rest)) ≡ false
unfolding is_unfinished tok
brackets-is_unfinished true print h rest = refl
brackets-is_unfinished false print h rest = h rest

-- An expression does not start with the end of a line.
pub print_bare-is_unfinished :
    (e : Formula) → IsFormula e → (rest : Tokens) → is_unfinished (tok (print_bare e rest)) ≡ false
unfolding print_bare is_unfinished tok
print_bare-is_unfinished (number n) v rest = refl
print_bare-is_unfinished (name s) v rest = refl
print_bare-is_unfinished (prefix op e) v rest = unary-is_unfinished op v.0
print_bare-is_unfinished (join op l r) v rest =
    brackets-is_unfinished (needs_brackets (precedence op) l) (print_bare l)
      (print_bare-is_unfinished l v.1)
      (plain op ∷ brackets (needs_brackets (suc (precedence op)) r) (print_bare r) rest)

pub print_at-is_unfinished :
    (m : ℕ) (e : Formula)
    → IsFormula e
    → (rest : Tokens) → is_unfinished (tok (print_at m e rest)) ≡ false
print_at-is_unfinished m e v rest =
    brackets-is_unfinished (needs_brackets m e) (print_bare e) (print_bare-is_unfinished e v) rest
