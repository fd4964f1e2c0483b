-- ===== src/Token.antt =====
-- carbonc/token.hh and carbonc/token.cc: token types, the table of operator properties and the
-- tests that the parser and the type system read it by.
-- A token type is an `unsigned int`: a character stands for itself (`chr`), the named ones follow.
pub mod Operators
use carbonlang.Prelude.{
  ℕ, Option, some, none, Bool, true, false, not, ◌||◌, bit_and, bit_or, ltb, ◌==◌, if◌then◌else◌,
}

pub data TokenType : Type 0 where
  chr : ℕ → TokenType
  eof bool_literal_false bool_literal_true float_literal int_literal char_literal : TokenType
  string_literal identifier not_ andand oror eqeq neq gteq lteq shl shr : TokenType
  band bor bxor bnot let_ auto_ func then_ return_ extern_ const_ error pure : TokenType
  type typealias asm_ private_ public_ internal_ import_ export_ as_ in_ : TokenType
  cast_ if_ else_ for_ while_ coloncolon dotdot dotdotdot nil nullptr_ : TokenType
  defer continue_ break_ arrow_right double_arrow_right struct_ enum_ : TokenType
  enumflags noflags noerror noinit plus_assign minus_assign mul_assign : TokenType
  div_assign shl_assign shr_assign and_assign or_assign : TokenType

abbrev pub token_from_char : ℕ → TokenType
token_from_char c = chr c

-- The zero byte stands for "no character".
unfoldable pub token_to_char : TokenType → ℕ
token_to_char (chr c) = if ltb c 256 then c else 0
token_to_char _ = 0

pub record TokenProperties : Type 0 where
  pub flags : ℕ
  pub precedence : ℕ

abbrev pub binary_op : ℕ
binary_op = 1

abbrev pub unary_op : ℕ
unary_op = 2

abbrev pub right_assoc : ℕ
right_assoc = 4

abbrev pub assign_sugar : ℕ
assign_sugar = 8

abbrev props : ℕ → ℕ → TokenProperties
props f p = record { flags = f; precedence = p }

-- The entries of the table for characters; a missing one reads as the default.
char_props : ℕ → TokenProperties
char_props c =
    if c == b'!'
    then props unary_op 0
    else if c == b'@'
    then props unary_op 0
    else if c == b'|'
    then props binary_op 580
    else if c == b'^'
    then props binary_op 590
    else if c == b'&'
    then props (bit_or binary_op unary_op) 600
    else if c == b'>'
    then props binary_op 800
    else if c == b'<'
    then props binary_op 800
    else if c == b'+'
    then props binary_op 1000
    else if c == b'-'
    then props (bit_or binary_op unary_op) 1000
    else if c == b'*'
    then props binary_op 1100
    else if c == b'/'
    then props binary_op 1100
    else if c == b'%'
    then props binary_op 1100
    else props 0 0

unfoldable pub token_props : TokenType → TokenProperties
unfolding char_props
token_props (chr c) = char_props c
token_props plus_assign = props (bit_or binary_op assign_sugar) 400
token_props minus_assign = props (bit_or binary_op assign_sugar) 400
token_props mul_assign = props (bit_or binary_op assign_sugar) 400
token_props div_assign = props (bit_or binary_op assign_sugar) 400
token_props and_assign = props (bit_or binary_op assign_sugar) 400
token_props or_assign = props (bit_or binary_op assign_sugar) 400
token_props shl_assign = props (bit_or binary_op assign_sugar) 400
token_props shr_assign = props (bit_or binary_op assign_sugar) 400
token_props oror = props binary_op 490
token_props andand = props binary_op 500
token_props dotdot = props binary_op 550
token_props eqeq = props binary_op 700
token_props neq = props binary_op 700
token_props gteq = props binary_op 800
token_props lteq = props binary_op 800
token_props shl = props binary_op 900
token_props shr = props binary_op 900
token_props arrow_right = props binary_op 1200
token_props _ = props 0 0

-- `flags & flag`, as a condition.
has_flag : ℕ → ℕ → Bool
has_flag flags flag = not (bit_and flags flag == 0)

unfoldable pub is_unary_op : TokenType → Bool
unfolding has_flag token_props
is_unary_op t = has_flag (token_props t).flags unary_op

unfoldable pub is_binary_op : TokenType → Bool
unfolding has_flag token_props
is_binary_op t = has_flag (token_props t).flags binary_op

unfoldable pub is_right_assoc : TokenType → Bool
unfolding has_flag token_props
is_right_assoc t = has_flag (token_props t).flags right_assoc

unfoldable pub is_assignment_sugar_op : TokenType → Bool
unfolding has_flag token_props
is_assignment_sugar_op t = has_flag (token_props t).flags assign_sugar

unfoldable pub precedence : TokenType → ℕ
unfolding token_props
precedence t = (token_props t).precedence

unfoldable pub is_logic_binary_op : TokenType → Bool
is_logic_binary_op andand = true
is_logic_binary_op oror = true
is_logic_binary_op _ = false

is_arith_char : ℕ → Bool
is_arith_char c =
    c == b'+' || c == b'-' || c == b'*' || c == b'/' || c == b'&' || c == b'|' || c == b'^'

unfoldable pub is_arith_binary_op : TokenType → Bool
unfolding token_to_char is_arith_char
is_arith_binary_op shl = true
is_arith_binary_op shr = true
is_arith_binary_op t = is_arith_char (token_to_char t)

is_cmp_char : ℕ → Bool
is_cmp_char c = c == b'>' || c == b'<'

unfoldable pub is_cmp_binary_op : TokenType → Bool
unfolding token_to_char is_cmp_char
is_cmp_binary_op gteq = true
is_cmp_binary_op lteq = true
is_cmp_binary_op eqeq = true
is_cmp_binary_op neq = true
is_cmp_binary_op t = is_cmp_char (token_to_char t)

-- carbonc/type_system.cc; an operator that is no assignment sugar stops the compiler.
unfoldable pub get_desugared_assignment_op : TokenType → Option TokenType
get_desugared_assignment_op plus_assign = some (chr b'+')
get_desugared_assignment_op minus_assign = some (chr b'-')
get_desugared_assignment_op mul_assign = some (chr b'*')
get_desugared_assignment_op div_assign = some (chr b'/')
get_desugared_assignment_op and_assign = some (chr b'&')
get_desugared_assignment_op or_assign = some (chr b'|')
get_desugared_assignment_op shr_assign = some shr
get_desugared_assignment_op shl_assign = some shl
get_desugared_assignment_op _ = none
