-- ===== src/Lexer.antt =====
-- carbonc/lexer.cc: what the lexer makes of the tokens of the C lexer, keywords, and long strings. The
-- C lexer itself is another project's.
pub mod Keywords
pub mod LongString
use carbonlang.Prelude.{
  ℕ, zero, suc, ◌+◌, ◌%◌, ltb, Bool, true, false, Option, some, none, List, [], ◌∷◌, ◌++◌, Bytes,
  bytes_eq, codes, length, ◌==◌, if◌then◌else◌,
}
use carbonlang.Token
use carbonlang.Token.{
  TokenType, chr, token_from_char, eof, identifier, int_literal, float_literal, char_literal,
  string_literal, coloncolon, dotdot, dotdotdot, eqeq, neq, gteq, lteq, andand, oror, arrow_right,
  double_arrow_right, div_assign, plus_assign, minus_assign, mul_assign, shl, shr, shl_assign,
  shr_assign, or_assign, and_assign, as_, if_, in_, let_, asm_, for_, nil, pure, func,
  bool_literal_true, bool_literal_false, type, cast_, else_, then_, enum_, while_, defer, break_,
  const_, error, noerror, return_, extern_, public_, import_, export_, struct_, noinit, private_,
  noflags, internal_, continue_, typealias, enumflags,
}

-- The tokens of the C lexer that the table names; `other` is any other one, by its number.
pub data Clex : Type 0 where
  clex_eof clex_id clex_intlit clex_floatlit clex_charlit clex_dqstring clex_coloncolon : Clex
  clex_dotdot clex_dotdotdot clex_eq clex_noteq clex_greatereq clex_lesseq clex_andand : Clex
  clex_oror clex_arrow clex_eqarrow clex_diveq clex_pluseq clex_minuseq clex_muleq clex_shl : Clex
  clex_shr clex_shleq clex_shreq clex_oreq clex_andeq : Clex
  other : ℕ → Clex

unfoldable pub stb_to_token : Clex → Option TokenType
stb_to_token clex_eof = some eof
stb_to_token clex_id = some identifier
stb_to_token clex_intlit = some int_literal
stb_to_token clex_floatlit = some float_literal
stb_to_token clex_charlit = some char_literal
stb_to_token clex_dqstring = some string_literal
stb_to_token clex_coloncolon = some coloncolon
stb_to_token clex_dotdot = some dotdot
stb_to_token clex_dotdotdot = some dotdotdot
stb_to_token clex_eq = some eqeq
stb_to_token clex_noteq = some neq
stb_to_token clex_greatereq = some gteq
stb_to_token clex_lesseq = some lteq
stb_to_token clex_andand = some andand
stb_to_token clex_oror = some oror
stb_to_token clex_arrow = some arrow_right
stb_to_token clex_eqarrow = some double_arrow_right
stb_to_token clex_diveq = some div_assign
stb_to_token clex_pluseq = some plus_assign
stb_to_token clex_minuseq = some minus_assign
stb_to_token clex_muleq = some mul_assign
stb_to_token clex_shl = some shl
stb_to_token clex_shr = some shr
stb_to_token clex_shleq = some shl_assign
stb_to_token clex_shreq = some shr_assign
stb_to_token clex_oreq = some or_assign
stb_to_token clex_andeq = some and_assign
stb_to_token (other n) = none

abbrev pub Keyword : Type 0
Keyword = Bytes × TokenType

-- The comparisons of one length, in their order.
abbrev pub keywords : ℕ → List Keyword
keywords n =
    if n == 2
    then (codes "as", as_) ∷ (codes "if", if_) ∷ (codes "in", in_) ∷ []
    else if n == 3
    then (codes "let", let_) ∷ (codes "asm", asm_) ∷ (codes "for", for_) ∷ (codes "nil", nil) ∷ []
    else if n == 4
    then (codes "pure", pure)
      ∷ (codes "func", func)
      ∷ (codes "true", bool_literal_true)
      ∷ (codes "type", type)
      ∷ (codes "cast", cast_)
      ∷ (codes "else", else_)
      ∷ (codes "then", then_)
      ∷ (codes "enum", enum_)
      ∷ []
    else if n == 5
    then (codes "false", bool_literal_false)
      ∷ (codes "while", while_)
      ∷ (codes "defer", defer)
      ∷ (codes "break", break_)
      ∷ (codes "const", const_)
      ∷ (codes "error", error)
      ∷ (codes "noerr", noerror)
      ∷ []
    else if n == 6
    then (codes "return", return_)
      ∷ (codes "extern", extern_)
      ∷ (codes "public", public_)
      ∷ (codes "import", import_)
      ∷ (codes "export", export_)
      ∷ (codes "struct", struct_)
      ∷ (codes "noinit", noinit)
      ∷ []
    else if n == 7
    then (codes "private", private_) ∷ (codes "noflags", noflags) ∷ []
    else if n == 8
    then (codes "internal", internal_)
      ∷ (codes "continue", continue_)
      ∷ (codes "typealias", typealias)
      ∷ (codes "enumflags", enumflags)
      ∷ []
    else if n == 9
    then (codes "typealias", typealias) ∷ (codes "enumflags", enumflags) ∷ []
    else []

-- The `strcmp` after one another.
unfoldable pub first_equal : List Keyword → Bytes → TokenType
first_equal [] s = identifier
first_equal ((text, t) ∷ ks) s =
    let rest : TokenType = first_equal ks s in if bytes_eq text s then t else rest

unfoldable pub transform_c_lexer_identifier : Bytes → TokenType
unfolding first_equal
transform_c_lexer_identifier s = first_equal (keywords (length s)) s

-- `char(ct)` as an `unsigned int`: a byte above 127 is negative.
unfoldable pub to_char : ℕ → ℕ
to_char n = if ltb (n % 256) 128 then n % 256 else n % 256 + 4294967040

-- With the text of an identifier. A number without an entry is cut down to a character.
unfoldable pub transform_c_lexer_token : Clex → Bytes → TokenType
unfolding to_char stb_to_token transform_c_lexer_identifier
transform_c_lexer_token clex_id s = transform_c_lexer_identifier s
transform_c_lexer_token (other n) s = token_from_char (to_char n)
transform_c_lexer_token c s = elim (stb_to_token c) [ some t ↦ t | none ↦ eof ]

-- `strncmp` against the input: what is left behind the characters.
unfoldable pub after_prefix : Bytes → Bytes → Option Bytes
after_prefix [] input = some input
after_prefix (c ∷ cs) [] = none
after_prefix (c ∷ cs) (x ∷ xs) =
    let rest : Option Bytes = after_prefix cs xs in if x == c then rest else none

-- The loop, so many rounds, with the characters passed; the string, or none where the loop ends
-- without one, and the input from the parse point on.
unfoldable pub consume_loop : ℕ → Bytes → Bytes → Bytes → Option Bytes × Bytes
unfolding after_prefix
consume_loop zero chars passed input = (none, input)
consume_loop (suc i) chars passed [] = (none, [])
consume_loop (suc i) chars passed (x ∷ xs) =
    let rest : Option Bytes × Bytes = consume_loop i chars (passed ++ (x ∷ [])) xs in
    elim (after_prefix chars (x ∷ xs)) [ some input ↦ (some passed, input) | none ↦ rest ]

abbrev pub limit : ℕ
limit = 16777215

abbrev pub or_empty : Option Bytes → Bytes
or_empty none = []
or_empty (some s) = s

-- The long string, empty where the characters are not found. The input ends at its zero byte.
unfoldable pub consume_string_until : Bytes → Bytes → Bytes × Bytes
unfolding consume_loop
consume_string_until chars input =
    (or_empty (consume_loop limit chars [] input).0, (consume_loop limit chars [] input).1)
