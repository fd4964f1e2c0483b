-- ===== src/Tests/Lexing.antt =====
-- The lexer of carbonc/lexer.cc on concrete text.
use carbonlang.Prelude.{◌≡◌, ◌⊎◌, [], ◌∷◌, ◌++◌, Bytes, codes, All, arith}
use carbonlang.Token.{identifier}
use carbonlang.Lexer.{transform_c_lexer_identifier, consume_string_until}
use carbonlang.Lexer.Keywords.{all_keywords, Among, transform_c_lexer_identifier-Among}
use carbonlang.Lexer.LongString.{IsAbsent, consume_string_until-IsAbsent}

transform_c_lexer_identifier-Among_example :
    All (λ (text, t). transform_c_lexer_identifier text ≡ t) all_keywords
    × ((transform_c_lexer_identifier (codes "continue") ≡ identifier)
        ⊎ Among (codes "continue", transform_c_lexer_identifier (codes "continue")) all_keywords)
transform_c_lexer_identifier-Among_example = transform_c_lexer_identifier-Among (codes "continue")

-- The end of an `asm` statement.
abbrev asm_end : Bytes
asm_end = codes "%asm"

consume_string_until-IsAbsent_example :
    (IsAbsent (b'}' ∷ asm_end) (codes "ret") ((b'}' ∷ asm_end) ++ codes ";")
      → consume_string_until (b'}' ∷ asm_end) (codes "ret" ++ ((b'}' ∷ asm_end) ++ codes ";"))
        ≡ (codes "ret", codes ";"))
    × (IsAbsent (b'}' ∷ asm_end) (codes "ret") []
        → consume_string_until (b'}' ∷ asm_end) (codes "ret") ≡ ([], []))
consume_string_until-IsAbsent_example =
    consume_string_until-IsAbsent b'}' asm_end (codes "ret") (codes ";") (omega arith)
