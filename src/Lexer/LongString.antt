-- ===== src/Lexer/LongString.antt =====
-- The long strings of carbonc/lexer.cc.
use carbonlang.Prelude.{
  ℕ, zero, suc, ◌<◌, ◌≡◌, refl, subst, ap, some, none, [], ◌∷◌, ◌++◌, Bytes, append_assoc,
  append-nil, arith, length, ==_refl,
}
use carbonlang.Lexer.{after_prefix, or_empty, consume_loop, consume_string_until, limit}

after_prefix-append : (cs rest : Bytes) → after_prefix cs (cs ++ rest) ≡ some rest
unfolding after_prefix
after_prefix-append [] rest = refl
after_prefix-append (c ∷ cs) rest = rw (==_refl c, after_prefix-append cs rest) refl

-- The characters do not stand at any place of the first text, before the second one.
abbrev pub IsAbsent : Bytes → Bytes → Bytes → Type 0
IsAbsent chars [] rest = Unit
IsAbsent chars (x ∷ xs) rest = (after_prefix chars (x ∷ xs ++ rest) ≡ none) × IsAbsent chars xs rest

consume_loop-found :
    (i : ℕ) (c : ℕ) (cs passed before rest : Bytes)
    → length before < i
    → IsAbsent (c ∷ cs) before ((c ∷ cs) ++ rest)
    → consume_loop i (c ∷ cs) passed (before ++ ((c ∷ cs) ++ rest))
      ≡ (some (passed ++ before), rest)
unfolding consume_loop
consume_loop-found zero c cs passed before rest h a = absurd (omega arith)
consume_loop-found (suc i) c cs passed [] rest h a =
    rw (consume_loop, after_prefix-append (c ∷ cs) rest, append-nil passed) refl
consume_loop-found (suc i) c cs passed (x ∷ xs) rest h (a, b) =
    rw
      (
        consume_loop,
        a,
        consume_loop-found i c cs (passed ++ (x ∷ [])) xs rest (omega arith) b,
        append_assoc passed (x ∷ []) xs,
      )
      refl

consume_loop-missing :
    (i : ℕ) (chars passed input : Bytes)
    → length input < i
    → IsAbsent chars input []
    → consume_loop i chars passed input ≡ (none, [])
unfolding consume_loop
consume_loop-missing zero chars passed input h a = absurd (omega arith)
consume_loop-missing (suc i) chars passed [] h a = refl
consume_loop-missing (suc i) chars passed (x ∷ xs) h (a, b) =
    rw
      (
        consume_loop,
        subst (λ ys. after_prefix chars (x ∷ ys) ≡ none) (append-nil xs) a,
        consume_loop-missing i chars (passed ++ (x ∷ [])) xs (omega arith) b,
      )
      refl

-- The long string is what stands before the first occurrence of the characters, which are not empty,
-- and the input goes on behind them; where they do not occur the string is empty and the input is
-- used up. Either way the text to pass is shorter than the bound of the loop.
pub consume_string_until-IsAbsent :
    (c : ℕ) (cs before rest : Bytes)
    → length before < 16777215
    → (IsAbsent (c ∷ cs) before ((c ∷ cs) ++ rest)
        → consume_string_until (c ∷ cs) (before ++ ((c ∷ cs) ++ rest)) ≡ (before, rest))
      × (IsAbsent (c ∷ cs) before [] → consume_string_until (c ∷ cs) before ≡ ([], []))
unfolding consume_string_until
consume_string_until-IsAbsent c cs before rest h = (
  (λ a. ap (λ r. (or_empty r.0, r.1)) (consume_loop-found limit c cs [] before rest h a)),
  λ a. ap (λ r. (or_empty r.0, r.1)) (consume_loop-missing limit (c ∷ cs) [] before h a),
)
