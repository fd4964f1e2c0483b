-- ===== src/Parser/Binary/Grammar.antt =====
-- `parse_binary_expr` of carbonc/parser.cc against a grammar of left-associative operators.
use carbonlang.Prelude.{ℕ, zero, suc, ◌+◌, ◌*◌, ◌≤◌, ◌<◌, ◌≡◌, true, false, [], ◌∷◌, length, arith}
use carbonlang.Token.{TokenType, is_binary_op, precedence}
use carbonlang.Token.Operators.{is_right_assoc-false}
use carbonlang.Parser.{
  Tokens, Node, binary_expr, ok, Parser, tok, next, Ensures, returned, thrown, Ensures-if,
  Ensures-bind, Ensures-self, Ensures-map, Shrinks,
}
use carbonlang.Parser.Binary.{
  continues, extends_rhs, binds_tighter, is_unfinished, parse_binary_expr, parse_rhs,
}

-- The expressions of a level: an operand, or two expressions joined by an operator at least as
-- tight as the level, the left one of the operator's own level and the right one of a tighter one. The
-- operator has its right operand on the same line.
pub data Chain (p : Parser Node) : ℕ → Tokens → Node → Tokens → Type 0 where
  operand :
      {m : ℕ} {ts : Tokens} {t : Node} {rest : Tokens} → p ts ≡ ok (t, rest) → Chain p m ts t rest
  joined :
      {m : ℕ} {ts : Tokens} {l : Node} {mid : Tokens} {r : Node} {rest : Tokens}
      → is_binary_op (tok mid) ≡ true
      → m ≤ precedence (tok mid)
      → is_unfinished (tok (next mid)) ≡ false
      → Chain p (precedence (tok mid)) ts l mid
      → Chain p (suc (precedence (tok mid))) (next mid) r rest
      → Chain p m ts (binary_expr (tok mid) l r) rest

pub continues-binary :
    (m : ℕ) (t : TokenType) → continues m t ≡ true → (is_binary_op t ≡ true) × (m ≤ precedence t)
unfolding continues
continues-binary m t h = ground arith

pub extends-tighter :
    (op t : TokenType)
    → extends_rhs op t ≡ true
    → (is_binary_op t ≡ true)
      × (suc (precedence op) ≤ precedence t)
      × (continues (precedence t) t ≡ true)
unfolding continues extends_rhs binds_tighter
extends-tighter op t h = ground (arith, is_right_assoc-false t)

pub extends-false :
    (op t : TokenType)
    → extends_rhs op t ≡ false
    → is_binary_op t ≡ true
    → precedence t ≤ precedence op
unfolding extends_rhs binds_tighter
extends-false op t h b = ground (arith, is_right_assoc-false t)

pub length-next : (ts : Tokens) → is_binary_op (tok ts) ≡ true → length (next ts) < length ts
unfolding tok next is_binary_op
length-next [] h = ground arith
length-next (t ∷ ts) h = omega arith

module _ (p : Parser Node) where
  -- An expression of a level, before an operator that may take it as its left operand.
  abbrev pub State : ℕ → Tokens → Node → Tokens → Type 0
  State m ts t rest =
      Chain p m ts t rest
      × (is_binary_op (tok rest) ≡ true → Chain p (precedence (tok rest)) ts t rest)

  abbrev pub AfterOuter : ℕ → Tokens → Tokens → Node × Tokens → Type 0
  AfterOuter m ts mid (t, rest) =
      State m ts t rest
      × (continues m (tok rest) ≡ false)
      × (length rest ≤ length mid)
      × (continues m (tok mid) ≡ true → length rest < length mid)

  abbrev pub AfterInner : TokenType → Tokens → Tokens → Node × Tokens → Type 0
  AfterInner op ts mid (r, rest) =
      State (suc (precedence op)) ts r rest
      × (extends_rhs op (tok rest) ≡ false)
      × (length rest ≤ length mid)

module _ {p : Parser Node} where
  Chain-weaken :
      {k m : ℕ} {ts : Tokens} {t : Node} {rest : Tokens}
      → m ≤ k
      → Chain p k ts t rest
      → Chain p m ts t rest
  Chain-weaken h (operand e) = operand e
  Chain-weaken h (joined b g u l r) = joined b (omega arith) u l r

  State-joined :
      {m : ℕ} {ts : Tokens} {l : Node} {mid : Tokens} {r : Node} {rest : Tokens}
      → State p m ts l mid
      → continues m (tok mid) ≡ true
      → is_unfinished (tok (next mid)) ≡ false
      → State p (suc (precedence (tok mid))) (next mid) r rest
      → extends_rhs (tok mid) (tok rest) ≡ false
      → State p m ts (binary_expr (tok mid) l r) rest
  State-joined {m} {mid = mid} {rest = rest} (_, l) c u (r, _) e =
      let (b, g) = continues-binary m (tok mid) c in
      (joined b g u (l b) r, λ b'. joined b (extends-false (tok mid) (tok rest) e b') u (l b) r)

  module _ (n : ℕ) (p-Ensures : (ts : Tokens) → length ts < n → Ensures (Shrinks ts) (p ts)) where
    mutual
      unfolding parse_binary_expr

      pub parse_binary_expr-Ensures :
          (f m : ℕ) (ts : Tokens) (lhs : Node) (mid : Tokens)
          → 2 * length mid + 1 ≤ f
          → length mid ≤ n
          → State p m ts lhs mid
          → Ensures (AfterOuter p m ts mid) (parse_binary_expr p f m lhs mid)
      parse_binary_expr-Ensures zero m ts lhs mid h hn s = absurd (omega arith)
      parse_binary_expr-Ensures (suc f) m ts lhs mid h hn s =
          Ensures-if (continues m (tok mid))
            (λ c.
              Ensures-if (is_unfinished (tok (next mid))) (λ _. thrown)
                λ u.
                  let d : length (next mid) < length mid =
                    length-next mid (continues-binary m (tok mid) c).0 in
                  Ensures-bind (Ensures-self (p-Ensures (next mid) (omega arith)))
                    λ (rhs, ts₁) (l₁, e₁).
                      Ensures-bind
                        (parse_rhs-Ensures f (tok mid) (next mid) rhs ts₁ (omega arith)
                          (omega arith) (operand e₁, λ _. operand e₁))
                        λ (rhs', ts₂) (r, e₂, l₂).
                          Ensures-map
                            (λ (t, rest) (s', c', l', _). (s', c', omega arith, λ _. omega arith))
                            (parse_binary_expr-Ensures f m ts (binary_expr (tok mid) lhs rhs') ts₂
                              (omega arith) (omega arith) (State-joined s c u r e₂)))
            λ c. returned (s, c, omega arith, λ c'. cc)

      pub parse_rhs-Ensures :
          (f : ℕ) (op : TokenType) (ts : Tokens) (rhs : Node) (mid : Tokens)
          → 2 * length mid + 2 ≤ f
          → length mid ≤ n
          → State p (suc (precedence op)) ts rhs mid
          → Ensures (AfterInner p op ts mid) (parse_rhs p f op rhs mid)
      parse_rhs-Ensures zero op ts rhs mid h hn s = absurd (omega arith)
      parse_rhs-Ensures (suc f) op ts rhs mid h hn s =
          Ensures-if (extends_rhs op (tok mid))
            (λ c.
              let (b, g, c₁) = extends-tighter op (tok mid) c in
              Ensures-bind
                (parse_binary_expr-Ensures f (precedence (tok mid)) ts rhs mid (omega arith) hn
                  (s.1 b, s.1))
                λ (rhs', ts₁) ((w, w'), _, l₁, l₂).
                  let d : length ts₁ < length mid = l₂ c₁ in
                  Ensures-map (λ _ (s', e', l'). (s', e', omega arith))
                    (parse_rhs-Ensures f op ts rhs' ts₁ (omega arith) (omega arith)
                      (Chain-weaken g w, w')))
            λ c. returned (s, c, omega arith)
