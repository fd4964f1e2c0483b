-- ===== src/Parser/Binary/Complete.antt =====
-- `parse_binary_expr` of carbonc/parser.cc reads whatever the grammar of Grammar.antt holds.
use mathlib.Core.Logic.{◌↔◌}
use carbonlang.Prelude.{
  ℕ, zero, suc, ◌+◌, ◌*◌, ◌≤◌, ◌<◌, ◌≡◌, refl, subst, true, false, length, arith, Bool-cases, inl,
  inr,
}
use carbonlang.Token.{TokenType, is_binary_op, precedence}
use carbonlang.Token.Operators.{is_right_assoc-false}
use carbonlang.Parser.{
  Tokens, Node, binary_expr, ok, Parser, tok, next, Ensures, Ensures-ok, Ensures-bind, Ensures-self,
  Ensures-map, Shrinks,
}
use carbonlang.Parser.Binary.{
  continues, extends_rhs, binds_tighter, is_unfinished, parse_binary_expr, parse_rhs,
  parse_operators,
}
use carbonlang.Parser.Binary.Grammar.{
  Chain, operand, joined, continues-binary, extends-tighter, length-next, parse_binary_expr-Ensures,
}

-- The runs of the two loops, without fuel.
mutual
  data Outer (p : Parser Node) : ℕ → Node → Tokens → Node × Tokens → Type 0 where
    stop :
        {m : ℕ} {lhs : Node} {mid : Tokens}
        → continues m (tok mid) ≡ false
        → Outer p m lhs mid (lhs, mid)
    step :
        {m : ℕ} {lhs rhs r : Node} {mid ts₁ ts₂ : Tokens} {end : Node × Tokens}
        → continues m (tok mid) ≡ true
        → is_unfinished (tok (next mid)) ≡ false
        → p (next mid) ≡ ok (rhs, ts₁)
        → Inner p (tok mid) rhs ts₁ (r, ts₂)
        → Outer p m (binary_expr (tok mid) lhs r) ts₂ end
        → Outer p m lhs mid end

  data Inner (p : Parser Node) : TokenType → Node → Tokens → Node × Tokens → Type 0 where
    finish :
        {op : TokenType} {rhs : Node} {mid : Tokens}
        → extends_rhs op (tok mid) ≡ false
        → Inner p op rhs mid (rhs, mid)
    extend :
        {op : TokenType} {rhs r : Node} {mid ts₁ : Tokens} {end : Node × Tokens}
        → extends_rhs op (tok mid) ≡ true
        → Outer p (precedence (tok mid)) rhs mid (r, ts₁)
        → Inner p op r ts₁ end
        → Inner p op rhs mid end

-- The next operator, if there is one, binds no tighter.
abbrev Stops : ℕ → Tokens → Type 0
Stops q rest = is_binary_op (tok rest) ≡ true → precedence (tok rest) ≤ q

continues-true :
    (m : ℕ) (t : TokenType) → is_binary_op t ≡ true → m ≤ precedence t → continues m t ≡ true
unfolding continues
continues-true m t b h = ground arith

extends-true :
    (op t : TokenType)
    → is_binary_op t ≡ true
    → precedence op < precedence t
    → extends_rhs op t ≡ true
unfolding extends_rhs binds_tighter
extends-true op t b h = ground arith

extends-Stops :
    (op : TokenType) (rest : Tokens)
    → Stops (precedence op) rest
    → extends_rhs op (tok rest) ≡ false
unfolding extends_rhs binds_tighter
extends-Stops op rest h = ground (arith, is_right_assoc-false (tok rest))

continues-Stops : (m : ℕ) (rest : Tokens) → continues m (tok rest) ≡ false → Stops m rest
unfolding continues
continues-Stops m rest h b = ground arith

module _ (p : Parser Node) where
  Inner-again :
      {op : TokenType} {l : Node} {rest : Tokens} {end : Node × Tokens} (q : ℕ)
      → extends_rhs op (tok rest) ≡ true
      → precedence (tok rest) ≡ q
      → Inner p op l rest end
      → (r : Node) × (ts : Tokens) × Outer p q l rest (r, ts) × Inner p op r ts end
  Inner-again q c e (finish c') = absurd (cc)
  Inner-again {l = l} {rest} q c e (extend {r = r} {ts₁ = ts₁} c' o i) =
      (r, ts₁, subst (λ k. Outer p k l rest (r, ts₁)) e o, i)

  -- Where the outer loop of an operator's own level would go on, the inner one has done so.
  Inner-resume :
      {op : TokenType} {l : Node} {rest : Tokens} {end : Node × Tokens} (q : ℕ)
      → precedence op < q
      → Stops q rest
      → Inner p op l rest end
      → (r : Node) × (ts : Tokens) × Outer p q l rest (r, ts) × Inner p op r ts end
  Inner-resume {op} {l} {rest} q g h i = elim (Bool-cases (continues q (tok rest))) [
    | inr c ↦ (l, rest, stop c, i)
    | inl c ↦
        let (b, k) = continues-binary q (tok rest) c in
        Inner-again q (extends-true op (tok rest) b (omega (arith, h b))) (omega (arith, h b)) i
  ]

  -- From its first operand both loops come to the whole of an expression.
  Reaches : ℕ → Tokens → Node → Tokens → Type 0
  Reaches k ts t rest =
      (u : Node) × (ts₁ : Tokens) × (p ts ≡ ok (u, ts₁))
      × ((m : ℕ) (end : Node × Tokens) → m ≤ k → Outer p m t rest end → Outer p m u ts₁ end)
      × ((op : TokenType) (end : Node × Tokens)
          → precedence op < k
          → Inner p op t rest end
          → Inner p op u ts₁ end)

  Chain-Reaches :
      {k : ℕ} {ts : Tokens} {t : Node} {rest : Tokens}
      → Chain p k ts t rest
      → Stops k rest
      → Reaches k ts t rest
  unfolding Reaches
  Chain-Reaches {t = t} {rest} (operand e) h = (t, rest, e, λ m end g o. o, λ op end g i. i)
  Chain-Reaches {k} {rest = rest} (joined {l = l} {mid} {r} b g n c d) h =
      let (u, ts₁, e, o, i) = Chain-Reaches c λ _. omega arith in
      let (u', ts', e', _, i') = Chain-Reaches d λ b'. omega (arith, h b') in
      let rhs : Inner p (tok mid) u' ts' (r, rest) =
        i' (tok mid) (r, rest) (omega arith)
          (finish (extends-Stops (tok mid) rest λ b'. omega (arith, h b'))) in
      let join : (m : ℕ) (end : Node × Tokens)
          → m ≤ precedence (tok mid)
          → Outer p m (binary_expr (tok mid) l r) rest end
          → Outer p m u ts₁ end =
        λ m end g' w. o m end g' (step (continues-true m (tok mid) b g') n e' rhs w) in
      (
        u,
        ts₁,
        e,
        λ m end g' w. join m end (omega arith) w,
        λ op end g' w.
            let (r', ts'', v, w') =
              Inner-resume (precedence (tok mid)) (omega arith) (λ b'. omega (arith, h b')) w in
            i op end (omega arith) (
              extend (extends-true op (tok mid) b (omega arith))
                (step (continues-true (precedence (tok mid)) (tok mid) b (omega arith)) n e' rhs v)
                w'),
      )

  module _ (n : ℕ) (p-Ensures : (ts : Tokens) → length ts < n → Ensures (Shrinks ts) (p ts)) where
    mutual
      unfolding parse_binary_expr

      Outer-parse :
          (f m : ℕ) (lhs : Node) (mid : Tokens) (end : Node × Tokens)
          → 2 * length mid + 1 ≤ f
          → length mid ≤ n
          → Outer p m lhs mid end
          → (parse_binary_expr p f m lhs mid ≡ ok end)
            × (length end.1 ≤ length mid)
            × (continues m (tok mid) ≡ true → length end.1 < length mid)
      Outer-parse zero m lhs mid end h hn o = absurd (omega arith)
      Outer-parse (suc f) m lhs mid _ h hn (stop c) = (rw c refl, omega arith, λ c'. cc)
      Outer-parse (suc f) m lhs mid end h hn (step {rhs = rhs} {r} {ts₁ = ts₁} {ts₂} c u e i o) =
          let d : length (next mid) < length mid =
            length-next mid (continues-binary m (tok mid) c).0 in
          let d₁ : length ts₁ ≤ length (next mid) =
            Ensures-ok (p-Ensures (next mid) (omega arith)) e in
          let (e₂, d₂) = Inner-parse f (tok mid) rhs ts₁ (r, ts₂) (omega arith) (omega arith) i in
          let (e₃, d₃, _) =
            Outer-parse f m (binary_expr (tok mid) lhs r) ts₂ end (omega arith) (omega arith) o in
          (rw (c, u, e, e₂, e₃) refl, omega arith, λ _. omega arith)

      Inner-parse :
          (f : ℕ) (op : TokenType) (rhs : Node) (mid : Tokens) (end : Node × Tokens)
          → 2 * length mid + 2 ≤ f
          → length mid ≤ n
          → Inner p op rhs mid end
          → (parse_rhs p f op rhs mid ≡ ok end) × (length end.1 ≤ length mid)
      Inner-parse zero op rhs mid end h hn i = absurd (omega arith)
      Inner-parse (suc f) op rhs mid _ h hn (finish c) = (rw c refl, omega arith)
      Inner-parse (suc f) op rhs mid end h hn (extend {r = r} {ts₁} c o i) =
          let (b, g, c₁) = extends-tighter op (tok mid) c in
          let (e₂, d₂, d₃) =
            Outer-parse f (precedence (tok mid)) rhs mid (r, ts₁) (omega arith) hn o in
          let d : length ts₁ < length mid = d₃ c₁ in
          let (e₄, d₄) = Inner-parse f op r ts₁ end (omega arith) (omega arith) i in
          (rw (c, e₂, e₄) refl, omega arith)

  module _ (n : ℕ) (p-Ensures : (ts : Tokens) → length ts ≤ n → Ensures (Shrinks ts) (p ts)) where
    smaller : (ts : Tokens) → length ts < n → Ensures (Shrinks ts) (p ts)
    smaller ts h = p-Ensures ts (omega arith)

    pub parse_operators-Ensures :
        (f m : ℕ) (ts : Tokens)
        → 2 * n + 1 ≤ f
        → length ts ≤ n
        → Ensures
            (λ (t, rest).
              Chain p m ts t rest × (continues m (tok rest) ≡ false) × (length rest ≤ length ts))
            (parse_operators p f m ts)
    unfolding parse_operators
    parse_operators-Ensures f m ts h hn =
        Ensures-bind (Ensures-self (p-Ensures ts hn)) λ (lhs, ts₁) (d, e).
          Ensures-map (λ (t, rest) (s, c, d', _). (s.0, c, omega arith))
            (parse_binary_expr-Ensures n smaller f m ts lhs ts₁ (omega arith) (omega arith)
              (operand e, λ _. operand e))

    Chain-parse_operators :
        (f m : ℕ) (ts : Tokens) (t : Node) (rest : Tokens)
        → 2 * n + 1 ≤ f
        → length ts ≤ n
        → Chain p m ts t rest
        → continues m (tok rest) ≡ false
        → parse_operators p f m ts ≡ ok (t, rest)
    unfolding parse_operators Reaches
    Chain-parse_operators f m ts t rest h hn w c =
        let (u, ts₁, e, o, _) = Chain-Reaches w (continues-Stops m rest c) in
        let d : length ts₁ ≤ length ts = Ensures-ok (p-Ensures ts hn) e in
        let (e', _, _) =
          Outer-parse n smaller f m u ts₁ (t, rest) (omega arith) (omega arith)
            (o m (t, rest) (omega arith) (stop c)) in
        rw (e, e') refl

    -- Let a reader of operands, on every input up to a length, keep to its fuel and leave no more than
    -- it was given, and let the fuel be above twice that length. On such an input the climbing of
    -- precedences returns a tree exactly when the grammar of left-associative operators derives it
    -- from the tokens read and the next token is no operator of the level.
    pub parse_operators-Chain :
        (f m : ℕ) (ts : Tokens) (t : Node) (rest : Tokens)
        → 2 * n + 1 ≤ f
        → length ts ≤ n
        → (parse_operators p f m ts ≡ ok (t, rest))
          ↔ (Chain p m ts t rest × (continues m (tok rest) ≡ false))
    parse_operators-Chain f m ts t rest h hn = (
      (λ e. let (w, c, _) = Ensures-ok (parse_operators-Ensures f m ts h hn) e in (w, c)),
      λ (w, c). Chain-parse_operators f m ts t rest h hn w c,
    )
