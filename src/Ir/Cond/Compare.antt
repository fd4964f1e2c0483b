-- ===== src/Ir/Cond/Compare.antt =====
-- carbonc/ir.cc: the code of a comparison that has been given a target.
use carbonlang.Prelude.{
  ℕ, ◌≡◌, refl, ap, ◌∙◌, inl, inr, Bool, true, false, not, Option, some, none, List, [], ◌∷◌, ◌++◌,
  append_assoc, arith, ◌==◌, if◌then◌else◌, length, Option-cases, Bool-cases,
}
use carbonlang.TypeId.{TypeId}
use carbonlang.Token
use carbonlang.Token.{TokenType, eqeq, neq, lteq, gteq}
use carbonlang.Ir.{IrOp, Label, ir_label, IrOperand, IrInstr}
use carbonlang.Ir.Cond.{
  NodeIr, Expr, binary, Gen, jump_op, emit, emit_operator, under_not, generate,
}
use carbonlang.Ir.Cond.Machine.{Rel, opposite, Target, Frame, read, jump_rel, run}
use carbonlang.Ir.Cond.Values.{
  IsValue, eval_value, with_code, operands_of, generate_value, generate-GeneratesValue,
}

-- The relation that a comparison operator stands for.
unfoldable pub rel_of : TokenType → Option Rel
rel_of (Token.chr c) = if c == b'<' then some Rel.lt else if c == b'>' then some Rel.gt else none
rel_of eqeq = some Rel.eq
rel_of neq = some Rel.neq
rel_of lteq = some Rel.lteq
rel_of gteq = some Rel.gteq
rel_of _ = none

abbrev directed : Bool → Rel → Rel
directed invert r = if invert then opposite r else r

-- The jump that is chosen makes the comparison, or the opposite one.
JumpsAs : Option IrOp → Option Rel → Bool → Type 0
JumpsAs none none b = Unit
JumpsAs (some o) (some r) b = jump_rel o ≡ some (directed b r)
JumpsAs _ _ b = ⊥

jump_op-JumpsAs : (op : TokenType) (b : Bool) → JumpsAs (jump_op op b) (rel_of op) b
unfolding JumpsAs jump_op rel_of jump_rel
jump_op-JumpsAs (Token.chr c) true = ground arith
jump_op-JumpsAs (Token.chr c) false = ground arith
jump_op-JumpsAs eqeq b = ground arith
jump_op-JumpsAs _ b = ground arith

abbrev IsSome : {A : Type 0} → Option A → Type 0
IsSome none = ⊥
IsSome (some a) = Unit

cmp-rel : (op : TokenType) → Token.is_cmp_binary_op op ≡ true → IsSome (rel_of op)
unfolding Token.is_cmp_binary_op rel_of
cmp-rel (Token.chr c) h = ground arith
cmp-rel eqeq h = tt
cmp-rel _ h = ground arith

pub cmp-not_logic :
    (op : TokenType) → Token.is_cmp_binary_op op ≡ true → Token.is_logic_binary_op op ≡ false
unfolding Token.is_cmp_binary_op Token.is_logic_binary_op
cmp-not_logic (Token.chr c) h = refl
cmp-not_logic eqeq h = refl
cmp-not_logic _ h = ground arith

jump_cases :
    (op : TokenType) (b : Bool)
    → Token.is_cmp_binary_op op ≡ true
    → (r : Rel) × (o : IrOp) × (rel_of op ≡ some r)
      × (jump_op op b ≡ some o)
      × (jump_rel o ≡ some (directed b r))
unfolding JumpsAs
jump_cases op b h = elim (Option-cases (rel_of op)) [
  | inl missing ↦ absurd (rw missing at (cmp-rel op h))
  | inr (r, e) ↦ elim (Option-cases (jump_op op b)) [
    | inl missing ↦ absurd (rw (missing, e) at (jump_op-JumpsAs op b))
    | inr (o, j) ↦ (r, o, e, j, rw (j, e) at (jump_op-JumpsAs op b))
  ]
]

-- A comparison of integer expressions, to which nothing jumps yet.
abbrev pub IsComparison : Expr → Type 0
IsComparison (binary id ir op t l r) =
    (Token.is_cmp_binary_op op ≡ true) × (ir.bin_self_label ≡ none) × IsValue l × IsValue r
IsComparison _ = ⊥

under_not_targeted :
    (n : Bool) (ir : NodeIr) (op : TokenType) (label : Label)
    → ir.bin_target_label ≡ some label
    → under_not n ir op ≡ ir
unfolding under_not
under_not_targeted true ir op label target = rw target refl
under_not_targeted false ir op label target = refl

-- The operator's code, with a target.
emit_compare :
    (ir : NodeIr) (n : Bool) (op : TokenType) (t : TypeId) (a b : IrOperand) (g : Gen)
    (label : Label) (o : IrOp)
    → Token.is_cmp_binary_op op ≡ true
    → ir.bin_target_label ≡ some label
    → jump_op op ir.bin_invert_jump ≡ some o
    → emit_operator (under_not n ir op) op t a b g ≡ emit o (a ∷ b ∷ ir_label label ∷ []) g
unfolding emit_operator
emit_compare ir n op t a b g label o h target e =
    ap (λ i. emit_operator i op t a b g) (under_not_targeted n ir op label target)
    ∙ rw (h, target, e) refl

module _ (m : Target) where
  open m use {Value, holds}

  -- The truth of a comparison of two values.
  unfoldable pub compare_values : TokenType → Value → Value → Bool
  unfolding rel_of
  compare_values op a b = elim (rel_of op) [ some r ↦ holds r a b | none ↦ false ]

  holds-directed :
      (op : TokenType) (rel : Rel) (b : Bool) (va vb : Value)
      → rel_of op ≡ some rel
      → holds (directed b rel) va vb
        ≡ (if b then not (compare_values op va vb) else compare_values op va vb)
  unfolding compare_values
  holds-directed op rel true va vb e =
      m.holds-opposite rel va vb ∙ ap not (rw (compare_values, e) refl)
  holds-directed op rel false va vb e = rw (compare_values, e) refl

  -- Code that evaluates a condition and leaves the operand stack as it was.
  pub record GeneratesJump (n : Bool) (e : Expr) (value : Frame m → Bool) (label : Label) (g : Gen)
      : Type 0 where
    pub code : List IrInstr
    pub generates : generate n e g ≡ some (with_code m g code)
    pub runs :
        (f : Frame m) (k : List IrInstr) (s : List Value)
        → run m f none (code ++ k) s ≡ run m f (if value f then some label else none) k s
    pub skips :
        (f : Frame m) (j : Label) (k : List IrInstr) (s : List Value)
        → run m f (some j) (code ++ k) s ≡ run m f (some j) k s

  run_jump :
      (f : Frame m) (o : IrOp) (r : Rel) (t : TypeId) (n : ℕ) (a b : IrOperand) (label : Label)
      (k : List IrInstr) (s s₁ s₂ : List Value) (va vb : Value)
      → jump_rel o ≡ some r
      → read m f b s ≡ some (vb, s₁)
      → read m f a s₁ ≡ some (va, s₂)
      → run m f none
          (record { op = o; result_type = t; operands = a ∷ b ∷ ir_label label ∷ []; index = n }
            ∷ k)
          s
        ≡ run m f (if holds r va vb then some label else none) k s₂
  unfolding run
  run_jump f o r t n a b label k s s₁ s₂ va vb e hb ha = elim (Bool-cases (holds r va vb)) [
    | inl yes' ↦ rw (run, e, hb, ha, yes') refl
    | inr no' ↦ rw (run, e, hb, ha, no') refl
  ]

  -- The generator succeeds on a comparison of arithmetic operands that has a target, right under `!`
  -- or not; the code jumps there if the comparison holds, or if it fails where the jump is
  -- inverted, and otherwise goes on, with the operand stack as it was.
  pub compare-GeneratesJump :
      (n : Bool) (id : ℕ) (ir : NodeIr) (op : TokenType) (t : TypeId) (l r : Expr) (label : Label)
      (g : Gen)
      → IsComparison (binary id ir op t l r)
      → ir.bin_target_label ≡ some label
      → GeneratesJump n
          (binary id ir op t l r)
          (λ f.
            let v = compare_values op (eval_value m f l) (eval_value m f r) in
            if ir.bin_invert_jump then not v else v)
          label
          g
  compare-GeneratesJump n id ir op t l r label g (cmp, unlabelled, hl, hr) target =
      let v =
        operands_of m l r g (generate-GeneratesValue m false l g hl)
          (λ g'. generate-GeneratesValue m false r g' hr) in
      let (rel, o, er, eo, ej) = jump_cases op ir.bin_invert_jump cmp in
      let instr : IrInstr = record {
        op = o;
        result_type = record { scope = none; type_index = none };
        operands = v.left ∷ v.right ∷ ir_label label ∷ [];
        index = length (g.instrs ++ v.code);
      } in
      record {
        code = v.code ++ instr ∷ [];
        generates =
            generate_value m n id ir op t l r g unlabelled (cmp-not_logic op cmp) v
            ∙ ap some
                (emit_compare ir n op t v.left v.right (with_code m g v.code) label o cmp target eo)
            ∙ ap (λ c. some (record { operand_stack = g.operand_stack; instrs = c }))
                (append_assoc g.instrs v.code (instr ∷ []));
        runs = λ f k s.
            rw (append_assoc, v.runs)
              (run_jump f o _ _ _ v.left v.right label k _ _ s _ _ ej (v.reads_right f s)
                  (v.reads_left f s)
                ∙ ap (λ b. run m f (if b then some label else none) k s)
                    (holds-directed op rel ir.bin_invert_jump (eval_value m f l) (eval_value m f r)
                      er));
        skips = λ f j k s. rw (append_assoc, v.skips) (unfold run in refl);
      }
