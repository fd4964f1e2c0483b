-- ===== src/Ir/Cond/Values.antt =====
-- carbonc/ir.cc: the code of an arithmetic expression, and the operand that stands for its value.
use carbonlang.Prelude.{
  ℕ, ◌≡◌, refl, ap, ◌∙◌, Bool, true, false, Option, some, none, List, [], ◌∷◌, ◌++◌, append_assoc,
  append-nil, arith, inl, inr, Option-cases, length,
}
use carbonlang.Prelude.Int.{pos}
use carbonlang.TypeId.{TypeId}
use carbonlang.Token
use carbonlang.Token.{TokenType}
use carbonlang.Ir.{IrOp, Label, IrOperand, ir_int, ir_local, ir_arg, ir_stackpop, IrInstr}
use carbonlang.Ir.Cond.{
  NodeIr, Expr, int_literal, local_var, arg_var, binary, negation, minus, Gen, arith_op,
  emit_operator, under_not, emit_self_label, push, temit, generate,
}
use carbonlang.Ir.Cond.Machine.{Target, Frame, read, is_binary, run}

abbrev pub HasOp : Option IrOp → Type 0
HasOp none = ⊥
HasOp (some op) = Unit

-- An arithmetic operator: one that an instruction computes, and no comparison or logic operator.
pub record IsArith (op : TokenType) : Type 0 where
  pub has_op : HasOp (arith_op op)
  pub not_cmp : Token.is_cmp_binary_op op ≡ false
  pub not_logic : Token.is_logic_binary_op op ≡ false

-- An integer expression of literals, variables and arithmetic, to which nothing jumps.
abbrev pub IsValue : Expr → Type 0
IsValue (int_literal id v t) = Unit
IsValue (local_var id i t) = Unit
IsValue (arg_var id i t) = Unit
IsValue (binary id ir op t l r) = IsArith op × (ir.bin_self_label ≡ none) × IsValue l × IsValue r
IsValue (negation id ir e) = ⊥
IsValue (minus id t e) = IsValue e

-- What pops the stack counts as a value of its own.
abbrev pub extended : Gen → List IrInstr → IrOperand → Gen
extended g code o = record { operand_stack = o ∷ g.operand_stack; instrs = g.instrs ++ code }

IsBinaryOp : Option IrOp → Type 0
IsBinaryOp none = Unit
IsBinaryOp (some o) = is_binary o ≡ true

arith_op-is_binary : (op : TokenType) → IsBinaryOp (arith_op op)
unfolding IsBinaryOp arith_op is_binary
arith_op-is_binary (Token.chr c) = ground arith
arith_op-is_binary _ = ground arith

arith_op_cases :
    (op : TokenType) → IsArith op → (o : IrOp) × (arith_op op ≡ some o) × (is_binary o ≡ true)
arith_op_cases op h = elim (Option-cases (arith_op op)) [
  | inl missing ↦ absurd (rw missing at h.has_op)
  | inr (o, e) ↦ (o, e, unfold IsBinaryOp in (rw e at (arith_op-is_binary op)))
]

emit_arith :
    (ir : NodeIr) (op : TokenType) (t : TypeId) (a b : IrOperand) (g : Gen) (o : IrOp)
    → IsArith op
    → arith_op op ≡ some o
    → emit_operator ir op t a b g ≡ push (ir_stackpop t none) (temit o t (a ∷ b ∷ []) g)
unfolding emit_operator
emit_arith ir op t a b g o h e = rw (h.not_cmp, e) refl

module _ (m : Target) where
  open m use {Value, constant, compute, negate}

  apply_op : Option IrOp → Value → Value → Value
  apply_op none a b = constant (pos 0)
  apply_op (some op) a b = compute op a b

  -- The value of such an expression (`!` and comparisons have none).
  unfoldable pub eval_value : Frame m → Expr → Value
  unfolding apply_op
  eval_value f (int_literal id v t) = constant v
  eval_value f (local_var id i t) = f.locals i
  eval_value f (arg_var id i t) = f.args i
  eval_value f (binary id ir op t l r) = apply_op (arith_op op) (eval_value f l) (eval_value f r)
  eval_value f (negation id ir e) = constant (pos 0)
  eval_value f (minus id t e) = negate (eval_value f e)

  -- The generator succeeds, its code leaves `top` on the stack, the operand then reads as the
  -- value, and a pending jump passes over the code.
  pub record GeneratesValue (b : Bool) (e : Expr) (g : Gen) : Type (0) where
    pub code : List IrInstr
    pub operand : IrOperand
    pub top : Frame m → List Value
    pub generates : generate b e g ≡ some (extended g code operand)
    pub runs :
        (f : Frame m) (k : List IrInstr) (s : List Value)
        → run m f none (code ++ k) s ≡ run m f none k (top f ++ s)
    pub reads :
        (f : Frame m) (s : List Value) → read m f operand (top f ++ s) ≡ some (eval_value f e, s)
    pub skips :
        (f : Frame m) (l : Label) (k : List IrInstr) (s : List Value)
        → run m f (some l) (code ++ k) s ≡ run m f (some l) k s

  at_once :
      (b : Bool) (e : Expr) (g : Gen) (o : IrOperand)
      → generate b e g ≡ some (extended g [] o)
      → ((f : Frame m) (s : List Value) → read m f o s ≡ some (eval_value f e, s))
      → GeneratesValue b e g
  at_once b e g o h r = record {
    code = [];
    operand = o;
    top = λ f. [];
    generates = h;
    runs = λ f k s. refl;
    reads = r;
    skips = λ f l k s. refl;
  }

  minus_case :
      (b : Bool) (id : ℕ) (t : TypeId) (e : Expr) (g : Gen)
      → GeneratesValue false e g
      → GeneratesValue b (minus id t e) g
  unfolding generate eval_value run
  minus_case b id t e g v =
      let instr : IrInstr = record {
        op = IrOp.ir_neg;
        result_type = t;
        operands = v.operand ∷ [];
        index = length (g.instrs ++ v.code);
      } in
      record {
        code = v.code ++ instr ∷ [];
        operand = ir_stackpop t none;
        top = λ f. negate (eval_value f e) ∷ [];
        generates = rw v.generates (
            ap
              (λ c.
                some (record { operand_stack = ir_stackpop t none ∷ g.operand_stack; instrs = c }))
              (append_assoc g.instrs v.code (instr ∷ [])));
        runs = λ f k s. rw (append_assoc, v.runs, v.reads, run) refl;
        reads = λ f s. refl;
        skips = λ f l k s. rw (append_assoc, v.skips) refl;
      }

  -- The state with both operands taken off again.
  abbrev pub with_code : Gen → List IrInstr → Gen
  with_code g code = record { operand_stack = g.operand_stack; instrs = g.instrs ++ code }

  -- The operands of a binary node, as the generator has them when it comes to the operator.
  pub record HasOperands (l r : Expr) (g : Gen) : Type 0 where
    pub code : List IrInstr
    pub left : IrOperand
    pub right : IrOperand
    pub between : Frame m → List Value
    pub top : Frame m → List Value
    pub middle_code : List IrInstr
    pub generates_left : generate false l g ≡ some (extended g middle_code left)
    pub generates_right : generate false r (with_code g middle_code) ≡ some (extended g code right)
    pub runs :
        (f : Frame m) (k : List IrInstr) (s : List Value)
        → run m f none (code ++ k) s ≡ run m f none k (top f ++ s)
    pub reads_right :
        (f : Frame m) (s : List Value)
        → read m f right (top f ++ s) ≡ some (eval_value f r, between f ++ s)
    pub reads_left :
        (f : Frame m) (s : List Value) → read m f left (between f ++ s) ≡ some (eval_value f l, s)
    pub skips :
        (f : Frame m) (j : Label) (k : List IrInstr) (s : List Value)
        → run m f (some j) (code ++ k) s ≡ run m f (some j) k s

  pub operands_of :
      (l r : Expr) (g : Gen)
      → GeneratesValue false l g
      → ((g' : Gen) → GeneratesValue false r g')
      → HasOperands l r g
  operands_of l r g vl right =
      let middle = with_code g vl.code in
      let vr = right middle in
      record {
        code = vl.code ++ vr.code;
        left = vl.operand;
        right = vr.operand;
        between = vl.top;
        top = λ f. vr.top f ++ vl.top f;
        middle_code = vl.code;
        generates_left = vl.generates;
        generates_right =
            vr.generates
            ∙ ap (λ c. some (record { operand_stack = vr.operand ∷ g.operand_stack; instrs = c }))
                (append_assoc g.instrs vl.code vr.code);
        runs = λ f k s. rw (append_assoc, vl.runs, vr.runs, append_assoc) refl;
        reads_right = λ f s. rw (append_assoc, vr.reads) refl;
        reads_left = vl.reads;
        skips = λ f j k s. rw (append_assoc, vl.skips, vr.skips) refl;
      }

  -- With both operands generated, the operator's instructions are what is left.
  pub generate_value :
      (b : Bool) (id : ℕ) (ir : NodeIr) (op : TokenType) (t : TypeId) (l r : Expr) (g : Gen)
      → ir.bin_self_label ≡ none
      → Token.is_logic_binary_op op ≡ false
      → (v : HasOperands l r g)
      → generate b (binary id ir op t l r) g
        ≡ some (emit_operator (under_not b ir op) op t v.left v.right (with_code g v.code))
  unfolding generate emit_self_label
  generate_value b id ir op t l r g unlabelled plain v =
      rw (unlabelled, v.generates_left, v.generates_right, plain) refl

  run_two :
      (f : Frame m) (o : IrOp) (t : TypeId) (n : ℕ) (a b : IrOperand) (k : List IrInstr)
      (s s₁ s₂ : List Value) (va vb : Value)
      → read m f b s ≡ some (vb, s₁)
      → read m f a s₁ ≡ some (va, s₂)
      → is_binary o ≡ true
      → run m f none (record { op = o; result_type = t; operands = a ∷ b ∷ []; index = n } ∷ k) s
        ≡ run m f none k (compute o va vb ∷ s₂)
  unfolding run
  run_two f o t n a b k s s₁ s₂ va vb hb ha two = rw (run, hb, ha, two) refl

  -- The two operands, and the instruction that combines them.
  binary_case :
      (b : Bool) (id : ℕ) (ir : NodeIr) (op : TokenType) (t : TypeId) (l r : Expr) (g : Gen)
      → IsArith op
      → ir.bin_self_label ≡ none
      → HasOperands l r g
      → GeneratesValue b (binary id ir op t l r) g
  binary_case b id ir op t l r g is_arith unlabelled v =
      let (o, e, two) = arith_op_cases op is_arith in
      let operands = v.left ∷ v.right ∷ [] in
      let instr : IrInstr = record {
        op = o;
        result_type = t;
        operands = operands;
        index = length (g.instrs ++ v.code);
      } in
      record {
        code = v.code ++ instr ∷ [];
        operand = ir_stackpop t none;
        top = λ f. eval_value f (binary id ir op t l r) ∷ [];
        generates =
            generate_value b id ir op t l r g unlabelled is_arith.not_logic v
            ∙ ap some (
                emit_arith (under_not b ir op) op t v.left v.right (with_code g v.code) o is_arith
                  e)
            ∙ ap
                (λ c.
                  some
                    (record { operand_stack = ir_stackpop t none ∷ g.operand_stack; instrs = c }))
                (append_assoc g.instrs v.code (instr ∷ []));
        runs = λ f k s.
            rw (append_assoc, v.runs)
              (run_two f o t (length (g.instrs ++ v.code)) v.left v.right k _ _ s _ _
                  (v.reads_right f s) (v.reads_left f s) two
                ∙ ap (λ x. run m f none k (x ∷ s)) (unfold eval_value in rw e refl));
        reads = λ f s. refl;
        skips = λ f j k s. rw (append_assoc, v.skips) (unfold run in refl);
      }

  pub generate-GeneratesValue : (b : Bool) (e : Expr) (g : Gen) → IsValue e → GeneratesValue b e g
  unfolding generate eval_value
  generate-GeneratesValue b (int_literal id v t) g h =
      at_once b (int_literal id v t) g (ir_int v t) (rw append-nil) (λ f s. refl)
  generate-GeneratesValue b (local_var id i t) g h =
      at_once b (local_var id i t) g (ir_local i t) (rw append-nil) (λ f s. refl)
  generate-GeneratesValue b (arg_var id i t) g h =
      at_once b (arg_var id i t) g (ir_arg i t) (rw append-nil) (λ f s. refl)
  generate-GeneratesValue b (negation id ir e) g h = elim h [ ]
  generate-GeneratesValue b (minus id t e) g h =
      minus_case b id t e g (generate-GeneratesValue false e g h)
  generate-GeneratesValue b (binary id ir op t l r) g (is_arith, unlabelled, hl, hr) =
      binary_case b id ir op t l r g is_arith unlabelled (
        operands_of l r g (generate-GeneratesValue false l g hl)
          (λ g'. generate-GeneratesValue false r g' hr))
