-- ===== src/Ir/Cond/ShortCircuit.antt =====
-- carbonc/ir.cc: `distribute_bool_op_targets` and the generator together, on a whole condition.
use carbonlang.Prelude.{
  ℕ, ◌≡◌, refl, ap, sym, ◌∙◌, Bool, true, false, not, ◌&&◌, ◌||◌, some, none, List, [], ◌∷◌, ◌++◌,
  append_assoc, arith, ==_refl, if◌then◌else◌, length,
}
use carbonlang.TypeId.{TypeId}
use carbonlang.Token
use carbonlang.Token.{TokenType, andand, oror}
use carbonlang.Ir.{IrOp, Label, short, label_eq, ir_label, IrInstr}
use carbonlang.Ir.Cond.{
  NodeIr, Expr, binary, node_id, Gen, emit, emit_operator, emit_self_label, under_not, generate,
  set_bool_op_target, is_logic_binary_op, generate_label_for_short_circuit,
  distribute_bool_op_targets,
}
use carbonlang.Ir.Cond.Machine.{Target, Frame, run}
use carbonlang.Ir.Cond.Values.{with_code}
use carbonlang.Ir.Cond.Compare.{compare-GeneratesJump}
use carbonlang.Ir.Cond.Supported.{
  Avoids, IsPlainNode, IsSupported, comparison, not_comparison, and_comparison, or_comparison,
  and_and, and_or, targeted, distribute_comparison, distribute_not, distribute_and, distribute_or,
  distribute-IsPlainNode, eval_cond, eval_comparison,
}

short_refl : (n : ℕ) → label_eq (short n) (short n) ≡ true
unfolding label_eq
short_refl n = ==_refl n

abbrev pub made : Label → ℕ → IrInstr
made j n = record {
  op = IrOp.ir_make_label;
  result_type = record { scope = none; type_index = none };
  operands = ir_label j ∷ [];
  index = n;
}

pub labelled :
    (d : Expr) (n : ℕ) (g : Gen)
    → IsPlainNode d n
    → generate false (generate_label_for_short_circuit d) g
      ≡ generate false d (emit IrOp.ir_make_label (ir_label (short n) ∷ []) g)
unfolding generate generate_label_for_short_circuit emit_self_label emit_operator under_not
labelled (binary id ir op t l r) n g (e, plain) = rw (plain, e) refl
labelled _ n g h = elim h [ ]

module _ (m : Target) where
  open m use {Value}

  -- The code of a condition whose targets have been distributed, and what a run of it does. If
  -- the flag is set, the label for truth has to lead to where the code ends.
  pub record GeneratesCond (b : Bool) (e : Expr) (true_label false_label : Label) (g : Gen)
      : Type 0 where
    pub code : List IrInstr
    pub generates :
        generate false (distribute_bool_op_targets e true_label false_label) g
        ≡ some (with_code m g code)
    pub runs :
        (f : Frame m) (k : List IrInstr) (s : List Value)
        → (b ≡ true → run m f (some true_label) k s ≡ run m f none k s)
        → run m f none (code ++ k) s
          ≡ run m f (if eval_cond m f e then none else some false_label) k s
    pub skips :
        (f : Frame m) (j : Label) (k : List IrInstr) (s : List Value)
        → Avoids j e
        → run m f (some j) (code ++ k) s ≡ run m f (some j) k s

  pub unless :
      (f : Frame m) (v w : Bool) (j : Label) (k : List IrInstr) (s : List Value)
      → v ≡ w
      → run m f (if not v then some j else none) k s ≡ run m f (if w then none else some j) k s
  unless f v true j k s e = rw e refl
  unless f v false j k s e = rw e refl

  when_not :
      (f : Frame m) (v w : Bool) (j : Label) (k : List IrInstr) (s : List Value)
      → v ≡ w
      → run m f (if v then some j else none) k s ≡ run m f (if not w then none else some j) k s
  when_not f v true j k s e = rw e refl
  when_not f v false j k s e = rw e refl

  -- A logic node's code is that of its operands.
  pub generate_logic :
      (op : TokenType) (id : ℕ) (ir : NodeIr) (t : TypeId) (l r : Expr) (g : Gen)
      (cl cr : List IrInstr)
      → Token.is_logic_binary_op op ≡ true
      → ir.bin_self_label ≡ none
      → generate false l g ≡ some (with_code m g cl)
      → generate false r (with_code m g cl) ≡ some (with_code m (with_code m g cl) cr)
      → generate false (binary id ir op t l r) g ≡ some (with_code m g (cl ++ cr))
  unfolding generate emit_self_label
  generate_logic op id ir t l r g cl cr logic plain hl hr =
      rw (plain, hl, hr, logic)
        (ap (λ c. some (record { operand_stack = g.operand_stack; instrs = c }))
          (append_assoc g.instrs cl cr))

  -- Two operands one after the other: of `&&`, and of `||`.
  pub run_and :
      (f : Frame m) (cl cr k : List IrInstr) (s : List Value) (vl vr : Bool) (j : Label)
      → run m f none (cl ++ (cr ++ k)) s ≡ run m f (if vl then none else some j) (cr ++ k) s
      → run m f none (cr ++ k) s ≡ run m f (if vr then none else some j) k s
      → run m f (some j) (cr ++ k) s ≡ run m f (some j) k s
      → run m f none ((cl ++ cr) ++ k) s ≡ run m f (if vl && vr then none else some j) k s
  run_and f cl cr k s true vr j hl hr skip = rw (append_assoc, hl, hr) refl
  run_and f cl cr k s false vr j hl hr skip = rw (append_assoc, hl, skip) refl

  pub run_or :
      (f : Frame m) (cl cr k : List IrInstr) (s : List Value) (vl vr : Bool) (i j : Label)
      → run m f none (cl ++ (cr ++ k)) s ≡ run m f (if vl then some i else none) (cr ++ k) s
      → run m f none (cr ++ k) s ≡ run m f (if vr then none else some j) k s
      → run m f (some i) (cr ++ k) s ≡ run m f none k s
      → run m f none ((cl ++ cr) ++ k) s ≡ run m f (if vl || vr then none else some j) k s
  run_or f cl cr k s true vr i j hl hr skip = rw (append_assoc, hl, skip) refl
  run_or f cl cr k s false vr i j hl hr skip = rw (append_assoc, hl, hr) refl

  pub skip_two :
      (f : Frame m) (cl cr k : List IrInstr) (s : List Value) (j : Label)
      → run m f (some j) (cl ++ (cr ++ k)) s ≡ run m f (some j) (cr ++ k) s
      → run m f (some j) (cr ++ k) s ≡ run m f (some j) k s
      → run m f (some j) ((cl ++ cr) ++ k) s ≡ run m f (some j) k s
  skip_two f cl cr k s j hl hr = ap (λ c. run m f (some j) c s) (append_assoc cl cr k) ∙ hl ∙ hr

  pub enter_label :
      (f : Frame m) (j : Label) (n : ℕ) (k : List IrInstr) (s : List Value)
      → run m f none (made j n ∷ k) s ≡ run m f none k s
  unfolding run
  enter_label f j n k s = refl

  pub hit_label :
      (f : Frame m) (i n : ℕ) (k : List IrInstr) (s : List Value)
      → run m f (some (short i)) (made (short i) n ∷ k) s ≡ run m f none (made (short i) n ∷ k) s
  unfolding run
  hit_label f i n k s = rw (run, short_refl) refl

  pass_label :
      (f : Frame m) (i j : Label) (n : ℕ) (k : List IrInstr) (s : List Value)
      → label_eq i j ≡ false
      → run m f (some i) (made j n ∷ k) s ≡ run m f (some i) k s
  unfolding run
  pass_label f i j n k s e = rw (run, e) refl

  -- The right operand behind a label of its own.
  record LabelledRight (e : Expr) (true_label false_label : Label) (g : Gen) (code : List IrInstr)
      : Type 0 where
    index : ℕ
    generates :
        generate false
          (generate_label_for_short_circuit (distribute_bool_op_targets e true_label false_label))
          g
        ≡ some (with_code m g (made (short (node_id e)) index ∷ code))

  label_right :
      (e : Expr) (i j : Label) (g : Gen) (code : List IrInstr)
      → IsPlainNode e (node_id e)
      → generate false
          (distribute_bool_op_targets e i j)
          (emit IrOp.ir_make_label (ir_label (short (node_id e)) ∷ []) g)
        ≡ some (with_code m (emit IrOp.ir_make_label (ir_label (short (node_id e)) ∷ []) g) code)
      → LabelledRight e i j g code
  label_right e i j g code plain h = record {
    index = length g.instrs;
    generates =
        labelled (distribute_bool_op_targets e i j) (node_id e) g
          (distribute-IsPlainNode e (node_id e) i j plain)
        ∙ h
        ∙ ap (λ c. some (record { operand_stack = g.operand_stack; instrs = c }))
            (append_assoc g.instrs (made (short (node_id e)) (length g.instrs) ∷ []) code);
  }

  -- The generator succeeds on a supported condition, and its code falls through if the condition
  -- holds (as `&&`, `||` and `!` of its comparisons), and otherwise jumps to the label for its
  -- falsehood. The labels for truth and falsehood are none that a short circuit inside the
  -- condition uses; where the condition may also jump to the label for its truth, that label leads
  -- to where the code ends.
  pub generate-GeneratesCond :
      (b : Bool) (e : Expr) (true_label false_label : Label) (g : Gen)
      → IsSupported b e
      → Avoids true_label e
      → Avoids false_label e
      → GeneratesCond b e true_label false_label g
  unfolding Token.is_logic_binary_op generate eval_cond distribute_bool_op_targets
      set_bool_op_target is_logic_binary_op
  generate-GeneratesCond _ _ i j g (comparison b id ir op t l r h) ai aj =
      let c =
        compare-GeneratesJump m false id (targeted ir true j) op t l r j g (h.0, h.1, h.2, h.3)
          refl in
      record {
        code = c.code;
        generates =
            ap (λ d. generate false d g) (distribute_comparison id ir op t l r i j h.0)
            ∙ c.generates;
        runs = λ f k s _.
            c.runs f k s ∙ unless f _ _ j k s (sym (eval_comparison m f id ir op t l r h.0));
        skips = λ f j' k s _. c.skips f j' k s;
      }
  generate-GeneratesCond _ _ i j g (not_comparison b n ir' id ir op t l r h) ai aj =
      let c =
        compare-GeneratesJump m true id (targeted ir false j) op t l r j g (h.0, h.1, h.2, h.3)
          refl in
      record {
        code = c.code;
        generates =
            ap (λ d. generate false d g) (distribute_not n ir' id ir op t l r i j h.0)
            ∙ c.generates;
        runs = λ f k s _.
            c.runs f k s ∙ when_not f _ _ j k s (sym (eval_comparison m f id ir op t l r h.0));
        skips = λ f j' k s _. c.skips f j' k s;
      }
  generate-GeneratesCond _ _ i j g (and_comparison b n ir' t' id ir op t l r e' plain h s) ai aj =
      let c =
        compare-GeneratesJump m false id (targeted ir true j) op t l r j g (h.0, h.1, h.2, h.3)
          refl in
      let d = generate-GeneratesCond b e' i j (with_code m g c.code) s ai.2 aj.2 in
      record {
        code = c.code ++ d.code;
        generates =
            ap (λ x. generate false x g) (distribute_and n ir' t' id ir op t l r e' i j h.0)
            ∙ generate_logic andand n ir' t' (binary id (targeted ir true j) op t l r)
                (distribute_bool_op_targets e' i j) g c.code d.code refl plain c.generates
                d.generates;
        runs = λ f k s' end.
            run_and f c.code d.code k s' _ _ j
              (c.runs f (d.code ++ k) s'
                ∙ unless f _ _ j (d.code ++ k) s' (sym (eval_comparison m f id ir op t l r h.0)))
              (d.runs f k s' end) (d.skips f j k s' aj.2);
        skips = λ f j' k s' a.
            skip_two f c.code d.code k s' j' (c.skips f j' (d.code ++ k) s')
              (d.skips f j' k s' a.2);
      }
  generate-GeneratesCond _ _ i j g (or_comparison n ir' t' id ir op t l r e' plain h s) ai aj =
      let c =
        compare-GeneratesJump m false id (targeted ir false i) op t l r i g (h.0, h.1, h.2, h.3)
          refl in
      let d = generate-GeneratesCond true e' i j (with_code m g c.code) s ai.2 aj.2 in
      record {
        code = c.code ++ d.code;
        generates =
            ap (λ x. generate false x g) (distribute_or n ir' t' id ir op t l r e' i j h.0)
            ∙ generate_logic oror n ir' t' (binary id (targeted ir false i) op t l r)
                (distribute_bool_op_targets e' i j) g c.code d.code refl plain c.generates
                d.generates;
        runs = λ f k s' end.
            run_or f c.code d.code k s' _ _ i j
              (c.runs f (d.code ++ k) s'
                ∙ ap (λ v. run m f (if v then some i else none) (d.code ++ k) s')
                    (sym (eval_comparison m f id ir op t l r h.0)))
              (d.runs f k s' end) (d.skips f i k s' ai.2 ∙ end refl);
        skips = λ f j' k s' a.
            skip_two f c.code d.code k s' j' (c.skips f j' (d.code ++ k) s')
              (d.skips f j' k s' a.2);
      }
  generate-GeneratesCond _ _ i j g (and_and b n ir' t' id ir t l r e' plain sl s) ai aj =
      let c = generate-GeneratesCond false (binary id ir andand t l r) i j g sl ai.1 aj.1 in
      let d = generate-GeneratesCond b e' i j (with_code m g c.code) s ai.2 aj.2 in
      record {
        code = c.code ++ d.code;
        generates =
            generate_logic andand n ir' t'
              (set_bool_op_target (distribute_bool_op_targets (binary id ir andand t l r) i j) true
                j)
              (distribute_bool_op_targets e' i j) g c.code d.code refl plain c.generates
              d.generates;
        runs = λ f k s' end.
            run_and f c.code d.code k s' _ _ j (c.runs f (d.code ++ k) s' (λ h. ground arith))
              (d.runs f k s' end) (d.skips f j k s' aj.2);
        skips = λ f j' k s' a.
            skip_two f c.code d.code k s' j' (c.skips f j' (d.code ++ k) s' a.1)
              (d.skips f j' k s' a.2);
      }
  generate-GeneratesCond _ _ i j g (and_or b n ir' t' id ir t l r e' plain sl av pl s) ai aj =
      let right_label = short (node_id e') in
      let c = generate-GeneratesCond true (binary id ir oror t l r) right_label j g sl av aj.1 in
      let g₁ = with_code m g c.code in
      let d =
        generate-GeneratesCond b e' i j (emit IrOp.ir_make_label (ir_label right_label ∷ []) g₁) s
          ai.2 aj.2 in
      let right = label_right e' i j g₁ d.code pl d.generates in
      let cr = made right_label right.index ∷ d.code in
      record {
        code = c.code ++ cr;
        generates =
            generate_logic andand n ir' t'
              (set_bool_op_target
                (distribute_bool_op_targets (binary id ir oror t l r) right_label j) true j)
              (generate_label_for_short_circuit (distribute_bool_op_targets e' i j)) g c.code cr
              refl plain c.generates right.generates;
        runs = λ f k s' end.
            run_and f c.code cr k s' _ _ j
              (c.runs f (cr ++ k) s' (λ _. hit_label f (node_id e') right.index (d.code ++ k) s'))
              (enter_label f right_label right.index (d.code ++ k) s' ∙ d.runs f k s' end)
              (pass_label f j right_label right.index (d.code ++ k) s' aj.0
                ∙ d.skips f j k s' aj.2);
        skips = λ f j' k s' a.
            skip_two f c.code cr k s' j' (c.skips f j' (cr ++ k) s' a.1) (
              pass_label f j' right_label right.index (d.code ++ k) s' a.0 ∙ d.skips f j' k s' a.2);
      }
