-- ===== src/Ir/Cond/Miscompiled.antt =====
-- carbonc/ir.cc: `distribute_bool_op_targets` on a logic node that is the left operand of `||`.
use carbonlang.Prelude.{
  ℕ, ◌≡◌, refl, ap, sym, ◌∙◌, Bool, true, false, not, ◌&&◌, ◌||◌, Option, some, none, List, [], ◌∷◌,
  ◌++◌, append_assoc, if◌then◌else◌, length,
}
use carbonlang.TypeId.{TypeId}
use carbonlang.Token
use carbonlang.Token.{TokenType, andand, oror}
use carbonlang.Ir.{IrOp, Label, short, ir_label, IrInstr}
use carbonlang.Ir.Cond.{
  NodeIr, Expr, binary, Gen, emit, generate, set_bool_op_target, is_logic_binary_op, is_andand,
  generate_label_for_short_circuit, distribute_bool_op_targets,
}
use carbonlang.Ir.Cond.Machine.{Target, Frame, run}
use carbonlang.Ir.Cond.Values.{eval_value, with_code}
use carbonlang.Ir.Cond.Compare.{
  GeneratesJump, IsComparison, compare_values, compare-GeneratesJump, cmp-not_logic,
}
use carbonlang.Ir.Cond.Supported.{targeted, distribute_comparison, cmp-not_oror, cmp-not_andand}
use carbonlang.Ir.Cond.ShortCircuit.{
  generate_logic, run_and, run_or, skip_two, unless, labelled, made, hit_label, enter_label,
}

-- A comparison as a node.
pub record Comparison : Type 0 where
  pub id : ℕ
  pub ir : NodeIr
  pub op : TokenType
  pub t : TypeId
  pub l : Expr
  pub r : Expr
  pub is_comparison : IsComparison (binary id ir op t l r)

abbrev pub node : Comparison → Expr
node c = binary c.id c.ir c.op c.t c.l c.r

abbrev aimed : Comparison → Bool → Label → Expr
aimed c invert label = binary c.id (targeted c.ir invert label) c.op c.t c.l c.r

cmp : (c : Comparison) → Token.is_cmp_binary_op c.op ≡ true
cmp c = c.is_comparison.0

distribute_or_or :
    (n n' : ℕ) (ir ir' : NodeIr) (t t' : TypeId) (a b c : Comparison)
    (true_label false_label : Label)
    → distribute_bool_op_targets
        (binary n ir oror t (binary n' ir' oror t' (node a) (node b)) (node c))
        true_label
        false_label
      ≡ binary n ir oror t
          (binary n'
            (targeted ir' false true_label)
            oror
            t'
            (aimed a false true_label)
            (aimed b true false_label))
          (aimed c true false_label)
unfolding distribute_bool_op_targets set_bool_op_target is_logic_binary_op is_andand
distribute_or_or n n' ir ir' t t' a b c i j =
    rw
      (
        cmp-not_logic a.op (cmp a),
        cmp-not_andand a.id a.ir a.op a.t a.l a.r (cmp a),
        distribute_comparison b.id b.ir b.op b.t b.l b.r i j (cmp b),
        distribute_comparison c.id c.ir c.op c.t c.l c.r i j (cmp c),
      )
      refl

distribute_and_or :
    (n n' : ℕ) (ir ir' : NodeIr) (t t' : TypeId) (a b c : Comparison)
    (true_label false_label : Label)
    → distribute_bool_op_targets
        (binary n ir oror t (binary n' ir' andand t' (node a) (node b)) (node c))
        true_label
        false_label
      ≡ binary n ir oror t
          (binary n'
            (targeted ir' false true_label)
            andand
            t'
            (aimed a true (short c.id))
            (aimed b true (short c.id)))
          (generate_label_for_short_circuit (aimed c true false_label))
unfolding distribute_bool_op_targets set_bool_op_target is_logic_binary_op is_andand
distribute_and_or n n' ir ir' t t' a b c i j =
    rw
      (
        cmp-not_logic a.op (cmp a),
        cmp-not_oror a.id a.ir a.op a.t a.l a.r (cmp a),
        distribute_comparison b.id b.ir b.op b.t b.l b.r i (short c.id) (cmp b),
        distribute_comparison c.id c.ir c.op c.t c.l c.r i j (cmp c),
      )
      refl

module _ (m : Target) where
  open m use {Value}

  abbrev pub truth : Frame m → Comparison → Bool
  truth f c = compare_values m c.op (eval_value m f c.l) (eval_value m f c.r)

  -- Code that falls through exactly if the test holds, where the label for truth leads to its end.
  pub record GeneratesTest (e : Expr) (test : Frame m → Bool) (true_label false_label : Label)
      (g : Gen) : Type 0 where
    pub code : List IrInstr
    pub generates :
        generate false (distribute_bool_op_targets e true_label false_label) g
        ≡ some (with_code m g code)
    pub runs :
        (f : Frame m) (k : List IrInstr) (s : List Value)
        → run m f (some true_label) k s ≡ run m f none k s
        → run m f none (code ++ k) s ≡ run m f (if test f then none else some false_label) k s

  jump_of :
      (c : Comparison) (invert : Bool) (label : Label) (g : Gen)
      → GeneratesJump m false
          (aimed c invert label)
          (λ f. if invert then not (truth f c) else truth f c)
          label
          g
  jump_of c invert label g =
      compare-GeneratesJump m false c.id (targeted c.ir invert label) c.op c.t c.l c.r label g
        (c.is_comparison.0, c.is_comparison.1, c.is_comparison.2, c.is_comparison.3) refl

  reassociate :
      (g : Gen) (a b c : List IrInstr)
      → Path
          (Option Gen)
          (some (with_code m g ((a ++ b) ++ c)))
          (some (with_code m g (a ++ (b ++ c))))
  reassociate g a b c = ap (λ x. some (with_code m g x)) (append_assoc a b c)

  -- A disjunction of comparisons to the left of `||`, as in `a || b || c`, is compiled as
  -- `a || (b && c)`: if `a` fails, the code goes on only if both `b` and `c` hold, and else jumps
  -- to the label for falsehood. The label for truth leads to where the code ends, and no other
  -- pass has put a label on the two `||`.
  pub generate_or_or :
      (n n' : ℕ) (ir ir' : NodeIr) (t t' : TypeId) (a b c : Comparison)
      (true_label false_label : Label) (g : Gen)
      → ir.bin_self_label ≡ none
      → ir'.bin_self_label ≡ none
      → GeneratesTest
          (binary n ir oror t (binary n' ir' oror t' (node a) (node b)) (node c))
          (λ f. truth f a || (truth f b && truth f c))
          true_label
          false_label
          g
  unfolding Token.is_logic_binary_op
  generate_or_or n n' ir ir' t t' a b c i j g plain plain' =
      let ja = jump_of a false i g in
      let jb = jump_of b true j (with_code m g ja.code) in
      let g₁ = with_code m g (ja.code ++ jb.code) in
      let jc = jump_of c true j g₁ in
      record {
        code = ja.code ++ (jb.code ++ jc.code);
        generates =
            ap (λ d. generate false d g) (distribute_or_or n n' ir ir' t t' a b c i j)
            ∙ generate_logic m oror n ir t
                (binary n' (targeted ir' false i) oror t' (aimed a false i) (aimed b true j))
                (aimed c true j) g (ja.code ++ jb.code) jc.code refl plain
                (generate_logic m oror n' (targeted ir' false i) t' (aimed a false i)
                  (aimed b true j) g ja.code jb.code refl plain' ja.generates (jb.generates ∙ refl))
                jc.generates
            ∙ reassociate g ja.code jb.code jc.code;
        runs = λ f k s end.
            run_or m f ja.code (jb.code ++ jc.code) k s _ _ i j
              (ja.runs f ((jb.code ++ jc.code) ++ k) s)
              (run_and m f jb.code jc.code k s _ _ j
                (jb.runs f (jc.code ++ k) s ∙ unless m f _ _ j (jc.code ++ k) s refl)
                (jc.runs f k s ∙ unless m f _ _ j k s refl) (jc.skips f j k s))
              (skip_two m f jb.code jc.code k s i (jb.skips f i (jc.code ++ k) s) (jc.skips f i k s)
                ∙ end);
      }

  either_way :
      (f : Frame m) (v : Bool) (j : Label) (k : List IrInstr) (s : List Value)
      → run m f (some j) k s ≡ run m f none k s
      → run m f (if v then some j else none) k s ≡ run m f none k s
  either_way f true j k s e = e
  either_way f false j k s e = refl

  -- A conjunction of comparisons to the left of `||`, as in `a && b || c`, has no effect: the code
  -- goes on exactly if `c` holds, and else jumps to the label for falsehood. The label for truth
  -- leads to where the code ends, and no other pass has put a label on the two operators.
  pub generate_and_or :
      (n n' : ℕ) (ir ir' : NodeIr) (t t' : TypeId) (a b c : Comparison)
      (true_label false_label : Label) (g : Gen)
      → ir.bin_self_label ≡ none
      → ir'.bin_self_label ≡ none
      → GeneratesTest
          (binary n ir oror t (binary n' ir' andand t' (node a) (node b)) (node c))
          (λ f. truth f c)
          true_label
          false_label
          g
  unfolding Token.is_logic_binary_op
  generate_and_or n n' ir ir' t t' a b c i j g plain plain' =
      let here = short c.id in
      let ja = jump_of a true here g in
      let jb = jump_of b true here (with_code m g ja.code) in
      let g₁ = with_code m g (ja.code ++ jb.code) in
      let jc = jump_of c true j (emit IrOp.ir_make_label (ir_label here ∷ []) g₁) in
      let mark = made here (length g₁.instrs) in
      record {
        code = (ja.code ++ jb.code) ++ mark ∷ jc.code;
        generates =
            ap (λ d. generate false d g) (distribute_and_or n n' ir ir' t t' a b c i j)
            ∙ generate_logic m oror n ir t
                (binary n' (targeted ir' false i) andand t' (aimed a true here) (aimed b true here))
                (generate_label_for_short_circuit (aimed c true j)) g (ja.code ++ jb.code)
                (mark ∷ jc.code) refl plain
                (generate_logic m andand n' (targeted ir' false i) t' (aimed a true here)
                  (aimed b true here) g ja.code jb.code refl plain' ja.generates jb.generates)
                (labelled (aimed c true j) c.id g₁ (refl, c.is_comparison.1)
                  ∙ jc.generates
                  ∙ ap
                      (λ x.
                        some
                          (with_code m (record { operand_stack = g.operand_stack; instrs = [] }) x))
                      (append_assoc g₁.instrs (mark ∷ []) jc.code));
        runs = λ f k s _.
            let rest = mark ∷ (jc.code ++ k) in
            ap (λ x. run m f none x s)
              (append_assoc (ja.code ++ jb.code) (mark ∷ jc.code) k
                ∙ append_assoc ja.code jb.code rest)
            ∙ ja.runs f (jb.code ++ rest) s
            ∙ either_way f _ here (jb.code ++ rest) s (
                jb.skips f here rest s
                ∙ hit_label m f c.id _ (jc.code ++ k) s
                ∙ sym (
                    jb.runs f rest s
                    ∙ either_way f _ here rest s (hit_label m f c.id _ (jc.code ++ k) s)))
            ∙ jb.runs f rest s
            ∙ either_way f _ here rest s (hit_label m f c.id _ (jc.code ++ k) s)
            ∙ enter_label m f here _ (jc.code ++ k) s
            ∙ jc.runs f k s
            ∙ unless m f _ _ j k s refl;
      }
