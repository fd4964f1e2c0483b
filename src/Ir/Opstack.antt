-- ===== src/Ir/Opstack.antt =====
-- carbonc/ir.cc: how many operands an instruction takes from the operand stack and whether it
-- leaves one there, and the clean-up after a statement.
use carbonlang.Prelude.{
  ℕ, zero, suc, ◌+◌, Bool, true, false, not, ◌&&◌, Option, some, none, List, [], ◌∷◌, ltb, ◌==◌,
  if◌then◌else◌, length,
}
use carbonlang.TypeId.{TypeId, type_id_eq}
use carbonlang.Ir.{
  IrOp, ir_op_code, IrRef, ref_stackpop, ref_field, IrField, ir_field, IrOperand, field,
  ir_stackpop, IrInstr, operand_eq,
}

unfoldable mutual
  pub ref_opstack_consumption : IrRef → ℕ
  ref_opstack_consumption (ref_stackpop t i) = 1
  ref_opstack_consumption (ref_field p f) = field_opstack_consumption f
  ref_opstack_consumption _ = 0

  pub field_opstack_consumption : IrField → ℕ
  field_opstack_consumption (ir_field r i) = ref_opstack_consumption r

unfoldable pub operand_opstack_consumption : IrOperand → ℕ
unfolding ref_opstack_consumption field_opstack_consumption
operand_opstack_consumption (ir_stackpop t i) = 1
operand_opstack_consumption (field f) = field_opstack_consumption f
operand_opstack_consumption _ = 0

-- The loop over an instruction's operands.
unfoldable pub operands_opstack_consumption : List IrOperand → ℕ
operands_opstack_consumption [] = 0
operands_opstack_consumption (o ∷ os) =
    operand_opstack_consumption o + operands_opstack_consumption os

unfoldable pub instr_opstack_consumption : IrInstr → ℕ
unfolding operands_opstack_consumption operand_opstack_consumption
instr_opstack_consumption instr = operands_opstack_consumption instr.operands

-- By the operation; `none` for `ir_call`, which the result type decides.
unfoldable pub op_pushes : IrOp → Option Bool
op_pushes IrOp.ir_add = some true
op_pushes IrOp.ir_sub = some true
op_pushes IrOp.ir_mul = some true
op_pushes IrOp.ir_div = some true
op_pushes IrOp.ir_and = some true
op_pushes IrOp.ir_or = some true
op_pushes IrOp.ir_shr = some true
op_pushes IrOp.ir_shl = some true
op_pushes IrOp.ir_deref = some true
op_pushes IrOp.ir_index = some true
op_pushes IrOp.ir_load_addr = some true
op_pushes IrOp.ir_cast = some true
op_pushes IrOp.ir_stack_dup = some true
op_pushes IrOp.ir_neg = some true
op_pushes IrOp.ir_cmp_gt = some true
op_pushes IrOp.ir_cmp_lt = some true
op_pushes IrOp.ir_cmp_lteq = some true
op_pushes IrOp.ir_cmp_gteq = some true
op_pushes IrOp.ir_cmp_eq = some true
op_pushes IrOp.ir_cmp_neq = some true
op_pushes IrOp.ir_call = none
op_pushes _ = some false

-- `void_type` is the type system's own.
unfoldable pub instr_pushes_to_stack : TypeId → IrInstr → Bool
unfolding op_pushes
instr_pushes_to_stack void_type instr = elim (op_pushes instr.op) [
  | some b ↦ b
  | none ↦ not (type_id_eq instr.result_type void_type)
]

unfoldable pub op_has_side_effect : IrOp → Bool
op_has_side_effect IrOp.ir_call = true
op_has_side_effect IrOp.ir_stack_dup = true
op_has_side_effect _ = false

unfoldable pub instr_has_side_effect : IrInstr → Bool
unfolding op_has_side_effect
instr_has_side_effect instr = op_has_side_effect instr.op

unfoldable pub instr_can_be_replaced : TypeId → IrInstr → Bool
unfolding instr_pushes_to_stack instr_opstack_consumption instr_has_side_effect
instr_can_be_replaced void_type instr =
    instr_pushes_to_stack void_type instr
    && instr_opstack_consumption instr == 0
    && not (instr_has_side_effect instr)

unfoldable pub operands_equal : List IrOperand → List IrOperand → Bool
unfolding operand_eq
operands_equal [] [] = true
operands_equal (a ∷ as') (b ∷ bs) = operand_eq a b && operands_equal as' bs
operands_equal _ _ = false

unfoldable pub contents_equal : IrInstr → IrInstr → Bool
unfolding operands_equal ir_op_code
contents_equal a b =
    ir_op_code a.op == ir_op_code b.op
    && type_id_eq a.result_type b.result_type
    && operands_equal a.operands b.operands

-- `discard_opstack`: `i` counts up while the stack it is compared with shrinks. The operands come
-- off in the order that they are popped; the fuel is the stack's height.
unfoldable pub discard_loop : ℕ → ℕ → List IrOperand → List IrOperand × List IrOperand
discard_loop zero i stack = ([], stack)
discard_loop (suc f) i [] = ([], [])
discard_loop (suc f) i (o ∷ os) =
    let rest = discard_loop f (i + 1) os in
    if ltb i (length (o ∷ os)) then (o ∷ rest.0, rest.1) else ([], o ∷ os)

-- The operands of the `ir_noop` that is emitted, if any, and the stack that stays.
unfoldable pub discard_opstack : ℕ → List IrOperand → Option (List IrOperand) × List IrOperand
unfolding discard_loop
discard_opstack to_size stack =
    if ltb to_size (length stack)
    then (let r = discard_loop (length stack) to_size stack in (some r.0, r.1))
    else (none, stack)
