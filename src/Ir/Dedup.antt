-- ===== src/Ir/Dedup.antt =====
-- `opt_replace_duplicates` of carbonc/ir.cc: a later copy of an instruction becomes a duplication
-- of the top of the operand stack.
pub mod Same
pub mod Pass
pub mod Profile
use carbonlang.Prelude.{
  ℕ, zero, suc, ◌+◌, ◌≤◌, ◌≡◌, refl, ap, ◌⊎◌, inl, inr, Bool, true, false, not, ◌&&◌, List, [], ◌∷◌,
  ◌++◌, map, arith, ◌==◌, if◌then◌else◌, length, Bool-cases,
}
use carbonlang.TypeId.{TypeId}
use carbonlang.Ir.{IrOp, IrOperand, IrInstr, ir_stack_dup}
use carbonlang.Ir.Opstack.{
  instr_opstack_consumption, instr_pushes_to_stack, instr_can_be_replaced, contents_equal,
}

-- The instruction that takes the place of a duplicate at index `j`.
abbrev pub stack_dup_of : IrInstr → ℕ → IrInstr
stack_dup_of instr j = record {
  op = ir_stack_dup;
  result_type = instr.result_type;
  operands = [];
  index = j;
}

-- The inner loop, on the instructions from index `j`: it ends once the operand stack has moved.
unfoldable pub replace_after : TypeId → IrInstr → ℕ → ℕ → List IrInstr → List IrInstr
replace_after void_type self effect j [] = []
replace_after void_type self effect j (next ∷ rest) =
    let replaced = stack_dup_of next j ∷ replace_after void_type self effect (j + 1) rest in
    let moved =
      effect
      + instr_opstack_consumption next
      + (if instr_pushes_to_stack void_type next then 1 else 0) in
    let kept = next ∷ replace_after void_type self moved (j + 1) rest in
    if not (effect == 0)
    then next ∷ rest
    else if contents_equal self next && instr_can_be_replaced void_type next
    then replaced
    else kept

-- The outer loop; the fuel is the number of instructions.
unfoldable pub replace_from : ℕ → TypeId → ℕ → List IrInstr → List IrInstr
replace_from zero void_type i instrs = instrs
replace_from (suc f) void_type i [] = []
replace_from (suc f) void_type i (self ∷ rest) =
    self ∷ replace_from f void_type (i + 1) (replace_after void_type self 0 (i + 1) rest)

unfoldable pub opt_replace_duplicates : TypeId → List IrInstr → List IrInstr
unfolding replace_from replace_after
opt_replace_duplicates void_type instrs = replace_from (length instrs) void_type 0 instrs
