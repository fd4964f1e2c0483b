-- ===== src/Tests/Instructions.antt =====
-- carbonc/ir.cc: the theorems on instructions and on the operand stack at concrete code.
use carbonlang.Prelude.{
  ℕ, ◌+◌, ◌-◌, ◌/◌, ◌≡◌, refl, Option, List, [], ◌∷◌, ◌++◌, arith, length, map,
}
use carbonlang.Prelude.Int.{pos}
use carbonlang.TypeId.{TypeId, invalid_type, type_id_eq}
use carbonlang.Ir.{IrOp, IrOperand, ir_local, ir_int, ir_stackpop, IrInstr}
use carbonlang.Ir.Opstack.{discard_opstack, contents_equal, instr_can_be_replaced}
use carbonlang.Ir.Discard.{discard_opstack_half, emitted}
use carbonlang.Ir.Dedup.{opt_replace_duplicates, stack_dup_of}
use carbonlang.Ir.Dedup.Pass.{profile}
use carbonlang.Ir.Dedup.Profile.{WithDuplications, opt_replace_duplicates-WithDuplications}
use carbonlang.Ir.Opstack.{instr_opstack_consumption, instr_pushes_to_stack}
use carbonlang.Codegen.Temps.{
  reg_result, temp_register, temp_local, use_temp_destination, determine_instrs_destination,
}

abbrev int_type : TypeId
int_type = record { scope = Option.some 0; type_index = Option.some 1 }

abbrev sum : ℕ → IrInstr
sum n = record {
  op = IrOp.ir_add;
  result_type = int_type;
  operands = ir_local 0 int_type ∷ ir_int (pos 1) int_type ∷ [];
  index = n;
}

abbrev product : IrInstr
product = record {
  op = IrOp.ir_mul;
  result_type = int_type;
  operands = ir_stackpop int_type Option.none ∷ ir_stackpop int_type Option.none ∷ [];
  index = 2;
}

-- `(x + 1) * (x + 1)`: the second sum is taken from the first.
shares_sum :
    opt_replace_duplicates invalid_type (sum 0 ∷ sum 1 ∷ product ∷ [])
    ≡ sum 0 ∷ stack_dup_of (sum 1) 1 ∷ product ∷ []
unfolding opt_replace_duplicates contents_equal type_id_eq instr_can_be_replaced
shares_sum = refl

opt_replace_duplicates-WithDuplications_example :
    WithDuplications invalid_type [] 0
      (sum 0 ∷ sum 1 ∷ product ∷ [])
      (opt_replace_duplicates invalid_type (sum 0 ∷ sum 1 ∷ product ∷ []))
    × (map
          (profile invalid_type)
          (opt_replace_duplicates invalid_type (sum 0 ∷ sum 1 ∷ product ∷ []))
        ≡ map (profile invalid_type) (sum 0 ∷ sum 1 ∷ product ∷ []))
opt_replace_duplicates-WithDuplications_example =
    opt_replace_duplicates-WithDuplications invalid_type (sum 0 ∷ sum 1 ∷ product ∷ [])

abbrev three : List IrOperand
three = ir_local 0 int_type ∷ ir_local 1 int_type ∷ ir_local 2 int_type ∷ []

discard_opstack_half_example :
    (length (discard_opstack 1 three).1 ≡ 1 + (3 - 1) / 2)
    × (emitted (discard_opstack 1 three).0 ++ (discard_opstack 1 three).1 ≡ three)
discard_opstack_half_example = discard_opstack_half 1 three (omega arith)

abbrev sums : List IrInstr
sums = sum 0 ∷ sum 1 ∷ product ∷ []

-- The first sum waits in a register for the second.
places_sums :
    determine_instrs_destination 2 [] invalid_type sums
    ≡ (temp_register 0 ∷ reg_result ∷ reg_result ∷ [], [])
unfolding determine_instrs_destination instr_opstack_consumption instr_pushes_to_stack
    use_temp_destination
places_sums = refl

-- The same with no registers, beside a local variable.
places_in_local :
    determine_instrs_destination 0 (int_type ∷ []) invalid_type sums
    ≡ (temp_local 1 ∷ reg_result ∷ reg_result ∷ [], int_type ∷ int_type ∷ [])
unfolding determine_instrs_destination instr_opstack_consumption instr_pushes_to_stack
    use_temp_destination
places_in_local = refl

-- The first sum is duplicated.
abbrev shared : List IrInstr
shared = sum 0 ∷ stack_dup_of (sum 1) 1 ∷ product ∷ []
