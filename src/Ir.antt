-- ===== src/Ir.antt =====
-- carbonc/ir.hh: instructions and operands of the intermediate code, and what each does to the
-- operand stack (carbonc/ir.cc).
pub mod Opstack
pub mod Discard
pub mod Dedup
pub mod Cond
use carbonlang.Prelude.{
  ℕ, ◌+◌, Bool, true, false, not, ◌&&◌, Option, some, none, List, [], ◌∷◌, Bytes, ◌==◌,
  if◌then◌else◌, bytes_eq,
}
use carbonlang.Prelude.Int.{ℤ, eqb_ℤ}
use carbonlang.TypeId.{TypeId, type_id_eq}

pub data IrOp : Type 0 where
  ir_load ir_load_ptr ir_copy ir_store ir_cast ir_add ir_sub ir_mul ir_div ir_neg ir_and : IrOp
  ir_or ir_shr ir_shl ir_call ir_return ir_index ir_deref ir_load_addr ir_make_label : IrOp
  ir_asm ir_cmp_lt ir_cmp_gt ir_cmp_lteq ir_cmp_gteq ir_cmp_eq ir_cmp_neq ir_jmp : IrOp
  ir_jmp_eq ir_jmp_neq ir_jmp_gt ir_jmp_gte ir_jmp_lt ir_jmp_lte ir_stack_dup ir_noop : IrOp

-- The place of an operation in the enumeration, by which two are compared.
unfoldable pub ir_op_code : IrOp → ℕ
ir_op_code ir_load = 0
ir_op_code ir_load_ptr = 1
ir_op_code ir_copy = 2
ir_op_code ir_store = 3
ir_op_code ir_cast = 4
ir_op_code ir_add = 5
ir_op_code ir_sub = 6
ir_op_code ir_mul = 7
ir_op_code ir_div = 8
ir_op_code ir_neg = 9
ir_op_code ir_and = 10
ir_op_code ir_or = 11
ir_op_code ir_shr = 12
ir_op_code ir_shl = 13
ir_op_code ir_call = 14
ir_op_code ir_return = 15
ir_op_code ir_index = 16
ir_op_code ir_deref = 17
ir_op_code ir_load_addr = 18
ir_op_code ir_make_label = 19
ir_op_code ir_asm = 20
ir_op_code ir_cmp_lt = 21
ir_op_code ir_cmp_gt = 22
ir_op_code ir_cmp_lteq = 23
ir_op_code ir_cmp_gteq = 24
ir_op_code ir_cmp_eq = 25
ir_op_code ir_cmp_neq = 26
ir_op_code ir_jmp = 27
ir_op_code ir_jmp_eq = 28
ir_op_code ir_jmp_neq = 29
ir_op_code ir_jmp_gt = 30
ir_op_code ir_jmp_gte = 31
ir_op_code ir_jmp_lt = 32
ir_op_code ir_jmp_lte = 33
ir_op_code ir_stack_dup = 34
ir_op_code ir_noop = 35

-- Labels by what the generator makes them from: a text, or a node's number between a prefix and a
-- suffix (`.short7`, `.if7$body`, `.w7$cond`, `.f7$neg`).
pub data Label : Type 0 where
  named : Bytes → Label
  short : ℕ → Label
  if_body if_else if_end : ℕ → Label
  while_body while_end while_cond : ℕ → Label
  for_body for_end for_cond for_neg : ℕ → Label

unfoldable pub label_eq : Label → Label → Bool
label_eq (named a) (named b) = bytes_eq a b
label_eq (short a) (short b) = a == b
label_eq (if_body a) (if_body b) = a == b
label_eq (if_else a) (if_else b) = a == b
label_eq (if_end a) (if_end b) = a == b
label_eq (while_body a) (while_body b) = a == b
label_eq (while_end a) (while_end b) = a == b
label_eq (while_cond a) (while_cond b) = a == b
label_eq (for_body a) (for_body b) = a == b
label_eq (for_end a) (for_end b) = a == b
label_eq (for_cond a) (for_cond b) = a == b
label_eq (for_neg a) (for_neg b) = a == b
label_eq _ _ = false

-- `ir_ref` and `ir_field`. A reference holds a field by a shared pointer: its address, and the field
-- that it leads to.
mutual
  pub data IrRef : Type 0 where
    ref_global : Bytes → TypeId → IrRef
    ref_local : ℕ → TypeId → IrRef
    ref_arg : ℕ → TypeId → IrRef
    ref_stackpop : TypeId → Option ℕ → IrRef
    ref_field : ℕ → IrField → IrRef

  pub data IrField : Type 0 where
    ir_field : IrRef → ℕ → IrField

-- A floating-point value is its bit pattern (carbonc/ir.cc makes no such operand); `from_instr_index` is `none` for -1.
pub data IrOperand : Type 0 where
  asm_text : Bytes → IrOperand
  field : IrField → IrOperand
  ir_label : Label → IrOperand
  ir_funclabel : Bytes → TypeId → IrOperand
  ir_global : Bytes → TypeId → IrOperand
  ir_local : ℕ → TypeId → IrOperand
  ir_arg : ℕ → TypeId → IrOperand
  ir_stackpop : TypeId → Option ℕ → IrOperand
  ir_string : ℕ → IrOperand
  ir_int : ℤ → TypeId → IrOperand
  ir_float : ℕ → TypeId → IrOperand
  ir_char : ℕ → IrOperand

pub record IrInstr : Type 0 where
  pub op : IrOp
  pub result_type : TypeId
  pub operands : List IrOperand
  pub index : ℕ

-- `operator ==` of references and fields. Shared pointers are equal when they hold one address; the
-- instruction that a pop comes from does not count.
unfoldable pub ref_eq : IrRef → IrRef → Bool
ref_eq (ref_global n t) (ref_global m u) = bytes_eq n m && type_id_eq t u
ref_eq (ref_local i t) (ref_local j u) = i == j && type_id_eq t u
ref_eq (ref_arg i t) (ref_arg j u) = i == j && type_id_eq t u
ref_eq (ref_stackpop t _) (ref_stackpop u _) = type_id_eq t u
ref_eq (ref_field p f) (ref_field q g) = p == q
ref_eq _ _ = false

unfoldable pub field_eq : IrField → IrField → Bool
unfolding ref_eq
field_eq (ir_field r i) (ir_field s j) = ref_eq r s && i == j

unfoldable pub operand_eq : IrOperand → IrOperand → Bool
unfolding field_eq
operand_eq (asm_text a) (asm_text b) = bytes_eq a b
operand_eq (field f) (field g) = field_eq f g
operand_eq (ir_label a) (ir_label b) = label_eq a b
operand_eq (ir_funclabel n t) (ir_funclabel m u) = bytes_eq n m && type_id_eq t u
operand_eq (ir_global n t) (ir_global m u) = bytes_eq n m && type_id_eq t u
operand_eq (ir_local i t) (ir_local j u) = i == j && type_id_eq t u
operand_eq (ir_arg i t) (ir_arg j u) = i == j && type_id_eq t u
operand_eq (ir_stackpop t _) (ir_stackpop u _) = type_id_eq t u
operand_eq (ir_string i) (ir_string j) = i == j
operand_eq (ir_int v t) (ir_int w u) = eqb_ℤ v w && type_id_eq t u
operand_eq (ir_float v t) (ir_float w u) = v == w && type_id_eq t u
operand_eq (ir_char c) (ir_char d) = c == d
operand_eq _ _ = false
