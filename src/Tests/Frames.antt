-- ===== src/Tests/Frames.antt =====
-- carbonc/type_system.cc and carbonc/codegen_x64.cc: the theorems on layouts, frames and registers
-- at concrete structures and functions.
use carbonlang.Prelude.{ℕ, ◌*◌, ◌≡◌, refl, true, false, some, [], ◌∷◌, arith}
use carbonlang.TypeId.{invalid_type}
use carbonlang.Ir.{IrOp, ir_local, IrInstr}
use carbonlang.Layout.{Sized, compute_struct_size_alignment_offsets}
use carbonlang.Layout.Structs.{one, four, eight, IsStructLayout, compute_struct-IsStructLayout}
use carbonlang.Codegen.Registers.{
  Register, rax, get_size, adjust_for_type, whole_register, part_size, adjust_for_type_lem,
}
use carbonlang.Codegen.Frame.{
  Frame, call_args_size, find_max_call_arg_size, get_func_stack_frame_size,
}
use carbonlang.Codegen.Frame.Locals.{IsFrame, get_func_stack_frame_size-IsFrame}
use carbonlang.Codegen.Prologue.{FuncCode, prologue, epilogue, Cpu, sp, exec}
use carbonlang.Codegen.Prologue.Balance.{Restored, exec-Restored}
use carbonlang.Codegen.Prologue.Aligned.{IsBody, prologue-IsBody}

abbrev byte : Sized
byte = record { size = 1; alignment = 1 }

abbrev word : Sized
word = record { size = 4; alignment = 4 }

abbrev pointer : Sized
pointer = record { size = 8; alignment = 8 }

-- A byte, a word and a pointer.
places_fields :
    (compute_struct_size_alignment_offsets false (byte ∷ word ∷ pointer ∷ [])).offsets
    ≡ 0 ∷ 4 ∷ 8 ∷ []
unfolding compute_struct_size_alignment_offsets
places_fields = refl

compute_struct-IsStructLayout_example :
    IsStructLayout
      (byte ∷ word ∷ pointer ∷ [])
      (compute_struct_size_alignment_offsets false (byte ∷ word ∷ pointer ∷ []))
compute_struct-IsStructLayout_example =
    compute_struct-IsStructLayout false (byte ∷ word ∷ pointer ∷ [])
      ((one, refl), ((four, refl), ((eight, refl), tt)))

abbrev call : IrInstr
call = record {
  op = IrOp.ir_call;
  result_type = invalid_type;
  operands = ir_local 0 invalid_type ∷ ir_local 0 invalid_type ∷ ir_local 1 invalid_type ∷ [];
  index = 0;
}

get_func_stack_frame_size-IsFrame_example :
    (f : Frame) × (get_func_stack_frame_size 48 true 2 (byte ∷ pointer ∷ []) (call ∷ []) ≡ some f)
    × IsFrame 65536 48 true (byte ∷ pointer ∷ []) (call ∷ []) f
unfolding call_args_size
get_func_stack_frame_size-IsFrame_example =
    get_func_stack_frame_size-IsFrame 65536 48 true 2 (byte ∷ pointer ∷ []) (call ∷ [])
      (one, (eight, tt)) refl (omega arith) (omega arith) (omega arith)
      (unfold find_max_call_arg_size in omega arith)

adjust_for_type_lem_example :
    (get_size (adjust_for_type rax 4) ≡ part_size 4)
    × (whole_register (adjust_for_type rax 4) ≡ rax)
adjust_for_type_lem_example = adjust_for_type_lem rax 4 (omega arith) (omega arith)

-- A function with two temporary registers, one argument and a frame of 64 bytes.
abbrev function : FuncCode
function = record {
  temp_registers = 13 ∷ 14 ∷ [];
  has_args = true;
  reg_args = (9, 8) ∷ [];
  stack_size = 64;
  calls_ever_made = true;
}

abbrev keep : Register → ℕ → ℕ → ℕ
keep r new old = new

abbrev registers : Register → ℕ
registers r = r * 1000

abbrev entered : Cpu
entered = exec 65536 keep (prologue function) (record { regs = registers; stack = 7 ∷ 0 ∷ 0 ∷ [] })

-- The body leaves its own values in every register.
abbrev body : Cpu
body = record { regs = λ r. 5; stack = entered.stack }

exec-Restored_example :
    Restored 65536 keep function 7 (0 ∷ 0 ∷ []) registers (exec 65536 keep (epilogue function) body)
exec-Restored_example = exec-Restored 65536 keep function 7 (0 ∷ 0 ∷ []) registers body refl

prologue-IsBody_example :
    IsBody 65536 keep function
      (sp 65536 keep (record { regs = registers; stack = 7 ∷ 0 ∷ 0 ∷ [] }))
      entered
prologue-IsBody_example =
    prologue-IsBody 65536 keep function 7 (0 ∷ 0 ∷ []) registers refl refl (omega arith)
