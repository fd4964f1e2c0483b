-- ===== src/Codegen/Frame.antt =====
-- carbonc/codegen_x64.cc: the layout of a function's stack frame, with sizes of 32 bits as in the
-- source; the space that a call of C code needs depends on the system, and is an argument.
pub mod Stacked
pub mod Locals
use carbonlang.Prelude.{
  ℕ, zero, suc, ◌+◌, ◌-◌, ◌*◌, ◌/◌, ◌%◌, max, min, Bool, true, false, not, ◌&&◌, ◌||◌, Option, some,
  none, List, [], ◌∷◌, ◌++◌, length, drop, get_or, ltb, leb, ◌==◌, if◌then◌else◌, u32_mod,
  int32_bound,
}
use carbonlang.Scope.{◌>>=◌}
use carbonlang.Ir.{IrOp, IrOperand, IrInstr}
use carbonlang.Layout.{align, Sized}
use carbonlang.Codegen.Registers.{Register, rbp}

-- The space for the arguments of one call: its first operand is what is called.
unfoldable pub args_size_from : List IrOperand → ℕ → ℕ
unfolding align
args_size_from [] n = n
args_size_from (o ∷ os) n = args_size_from os (align (n + 8) 8)

unfoldable pub call_args_size : List IrOperand → ℕ
unfolding args_size_from
call_args_size [] = 0
call_args_size (called ∷ args) = args_size_from args 0

-- Instructions whose code uses a register that holds an argument.
unfoldable pub clobbers_args : ℕ → IrOp → Bool
clobbers_args arg_count IrOp.ir_copy = true
clobbers_args arg_count IrOp.ir_store = true
clobbers_args arg_count IrOp.ir_shl = true
clobbers_args arg_count IrOp.ir_shr = true
clobbers_args arg_count IrOp.ir_div = leb 2 arg_count
clobbers_args arg_count _ = false

abbrev pub is_call : IrOp → Bool
is_call IrOp.ir_call = true
is_call _ = false

abbrev pub with_call : IrInstr → ℕ → ℕ
with_call i sz = if is_call i.op then max sz (call_args_size i.operands) else sz

unfoldable pub max_call_arg_size_from : ℕ → List IrInstr → ℕ → Bool → ℕ × Bool
unfolding clobbers_args
max_call_arg_size_from arg_count [] sz made = (sz, made)
max_call_arg_size_from arg_count (i ∷ is) sz made =
    max_call_arg_size_from arg_count is (with_call i sz)
      (made || is_call i.op || clobbers_args arg_count i.op)

unfoldable pub find_max_call_arg_size : ℕ → List IrInstr → ℕ × Bool
unfolding max_call_arg_size_from
find_max_call_arg_size arg_count instrs = max_call_arg_size_from arg_count instrs 0 false

-- A number of type `std::int32_t` that is not negative; `none` for one that is not below the bound,
-- where a sum overflows, which C++ leaves undefined.
unfoldable pub int32 : ℕ → Option ℕ
int32 n = if ltb n int32_bound then some n else none

-- The conversion of a `std::size_t`, modulo 2 ^ 32; `none` where it gives a negative number.
unfoldable pub to_int32 : ℕ → Option ℕ
unfolding int32
to_int32 n = int32 (n % u32_mod)

-- The frame offset of each argument, on entry, and of each local variable: that one is its
-- distance below rbp.
unfoldable pub place_args : ℕ → ℕ → Option (List ℕ)
unfolding align int32
place_args zero own_arg_size = some []
place_args (suc n) own_arg_size = do
  placed ← int32 (align (own_arg_size + 8) 8)
  rest ← place_args n placed
  some (placed ∷ rest)

unfoldable pub place_locals : List Sized → ℕ → Option (List ℕ × ℕ)
unfolding align int32 to_int32
place_locals [] local_size = some ([], local_size)
place_locals (l ∷ ls) local_size = do
  size ← to_int32 l.size
  grown ← int32 (local_size + size)
  placed ←
      if ltb 8 l.size
      then int32 (align grown 16)
      else (to_int32 l.alignment >>= λ alignment. int32 (align grown alignment))
  rest ← place_locals ls placed
  some (placed ∷ rest.0, rest.1)

pub record Frame : Type 0 where
  pub arg_offsets : List ℕ
  pub local_offsets : List ℕ
  pub local_size : ℕ
  pub call_arg_size : ℕ
  pub calls_ever_made : Bool

-- With the space that a call of C code needs, which depends on the system; `none` where a size does
-- not fit its type. The space for the arguments of calls only grows, so its last value is tested.
unfoldable pub get_func_stack_frame_size : ℕ → Bool → ℕ → List Sized → List IrInstr → Option Frame
unfolding align int32 place_args place_locals find_max_call_arg_size
get_func_stack_frame_size extern_c_size calls_extern_c arg_count locals instrs =
    let (sz, calls_ever_made) = find_max_call_arg_size arg_count instrs in
    let call_arg_size = if calls_extern_c then max sz extern_c_size else sz in
    do
      arg_offsets ← place_args arg_count 0
      placed ← place_locals locals 0
      local_size ← int32 (align placed.1 16)
      call_size ← int32 (align call_arg_size 16)
      some (record {
        arg_offsets = arg_offsets;
        local_offsets = placed.0;
        local_size = local_size;
        call_arg_size = call_size;
        calls_ever_made = calls_ever_made;
      })
