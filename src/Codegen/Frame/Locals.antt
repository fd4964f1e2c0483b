-- ===== src/Codegen/Frame/Locals.antt =====
-- carbonc/codegen_x64.cc, `get_func_stack_frame_size`: where local variables and the arguments of
-- calls are in a frame.
use carbonlang.Prelude.{
  ℕ, zero, suc, ◌+◌, ◌-◌, ◌*◌, ◌%◌, ◌≤◌, ◌<◌, max, ◌≡◌, some, int32_bound, refl, Bool, true, false,
  ◌||◌, List, [], ◌∷◌, All, length, arith, if◌then◌else◌,
}
use carbonlang.Scope.{◌>>=◌}
use carbonlang.Ir.{IrOperand, IrInstr}
use carbonlang.Layout.{align, Sized}
use carbonlang.Layout.Align.{align-le, align-lt, align-mod, align_of_multiple}
use carbonlang.Layout.Structs.{IsAlignment}
use carbonlang.Codegen.Frame.{
  args_size_from, call_args_size, is_call, with_call, clobbers_args, max_call_arg_size_from,
  find_max_call_arg_size, Frame, get_func_stack_frame_size,
}
use carbonlang.Codegen.Frame.Stacked.{
  IsStacked, stacked_from, room, args_from, int32-small, stacked_from-room, place_locals-fits,
  place_args-fits, stacked_from-IsStacked,
}

args_size_from_lem :
    (os : List IrOperand) (n : ℕ) → n % 8 ≡ 0 → args_size_from os n ≡ n + 8 * length os
unfolding args_size_from
args_size_from_lem [] n h = omega arith
args_size_from_lem (o ∷ os) n h =
    rw (align_of_multiple (n + 8) 8 (omega arith))
      (omega (arith, args_size_from_lem os (n + 8) (omega arith)))

call_args_size_lem : (os : List IrOperand) → call_args_size os ≡ 8 * (length os - 1)
unfolding call_args_size
call_args_size_lem [] = refl
call_args_size_lem (called ∷ args) = omega (arith, args_size_from_lem args 0 refl)

max_call-le :
    (arg_count : ℕ) (is : List IrInstr) (sz : ℕ) (made : Bool)
    → sz ≤ (max_call_arg_size_from arg_count is sz made).0
unfolding max_call_arg_size_from
max_call-le arg_count [] sz made = omega arith
max_call-le arg_count (i ∷ is) sz made =
    let rest =
      max_call-le arg_count is (with_call i sz)
        (made || is_call i.op || clobbers_args arg_count i.op) in
    ground arith

-- The arguments of a call have eight bytes each, at the end of the frame.
abbrev pub FitsCall : ℕ → IrInstr → Type 0
FitsCall space i = is_call i.op ≡ true → 8 * (length i.operands - 1) ≤ space

max_call-Fits :
    (arg_count : ℕ) (is : List IrInstr) (sz space : ℕ) (made : Bool)
    → (max_call_arg_size_from arg_count is sz made).0 ≤ space
    → All (FitsCall space) is
unfolding max_call_arg_size_from
max_call-Fits arg_count [] sz space made h = tt
max_call-Fits arg_count (i ∷ is) sz space made h =
    let made' = made || is_call i.op || clobbers_args arg_count i.op in
    let rest = max_call-le arg_count is (with_call i sz) made' in
    (
      λ called. ground (arith, call_args_size_lem i.operands),
      max_call-Fits arg_count is (with_call i sz) space made' h,
    )

-- The n-th argument is 8 (n + 1) bytes above the stack pointer on entry, past the return address.
abbrev pub HasArgOffsets : List ℕ → ℕ → Type 0
HasArgOffsets [] n = Unit
HasArgOffsets (o ∷ os) n = (o ≡ 8 * (n + 1)) × HasArgOffsets os (n + 1)

args_from-HasArgOffsets : (count n : ℕ) → HasArgOffsets (args_from count n) n
args_from-HasArgOffsets zero n = tt
args_from-HasArgOffsets (suc k) n = (refl, args_from-HasArgOffsets k (n + 1))

stacked-inside :
    (address : ℕ) (ls : List Sized) (ds : List ℕ) (start end : ℕ)
    → IsStacked address ls ds start end
    → (start ≤ end) × All (λ d. d ≤ end) ds
stacked-inside address [] [] start end h = (h, tt)
stacked-inside address [] (d ∷ ds) start end h = elim h [ ]
stacked-inside address (l ∷ ls) [] start end h = elim h [ ]
stacked-inside address (l ∷ ls) (d ∷ ds) start end (a, fits, h) =
    let (le, inside) = stacked-inside address ls ds d end h in (omega arith, (le, inside))

pub record IsFrame (address extern_c_size : ℕ) (calls_extern_c : Bool) (locals : List Sized)
    (instrs : List IrInstr) (f : Frame) : Type 0 where
  pub args : HasArgOffsets f.arg_offsets 0
  pub stacked : IsStacked address locals f.local_offsets 0 f.local_size
  pub inside : All (λ d. d ≤ f.local_size) f.local_offsets
  pub calls : All (FitsCall f.call_arg_size) instrs
  pub extern_c : calls_extern_c ≡ true → extern_c_size ≤ f.call_arg_size
  pub aligned : (f.local_size % 16 ≡ 0) × (f.call_arg_size % 16 ≡ 0)

-- Let a function's variables have alignments of 1, 2, 4, 8 or 16, and need less than 2 GiB with the
-- space for alignment, as its arguments and calls do. Then its frame is laid out: where rbp is a
-- multiple of 16 that is no less than that room, local variables follow one another without overlap, each one aligned, and each starts at most
-- `local_size` below rbp, where the part for calls ends; every call of the function has eight bytes
-- for each argument there, and a call of C code the space it needs; both parts are multiples of 16,
-- and an argument's offset leads to its slot in the caller's frame.
pub get_func_stack_frame_size-IsFrame :
    (address extern_c_size : ℕ) (calls_extern_c : Bool) (arg_count : ℕ) (locals : List Sized)
    (instrs : List IrInstr)
    → All (λ l. IsAlignment l.alignment) locals
    → address % 16 ≡ 0
    → room locals + 16 ≤ address
    → room locals + 16 < int32_bound
    → 8 * arg_count < int32_bound
    → max (find_max_call_arg_size arg_count instrs).0 extern_c_size + 16 < int32_bound
    → (f : Frame) × (get_func_stack_frame_size extern_c_size calls_extern_c arg_count locals instrs
        ≡ some f)
      × IsFrame address extern_c_size calls_extern_c locals instrs f
unfolding get_func_stack_frame_size find_max_call_arg_size
get_func_stack_frame_size-IsFrame address extern_c_size calls_extern_c arg_count locals instrs h ha
      above small few_args small_calls =
    let r = max_call_arg_size_from arg_count instrs 0 false in
    let sz = r.0 in
    let space = if calls_extern_c then max sz extern_c_size else sz in
    let space_small : space + 16 < int32_bound = ground arith in
    let space-le = align-le space 16 (omega arith) in
    let space-lt = align-lt space 16 (omega arith) in
    let last = (stacked_from locals 0).1 in
    let last-le = stacked_from-room locals 0 h in
    let local-lt = align-lt last 16 (omega arith) in
    let stacked : IsStacked address locals (stacked_from locals 0).0 0 (align last 16) =
      stacked_from-IsStacked address locals 0 (align last 16) h ha (align-le last 16 (omega arith))
        (omega arith) in
    let f : Frame = record {
      arg_offsets = args_from arg_count 0;
      local_offsets = (stacked_from locals 0).0;
      local_size = align last 16;
      call_arg_size = align space 16;
      calls_ever_made = r.1;
    } in
    (
      f,
      rw
          (
            place_args-fits arg_count 0 (omega arith),
            place_locals-fits locals 0 h (omega arith),
            ◌>>=◌,
            int32-small (align last 16) (omega arith),
            int32-small (align space 16) (omega arith),
          )
          refl,
      record {
        args = args_from-HasArgOffsets arg_count 0;
        stacked = stacked;
        inside = (stacked-inside address locals _ 0 (align last 16) stacked).1;
        calls = max_call-Fits arg_count instrs 0 (align space 16) false (ground arith);
        extern_c = λ e. ground arith;
        aligned = (align-mod last 16 (omega arith), align-mod space 16 (omega arith));
      },
    )
