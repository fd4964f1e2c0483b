-- ===== src/Codegen/Prologue.antt =====
-- carbonc/codegen_x64.cc, `generate_func_code`: the code in front of a function's body and behind
-- it, and a machine for that code. The stack is the list of its words, its top first, and grows
-- down from the address `base`; what a part of a register leaves of a word is a parameter.
pub mod Balance
pub mod Aligned
use carbonlang.Prelude.{
  ℕ, zero, suc, ◌+◌, ◌-◌, ◌*◌, ◌/◌, ◌%◌, max, min, Bool, true, false, not, ◌&&◌, ◌||◌, Option, some,
  none, List, [], ◌∷◌, ◌++◌, map, length, drop, get_or, ltb, leb, ◌==◌, if◌then◌else◌,
}
use carbonlang.Codegen.Registers.{Register, rbp, adjust_for_type}

pub data Asm : Type 0 where
  push pop : Register → Asm
  sub_rsp add_rsp : ℕ → Asm
  mov_rbp_rsp : Asm
  -- To rsp and an offset, from a register or a part of it.
  store_arg : ℕ → Register → Asm

-- What the code depends on: `used_temp_registers`, the frame, and the arguments' sizes, each with
-- the register that it is passed in, as far as there are registers.
pub record FuncCode : Type 0 where
  pub temp_registers : List Register
  pub has_args : Bool
  pub reg_args : List (Register × ℕ)
  pub stack_size : ℕ
  pub calls_ever_made : Bool

abbrev pub needs_rbp : FuncCode → Bool
needs_rbp f = not (f.stack_size == 0 && not f.has_args)

abbrev pub num_pushes : FuncCode → ℕ
num_pushes f = if needs_rbp f then length f.temp_registers + 1 else length f.temp_registers

abbrev pub pads : FuncCode → Bool
pads f = num_pushes f % 2 == 0

-- The arguments go to their slots in the caller's frame, the last one first.
unfoldable pub store_args : List (Register × ℕ) → ℕ → List Asm
unfolding adjust_for_type
store_args [] n = []
store_args ((r, size) ∷ rs) n =
    store_args rs (n + 1) ++ store_arg (8 * (n + 1)) (adjust_for_type r size) ∷ []

abbrev pub only_if : Bool → Asm → List Asm
only_if b i = if b then i ∷ [] else []

abbrev pub stores : FuncCode → List Asm
stores f = if f.has_args && f.calls_ever_made then store_args f.reg_args 0 else []

unfoldable pub prologue : FuncCode → List Asm
unfolding store_args
prologue f =
    stores f
    ++ (only_if (needs_rbp f) (push rbp)
        ++ (map push f.temp_registers
            ++ (only_if (pads f) (sub_rsp 8)
                ++ (only_if (needs_rbp f) mov_rbp_rsp
                    ++ only_if (ltb 0 f.stack_size) (sub_rsp f.stack_size)))))

-- The loop over `temp_regs`, from its end.
abbrev pub pops : List Register → List Asm
pops [] = []
pops (r ∷ rs) = pops rs ++ pop r ∷ []

abbrev pub padded_size : FuncCode → ℕ
padded_size f = if pads f then f.stack_size + 8 else f.stack_size

unfoldable pub epilogue : FuncCode → List Asm
epilogue f =
    only_if (ltb 0 (padded_size f)) (add_rsp (padded_size f))
    ++ (pops f.temp_registers ++ only_if (needs_rbp f) (pop rbp))

-- The frame offset that an argument has in the body, from the one on entry.
unfoldable pub body_arg_offset : FuncCode → ℕ → ℕ
body_arg_offset f frame_offset =
    let temp_regs_offset = length f.temp_registers * 8 + (if pads f then 8 else 0) in
    (frame_offset + temp_regs_offset) + (if needs_rbp f then 8 else 0)

-- Space of so many words.
abbrev pub fill : ℕ → List ℕ → List ℕ
fill zero s = s
fill (suc n) s = 0 ∷ fill n s

pub record Cpu : Type 0 where
  pub regs : Register → ℕ
  pub stack : List ℕ

abbrev pub set_reg : (Register → ℕ) → Register → ℕ → Register → ℕ
set_reg regs r v x = if x == r then v else regs x

abbrev pop_into : Register → Cpu → List ℕ → Cpu
pop_into r c [] = c
pop_into r c (v ∷ s) = record { regs = set_reg c.regs r v; stack = s }

abbrev pub replace_at : ℕ → (ℕ → ℕ) → List ℕ → List ℕ
replace_at n f [] = []
replace_at zero f (v ∷ s) = f v ∷ s
replace_at (suc n) f (v ∷ s) = v ∷ replace_at n f s

module _ (base : ℕ) (merge : Register → ℕ → ℕ → ℕ) where
  abbrev pub sp : Cpu → ℕ
  sp c = base - 8 * length c.stack

  abbrev pub step : Asm → Cpu → Cpu
  step (push r) c = record c { stack = c.regs r ∷ c.stack }
  step (pop r) c = pop_into r c c.stack
  step (sub_rsp n) c = record c { stack = fill (n / 8) c.stack }
  step (add_rsp n) c = record c { stack = drop (n / 8) c.stack }
  step mov_rbp_rsp c = record c { regs = set_reg c.regs rbp (sp c) }
  step (store_arg offset r) c = record c {
    stack = replace_at (offset / 8) (merge r (c.regs r)) c.stack;
  }

  abbrev pub exec : List Asm → Cpu → Cpu
  exec [] c = c
  exec (i ∷ is) c = exec is (step i c)
