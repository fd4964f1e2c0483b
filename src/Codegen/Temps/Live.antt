-- ===== src/Codegen/Temps/Live.antt =====
-- carbonc/codegen_x64.cc, `determine_instrs_destination`: the results that wait on the operand stack.
use carbonlang.Prelude.{
  All, ℕ, ◌+◌, ◌-◌, ◌≤◌, ◌<◌, ◌≡◌, ◌⊎◌, Bool, false, List, [], ◌∷◌, length, drop, ◌==◌,
  if◌then◌else◌,
}
use carbonlang.TypeId.{TypeId}
use carbonlang.Ir.{ir_op_code, ir_stack_dup, IrInstr}
use carbonlang.Ir.Opstack.{instr_opstack_consumption, instr_pushes_to_stack}
use carbonlang.Codegen.Temps.{InstrDest, reg_result, temp_register, temp_local, Temps}

abbrev pub total : Temps → ℕ
total t = t.used_registers + t.used_locals

module _ (registers base : ℕ) where
  -- Temporaries in the order in which they are used up: registers first.
  abbrev pub HasSlot : InstrDest → ℕ → Type 0
  HasSlot reg_result k = ⊥
  HasSlot (temp_register i) k = (i ≡ k) × (k < registers)
  HasSlot (temp_local i) k = (i + registers ≡ base + k) × (registers ≤ k)

  -- Local variables are used only when the registers are all used.
  pub record IsOrdered (t : Temps) : Type 0 where
    pub few : t.used_registers ≤ registers
    pub full : 0 < t.used_locals → t.used_registers ≡ registers
    pub room : base + t.used_locals ≤ length t.locals

  -- The places on an operand stack, its top first: each has the slot that is reserved for it or an
  -- earlier one, and the slots reserved fall, from below a bound.
  abbrev pub Below : ℕ → List InstrDest → Type 0
  Below bound [] = Unit
  Below bound (d ∷ ds) = (r : ℕ) × (k : ℕ) × (r < bound) × (k ≤ r) × HasSlot d k × Below r ds

  -- No operand on the stack is in the place.
  abbrev pub IsFree : InstrDest → List InstrDest → Type 0
  IsFree d ds = All (λ x. ¬ (x ≡ d)) ds

  -- Where the value is that an instruction leaves on the stack: a duplication leaves the top, where it
  -- is, and any other instruction its result.
  abbrev pub place_of : IrInstr → InstrDest → List InstrDest → InstrDest
  place_of i d [] = d
  place_of i d (top ∷ stack) = if ir_op_code i.op == ir_op_code ir_stack_dup then top else d

  abbrev pub pushed : Bool → InstrDest → List InstrDest → List InstrDest
  pushed pushes d stack = if pushes then d ∷ stack else stack

  -- The stack holds places below a bound, and perhaps any place on top if the next instruction takes
  -- it.
  IsLive : ℕ → Bool → List InstrDest → Type 0
  IsLive bound keeps stack =
      Below bound stack
      ⊎ ((d : InstrDest) × (s : List InstrDest) × (stack ≡ d ∷ s) × Below bound s × (keeps ≡ false))

  -- No instruction takes more operands than the ones before it have left, and a duplication takes none
  -- and finds one.
  abbrev pub IsBalanced : TypeId → List IrInstr → ℕ → Type 0
  IsBalanced v [] height = Unit
  IsBalanced v (i ∷ is) height =
      (instr_opstack_consumption i ≤ height)
      × (ir_op_code i.op ≡ ir_op_code ir_stack_dup
          → (instr_opstack_consumption i ≡ 0) × (0 < height))
      × IsBalanced v is
          ((height - instr_opstack_consumption i) + (if instr_pushes_to_stack v i then 1 else 0))

  -- With these destinations, each instruction's result is put where no operand is that stays on the
  -- stack.
  abbrev pub IsSafe : TypeId → List IrInstr → List InstrDest → List InstrDest → Type 0
  IsSafe v [] [] stack = Unit
  IsSafe v (i ∷ is) (d ∷ ds) stack =
      let left = drop (instr_opstack_consumption i) stack in
      IsFree d left × IsSafe v is ds (pushed (instr_pushes_to_stack v i) (place_of i d left) left)
  IsSafe v _ _ stack = ⊥
