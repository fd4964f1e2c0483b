-- ===== src/Codegen/Temps.antt =====
-- carbonc/codegen_x64.cc: where each instruction puts its result, by `determine_instrs_destination`.
pub mod Live
use carbonlang.Prelude.{
  ℕ, zero, suc, ◌+◌, ◌-◌, Bool, true, false, ◌&&◌, List, [], ◌∷◌, ◌++◌, length, ltb, ◌==◌,
  if◌then◌else◌,
}
use carbonlang.TypeId.{TypeId}
use carbonlang.Ir.{IrInstr}
use carbonlang.Ir.Opstack.{instr_opstack_consumption, instr_pushes_to_stack}

-- `reg_result`, a place in `register_temp`, or the index of a local variable.
pub data InstrDest : Type 0 where
  reg_result : InstrDest
  temp_register : ℕ → InstrDest
  temp_local : ℕ → InstrDest

-- The counters, and the types of the function's local variables.
pub record Temps : Type 0 where
  pub used_registers : ℕ
  pub used_locals : ℕ
  pub locals : List TypeId

-- For a number of temporary registers, and of local variables that are no temporaries.
module _ (registers temp_locals_base : ℕ) where
  -- A local variable that is there is used again, with the type that it was made with.
  unfoldable pub use_temp_local : TypeId → Temps → InstrDest × Temps
  use_temp_local tid t =
      let available = (length t.locals - temp_locals_base) - t.used_locals in
      if available == 0
      then (
        temp_local (length t.locals),
        record t { used_locals = t.used_locals + 1; locals = t.locals ++ tid ∷ [] },
      )
      else (
        temp_local (temp_locals_base + t.used_locals),
        record t { used_locals = t.used_locals + 1 },
      )

  unfoldable pub use_temp_destination : TypeId → Temps → InstrDest × Temps
  unfolding use_temp_local
  use_temp_destination tid t =
      if ltb t.used_registers registers
      then (temp_register t.used_registers, record t { used_registers = t.used_registers + 1 })
      else use_temp_local tid t

  unfoldable pub free_temp_destination : Temps → Temps
  free_temp_destination t =
      if ltb 0 t.used_locals
      then record t { used_locals = t.used_locals - 1 }
      else record t { used_registers = t.used_registers - 1 }

  unfoldable pub free_times : ℕ → Temps → Temps
  unfolding free_temp_destination
  free_times zero t = t
  free_times (suc n) t = free_times n (free_temp_destination t)

  -- Whether the next instruction leaves the operand stack to this one's result.
  abbrev pub keeps_result : List IrInstr → Bool
  keeps_result [] = false
  keeps_result (next ∷ rest) = instr_opstack_consumption next == 0

  unfoldable pub destination : TypeId → IrInstr → List IrInstr → Temps → InstrDest × Temps
  unfolding use_temp_destination
  destination void_type instr rest t =
      if instr_pushes_to_stack void_type instr && keeps_result rest
      then use_temp_destination instr.result_type t
      else (reg_result, t)

  -- The loop over the instructions, from the counters that it starts with.
  unfoldable pub determine_from : TypeId → List IrInstr → Temps → List InstrDest × Temps
  unfolding destination free_times
  determine_from void_type [] t = ([], t)
  determine_from void_type (instr ∷ rest) t =
      let freed = free_times (instr_opstack_consumption instr - 1) t in
      let (dest, after) = destination void_type instr rest freed in
      let (dests, end) = determine_from void_type rest after in (dest ∷ dests, end)

-- With the function's local variables: each instruction's destination, and the local variables with
-- the temporaries among them.
unfoldable pub determine_instrs_destination :
    ℕ → List TypeId → TypeId → List IrInstr → List InstrDest × List TypeId
unfolding determine_from
determine_instrs_destination registers locals void_type instrs =
    let r =
      determine_from registers (length locals) void_type instrs
        (record { used_registers = 0; used_locals = 0; locals = locals }) in
    (r.0, r.1.locals)
