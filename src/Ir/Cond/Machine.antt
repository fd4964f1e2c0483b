-- ===== src/Ir/Cond/Machine.antt =====
-- What the instructions of a condition do: a machine with a stack of values, on code whose jumps
-- all go forward. The values and their operations are the target's, and so parameters.
use carbonlang.Prelude.{
  ℕ, ◌≡◌, Bool, true, false, not, Option, some, none, List, [], ◌∷◌, if◌then◌else◌,
}
use carbonlang.Prelude.Int.{ℤ}
use carbonlang.Ir.{
  IrOp, Label, label_eq, IrOperand, ir_label, ir_local, ir_arg, ir_stackpop, ir_int, IrInstr,
}

-- The six comparisons of the intermediate code.
pub data Rel : Type 0 where
  lt gt lteq gteq eq neq : Rel

abbrev pub opposite : Rel → Rel
opposite lt = gteq
opposite gt = lteq
opposite lteq = gt
opposite gteq = lt
opposite eq = neq
opposite neq = eq

-- The arithmetic of the machine that the code runs on. That a comparison fails exactly when the
-- opposite one holds is what inverted jumps rely on.
pub record Target : Type 1 where
  pub Value : Type 0
  pub constant : ℤ → Value
  pub compute : IrOp → Value → Value → Value
  pub negate : Value → Value
  pub holds : Rel → Value → Value → Bool
  pub holds-opposite : (r : Rel) (a b : Value) → holds (opposite r) a b ≡ not (holds r a b)

-- The comparison that a conditional jump makes.
unfoldable pub jump_rel : IrOp → Option Rel
jump_rel IrOp.ir_jmp_lt = some lt
jump_rel IrOp.ir_jmp_gt = some gt
jump_rel IrOp.ir_jmp_lte = some lteq
jump_rel IrOp.ir_jmp_gte = some gteq
jump_rel IrOp.ir_jmp_eq = some eq
jump_rel IrOp.ir_jmp_neq = some neq
jump_rel _ = none

unfoldable pub is_binary : IrOp → Bool
is_binary IrOp.ir_add = true
is_binary IrOp.ir_sub = true
is_binary IrOp.ir_mul = true
is_binary IrOp.ir_div = true
is_binary IrOp.ir_and = true
is_binary IrOp.ir_or = true
is_binary IrOp.ir_shr = true
is_binary IrOp.ir_shl = true
is_binary _ = false

module _ (m : Target) where
  open m use {Value, constant, compute, negate, holds}

  -- The variables and arguments do not change while a condition is evaluated.
  pub record Frame : Type 0 where
    pub locals : ℕ → Value
    pub args : ℕ → Value

  -- An operand's value, and the stack without what it takes.
  abbrev pub read : Frame → IrOperand → List Value → Option (Value × List Value)
  read f (ir_int v t) s = some (constant v, s)
  read f (ir_local i t) s = some (f.locals i, s)
  read f (ir_arg i t) s = some (f.args i, s)
  read f (ir_stackpop t i) (v ∷ s) = some (v, s)
  read f _ s = none

  -- After an instruction: on to the next one, a jump, or stuck.
  pub data After : Type 0 where
    next : List Value → After
    jump : Label → List Value → After
    fault : After

  -- The second operand is taken first.
  abbrev read_two : Frame → IrOperand → IrOperand → List Value → Option (Value × Value × List Value)
  read_two f a b s = elim (read f b s) [
    | none ↦ none
    | some (vb, s') ↦ elim (read f a s') [ none ↦ none | some (va, s'') ↦ some (va, vb, s'') ]
  ]

  abbrev step_two : Frame → IrOp → IrOperand → IrOperand → List Value → After
  step_two f op a b s = elim (read_two f a b s) [
    | none ↦ fault
    | some (va, vb, s') ↦ if is_binary op then next (compute op va vb ∷ s') else fault
  ]

  abbrev step_jump : Frame → Option Rel → IrOperand → IrOperand → Label → List Value → After
  step_jump f none a b label s = fault
  step_jump f (some r) a b label s = elim (read_two f a b s) [
    | none ↦ fault
    | some (va, vb, s') ↦ if holds r va vb then jump label s' else next s'
  ]

  abbrev step_neg : Frame → IrOp → IrOperand → List Value → After
  step_neg f IrOp.ir_neg a s = elim (read f a s) [
    | none ↦ fault
    | some (v, s') ↦ next (negate v ∷ s')
  ]
  step_neg f IrOp.ir_make_label (ir_label l) s = next s
  step_neg f _ a s = fault

  abbrev pub step : Frame → IrOp → List IrOperand → List Value → After
  step f op (a ∷ []) s = step_neg f op a s
  step f op (a ∷ b ∷ []) s = step_two f op a b s
  step f op (a ∷ b ∷ ir_label l ∷ []) s = step_jump f (jump_rel op) a b l s
  step f op _ s = fault

  abbrev made_label : IrOp → IrOperand → Option Label
  made_label IrOp.ir_make_label (ir_label l) = some l
  made_label _ _ = none

  abbrev pub label_of : IrOp → List IrOperand → Option Label
  label_of op [] = none
  label_of op (a ∷ []) = made_label op a
  label_of op (a ∷ b ∷ os) = none

  -- How a piece of code ends: at its end, or by a jump to a label that it does not hold.
  pub data Outcome : Type 0 where
    fell : List Value → Outcome
    left : Label → List Value → Outcome
    stuck : Outcome

  -- A jump is pending until its label is met.
  abbrev pub pending_at : IrInstr → Label → Option Label
  pending_at i l = elim (label_of i.op i.operands) [
    | none ↦ some l
    | some k ↦ if label_eq l k then none else some l
  ]

  unfoldable pub run : Frame → Option Label → List IrInstr → List Value → Outcome
  unfolding jump_rel is_binary label_eq
  run f none [] s = fell s
  run f (some l) [] s = left l s
  run f (some l) (i ∷ c) s = run f (pending_at i l) c s
  run f none (i ∷ c) s = elim (step f i.op i.operands s) [
    | next s' ↦ run f none c s'
    | jump l s' ↦ run f (some l) c s'
    | fault ↦ stuck
  ]
