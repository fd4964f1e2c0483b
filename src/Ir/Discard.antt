-- ===== src/Ir/Discard.antt =====
-- `discard_opstack` of carbonc/ir.cc: what it takes off the operand stack after a statement.
use carbonlang.Prelude.{
  ℕ, zero, suc, ◌+◌, ◌-◌, ◌/◌, ◌≤◌, ◌≡◌, refl, Option, some, none, List, [], ◌∷◌, ◌++◌, arith, ltb,
  length, Bool-cases, inl, inr, ap, ltb→lt, length-append,
}
use carbonlang.Ir.{IrOperand}
use carbonlang.Ir.Opstack.{discard_loop, discard_opstack}

length-discard_loop :
    (f i : ℕ) (stack : List IrOperand)
    → length stack ≤ f
    → (length (discard_loop f i stack).0 ≡ (length stack + 1 - i) / 2)
      × ((discard_loop f i stack).0 ++ (discard_loop f i stack).1 ≡ stack)
unfolding discard_loop
length-discard_loop zero i [] h = (omega arith, refl)
length-discard_loop zero i (o ∷ os) h = absurd (omega arith)
length-discard_loop (suc f) i [] h = (omega arith, refl)
length-discard_loop (suc f) i (o ∷ os) h =
    let ih = length-discard_loop f (i + 1) os (omega arith) in
    elim (Bool-cases (ltb i (suc (length os)))) [
      | inl more ↦ rw more (omega (arith, ih.0, ltb→lt _ _ more), ap (◌∷◌ o) ih.1)
      | inr done ↦ rw done (ground arith, refl)
    ]

-- The operands of the `ir_noop` that the clean-up emits.
abbrev pub emitted : Option (List IrOperand) → List IrOperand
emitted none = []
emitted (some os) = os

-- The clean-up takes off the upper half of what lies above the given height, rounded up, and
-- emits it in the order of the stack; the lower half, rounded down, stays.
pub discard_opstack_half :
    (to_size : ℕ) (stack : List IrOperand)
    → to_size ≤ length stack
    → (length (discard_opstack to_size stack).1 ≡ to_size + (length stack - to_size) / 2)
      × (emitted (discard_opstack to_size stack).0 ++ (discard_opstack to_size stack).1 ≡ stack)
unfolding discard_opstack
discard_opstack_half to_size stack h = elim (Bool-cases (ltb to_size (length stack))) [
  | inl more ↦
      let r = length-discard_loop (length stack) to_size stack (omega arith) in
      let loop = discard_loop (length stack) to_size stack in
      rw more (omega (arith, r.0, ap length r.1, length-append loop.0 loop.1, ltb→lt _ _ more), r.1)
  | inr done ↦ rw done (ground arith, refl)
]
