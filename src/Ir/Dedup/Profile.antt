-- ===== src/Ir/Dedup/Profile.antt =====
-- `opt_replace_duplicates` of carbonc/ir.cc: which instructions it replaces, and what each does to the
-- operand stack.
use carbonlang.Prelude.{
  ℕ, ◌+◌, ◌≡◌, refl, sym, ◌∙◌, ap, ◌⊎◌, inl, inr, Bool, true, false, not, ◌&&◌, List, [], ◌∷◌, map,
  arith, ◌==◌, length,
}
use mathlib.Core.Path.{ap₂}
use carbonlang.TypeId.{TypeId}
use carbonlang.Ir.{IrInstr}
use carbonlang.Ir.Opstack.{
  instr_opstack_consumption, instr_pushes_to_stack, instr_has_side_effect, instr_can_be_replaced,
}
use carbonlang.Ir.Dedup.{stack_dup_of, replace_from, opt_replace_duplicates}
use carbonlang.Ir.Dedup.Same.{IsCopy, contents_equal-IsCopy, IsCopy-contents_equal}
use carbonlang.Ir.Dedup.Pass.{profile, Reaches, IsNew, Replaces, replace_from-Replaces}

-- It pushes a value, takes none and does nothing else.
abbrev pub IsReplaceable : TypeId → IrInstr → Type 0
IsReplaceable v a =
    (instr_pushes_to_stack v a ≡ true)
    × (instr_opstack_consumption a ≡ 0)
    × (instr_has_side_effect a ≡ false)

instr_can_be_replaced-true :
    (v : TypeId) (a : IrInstr) → instr_can_be_replaced v a ≡ true → IsReplaceable v a
unfolding instr_can_be_replaced
instr_can_be_replaced-true v a h = split_three _ _ _ h
  where
    split_three :
        (p : Bool) (n : ℕ) (s : Bool)
        → (p && n == 0 && not s) ≡ true
        → (p ≡ true) × (n ≡ 0) × (s ≡ false)
    split_three true n true h = ground (arith, h)
    split_three true n false h = (refl, ground (arith, h), refl)
    split_three false n s h = cc

IsReplaceable-instr_can_be_replaced :
    (v : TypeId) (a : IrInstr) → IsReplaceable v a → instr_can_be_replaced v a ≡ true
unfolding instr_can_be_replaced
IsReplaceable-instr_can_be_replaced v a (p, n, s) = rw (p, n, s) refl

-- The value of an instruction that it is a copy of is on top of the operand stack, `past` being the
-- instructions before, the latest first.
abbrev pub IsOnTop : TypeId → IrInstr → List IrInstr → Type 0
IsOnTop v a past = (self : IrInstr) × IsCopy self a × Reaches v self past

-- It could be replaced by the instruction right before it.
abbrev pub Repeats : TypeId → IrInstr → List IrInstr → Type 0
Repeats v a [] = ⊥
Repeats v a (x ∷ past) = IsCopy x a × IsReplaceable v a

-- One list is the other, from index `j`, with some instructions turned into duplications of a value on
-- top of the stack.
abbrev pub WithDuplications : TypeId → List IrInstr → ℕ → List IrInstr → List IrInstr → Type 0
WithDuplications v past j [] [] = Unit
WithDuplications v past j (a ∷ l) (b ∷ r) =
    ((b ≡ a) × (¬ Repeats v a past) ⊎ IsReplaceable v a × (b ≡ stack_dup_of a j) × IsOnTop v a past)
    × WithDuplications v (b ∷ past) (j + 1) l r
WithDuplications v past j _ _ = ⊥

IsNew-Repeats :
    (v : TypeId) (a : IrInstr) (past : List IrInstr) → IsNew v a past → ¬ Repeats v a past
IsNew-Repeats v a [] h r = r
IsNew-Repeats v a (x ∷ past) h (same, can) =
    let e = IsCopy-contents_equal x a same in
    let f = IsReplaceable-instr_can_be_replaced v a can in ground (arith, rw (e, f) at h)

Replaces-WithDuplications :
    (v : TypeId) (past : List IrInstr) (j : ℕ) (l r : List IrInstr)
    → Replaces v past j l r
    → WithDuplications v past j l r
Replaces-WithDuplications v past j [] [] h = tt
Replaces-WithDuplications v past j [] (b ∷ r) h = elim h [ ]
Replaces-WithDuplications v past j (a ∷ l) [] h = elim h [ ]
Replaces-WithDuplications v past j (a ∷ l) (b ∷ r) (inl (e, n), hs) =
    (inl (e, IsNew-Repeats v a past n), Replaces-WithDuplications v (b ∷ past) (j + 1) l r hs)
Replaces-WithDuplications v past j (a ∷ l) (b ∷ r) (inr (k, e, (self, same, t)), hs) = (
  inr (instr_can_be_replaced-true v a k, e, (self, contents_equal-IsCopy self a same, t)),
  Replaces-WithDuplications v (b ∷ past) (j + 1) l r hs,
)

stack_dup-profile :
    (v : TypeId) (a : IrInstr) (j : ℕ)
    → IsReplaceable v a
    → profile v (stack_dup_of a j) ≡ profile v a
unfolding instr_opstack_consumption instr_pushes_to_stack
stack_dup-profile v a j (pushes, pops_none, _) = ap₂ (λ n b. (n, b)) (sym pops_none) (sym pushes)

WithDuplications-profile :
    (v : TypeId) (past : List IrInstr) (j : ℕ) (l r : List IrInstr)
    → WithDuplications v past j l r
    → map (profile v) r ≡ map (profile v) l
WithDuplications-profile v past j [] [] h = refl
WithDuplications-profile v past j [] (b ∷ r) h = elim h [ ]
WithDuplications-profile v past j (a ∷ l) [] h = elim h [ ]
WithDuplications-profile v past j (a ∷ l) (b ∷ r) (inl (e, n), hs) =
    ap₂ ◌∷◌ (ap (profile v) e) (WithDuplications-profile v (b ∷ past) (j + 1) l r hs)
WithDuplications-profile v past j (a ∷ l) (b ∷ r) (inr (k, e, o), hs) =
    ap₂ ◌∷◌ (ap (profile v) e ∙ stack_dup-profile v a j k)
      (WithDuplications-profile v (b ∷ past) (j + 1) l r hs)

replaced : (v : TypeId) (l : List IrInstr) → WithDuplications v [] 0 l (opt_replace_duplicates v l)
unfolding opt_replace_duplicates
replaced v [] = tt
replaced v (a ∷ l) =
    Replaces-WithDuplications v [] 0 (a ∷ l) (replace_from (length (a ∷ l)) v 0 (a ∷ l))
      (replace_from-Replaces (length (a ∷ l)) v 0 [] (a ∷ l) (omega arith) tt)

-- Replacing duplicates leaves each instruction as it is, or turns one that pushes a value, pops none
-- and has no side effect into a duplication with its result type and index. It does so only where an
-- earlier instruction has the same operation, result type and operands (of two fields of fields, by
-- the address that holds the inner one) and nothing but instructions that leave the operand stack
-- alone and duplications of its top stand in between, so that the earlier one's value is on top; and
-- it does so wherever such an instruction would directly follow its copy. Every instruction pops and
-- pushes as many operands as before.
pub opt_replace_duplicates-WithDuplications :
    (v : TypeId) (l : List IrInstr)
    → WithDuplications v [] 0 l (opt_replace_duplicates v l)
      × (map (profile v) (opt_replace_duplicates v l) ≡ map (profile v) l)
opt_replace_duplicates-WithDuplications v l =
    (replaced v l, WithDuplications-profile v [] 0 l _ (replaced v l))
