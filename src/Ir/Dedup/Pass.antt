-- ===== src/Ir/Dedup/Pass.antt =====
-- The rounds of `opt_replace_duplicates` of carbonc/ir.cc, one after the other.
use carbonlang.Prelude.{
  ℕ, zero, suc, ◌+◌, ◌≤◌, ◌<◌, ◌≡◌, subst, refl, sym, ◌∙◌, ap, ◌⊎◌, inl, inr, Bool, true, false,
  not, ◌&&◌, List, [], ◌∷◌, arith, ◌==◌, if◌then◌else◌, length, Bool-cases,
}
use mathlib.Core.Path.{ap₂}
use carbonlang.TypeId.{TypeId}
use carbonlang.Ir.{IrInstr}
use carbonlang.Ir.Opstack.{
  instr_opstack_consumption, instr_pushes_to_stack, instr_can_be_replaced, contents_equal,
}
use carbonlang.Ir.Dedup.{stack_dup_of, replace_after, replace_from}

-- What an instruction takes from the operand stack and whether it leaves an operand there.
abbrev pub profile : TypeId → IrInstr → ℕ × Bool
profile v i = (instr_opstack_consumption i, instr_pushes_to_stack v i)

-- The instruction's value is on top of the operand stack after the ones before it, the latest first:
-- since then there was nothing but what leaves the stack alone, and duplications of its top.
pub data Reaches (v : TypeId) (self : IrInstr) : List IrInstr → Type 0 where
  here : {past : List IrInstr} → Reaches v self (self ∷ past)
  passed :
      (x : IrInstr) {past : List IrInstr}
      → profile v x ≡ (0, false)
      → Reaches v self past
      → Reaches v self (x ∷ past)
  copied :
      (x : IrInstr) (j : ℕ) {past : List IrInstr}
      → Reaches v self past
      → Reaches v self (stack_dup_of x j ∷ past)

abbrev pub IsOnTop : TypeId → IrInstr → List IrInstr → Type 0
IsOnTop v a past = (self : IrInstr) × (contents_equal self a ≡ true) × Reaches v self past

-- It does not directly follow an equal instruction that it could be replaced by.
abbrev pub IsNew : TypeId → IrInstr → List IrInstr → Type 0
IsNew v a [] = Unit
IsNew v a (x ∷ past) = (contents_equal x a && instr_can_be_replaced v a) ≡ false

-- One list is the other, from index `j`, with some instructions turned into duplications of a value
-- on top of the stack; `past` are the instructions before, the latest first.
abbrev pub Replaces : TypeId → List IrInstr → ℕ → List IrInstr → List IrInstr → Type 0
Replaces v past j [] [] = Unit
Replaces v past j (a ∷ l) (b ∷ r) =
    ((b ≡ a) × IsNew v a past
      ⊎ (instr_can_be_replaced v a ≡ true) × (b ≡ stack_dup_of a j) × IsOnTop v a past)
    × Replaces v (b ∷ past) (j + 1) l r
Replaces v past j _ _ = ⊥

abbrev move : TypeId → ℕ → IrInstr → ℕ
move v effect a =
    effect + instr_opstack_consumption a + (if instr_pushes_to_stack v a then 1 else 0)

-- What one round of the outer loop does, with how far the stack has moved since its instruction.
abbrev Pass : TypeId → IrInstr → ℕ → ℕ → List IrInstr → List IrInstr → Type 0
Pass v self effect j [] [] = Unit
Pass v self effect j (a ∷ l) (b ∷ m) =
    ((b ≡ a)
      × (effect ≡ 0 → (contents_equal self a && instr_can_be_replaced v a) ≡ false)
      × Pass v self (move v effect a) (j + 1) l m)
    ⊎ ((effect ≡ 0)
        × (contents_equal self a ≡ true)
        × (instr_can_be_replaced v a ≡ true)
        × (b ≡ stack_dup_of a j)
        × Pass v self effect (j + 1) l m)
Pass v self effect j _ _ = ⊥

Pass-refl :
    (v : TypeId) (self : IrInstr) (effect j : ℕ) (l : List IrInstr)
    → 0 < effect
    → Pass v self effect j l l
Pass-refl v self effect j [] h = tt
Pass-refl v self effect j (a ∷ l) h =
    inl (
      refl,
      (λ e. absurd (omega arith)),
      Pass-refl v self (move v effect a) (j + 1) l (omega arith),
    )

replace_after-Pass :
    (v : TypeId) (self : IrInstr) (effect j : ℕ) (l : List IrInstr)
    → Pass v self effect j l (replace_after v self effect j l)
unfolding replace_after
replace_after-Pass v self effect j [] = tt
replace_after-Pass v self effect j (a ∷ l) = elim (Bool-cases (not (effect == 0))) [
  | inl moved ↦ rw moved (Pass-refl v self effect j (a ∷ l) (ground arith))
  | inr still ↦ elim (Bool-cases (contents_equal self a && instr_can_be_replaced v a)) [
    | inl copy ↦
        rw (still, copy)
          (inr (
            ground arith,
            ground (arith, copy),
            ground (arith, copy),
            refl,
            replace_after-Pass v self effect (j + 1) l,
          ))
    | inr other ↦
        rw (still, other)
          (inl (refl, (λ e. other), replace_after-Pass v self (move v effect a) (j + 1) l))
  ]
]

Pass-length :
    (v : TypeId) (self : IrInstr) (effect j : ℕ) (l m : List IrInstr)
    → Pass v self effect j l m
    → length m ≡ length l
Pass-length v self effect j [] [] h = refl
Pass-length v self effect j [] (b ∷ m) h = elim h [ ]
Pass-length v self effect j (a ∷ l) [] h = elim h [ ]
Pass-length v self effect j (a ∷ l) (b ∷ m) (inl (e, n, h)) =
    ap suc (Pass-length v self (move v effect a) (j + 1) l m h)
Pass-length v self effect j (a ∷ l) (b ∷ m) (inr (z, c, k, e, h)) =
    ap suc (Pass-length v self effect (j + 1) l m h)

-- A duplication is not replaced again.
stack_dup_stays :
    (v : TypeId) (a : IrInstr) (j : ℕ) → instr_can_be_replaced v (stack_dup_of a j) ≡ false
unfolding instr_can_be_replaced
stack_dup_stays v a j = refl

still-profile :
    (v : TypeId) (a : IrInstr) (effect : ℕ)
    → effect + instr_opstack_consumption a + (if instr_pushes_to_stack v a then 1 else 0) ≡ 0
    → (effect ≡ 0) × (profile v a ≡ (0, false))
still-profile v a effect h = elim (Bool-cases (instr_pushes_to_stack v a)) [
  | inl yes' ↦ absurd (ground (arith, h))
  | inr no' ↦ (ground (arith, h), ap₂ (λ n b. (n, b)) (ground (arith, h)) no')
]

-- A round, and what the later rounds make of its result.
Pass-Replaces :
    (v : TypeId) (self : IrInstr) (effect j : ℕ) (past l m r : List IrInstr)
    → Pass v self effect j l m
    → (effect ≡ 0 → Reaches v self past)
    → Replaces v past j m r
    → Replaces v past j l r
Pass-Replaces v self effect j past [] [] [] p t q = tt
Pass-Replaces v self effect j past [] [] (c ∷ r) p t q = elim q [ ]
Pass-Replaces v self effect j past [] (b ∷ m) r p t q = elim p [ ]
Pass-Replaces v self effect j past (a ∷ l) [] r p t q = elim p [ ]
Pass-Replaces v self effect j past (a ∷ l) (b ∷ m) [] p t q = elim q [ ]
Pass-Replaces v self effect j past (a ∷ l) (b ∷ m) (c ∷ r) (inl (e, n, p)) t (inl (f, g), q) = (
  inl (f ∙ e, subst (λ x. IsNew v x past) e g),
  Pass-Replaces v self (move v effect a) (j + 1) (c ∷ past) l m r p
      (λ z.
        let (z', s) = still-profile v a effect z in passed c (ap (profile v) (f ∙ e) ∙ s) (t z'))
      q,
)
Pass-Replaces v self effect j past (a ∷ l) (b ∷ m) (c ∷ r) (inl (e, n, p)) t (inr (k, f, o), q) = (
  inr (
    subst (λ x. instr_can_be_replaced v x ≡ true) e k,
    f ∙ ap (λ x. stack_dup_of x j) e,
    subst (λ x. IsOnTop v x past) e o,
  ),
  Pass-Replaces v self (move v effect a) (j + 1) (c ∷ past) l m r p
      (λ z.
        subst (λ x. Reaches v self (x ∷ past)) (sym f)
          (copied b j (t (still-profile v a effect z).0)))
      q,
)
Pass-Replaces v self effect j past (a ∷ l) (b ∷ m) (c ∷ r) (inr (z, w, k, e, p)) t (inl (f, g), q) =
    (
      inr (k, f ∙ e, (self, w, t z)),
      Pass-Replaces v self effect (j + 1) (c ∷ past) l m r p
          (λ _. subst (λ x. Reaches v self (x ∷ past)) (sym (f ∙ e)) (copied a j (t z))) q,
    )
Pass-Replaces v self effect j past (a ∷ l) (b ∷ m) (c ∷ r) (inr (z, w, k, e, p)) t
      (inr (k', f, o), q) =
    cc (subst (λ x. instr_can_be_replaced v x ≡ true) e k', stack_dup_stays v a j)

abbrev StartsNew : TypeId → List IrInstr → List IrInstr → Type 0
StartsNew v past [] = Unit
StartsNew v past (a ∷ l) = IsNew v a past

and_false : (b : Bool) → (b && false) ≡ false
and_false true = refl
and_false false = refl

Pass-StartsNew :
    (v : TypeId) (self : IrInstr) (j : ℕ) (past l m : List IrInstr)
    → Pass v self 0 j l m
    → StartsNew v (self ∷ past) m
Pass-StartsNew v self j past [] [] h = tt
Pass-StartsNew v self j past [] (b ∷ m) h = elim h [ ]
Pass-StartsNew v self j past (a ∷ l) [] h = elim h [ ]
Pass-StartsNew v self j past (a ∷ l) (b ∷ m) (inl (e, n, h)) =
    subst (λ x. IsNew v x (self ∷ past)) (sym e) (n refl)
Pass-StartsNew v self j past (a ∷ l) (b ∷ m) (inr (z, w, k, e, h)) =
    subst (λ x. IsNew v x (self ∷ past)) (sym e)
      (ap (λ x. contents_equal self (stack_dup_of a j) && x) (stack_dup_stays v a j)
        ∙ and_false (contents_equal self (stack_dup_of a j)))

pub replace_from-Replaces :
    (f : ℕ) (v : TypeId) (i : ℕ) (past l : List IrInstr)
    → length l ≤ f
    → StartsNew v past l
    → Replaces v past i l (replace_from f v i l)
unfolding replace_from
replace_from-Replaces zero v i past [] h s = tt
replace_from-Replaces zero v i past (a ∷ l) h s = absurd (omega arith)
replace_from-Replaces (suc f) v i past [] h s = tt
replace_from-Replaces (suc f) v i past (a ∷ l) h s =
    let m = replace_after v a 0 (i + 1) l in
    let p = replace_after-Pass v a 0 (i + 1) l in
    (
      inl (refl, s),
      Pass-Replaces v a 0 (i + 1) (a ∷ past) l m _ p (λ _. here)
          (replace_from-Replaces f v (i + 1) (a ∷ past) m
            (omega (arith, Pass-length v a 0 (i + 1) l m p))
            (Pass-StartsNew v a (i + 1) past l m p)),
    )
