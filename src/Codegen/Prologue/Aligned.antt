-- ===== src/Codegen/Prologue/Aligned.antt =====
-- carbonc/codegen_x64.cc, `generate_func_code`: the stack pointer, rbp and the arguments' offsets
-- in a function's body.
use carbonlang.Prelude.{
  ℕ, suc, ◌+◌, ◌-◌, ◌*◌, ◌/◌, ◌%◌, ◌≤◌, ◌≡◌, refl, sym, ap, ◌∙◌, inl, inr, Bool, true, false, ◌&&◌,
  List, ◌∷◌, ◌++◌, map, length, arith, ltb, if◌then◌else◌, Bool-cases,
}
use carbonlang.Codegen.Registers.{Register, rbp}
use carbonlang.Codegen.Prologue.{
  Asm, push, sub_rsp, mov_rbp_rsp, FuncCode, needs_rbp, num_pushes, pads, only_if, stores, prologue,
  body_arg_offset, fill, Cpu, sp, exec,
}
use carbonlang.Codegen.Prologue.Balance.{
  length-pushed, length-fill, saved, stored, saved_stack, stores_if, exec_append, exec_saves,
  prologue_stack,
}

aligned_arith :
    (base size pad k n : ℕ)
    → (8 * (pad + k)) % 16 ≡ 8
    → pad ≤ 1
    → size % 16 ≡ 0
    → (base - 8 * (1 + n)) % 16 ≡ 8
    → 8 * (size / 8 + (1 + k) + (1 + n)) ≤ base
    → (base - 8 * (size / 8 + pad + (k + (1 + n)))) % 16 ≡ 0
aligned_arith base size pad k n hk hp hs he room = omega arith

slot_arith :
    (base size pad k n t o : ℕ) (padded uses : Bool)
    → size % 16 ≡ 0
    → k ≡ (if uses then t + 1 else t)
    → 8 * (size / 8 + (1 + k) + (1 + n)) ≤ base
    → ((base - 8 * (size / 8 + (if padded then 1 else 0) + (k + (1 + n)))) + size)
        + ((o + (t * 8 + (if padded then 8 else 0))) + (if uses then 8 else 0))
      ≡ (base - 8 * suc n) + o
slot_arith base size pad k n t o true true h hk room = omega arith
slot_arith base size pad k n t o true false h hk room = omega arith
slot_arith base size pad k n t o false true h hk room = omega arith
slot_arith base size pad k n t o false false h hk room = omega arith

pointer_arith :
    (base size k n : ℕ) (padded : Bool)
    → size % 16 ≡ 0
    → 8 * (size / 8 + (1 + k) + (1 + n)) ≤ base
    → base - 8 * ((if padded then 1 else 0) + (k + (1 + n)))
      ≡ (base - 8 * (size / 8 + (if padded then 1 else 0) + (k + (1 + n)))) + size
pointer_arith base size k n true h room = omega arith
pointer_arith base size k n false h room = omega arith

module _ (base : ℕ) (merge : Register → ℕ → ℕ → ℕ) where
  length-saved : (f : FuncCode) → length (saved base merge f) ≡ num_pushes f
  length-saved f = elim (Bool-cases (needs_rbp f)) [
    | inl e ↦ rw e (omega arith)
    | inr e ↦ rw e refl
  ]

  frame_height :
      (p : Bool) (n : ℕ) (s : List ℕ)
      → length (fill n (if p then 0 ∷ s else s)) ≡ n + (if p then 1 else 0) + length s
  frame_height true n s = omega (arith, length-fill n (0 ∷ s))
  frame_height false n s = omega (arith, length-fill n s)

  saved_height :
      (f : FuncCode) (v : ℕ) (s : List ℕ) (regs : Register → ℕ)
      → length (saved_stack base merge f (record { regs = regs; stack = v ∷ s }))
        ≡ num_pushes f + (1 + length s)
  saved_height f v s regs =
      let c : Cpu = record { regs = regs; stack = v ∷ s } in
      let st = (stores_if base merge (f.has_args && f.calls_ever_made) f.reg_args v s regs).0 in
      let kept : length (stored base merge f c).stack ≡ 1 + length s =
        ap length st.stack ∙ (omega (arith, st.height)) in
      omega (
        arith,
        kept,
        length-saved f,
        length-pushed (saved base merge f) (stored base merge f c).regs
            (stored base merge f c).stack,
      )

  -- The number of words on the stack in the body.
  prologue_height :
      (f : FuncCode) (v : ℕ) (s : List ℕ) (regs : Register → ℕ)
      → length (exec base merge (prologue f) (record { regs = regs; stack = v ∷ s })).stack
        ≡ f.stack_size / 8 + (if pads f then 1 else 0) + (num_pushes f + (1 + length s))
  prologue_height f v s regs =
      let c : Cpu = record { regs = regs; stack = v ∷ s } in
      ap length (prologue_stack base merge f c)
      ∙ frame_height (pads f) (f.stack_size / 8) (saved_stack base merge f c)
      ∙ ap (λ n. f.stack_size / 8 + (if pads f then 1 else 0) + n) (saved_height f v s regs)

  pads_cases : (f : FuncCode) → (8 * ((if pads f then 1 else 0) + num_pushes f)) % 16 ≡ 8
  pads_cases f = elim (Bool-cases (pads f)) [
    | inl e ↦ rw e (ground arith)
    | inr e ↦ rw e (ground arith)
  ]

  exec_frame_rbp :
      (p : Bool) (n : ℕ) (positive : Bool) (c : Cpu)
      → (exec base merge
            (only_if p (sub_rsp 8) ++ (only_if true mov_rbp_rsp ++ only_if positive (sub_rsp n)))
            c).regs
          rbp
        ≡ base - 8 * ((if p then 1 else 0) + length c.stack)
  exec_frame_rbp true n true c = omega arith
  exec_frame_rbp true n false c = omega arith
  exec_frame_rbp false n true c = omega arith
  exec_frame_rbp false n false c = omega arith

  body_rbp :
      (f : FuncCode) (v : ℕ) (s : List ℕ) (regs : Register → ℕ)
      → needs_rbp f ≡ true
      → (exec base merge (prologue f) (record { regs = regs; stack = v ∷ s })).regs rbp
        ≡ base - 8 * ((if pads f then 1 else 0) + (num_pushes f + (1 + length s)))
  unfolding prologue
  body_rbp f v s regs uses =
      let c : Cpu = record { regs = regs; stack = v ∷ s } in
      let k : Bool → List Asm = λ b.
        only_if (pads f) (sub_rsp 8)
        ++ (only_if b mov_rbp_rsp ++ only_if (ltb 0 f.stack_size) (sub_rsp f.stack_size)) in
      let after : Cpu = record {
        regs = (stored base merge f c).regs;
        stack = saved_stack base merge f c;
      } in
      ap (λ x. x.regs rbp)
        (exec_append base merge (stores f)
            (only_if (needs_rbp f) (push rbp) ++ (map push f.temp_registers ++ k (needs_rbp f))) c
          ∙ exec_saves base merge (needs_rbp f) f.temp_registers (k (needs_rbp f))
              (stored base merge f c))
      ∙ ap (λ b. (exec base merge (k b) after).regs rbp) uses
      ∙ exec_frame_rbp (pads f) f.stack_size (ltb 0 f.stack_size) after
      ∙ ap (λ n. base - 8 * ((if pads f then 1 else 0) + n)) (saved_height f v s regs)

  -- What a body finds: the stack pointer at a multiple of 16, rbp (if it is used) above the frame,
  -- and an argument at its offset from there.
  pub record IsBody (f : FuncCode) (entry : ℕ) (c : Cpu) : Type 0 where
    pub aligned : sp base merge c % 16 ≡ 0
    pub frame_pointer : needs_rbp f ≡ true → c.regs rbp ≡ sp base merge c + f.stack_size
    pub arg_slot :
        (frame_offset : ℕ)
        → (sp base merge c + f.stack_size) + body_arg_offset f frame_offset ≡ entry + frame_offset

  -- A function that is called with the stack at a multiple of 16 has it so again in its body, where
  -- rbp is the top of its frame; an argument's frame offset, as changed for the body, leads from
  -- there to the same slot as the offset on entry from the stack pointer then. The frame's size is a
  -- multiple of 16, and the stack has room for it.
  pub prologue-IsBody :
      (f : FuncCode) (v : ℕ) (s : List ℕ) (regs : Register → ℕ)
      → f.stack_size % 16 ≡ 0
      → (base - 8 * (1 + length s)) % 16 ≡ 8
      → 8 * (f.stack_size / 8 + (1 + num_pushes f) + (1 + length s)) ≤ base
      → IsBody f
          (sp base merge (record { regs = regs; stack = v ∷ s }))
          (exec base merge (prologue f) (record { regs = regs; stack = v ∷ s }))
  unfolding body_arg_offset
  prologue-IsBody f v s regs h16 entry room =
      let height = prologue_height f v s regs in
      record {
        aligned =
            ap (λ n. (base - 8 * n) % 16) height
            ∙ aligned_arith base f.stack_size (if pads f then 1 else 0) (num_pushes f) (length s)
                (pads_cases f) (ground arith) h16 entry room;
        frame_pointer = λ uses.
            body_rbp f v s regs uses
            ∙ pointer_arith base f.stack_size (num_pushes f) (length s) (pads f) h16 room
            ∙ ap (λ n. (base - 8 * n) + f.stack_size) (sym height);
        arg_slot = λ o.
            ap (λ n. ((base - 8 * n) + f.stack_size) + body_arg_offset f o) height
            ∙ slot_arith base f.stack_size 0 (num_pushes f) (length s) (length f.temp_registers) o
                (pads f) (needs_rbp f) h16 refl room;
      }
