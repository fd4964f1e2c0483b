-- ===== src/Codegen/Prologue/Balance.antt =====
-- carbonc/codegen_x64.cc, `generate_func_code`: the prologue and the epilogue around any body.
use carbonlang.Prelude.{
  subst, ℕ, zero, suc, ◌+◌, ◌*◌, ◌/◌, ◌≡◌, refl, sym, ap, ◌∙◌, inl, inr, Bool, true, false, ◌&&◌,
  List, [], ◌∷◌, ◌++◌, All, append-nil, map, length, drop, arith, ltb, ◌==◌, ==_iff, ==_refl,
  if◌then◌else◌, Bool-cases,
}
use carbonlang.Codegen.Registers.{Register, rbp, adjust_for_type}
use carbonlang.Codegen.Prologue.{
  Asm, push, pop, sub_rsp, add_rsp, mov_rbp_rsp, store_arg, FuncCode, needs_rbp, pads, store_args,
  only_if, stores, prologue, pops, padded_size, epilogue, fill, Cpu, set_reg, replace_at, step,
  exec,
}

drop-fill : (n : ℕ) (s : List ℕ) → drop n (fill n s) ≡ s
drop-fill zero s = refl
drop-fill (suc n) s = drop-fill n s

pub length-fill : (n : ℕ) (s : List ℕ) → length (fill n s) ≡ n + length s
length-fill zero s = omega arith
length-fill (suc n) s = omega (arith, length-fill n s)

drop_past : (n : ℕ) (s : List ℕ) → drop (suc n) (fill n (0 ∷ s)) ≡ s
drop_past zero s = refl
drop_past (suc n) s = drop_past n s

length-replace_at : (n : ℕ) (f : ℕ → ℕ) (s : List ℕ) → length (replace_at n f s) ≡ length s
length-replace_at n f [] = refl
length-replace_at zero f (v ∷ s) = refl
length-replace_at (suc n) f (v ∷ s) = omega (arith, length-replace_at n f s)

set_other : (σ ρ : Register → ℕ) (r x : Register) → ρ x ≡ σ x → set_reg ρ r (σ r) x ≡ σ x
set_other σ ρ r x e = elim (Bool-cases (x == r)) [
  | inl same ↦ rw same (ap σ (sym ((==_iff x r).0 same)))
  | inr differ ↦ rw differ e
]

-- The stack with the values of these registers pushed.
abbrev pub pushed : List Register → (Register → ℕ) → List ℕ → List ℕ
pushed [] σ s = s
pushed (r ∷ rs) σ s = pushed rs σ (σ r ∷ s)

pub length-pushed :
    (rs : List Register) (σ : Register → ℕ) (s : List ℕ)
    → length (pushed rs σ s) ≡ length rs + length s
length-pushed [] σ s = omega arith
length-pushed (r ∷ rs) σ s = omega (arith, length-pushed rs σ (σ r ∷ s))

module _ (base : ℕ) (merge : Register → ℕ → ℕ → ℕ) where
  pub exec_append :
      (a b : List Asm) (c : Cpu)
      → exec base merge (a ++ b) c ≡ exec base merge b (exec base merge a c)
  exec_append [] b c = refl
  exec_append (i ∷ a) b c = exec_append a b (step base merge i c)

  exec_pushes :
      (rs : List Register) (c : Cpu)
      → exec base merge (map push rs) c ≡ record { regs = c.regs; stack = pushed rs c.regs c.stack }
  exec_pushes [] c = refl
  exec_pushes (r ∷ rs) c = exec_pushes rs (step base merge (push r) c)

  -- Popped in the opposite order, the registers have their values back.
  record Popped (rs : List Register) (σ ρ : Register → ℕ) (s : List ℕ) : Type 0 where
    regs : Register → ℕ
    result :
        exec base merge (pops rs) (record { regs = ρ; stack = pushed rs σ s })
        ≡ record { regs = regs; stack = s }
    restored : All (λ x. regs x ≡ σ x) rs

  All-set :
      (σ ρ : Register → ℕ) (r : Register) (rs : List Register)
      → All (λ x. ρ x ≡ σ x) rs
      → All (λ x. set_reg ρ r (σ r) x ≡ σ x) rs
  All-set σ ρ r [] h = tt
  All-set σ ρ r (x ∷ rs) (e, h) = (set_other σ ρ r x e, All-set σ ρ r rs h)

  exec_pops : (rs : List Register) (σ ρ : Register → ℕ) (s : List ℕ) → Popped rs σ ρ s
  exec_pops [] σ ρ s = record { regs = ρ; result = refl; restored = tt }
  exec_pops (r ∷ rs) σ ρ s =
      let rest = exec_pops rs σ ρ (σ r ∷ s) in
      record {
        regs = set_reg rest.regs r (σ r);
        result =
            exec_append (pops rs) (pop r ∷ []) _ ∙ ap (exec base merge (pop r ∷ [])) rest.result;
        restored = (rw (==_refl r) refl, All-set σ rest.regs r rs rest.restored);
      }

  stores_regs :
      (args : List (Register × ℕ)) (n : ℕ) (c : Cpu)
      → (exec base merge (store_args args n) c).regs ≡ c.regs
  unfolding store_args
  stores_regs [] n c = refl
  stores_regs ((r, size) ∷ args) n c =
      ap (λ x. x.regs)
        (exec_append (store_args args (n + 1))
          (store_arg (8 * (n + 1)) (adjust_for_type r size) ∷ []) c)
      ∙ stores_regs args (n + 1) c

  -- Storing arguments leaves the return address and the height of the stack.
  pub record Stored (v : ℕ) (s : List ℕ) (c : Cpu) : Type 0 where
    pub words : List ℕ
    pub stack : c.stack ≡ v ∷ words
    pub height : length words ≡ length s

  stores_stack :
      (args : List (Register × ℕ)) (n v : ℕ) (s : List ℕ) (regs : Register → ℕ)
      → Stored v s (exec base merge (store_args args n) (record { regs = regs; stack = v ∷ s }))
  unfolding store_args
  stores_stack [] n v s regs = record { words = s; stack = refl; height = refl }
  stores_stack ((r, size) ∷ args) n v s regs =
      let c : Cpu = record { regs = regs; stack = v ∷ s } in
      let rest = stores_stack args (n + 1) v s regs in
      let after = exec base merge (store_args args (n + 1)) c in
      let part = adjust_for_type r size in
      let f = merge part (after.regs part) in
      let at : 8 * (n + 1) / 8 ≡ suc n = omega arith in
      record {
        words = replace_at n f rest.words;
        stack =
            ap (λ x. x.stack)
              (exec_append (store_args args (n + 1)) (store_arg (8 * (n + 1)) part ∷ []) c)
            ∙ ap (λ i. replace_at i f after.stack) at
            ∙ ap (replace_at (suc n) f) rest.stack;
        height = length-replace_at n f rest.words ∙ rest.height;
      }

  -- The registers that the code saves.
  abbrev pub saved : FuncCode → List Register
  saved f = if needs_rbp f then rbp ∷ f.temp_registers else f.temp_registers

  pub exec_saves :
      (b : Bool) (rs : List Register) (k : List Asm) (c : Cpu)
      → exec base merge (only_if b (push rbp) ++ (map push rs ++ k)) c
        ≡ exec base merge k
            (record { regs = c.regs; stack = pushed (if b then rbp ∷ rs else rs) c.regs c.stack })
  exec_saves true rs k c =
      exec_append (map push rs) k (step base merge (push rbp) c)
      ∙ ap (exec base merge k) (exec_pushes rs (step base merge (push rbp) c))
  exec_saves false rs k c =
      exec_append (map push rs) k c ∙ ap (exec base merge k) (exec_pushes rs c)

  -- What is done after the pushes, to the stack and to rbp.
  exec_frame :
      (p b : Bool) (n : ℕ) (positive : Bool) (c : Cpu)
      → (positive ≡ false → n ≡ 0)
      → (exec base merge
          (only_if p (sub_rsp 8) ++ (only_if b mov_rbp_rsp ++ only_if positive (sub_rsp n)))
          c).stack
        ≡ fill (n / 8) (if p then 0 ∷ c.stack else c.stack)
  exec_frame true true n true c h = refl
  exec_frame true false n true c h = refl
  exec_frame false true n true c h = refl
  exec_frame false false n true c h = refl
  exec_frame true true n false c h = rw (h refl) refl
  exec_frame true false n false c h = rw (h refl) refl
  exec_frame false true n false c h = rw (h refl) refl
  exec_frame false false n false c h = rw (h refl) refl

  pub stores_if :
      (b : Bool) (args : List (Register × ℕ)) (v : ℕ) (s : List ℕ) (regs : Register → ℕ)
      → Stored v s (
          exec base merge
            (if b then store_args args 0 else [])
            (record { regs = regs; stack = v ∷ s }))
        × ((exec base merge
              (if b then store_args args 0 else [])
              (record { regs = regs; stack = v ∷ s })).regs
            ≡ regs)
  stores_if true args v s regs = (stores_stack args 0 v s regs, stores_regs args 0 _)
  stores_if false args v s regs = (record { words = s; stack = refl; height = refl }, refl)

  abbrev pub stored : FuncCode → Cpu → Cpu
  stored f c = exec base merge (stores f) c

  abbrev pub saved_stack : FuncCode → Cpu → List ℕ
  saved_stack f c = pushed (saved f) (stored f c).regs (stored f c).stack

  pub prologue_stack :
      (f : FuncCode) (c : Cpu)
      → (exec base merge (prologue f) c).stack
        ≡ fill (f.stack_size / 8) (if pads f then 0 ∷ saved_stack f c else saved_stack f c)
  unfolding prologue
  prologue_stack f c =
      let k =
        only_if (pads f) (sub_rsp 8)
        ++ (only_if (needs_rbp f) mov_rbp_rsp
            ++ only_if (ltb 0 f.stack_size) (sub_rsp f.stack_size)) in
      ap (λ x. x.stack)
        (exec_append (stores f)
            (only_if (needs_rbp f) (push rbp) ++ (map push f.temp_registers ++ k)) c
          ∙ exec_saves (needs_rbp f) f.temp_registers k (stored f c))
      ∙ exec_frame (pads f) (needs_rbp f) f.stack_size (ltb 0 f.stack_size)
          (record { regs = (stored f c).regs; stack = saved_stack f c }) (λ h. ground arith)

  drop_frame :
      (p : Bool) (n : ℕ) (s : List ℕ)
      → drop ((if p then n + 8 else n) / 8) (fill (n / 8) (if p then 0 ∷ s else s)) ≡ s
  drop_frame true n s =
      let whole : (n + 8) / 8 ≡ suc (n / 8) = omega arith in
      ap (λ k. drop k (fill (n / 8) (0 ∷ s))) whole ∙ drop_past (n / 8) s
  drop_frame false n s = drop-fill (n / 8) s

  exec_add :
      (positive : Bool) (n : ℕ) (c : Cpu)
      → (positive ≡ false → n ≡ 0)
      → exec base merge (only_if positive (add_rsp n)) c
        ≡ record { regs = c.regs; stack = drop (n / 8) c.stack }
  exec_add true n c h = refl
  exec_add false n c h = rw (h refl) refl

  pops_saved :
      (b : Bool) (rs : List Register)
      → pops rs ++ only_if b (pop rbp) ≡ pops (if b then rbp ∷ rs else rs)
  pops_saved true rs = refl
  pops_saved false rs = append-nil (pops rs)

  exec-epilogue :
      (f : FuncCode) (c : Cpu) (s : List ℕ)
      → drop (padded_size f / 8) c.stack ≡ s
      → exec base merge (epilogue f) c
        ≡ exec base merge (pops (saved f)) (record { regs = c.regs; stack = s })
  unfolding epilogue
  exec-epilogue f c s e =
      exec_append (only_if (ltb 0 (padded_size f)) (add_rsp (padded_size f)))
        (pops f.temp_registers ++ only_if (needs_rbp f) (pop rbp)) c
      ∙ ap (exec base merge (pops f.temp_registers ++ only_if (needs_rbp f) (pop rbp))) (
          exec_add (ltb 0 (padded_size f)) (padded_size f) c (λ h. ground arith)
          ∙ ap (λ x. record { regs = c.regs; stack = x }) e)
      ∙ ap (λ is. exec base merge is (record { regs = c.regs; stack = s }))
          (pops_saved (needs_rbp f) f.temp_registers)

  -- After the epilogue: the return address on top again, and the registers as they were.
  pub record Restored (f : FuncCode) (return_address : ℕ) (s : List ℕ) (regs : Register → ℕ)
      (c : Cpu) : Type 0 where
    pub words : List ℕ
    pub stack : c.stack ≡ return_address ∷ words
    pub height : length words ≡ length s
    pub registers : All (λ r. c.regs r ≡ regs r) (saved f)

  -- Whatever a body does to the registers and to the stack below what the prologue saved, the epilogue leaves
  -- the stack at the return address, as high as before the prologue, and the saved registers (rbp,
  -- where it is used, and the temporary registers) with the values that they had.
  pub exec-Restored :
      (f : FuncCode) (return_address : ℕ) (s : List ℕ) (regs : Register → ℕ) (body : Cpu)
      → drop (padded_size f / 8) body.stack
        ≡ drop
            (padded_size f / 8)
            (exec base merge
              (prologue f)
              (record { regs = regs; stack = return_address ∷ s })).stack
      → Restored f return_address s regs (exec base merge (epilogue f) body)
  exec-Restored f return_address s regs body e =
      let c : Cpu = record { regs = regs; stack = return_address ∷ s } in
      let (st, same) =
        stores_if (f.has_args && f.calls_ever_made) f.reg_args return_address s regs in
      let p = exec_pops (saved f) (stored f c).regs body.regs (stored f c).stack in
      let kept : drop (padded_size f / 8) body.stack ≡ saved_stack f c =
        e
        ∙ ap (drop (padded_size f / 8)) (prologue_stack f c)
        ∙ drop_frame (pads f) f.stack_size (saved_stack f c) in
      let result = exec-epilogue f body (saved_stack f c) kept ∙ p.result in
      record {
        words = st.words;
        stack = ap (λ x. x.stack) result ∙ st.stack;
        height = st.height;
        registers =
            subst (λ x. All (λ r. x.regs r ≡ regs r) (saved f)) (sym result)
              (subst (λ σ. All (λ r. p.regs r ≡ σ r) (saved f)) same p.restored);
      }
