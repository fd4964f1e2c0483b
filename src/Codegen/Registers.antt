-- ===== src/Codegen/Registers.antt =====
-- carbonc/codegen_x64.hh and carbonc/codegen_x64.cc: registers and their parts of 1, 2, 4 and 8
-- bytes. The program does arithmetic on the enumeration `gen_register`, so a register is a number.
use carbonlang.Prelude.{
  ℕ, ◌+◌, ◌-◌, ◌*◌, ◌%◌, ◌≤◌, ◌<◌, min, ◌≡◌, refl, List, [], ◌∷◌, Bytes, codes, get_elem?, arith,
  leb, ◌==◌, if◌then◌else◌,
}

abbrev pub Register : Type 0
Register = ℕ

-- The first registers of each size, `rip` before them, and those with a fixed part to play.
abbrev pub rip : Register
rip = 4

abbrev pub rax : Register
rax = 5

abbrev pub rbp : Register
rbp = 11

abbrev pub eax : Register
eax = 21

abbrev pub ax : Register
ax = 37

abbrev pub al : Register
al = 53

-- The number of registers of each size.
abbrev pub family : ℕ
family = 16

unfoldable pub register_names : List Bytes
register_names =
    codes "invalid"
    ∷ codes "xmm0"
    ∷ codes "xmm1"
    ∷ codes "xmm7"
    ∷ codes "rip"
    ∷ codes "rax"
    ∷ codes "rbx"
    ∷ codes "rcx"
    ∷ codes "rdx"
    ∷ codes "rdi"
    ∷ codes "rsi"
    ∷ codes "rbp"
    ∷ codes "rsp"
    ∷ codes "r8"
    ∷ codes "r9"
    ∷ codes "r10"
    ∷ codes "r11"
    ∷ codes "r12"
    ∷ codes "r13"
    ∷ codes "r14"
    ∷ codes "r15"
    ∷ codes "eax"
    ∷ codes "ebx"
    ∷ codes "ecx"
    ∷ codes "edx"
    ∷ codes "edi"
    ∷ codes "esi"
    ∷ codes "ebp"
    ∷ codes "esp"
    ∷ codes "r8d"
    ∷ codes "r9d"
    ∷ codes "r10d"
    ∷ codes "r11d"
    ∷ codes "r12d"
    ∷ codes "r13d"
    ∷ codes "r14d"
    ∷ codes "r15d"
    ∷ codes "ax"
    ∷ codes "bx"
    ∷ codes "cx"
    ∷ codes "dx"
    ∷ codes "di"
    ∷ codes "si"
    ∷ codes "bp"
    ∷ codes "sp"
    ∷ codes "r8"
    ∷ codes "r9w"
    ∷ codes "r10w"
    ∷ codes "r11w"
    ∷ codes "r12w"
    ∷ codes "r13w"
    ∷ codes "r14w"
    ∷ codes "r15w"
    ∷ codes "al"
    ∷ codes "bl"
    ∷ codes "cl"
    ∷ codes "dl"
    ∷ codes "dil"
    ∷ codes "sil"
    ∷ codes "bpl"
    ∷ codes "spl"
    ∷ codes "r8b"
    ∷ codes "r9b"
    ∷ codes "r10b"
    ∷ codes "r11b"
    ∷ codes "r12b"
    ∷ codes "r13b"
    ∷ codes "r14b"
    ∷ codes "r15b"
    ∷ []

-- `get_size` on a register.
unfoldable pub get_size : Register → ℕ
get_size r =
    if leb al r
    then 1
    else if leb ax r
    then 2
    else if leb eax r
    then 4
    else if leb rax r
    then 8
    else 0

-- `adjust_for_type` on a register, for a type of that size: a size that no register has leaves
-- the register as it is.
unfoldable pub adjust_for_type : Register → ℕ → Register
adjust_for_type reg size =
    let sz = min size 8 in
    if sz == 1
    then reg + 16 * 3
    else if sz == 2
    then reg + 16 * 2
    else if sz == 4
    then reg + 16
    else reg

-- The register of eight bytes that a register is part of.
abbrev pub whole_register : Register → Register
whole_register r = rax + (r - rax) % family

abbrev pub part_size : ℕ → ℕ
part_size size = if size == 1 then 1 else if size == 2 then 2 else if size == 4 then 4 else 8

-- Adjusting one of the sixteen registers of eight bytes gives the part of that same register that
-- has the type's size, or all of it where no part has that size.
pub adjust_for_type_lem :
    (reg : Register) (size : ℕ)
    → rax ≤ reg
    → reg < eax
    → (get_size (adjust_for_type reg size) ≡ part_size size)
      × (whole_register (adjust_for_type reg size) ≡ reg)
unfolding get_size adjust_for_type
adjust_for_type_lem reg size lower upper = ground arith

-- Two registers have the same name, `r8`: the one of two bytes should be `r8w`.
pub register_names_clash :
    (get_elem? register_names (adjust_for_type 13 2) ≡ get_elem? register_names 13)
    × (get_size (adjust_for_type 13 2) ≡ 2)
unfolding register_names adjust_for_type get_size
register_names_clash = (refl, refl)
