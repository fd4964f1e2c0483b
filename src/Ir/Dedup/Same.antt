-- ===== src/Ir/Dedup/Same.antt =====
-- carbonc/ir.hh: which operands and instructions `operator ==` and `contents_equal` take for equal.
use carbonlang.Prelude.{
  ℕ, ◌≡◌, refl, ap, Bool, true, false, ◌&&◌, Option, some, List, [], ◌∷◌, get_elem?, Bytes,
  bytes_eq, bytes_eq_iff, ◌==◌, ==_iff, arith,
}
use carbonlang.Prelude.Int.{ℤ, pos, negsuc, eqb_ℤ}
use carbonlang.TypeId.{TypeId, type_id_eq, type_id_eq_iff}
use carbonlang.Ir.{
  IrOp, ir_op_code, Label, named, short, if_body, if_else, if_end, while_body, while_end,
  while_cond, for_body, for_end, for_cond, for_neg, label_eq, IrRef, ref_global, ref_local, ref_arg,
  ref_stackpop, ref_field, IrField, ir_field, IrOperand, asm_text, field, ir_label, ir_funclabel,
  ir_global, ir_local, ir_arg, ir_stackpop, ir_string, ir_int, ir_float, ir_char, IrInstr, ref_eq,
  field_eq, operand_eq,
}
use carbonlang.Ir.Opstack.{operands_equal, contents_equal}

-- Equal references: pops whatever they come from, pointers to one address, and else the same.
pub data SameRef : IrRef → IrRef → Type 0 where
  same_ref : (r : IrRef) → SameRef r r
  same_pop : (t : TypeId) (i j : Option ℕ) → SameRef (ref_stackpop t i) (ref_stackpop t j)
  same_address : (p : ℕ) (f g : IrField) → SameRef (ref_field p f) (ref_field p g)

pub data SameOperand : IrOperand → IrOperand → Type 0 where
  same_operand : (o : IrOperand) → SameOperand o o
  same_stackpop : (t : TypeId) (i j : Option ℕ) → SameOperand (ir_stackpop t i) (ir_stackpop t j)
  same_field :
      (r s : IrRef) (i : ℕ)
      → SameRef r s
      → SameOperand (field (ir_field r i)) (field (ir_field s i))

pub data SameOperands : List IrOperand → List IrOperand → Type 0 where
  none_left : SameOperands [] []
  one_more :
      {o o' : IrOperand} {os os' : List IrOperand}
      → SameOperand o o'
      → SameOperands os os'
      → SameOperands (o ∷ os) (o' ∷ os')

-- One instruction computes what the other one does.
abbrev pub IsCopy : IrInstr → IrInstr → Type 0
IsCopy a b = (a.op ≡ b.op) × (a.result_type ≡ b.result_type) × SameOperands a.operands b.operands

both_true : (a b : Bool) → (a && b) ≡ true → (a ≡ true) × (b ≡ true)
both_true true true h = (refl, refl)
both_true true false h = cc
both_true false b h = cc

named_eq :
    (n m : Bytes) (t u : TypeId) → (bytes_eq n m && type_id_eq t u) ≡ true → (n ≡ m) × (t ≡ u)
named_eq n m t u h =
    let (e, f) = both_true (bytes_eq n m) _ h in ((bytes_eq_iff n m).0 e, (type_id_eq_iff t u).0 f)

numbered_eq : (i j : ℕ) (t u : TypeId) → (i == j && type_id_eq t u) ≡ true → (i ≡ j) × (t ≡ u)
numbered_eq i j t u h =
    let (e, f) = both_true (i == j) _ h in ((==_iff i j).0 e, (type_id_eq_iff t u).0 f)

label_eq-same : (a b : Label) → label_eq a b ≡ true → a ≡ b
unfolding label_eq
label_eq-same (named a) (named b) h = ap named ((bytes_eq_iff a b).0 h)
label_eq-same (short a) (short b) h = ap short ((==_iff a b).0 h)
label_eq-same (if_body a) (if_body b) h = ap if_body ((==_iff a b).0 h)
label_eq-same (if_else a) (if_else b) h = ap if_else ((==_iff a b).0 h)
label_eq-same (if_end a) (if_end b) h = ap if_end ((==_iff a b).0 h)
label_eq-same (while_body a) (while_body b) h = ap while_body ((==_iff a b).0 h)
label_eq-same (while_end a) (while_end b) h = ap while_end ((==_iff a b).0 h)
label_eq-same (while_cond a) (while_cond b) h = ap while_cond ((==_iff a b).0 h)
label_eq-same (for_body a) (for_body b) h = ap for_body ((==_iff a b).0 h)
label_eq-same (for_end a) (for_end b) h = ap for_end ((==_iff a b).0 h)
label_eq-same (for_cond a) (for_cond b) h = ap for_cond ((==_iff a b).0 h)
label_eq-same (for_neg a) (for_neg b) h = ap for_neg ((==_iff a b).0 h)
label_eq-same _ _ h = cc

eqb_ℤ-same : (a b : ℤ) → eqb_ℤ a b ≡ true → a ≡ b
eqb_ℤ-same (pos a) (pos b) h = ap pos (ground (arith, h))
eqb_ℤ-same (negsuc a) (negsuc b) h = ap negsuc (ground (arith, h))
eqb_ℤ-same (pos a) (negsuc b) h = absurd (ground (arith, h))
eqb_ℤ-same (negsuc a) (pos b) h = absurd (ground (arith, h))

ops : List IrOp
ops =
    IrOp.ir_load ∷ IrOp.ir_load_ptr ∷ IrOp.ir_copy ∷ IrOp.ir_store ∷ IrOp.ir_cast ∷ IrOp.ir_add
    ∷ IrOp.ir_sub ∷ IrOp.ir_mul ∷ IrOp.ir_div ∷ IrOp.ir_neg ∷ IrOp.ir_and ∷ IrOp.ir_or ∷ IrOp.ir_shr
    ∷ IrOp.ir_shl ∷ IrOp.ir_call ∷ IrOp.ir_return ∷ IrOp.ir_index ∷ IrOp.ir_deref
    ∷ IrOp.ir_load_addr ∷ IrOp.ir_make_label ∷ IrOp.ir_asm ∷ IrOp.ir_cmp_lt ∷ IrOp.ir_cmp_gt
    ∷ IrOp.ir_cmp_lteq ∷ IrOp.ir_cmp_gteq ∷ IrOp.ir_cmp_eq ∷ IrOp.ir_cmp_neq ∷ IrOp.ir_jmp
    ∷ IrOp.ir_jmp_eq ∷ IrOp.ir_jmp_neq ∷ IrOp.ir_jmp_gt ∷ IrOp.ir_jmp_gte ∷ IrOp.ir_jmp_lt
    ∷ IrOp.ir_jmp_lte ∷ IrOp.ir_stack_dup ∷ IrOp.ir_noop ∷ []

ops-ir_op_code : (o : IrOp) → get_elem? ops (ir_op_code o) ≡ some o
unfolding ops ir_op_code
ops-ir_op_code IrOp.ir_load = refl
ops-ir_op_code IrOp.ir_load_ptr = refl
ops-ir_op_code IrOp.ir_copy = refl
ops-ir_op_code IrOp.ir_store = refl
ops-ir_op_code IrOp.ir_cast = refl
ops-ir_op_code IrOp.ir_add = refl
ops-ir_op_code IrOp.ir_sub = refl
ops-ir_op_code IrOp.ir_mul = refl
ops-ir_op_code IrOp.ir_div = refl
ops-ir_op_code IrOp.ir_neg = refl
ops-ir_op_code IrOp.ir_and = refl
ops-ir_op_code IrOp.ir_or = refl
ops-ir_op_code IrOp.ir_shr = refl
ops-ir_op_code IrOp.ir_shl = refl
ops-ir_op_code IrOp.ir_call = refl
ops-ir_op_code IrOp.ir_return = refl
ops-ir_op_code IrOp.ir_index = refl
ops-ir_op_code IrOp.ir_deref = refl
ops-ir_op_code IrOp.ir_load_addr = refl
ops-ir_op_code IrOp.ir_make_label = refl
ops-ir_op_code IrOp.ir_asm = refl
ops-ir_op_code IrOp.ir_cmp_lt = refl
ops-ir_op_code IrOp.ir_cmp_gt = refl
ops-ir_op_code IrOp.ir_cmp_lteq = refl
ops-ir_op_code IrOp.ir_cmp_gteq = refl
ops-ir_op_code IrOp.ir_cmp_eq = refl
ops-ir_op_code IrOp.ir_cmp_neq = refl
ops-ir_op_code IrOp.ir_jmp = refl
ops-ir_op_code IrOp.ir_jmp_eq = refl
ops-ir_op_code IrOp.ir_jmp_neq = refl
ops-ir_op_code IrOp.ir_jmp_gt = refl
ops-ir_op_code IrOp.ir_jmp_gte = refl
ops-ir_op_code IrOp.ir_jmp_lt = refl
ops-ir_op_code IrOp.ir_jmp_lte = refl
ops-ir_op_code IrOp.ir_stack_dup = refl
ops-ir_op_code IrOp.ir_noop = refl

ir_op_code-same : (a b : IrOp) → (ir_op_code a == ir_op_code b) ≡ true → a ≡ b
ir_op_code-same a b h =
    let e = ap (get_elem? ops) ((==_iff (ir_op_code a) (ir_op_code b)).0 h) in
    cc (e, ops-ir_op_code a, ops-ir_op_code b)

ref_eq-SameRef : (r s : IrRef) → ref_eq r s ≡ true → SameRef r s
unfolding ref_eq
ref_eq-SameRef (ref_global n t) (ref_global m u) h =
    let (e, f) = named_eq n m t u h in rw (e, f) (same_ref (ref_global m u))
ref_eq-SameRef (ref_local i t) (ref_local j u) h =
    let (e, f) = numbered_eq i j t u h in rw (e, f) (same_ref (ref_local j u))
ref_eq-SameRef (ref_arg i t) (ref_arg j u) h =
    let (e, f) = numbered_eq i j t u h in rw (e, f) (same_ref (ref_arg j u))
ref_eq-SameRef (ref_stackpop t i) (ref_stackpop u j) h =
    rw ((type_id_eq_iff t u).0 h) (same_pop u i j)
ref_eq-SameRef (ref_field p f) (ref_field q g) h = rw ((==_iff p q).0 h) (same_address q f g)
ref_eq-SameRef _ _ h = cc

operand_eq-Same : (o o' : IrOperand) → operand_eq o o' ≡ true → SameOperand o o'
unfolding operand_eq field_eq
operand_eq-Same (asm_text a) (asm_text b) h = rw ((bytes_eq_iff a b).0 h) (same_operand _)
operand_eq-Same (field (ir_field r i)) (field (ir_field s j)) h =
    let (e, f) = both_true (ref_eq r s) _ h in
    rw ((==_iff i j).0 f) (same_field r s j (ref_eq-SameRef r s e))
operand_eq-Same (ir_label a) (ir_label b) h = rw (label_eq-same a b h) (same_operand _)
operand_eq-Same (ir_funclabel n t) (ir_funclabel m u) h =
    let (e, f) = named_eq n m t u h in rw (e, f) (same_operand _)
operand_eq-Same (ir_global n t) (ir_global m u) h =
    let (e, f) = named_eq n m t u h in rw (e, f) (same_operand _)
operand_eq-Same (ir_local i t) (ir_local j u) h =
    let (e, f) = numbered_eq i j t u h in rw (e, f) (same_operand _)
operand_eq-Same (ir_arg i t) (ir_arg j u) h =
    let (e, f) = numbered_eq i j t u h in rw (e, f) (same_operand _)
operand_eq-Same (ir_stackpop t i) (ir_stackpop u j) h =
    rw ((type_id_eq_iff t u).0 h) (same_stackpop u i j)
operand_eq-Same (ir_string i) (ir_string j) h = rw ((==_iff i j).0 h) (same_operand _)
operand_eq-Same (ir_int v t) (ir_int w u) h =
    let (e, f) = both_true (eqb_ℤ v w) _ h in
    rw (eqb_ℤ-same v w e, (type_id_eq_iff t u).0 f) (same_operand _)
operand_eq-Same (ir_float v t) (ir_float w u) h =
    let (e, f) = numbered_eq v w t u h in rw (e, f) (same_operand _)
operand_eq-Same (ir_char c) (ir_char d) h = rw ((==_iff c d).0 h) (same_operand _)
operand_eq-Same _ _ h = cc

operands_equal-Same : (os os' : List IrOperand) → operands_equal os os' ≡ true → SameOperands os os'
unfolding operands_equal
operands_equal-Same [] [] h = none_left
operands_equal-Same (o ∷ os) (o' ∷ os') h =
    let (e, f) = both_true (operand_eq o o') _ h in
    one_more (operand_eq-Same o o' e) (operands_equal-Same os os' f)
operands_equal-Same _ _ h = cc

pub contents_equal-IsCopy : (a b : IrInstr) → contents_equal a b ≡ true → IsCopy a b
unfolding contents_equal
contents_equal-IsCopy a b h =
    let ops_equal = ir_op_code a.op == ir_op_code b.op in
    let types_equal = type_id_eq a.result_type b.result_type in
    let (r, s) = both_true (ops_equal && types_equal) (operands_equal a.operands b.operands) h in
    let (o, t) = both_true ops_equal types_equal r in
    (
      ir_op_code-same a.op b.op o,
      (type_id_eq_iff a.result_type b.result_type).0 t,
      operands_equal-Same a.operands b.operands s,
    )

label_eq_refl : (a : Label) → label_eq a a ≡ true
unfolding label_eq
label_eq_refl (named a) = (bytes_eq_iff a a).1 refl
label_eq_refl (short a) = (==_iff a a).1 refl
label_eq_refl (if_body a) = (==_iff a a).1 refl
label_eq_refl (if_else a) = (==_iff a a).1 refl
label_eq_refl (if_end a) = (==_iff a a).1 refl
label_eq_refl (while_body a) = (==_iff a a).1 refl
label_eq_refl (while_end a) = (==_iff a a).1 refl
label_eq_refl (while_cond a) = (==_iff a a).1 refl
label_eq_refl (for_body a) = (==_iff a a).1 refl
label_eq_refl (for_end a) = (==_iff a a).1 refl
label_eq_refl (for_cond a) = (==_iff a a).1 refl
label_eq_refl (for_neg a) = (==_iff a a).1 refl

eqb_ℤ_refl : (a : ℤ) → eqb_ℤ a a ≡ true
eqb_ℤ_refl (pos a) = ground arith
eqb_ℤ_refl (negsuc a) = ground arith

bytes_refl : (a : Bytes) → bytes_eq a a ≡ true
bytes_refl a = (bytes_eq_iff a a).1 refl

type_id_refl : (t : TypeId) → type_id_eq t t ≡ true
type_id_refl t = (type_id_eq_iff t t).1 refl

number_refl : (i : ℕ) → (i == i) ≡ true
number_refl i = (==_iff i i).1 refl

ref_eq_refl : (r : IrRef) → ref_eq r r ≡ true
unfolding ref_eq
ref_eq_refl (ref_global n t) = rw (bytes_refl n, type_id_refl t) refl
ref_eq_refl (ref_local i t) = rw (number_refl i, type_id_refl t) refl
ref_eq_refl (ref_arg i t) = rw (number_refl i, type_id_refl t) refl
ref_eq_refl (ref_stackpop t i) = type_id_refl t
ref_eq_refl (ref_field p f) = number_refl p

SameRef-ref_eq : (r s : IrRef) → SameRef r s → ref_eq r s ≡ true
unfolding ref_eq
SameRef-ref_eq r _ (same_ref _) = ref_eq_refl r
SameRef-ref_eq _ _ (same_pop t i j) = type_id_refl t
SameRef-ref_eq _ _ (same_address p f g) = number_refl p

operand_eq_refl : (o : IrOperand) → operand_eq o o ≡ true
unfolding operand_eq field_eq
operand_eq_refl (asm_text a) = bytes_refl a
operand_eq_refl (field (ir_field r i)) = rw (ref_eq_refl r, number_refl i) refl
operand_eq_refl (ir_label a) = label_eq_refl a
operand_eq_refl (ir_funclabel n t) = rw (bytes_refl n, type_id_refl t) refl
operand_eq_refl (ir_global n t) = rw (bytes_refl n, type_id_refl t) refl
operand_eq_refl (ir_local i t) = rw (number_refl i, type_id_refl t) refl
operand_eq_refl (ir_arg i t) = rw (number_refl i, type_id_refl t) refl
operand_eq_refl (ir_stackpop t i) = type_id_refl t
operand_eq_refl (ir_string i) = number_refl i
operand_eq_refl (ir_int v t) = rw (eqb_ℤ_refl v, type_id_refl t) refl
operand_eq_refl (ir_float v t) = rw (number_refl v, type_id_refl t) refl
operand_eq_refl (ir_char c) = number_refl c

SameOperand-operand_eq : (o o' : IrOperand) → SameOperand o o' → operand_eq o o' ≡ true
unfolding operand_eq field_eq
SameOperand-operand_eq o _ (same_operand _) = operand_eq_refl o
SameOperand-operand_eq _ _ (same_stackpop t i j) = type_id_refl t
SameOperand-operand_eq _ _ (same_field r s i h) = rw (SameRef-ref_eq r s h, number_refl i) refl

SameOperands-operands_equal :
    (os os' : List IrOperand) → SameOperands os os' → operands_equal os os' ≡ true
unfolding operands_equal
SameOperands-operands_equal _ _ none_left = refl
SameOperands-operands_equal (o ∷ os) (o' ∷ os') (one_more h hs) =
    rw (SameOperand-operand_eq o o' h) (SameOperands-operands_equal os os' hs)

pub IsCopy-contents_equal : (a b : IrInstr) → IsCopy a b → contents_equal a b ≡ true
unfolding contents_equal
IsCopy-contents_equal a b (o, t, s) =
    rw
      (
        o,
        number_refl (ir_op_code b.op),
        t,
        type_id_refl b.result_type,
        SameOperands-operands_equal a.operands b.operands s,
      )
      refl
