-- ===== src/Ir/Cond.antt =====
-- carbonc/ir.cc: code for conditions. `distribute_bool_op_targets` gives every comparison in a
-- condition the label that it jumps to, and the generator emits comparisons and jumps.
-- The nodes of an expression over integers are those that occur in a condition; each has the
-- number and the annotations (`ast_node::ir`) that the two passes share. A literal or a variable
-- keeps no annotation, as none is read there.
pub mod Machine
pub mod Values
pub mod Compare
pub mod Supported
pub mod ShortCircuit
pub mod Miscompiled
use carbonlang.Prelude.{
  ℕ, ◌+◌, Bool, true, false, not, ◌&&◌, ◌||◌, Option, some, none, List, [], ◌∷◌, ◌++◌, ◌==◌,
  if◌then◌else◌, length,
}
use carbonlang.Prelude.Int.{ℤ}
use carbonlang.TypeId.{TypeId}
use carbonlang.Token
use carbonlang.Token.{TokenType, chr, andand, oror, eqeq, neq, lteq, gteq, shl, shr}
use carbonlang.Ir.{
  IrOp, Label, short, IrOperand, ir_label, ir_local, ir_arg, ir_stackpop, ir_int, IrInstr,
}

-- The fields of `ir_node_data` for boolean operators; an empty label is `none`.
pub record NodeIr : Type 0 where
  pub bin_self_label : Option Label
  pub bin_target_label : Option Label
  pub bin_invert_jump : Bool

abbrev pub no_ir : NodeIr
no_ir = record { bin_self_label = none; bin_target_label = none; bin_invert_jump = false }

-- `negation` is the unary `!`, `minus` the unary `-`.
pub data Expr : Type 0 where
  int_literal : ℕ → ℤ → TypeId → Expr
  local_var : ℕ → ℕ → TypeId → Expr
  arg_var : ℕ → ℕ → TypeId → Expr
  binary : ℕ → NodeIr → TokenType → TypeId → Expr → Expr → Expr
  negation : ℕ → NodeIr → Expr → Expr
  minus : ℕ → TypeId → Expr → Expr

abbrev pub node_id : Expr → ℕ
node_id (int_literal id v t) = id
node_id (local_var id i t) = id
node_id (arg_var id i t) = id
node_id (binary id ir op t l r) = id
node_id (negation id ir e) = id
node_id (minus id t e) = id

-- carbonc/ast.cc: the tests of carbonc/token.cc on a node.
unfoldable pub is_logic_binary_op : Expr → Bool
unfolding Token.is_logic_binary_op
is_logic_binary_op (binary id ir op t l r) = Token.is_logic_binary_op op
is_logic_binary_op _ = false

unfoldable pub is_cmp_binary_op : Expr → Bool
unfolding Token.is_cmp_binary_op
is_cmp_binary_op (binary id ir op t l r) = Token.is_cmp_binary_op op
is_cmp_binary_op _ = false

unfoldable pub is_oror : Expr → Bool
is_oror (binary id ir oror t l r) = true
is_oror _ = false

unfoldable pub is_andand : Expr → Bool
is_andand (binary id ir andand t l r) = true
is_andand _ = false

unfoldable pub set_bool_op_target : Expr → Bool → Label → Expr
set_bool_op_target (binary id ir op t l r) invert label =
    binary id (record ir { bin_invert_jump = invert; bin_target_label = some label }) op t l r
set_bool_op_target (negation id ir e) invert label =
    negation id (record ir { bin_invert_jump = invert; bin_target_label = some label }) e
set_bool_op_target e invert label = e

-- The assignment of `generate_label_for_short_circuit`; the label is `short (node_id e)`.
unfoldable pub generate_label_for_short_circuit : Expr → Expr
generate_label_for_short_circuit (binary id ir op t l r) =
    binary id (record ir { bin_self_label = some (short id) }) op t l r
generate_label_for_short_circuit (negation id ir e) =
    negation id (record ir { bin_self_label = some (short id) }) e
generate_label_for_short_circuit e = e

-- A logic node's own annotations are neither read nor set by the call on it, so the order of a
-- call and of the assignments to the same node does not matter.
unfoldable pub distribute_bool_op_targets : Expr → Label → Label → Expr
unfolding is_logic_binary_op is_cmp_binary_op is_oror is_andand set_bool_op_target
    generate_label_for_short_circuit
distribute_bool_op_targets (binary id ir andand t l r) true_label false_label =
    let right_label = short (node_id r) in
    let left =
      distribute_bool_op_targets l (if is_oror l then right_label else true_label) false_label in
    let right = distribute_bool_op_targets r true_label false_label in
    binary id ir andand t
      (set_bool_op_target (if is_logic_binary_op l then left else l) true false_label)
      (if is_oror l then generate_label_for_short_circuit right else right)
distribute_bool_op_targets (binary id ir oror t l r) true_label false_label =
    let right_label = short (node_id r) in
    let left =
      distribute_bool_op_targets l true_label (if is_andand l then right_label else false_label) in
    let right = distribute_bool_op_targets r true_label false_label in
    binary id ir oror t
      (set_bool_op_target (if is_logic_binary_op l then left else l) false true_label)
      (if is_andand l then generate_label_for_short_circuit right else right)
distribute_bool_op_targets (negation id ir e) true_label false_label =
    let swapped = distribute_bool_op_targets e false_label true_label in
    negation id ir (
      if is_logic_binary_op e
      then swapped
      else if is_cmp_binary_op e
      then set_bool_op_target e false false_label
      else e)
distribute_bool_op_targets e true_label false_label = set_bool_op_target e true false_label

-- The generator's state: `operand_stack`, its top first, and `currentfunc->instrs`.
pub record Gen : Type 0 where
  pub operand_stack : List IrOperand
  pub instrs : List IrInstr

infixl 5 ◌>>=◌
abbrev pub ◌>>=◌ {ℓ κ} : {A : Type ℓ} {B : Type κ} → Option A → (A → Option B) → Option B
none >>= f = none
some a >>= f = f a

abbrev pub push : IrOperand → Gen → Gen
push o g = record g { operand_stack = o ∷ g.operand_stack }

-- `none` where the program would take the top of an empty stack.
abbrev pop_from : Gen → List IrOperand → Option (IrOperand × Gen)
pop_from g [] = none
pop_from g (o ∷ os) = some (o, record g { operand_stack = os })

abbrev pub pop : Gen → Option (IrOperand × Gen)
pop g = pop_from g g.operand_stack

-- An instruction has the type `none` where `emit` leaves it out.
abbrev pub temit : IrOp → TypeId → List IrOperand → Gen → Gen
temit op t os g = record g {
  instrs =
      g.instrs ++ record { op = op; result_type = t; operands = os; index = length g.instrs } ∷ [];
}

abbrev no_type : TypeId
no_type = record { scope = none; type_index = none }

abbrev pub emit : IrOp → List IrOperand → Gen → Gen
emit op os g = temit op no_type os g

-- The instruction for an arithmetic operator; the others emit none.
unfoldable pub arith_op : TokenType → Option IrOp
arith_op (chr c) =
    if c == b'+'
    then some IrOp.ir_add
    else if c == b'-'
    then some IrOp.ir_sub
    else if c == b'*'
    then some IrOp.ir_mul
    else if c == b'/'
    then some IrOp.ir_div
    else if c == b'&'
    then some IrOp.ir_and
    else if c == b'|'
    then some IrOp.ir_or
    else none
arith_op shr = some IrOp.ir_shr
arith_op shl = some IrOp.ir_shl
arith_op _ = none

abbrev pick : Bool → IrOp → IrOp → Option IrOp
pick b x y = some (if b then x else y)

-- The jump for a comparison with a target, inverted or not.
unfoldable pub jump_op : TokenType → Bool → Option IrOp
jump_op (chr c) invert =
    if c == b'<'
    then pick invert IrOp.ir_jmp_gte IrOp.ir_jmp_lt
    else if c == b'>'
    then pick invert IrOp.ir_jmp_lte IrOp.ir_jmp_gt
    else none
jump_op eqeq invert = pick invert IrOp.ir_jmp_neq IrOp.ir_jmp_eq
jump_op neq invert = pick invert IrOp.ir_jmp_eq IrOp.ir_jmp_neq
jump_op lteq invert = pick invert IrOp.ir_jmp_gt IrOp.ir_jmp_lte
jump_op gteq invert = pick invert IrOp.ir_jmp_lt IrOp.ir_jmp_gte
jump_op _ invert = none

-- The comparison for one without.
unfoldable pub cmp_op : TokenType → Bool → Option IrOp
cmp_op (chr c) invert =
    if c == b'<'
    then pick invert IrOp.ir_cmp_gteq IrOp.ir_cmp_lt
    else if c == b'>'
    then pick invert IrOp.ir_cmp_lteq IrOp.ir_cmp_gt
    else none
cmp_op eqeq invert = pick invert IrOp.ir_cmp_neq IrOp.ir_cmp_eq
cmp_op neq invert = pick invert IrOp.ir_cmp_eq IrOp.ir_cmp_neq
cmp_op lteq invert = pick invert IrOp.ir_cmp_gt IrOp.ir_cmp_lteq
cmp_op gteq invert = pick invert IrOp.ir_cmp_lt IrOp.ir_cmp_gteq
cmp_op _ invert = none

-- The two switches on the operator, with both operands taken off the stack.
emit_pushed : Option IrOp → TypeId → IrOperand → IrOperand → Gen → Gen
emit_pushed none t a b g = g
emit_pushed (some op) t a b g = push (ir_stackpop t none) (temit op t (a ∷ b ∷ []) g)

emit_jump : Option IrOp → Label → IrOperand → IrOperand → Gen → Gen
emit_jump none label a b g = g
emit_jump (some op) label a b g = emit op (a ∷ b ∷ ir_label label ∷ []) g

unfoldable pub emit_operator : NodeIr → TokenType → TypeId → IrOperand → IrOperand → Gen → Gen
unfolding arith_op jump_op cmp_op emit_pushed emit_jump
emit_operator ir op t a b g =
    if Token.is_cmp_binary_op op
    then (elim ir.bin_target_label [
      | some label ↦ emit_jump (jump_op op ir.bin_invert_jump) label a b g
      | none ↦ emit_pushed (cmp_op op ir.bin_invert_jump) t a b g
    ])
    else emit_pushed (arith_op op) t a b g

-- The label in front of a node that a short circuit jumps to.
unfoldable pub emit_self_label : NodeIr → Gen → Gen
emit_self_label ir g = elim ir.bin_self_label [
  | some label ↦ emit IrOp.ir_make_label (ir_label label ∷ []) g
  | none ↦ g
]

-- `generate_ir_unary_expr` inverts a comparison right under `!` that has no target.
unfoldable pub under_not : Bool → NodeIr → TokenType → NodeIr
under_not false ir op = ir
under_not true ir op = elim ir.bin_target_label [
  | some label ↦ ir
  | none ↦ if Token.is_cmp_binary_op op then record ir { bin_invert_jump = true } else ir
]

-- `generate_ir_node` on such an expression; the flag says that the node stands right under `!`.
unfoldable pub generate : Bool → Expr → Gen → Option Gen
unfolding emit_operator emit_self_label under_not
generate negated (int_literal id v t) g = some (push (ir_int v t) g)
generate negated (local_var id i t) g = some (push (ir_local i t) g)
generate negated (arg_var id i t) g = some (push (ir_arg i t) g)
generate negated (negation id ir e) g = generate true e g
generate negated (minus id t e) g = do
  g₁ ← generate false e g
  (a, g₂) ← pop g₁
  some (push (ir_stackpop t none) (temit IrOp.ir_neg t (a ∷ []) g₂))
generate negated (binary id ir op t l r) g = do
  let start = emit_self_label ir g
  g₁ ← generate false l start
  let logic = generate false r g₁
  let value = do
    (a, g₂) ← pop g₁
    g₃ ← generate false r g₂
    (b, g₄) ← pop g₃
    some (emit_operator (under_not negated ir op) op t a b g₄)
  if Token.is_logic_binary_op op then logic else value
