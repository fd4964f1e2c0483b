-- ===== src/Ir/Cond/Supported.antt =====
-- carbonc/ir.cc: conditions by the shape of their operands, the targets that each part is given by
-- `distribute_bool_op_targets`, and what a condition means.
use carbonlang.Prelude.{ℕ, ◌≡◌, refl, Bool, true, false, not, ◌&&◌, ◌||◌, some, none, arith}
use carbonlang.TypeId.{TypeId}
use carbonlang.Token
use carbonlang.Token.{TokenType, andand, oror}
use carbonlang.Ir.{Label, short, label_eq}
use carbonlang.Ir.Cond.{
  NodeIr, Expr, binary, negation, node_id, is_oror, is_andand, is_logic_binary_op, is_cmp_binary_op,
  set_bool_op_target, distribute_bool_op_targets,
}
use carbonlang.Ir.Cond.Machine.{Target, Frame}
use carbonlang.Ir.Cond.Values.{eval_value}
use carbonlang.Ir.Cond.Compare.{IsComparison, compare_values, cmp-not_logic}

-- No node that could be a short circuit's target has this label.
abbrev pub Avoids : Label → Expr → Type 0
Avoids j (binary id ir op t l r) =
    (label_eq j (short (node_id r)) ≡ false) × Avoids j l × Avoids j r
Avoids j (negation id ir e) = Avoids j e
Avoids j _ = Unit

-- A binary node that no other pass has put a label on.
abbrev pub IsPlainNode : Expr → ℕ → Type 0
IsPlainNode (binary id ir op t l r) n = (id ≡ n) × (ir.bin_self_label ≡ none)
IsPlainNode _ n = ⊥

-- Conditions whose left operands are comparisons, or logic nodes that fall through to what
-- follows them: with `true`, the condition may also jump to the label for its truth.
pub data IsSupported : Bool → Expr → Type 0 where
  comparison :
      (b : Bool) (id : ℕ) (ir : NodeIr) (op : TokenType) (t : TypeId) (l r : Expr)
      → IsComparison (binary id ir op t l r)
      → IsSupported b (binary id ir op t l r)
  not_comparison :
      (b : Bool) (i : ℕ) (ir' : NodeIr) (id : ℕ) (ir : NodeIr) (op : TokenType) (t : TypeId)
      (l r : Expr)
      → IsComparison (binary id ir op t l r)
      → IsSupported b (negation i ir' (binary id ir op t l r))
  and_comparison :
      (b : Bool) (i : ℕ) (ir' : NodeIr) (t' : TypeId) (id : ℕ) (ir : NodeIr) (op : TokenType)
      (t : TypeId) (l r e : Expr)
      → ir'.bin_self_label ≡ none
      → IsComparison (binary id ir op t l r)
      → IsSupported b e
      → IsSupported b (binary i ir' andand t' (binary id ir op t l r) e)
  or_comparison :
      (i : ℕ) (ir' : NodeIr) (t' : TypeId) (id : ℕ) (ir : NodeIr) (op : TokenType) (t : TypeId)
      (l r e : Expr)
      → ir'.bin_self_label ≡ none
      → IsComparison (binary id ir op t l r)
      → IsSupported true e
      → IsSupported true (binary i ir' oror t' (binary id ir op t l r) e)
  and_and :
      (b : Bool) (i : ℕ) (ir' : NodeIr) (t' : TypeId) (id : ℕ) (ir : NodeIr) (t : TypeId)
      (l r e : Expr)
      → ir'.bin_self_label ≡ none
      → IsSupported false (binary id ir andand t l r)
      → IsSupported b e
      → IsSupported b (binary i ir' andand t' (binary id ir andand t l r) e)
  and_or :
      (b : Bool) (i : ℕ) (ir' : NodeIr) (t' : TypeId) (id : ℕ) (ir : NodeIr) (t : TypeId)
      (l r e : Expr)
      → ir'.bin_self_label ≡ none
      → IsSupported true (binary id ir oror t l r)
      → Avoids (short (node_id e)) (binary id ir oror t l r)
      → IsPlainNode e (node_id e)
      → IsSupported b e
      → IsSupported b (binary i ir' andand t' (binary id ir oror t l r) e)

pub cmp-not_oror :
    (id : ℕ) (ir : NodeIr) (op : TokenType) (t : TypeId) (l r : Expr)
    → Token.is_cmp_binary_op op ≡ true
    → is_oror (binary id ir op t l r) ≡ false
unfolding Token.is_cmp_binary_op is_oror
cmp-not_oror id ir oror t l r h = ground arith
cmp-not_oror id ir _ t l r h = refl

pub cmp-not_andand :
    (id : ℕ) (ir : NodeIr) (op : TokenType) (t : TypeId) (l r : Expr)
    → Token.is_cmp_binary_op op ≡ true
    → is_andand (binary id ir op t l r) ≡ false
unfolding Token.is_cmp_binary_op is_andand
cmp-not_andand id ir andand t l r h = ground arith
cmp-not_andand id ir _ t l r h = refl

abbrev pub targeted : NodeIr → Bool → Label → NodeIr
targeted ir invert label = record ir { bin_invert_jump = invert; bin_target_label = some label }

pub distribute_comparison :
    (id : ℕ) (ir : NodeIr) (op : TokenType) (t : TypeId) (l r : Expr)
    (true_label false_label : Label)
    → Token.is_cmp_binary_op op ≡ true
    → distribute_bool_op_targets (binary id ir op t l r) true_label false_label
      ≡ binary id (targeted ir true false_label) op t l r
unfolding Token.is_cmp_binary_op distribute_bool_op_targets set_bool_op_target
distribute_comparison id ir andand t l r true_label false_label h = ground arith
distribute_comparison id ir oror t l r true_label false_label h = ground arith
distribute_comparison id ir _ t l r true_label false_label h = refl

pub distribute_not :
    (i : ℕ) (ir' : NodeIr) (id : ℕ) (ir : NodeIr) (op : TokenType) (t : TypeId) (l r : Expr)
    (true_label false_label : Label)
    → Token.is_cmp_binary_op op ≡ true
    → distribute_bool_op_targets (negation i ir' (binary id ir op t l r)) true_label false_label
      ≡ negation i ir' (binary id (targeted ir false false_label) op t l r)
unfolding distribute_bool_op_targets set_bool_op_target is_logic_binary_op is_cmp_binary_op
distribute_not i ir' id ir op t l r true_label false_label h = rw (cmp-not_logic op h, h) refl

pub distribute_and :
    (i : ℕ) (ir' : NodeIr) (t' : TypeId) (id : ℕ) (ir : NodeIr) (op : TokenType) (t : TypeId)
    (l r e : Expr) (true_label false_label : Label)
    → Token.is_cmp_binary_op op ≡ true
    → distribute_bool_op_targets
        (binary i ir' andand t' (binary id ir op t l r) e)
        true_label
        false_label
      ≡ binary i ir' andand t'
          (binary id (targeted ir true false_label) op t l r)
          (distribute_bool_op_targets e true_label false_label)
unfolding distribute_bool_op_targets set_bool_op_target is_logic_binary_op
distribute_and i ir' t' id ir op t l r e true_label false_label h =
    rw (cmp-not_logic op h, cmp-not_oror id ir op t l r h) refl

pub distribute_or :
    (i : ℕ) (ir' : NodeIr) (t' : TypeId) (id : ℕ) (ir : NodeIr) (op : TokenType) (t : TypeId)
    (l r e : Expr) (true_label false_label : Label)
    → Token.is_cmp_binary_op op ≡ true
    → distribute_bool_op_targets
        (binary i ir' oror t' (binary id ir op t l r) e)
        true_label
        false_label
      ≡ binary i ir' oror t'
          (binary id (targeted ir false true_label) op t l r)
          (distribute_bool_op_targets e true_label false_label)
unfolding distribute_bool_op_targets set_bool_op_target is_logic_binary_op
distribute_or i ir' t' id ir op t l r e true_label false_label h =
    rw (cmp-not_logic op h, cmp-not_andand id ir op t l r h) refl

pub distribute-IsPlainNode :
    (e : Expr) (n : ℕ) (true_label false_label : Label)
    → IsPlainNode e n
    → IsPlainNode (distribute_bool_op_targets e true_label false_label) n
unfolding distribute_bool_op_targets set_bool_op_target
distribute-IsPlainNode (binary id ir andand t l r) n true_label false_label h = h
distribute-IsPlainNode (binary id ir oror t l r) n true_label false_label h = h
distribute-IsPlainNode (binary id ir _ t l r) n true_label false_label h = h
distribute-IsPlainNode _ n true_label false_label h = elim h [ ]

-- The truth of a condition.
unfoldable pub eval_cond : (m : Target) → Frame m → Expr → Bool
unfolding compare_values eval_value
eval_cond m f (binary id ir andand t l r) = eval_cond m f l && eval_cond m f r
eval_cond m f (binary id ir oror t l r) = eval_cond m f l || eval_cond m f r
eval_cond m f (binary id ir op t l r) = compare_values m op (eval_value m f l) (eval_value m f r)
eval_cond m f (negation id ir e) = not (eval_cond m f e)
eval_cond m f _ = false

pub eval_comparison :
    (m : Target) (f : Frame m) (id : ℕ) (ir : NodeIr) (op : TokenType) (t : TypeId) (l r : Expr)
    → Token.is_cmp_binary_op op ≡ true
    → eval_cond m f (binary id ir op t l r)
      ≡ compare_values m op (eval_value m f l) (eval_value m f r)
unfolding eval_cond Token.is_cmp_binary_op
eval_comparison m f id ir andand t l r h = ground arith
eval_comparison m f id ir oror t l r h = ground arith
eval_comparison m f id ir _ t l r h = refl
