-- ===== src/Tests/Conditions.antt =====
-- carbonc/ir.cc: the theorems on conditions at concrete expressions, on a machine with natural numbers.
use carbonlang.Prelude.{
  ℕ, ◌+◌, ◌≡◌, refl, Bool, true, false, not, ◌&&◌, ◌||◌, [], arith, ltb, leb, ◌==◌,
}
use carbonlang.Prelude.Int.{ℤ, pos, negsuc}
use carbonlang.TypeId.{invalid_type}
use carbonlang.Token
use carbonlang.Token.{TokenType, andand, oror}
use carbonlang.Ir.{label_eq, if_body, if_else}
use carbonlang.Ir.Cond.{no_ir, Expr, int_literal, local_var, binary, Gen}
use carbonlang.Ir.Cond.Machine.{Rel, lt, gt, lteq, gteq, eq, neq, opposite, Target}
use carbonlang.Ir.Cond.Values.{eval_value}
use carbonlang.Ir.Cond.Compare.{IsComparison, GeneratesJump, compare_values, compare-GeneratesJump}
use carbonlang.Ir.Cond.Supported.{Avoids, IsSupported, comparison, or_comparison, and_or, targeted}
use carbonlang.Ir.Cond.ShortCircuit.{GeneratesCond, generate-GeneratesCond}
use carbonlang.Ir.Cond.Miscompiled.{
  Comparison, node, truth, GeneratesTest, generate_or_or, generate_and_or,
}

holds : Rel → ℕ → ℕ → Bool
holds lt a b = ltb a b
holds gt a b = ltb b a
holds lteq a b = leb a b
holds gteq a b = leb b a
holds eq a b = a == b
holds neq a b = not (a == b)

holds_opposite : (r : Rel) (a b : ℕ) → holds (opposite r) a b ≡ not (holds r a b)
unfolding holds
holds_opposite lt a b = ground arith
holds_opposite gt a b = ground arith
holds_opposite lteq a b = ground arith
holds_opposite gteq a b = ground arith
holds_opposite eq a b = ground arith
holds_opposite neq a b = ground arith

abbrev constant : ℤ → ℕ
constant (pos n) = n
constant (negsuc n) = 0

abbrev machine : Target
machine = record {
  Value = ℕ;
  constant = constant;
  compute = λ o a b. a + b;
  negate = λ a. 0;
  holds = holds;
  holds-opposite = holds_opposite;
}

-- `x < v`, with its node's number.
abbrev x_below : ℕ → ℕ → Expr
x_below id v =
    binary id no_ir (Token.chr b'<') invalid_type (local_var (id + 1) 0 invalid_type)
      (int_literal (id + 2) (pos v) invalid_type)

x_below-IsComparison : (id v : ℕ) → IsComparison (x_below id v)
unfolding Token.is_cmp_binary_op
x_below-IsComparison id v = (refl, refl, tt, tt)

-- `(x < 3 || x < 5) && x < 4`
abbrev condition : Expr
condition =
    binary 1 no_ir andand invalid_type
      (binary 2 no_ir oror invalid_type (x_below 10 3) (x_below 20 5)) (x_below 30 4)

abbrev start : Gen
start = record { operand_stack = []; instrs = [] }

condition-IsSupported : IsSupported true condition
unfolding label_eq
condition-IsSupported =
    and_or true 1 no_ir invalid_type 2 no_ir invalid_type (x_below 10 3) (x_below 20 5)
      (x_below 30 4) refl
      (or_comparison 2 no_ir invalid_type 10 no_ir (Token.chr b'<') invalid_type _ _ (x_below 20 5)
        refl (x_below-IsComparison 10 3)
        (comparison true 20 no_ir (Token.chr b'<') invalid_type _ _ (x_below-IsComparison 20 5)))
      (refl, (refl, tt, tt), (refl, tt, tt)) (refl, refl)
      (comparison true 30 no_ir (Token.chr b'<') invalid_type _ _ (x_below-IsComparison 30 4))

condition-Avoids_body : Avoids (if_body 0) condition
unfolding label_eq
condition-Avoids_body = (refl, (refl, (refl, tt, tt), (refl, tt, tt)), (refl, tt, tt))

condition-Avoids_else : Avoids (if_else 0) condition
unfolding label_eq
condition-Avoids_else = (refl, (refl, (refl, tt, tt), (refl, tt, tt)), (refl, tt, tt))

generate-GeneratesCond_example : GeneratesCond machine true condition (if_body 0) (if_else 0) start
generate-GeneratesCond_example =
    generate-GeneratesCond machine true condition (if_body 0) (if_else 0) start
      condition-IsSupported condition-Avoids_body condition-Avoids_else

compare-GeneratesJump_example :
    GeneratesJump machine false
      (binary 10
        (targeted no_ir true (if_else 0))
        (Token.chr b'<')
        invalid_type
        (local_var 11 0 invalid_type)
        (int_literal 12 (pos 3) invalid_type))
      (λ f. not (compare_values machine (Token.chr b'<') (f.locals 0) 3))
      (if_else 0)
      start
unfolding eval_value
compare-GeneratesJump_example =
    compare-GeneratesJump machine false 10 (targeted no_ir true (if_else 0)) (Token.chr b'<')
      invalid_type (local_var 11 0 invalid_type) (int_literal 12 (pos 3) invalid_type) (if_else 0)
      start (x_below-IsComparison 10 3) refl

abbrev below : ℕ → ℕ → Comparison
below id v = record {
  id = id;
  ir = no_ir;
  op = Token.chr b'<';
  t = invalid_type;
  l = local_var (id + 1) 0 invalid_type;
  r = int_literal (id + 2) (pos v) invalid_type;
  is_comparison = x_below-IsComparison id v;
}

generate_or_or_example :
    GeneratesTest machine
      (binary 1 no_ir oror invalid_type
        (binary 2 no_ir oror invalid_type (node (below 10 3)) (node (below 20 5)))
        (node (below 30 4)))
      (λ f.
        truth machine f (below 10 3)
        || (truth machine f (below 20 5) && truth machine f (below 30 4)))
      (if_body 0)
      (if_else 0)
      start
generate_or_or_example =
    generate_or_or machine 1 2 no_ir no_ir invalid_type invalid_type (below 10 3) (below 20 5)
      (below 30 4) (if_body 0) (if_else 0) start refl refl

generate_and_or_example :
    GeneratesTest machine
      (binary 1 no_ir oror invalid_type
        (binary 2 no_ir andand invalid_type (node (below 10 3)) (node (below 20 5)))
        (node (below 30 4)))
      (λ f. truth machine f (below 30 4))
      (if_body 0)
      (if_else 0)
      start
generate_and_or_example =
    generate_and_or machine 1 2 no_ir no_ir invalid_type invalid_type (below 10 3) (below 20 5)
      (below 30 4) (if_body 0) (if_else 0) start refl refl
