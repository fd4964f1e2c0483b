-- ===== src/Parser/Args/Limits.antt =====
-- The bounds of the lists that carbonc/parser.cc reads.
use carbonlang.Prelude.{
  ℕ, zero, suc, ◌≤◌, ◌≡◌, refl, Bool, true, false, not, ◌||◌, if◌then◌else◌, subst, List, Bytes,
  length, arith, ◌==◌,
}
use carbonlang.Parser.{
  Tokens, Node, Nodes, none, more, is_null, Result, ok, error, null_deref, left_out, out_of_fuel,
  bind, Parser, tok, tok_char, next, Ensures, returned, thrown, Ensures-if, Ensures-bind,
  Ensures-ok,
}
use carbonlang.Parser
use carbonlang.Parser.Args.{
  is_identifier, is_coloncolon, limit, parse_id_parts, parse_qualified_identifier, parse_args,
  parse_arg_list,
}

abbrev pub count : Nodes → ℕ
count none = 0
count (more arg args) = suc (count args)

-- What a parser reads, when it succeeds, satisfies the predicate.
abbrev pub Reads : {A : Type 0} → (A → Type 0) → Result A → Type 0
Reads P (ok a) = P a
Reads P (error m) = Unit
Reads P null_deref = Unit
Reads P left_out = Unit
Reads P out_of_fuel = Unit

Reads-if :
    {A : Type 0} (P : A → Type 0) (c : Bool) (x y : Result A)
    → (c ≡ true → Reads P x)
    → (c ≡ false → Reads P y)
    → Reads P (if c then x else y)
Reads-if P true x y h k = h refl
Reads-if P false x y h k = k refl

Reads-bind :
    {A : Type 0} {B : Type 0} (P : B → Type 0) (r : Result A) (f : A → Result B)
    → ((a : A) → r ≡ ok a → Reads P (f a))
    → Reads P (bind r f)
Reads-bind P (ok a) f h = h a refl
Reads-bind P (error m) f h = tt
Reads-bind P null_deref f h = tt
Reads-bind P left_out f h = tt
Reads-bind P out_of_fuel f h = tt

Reads-ok : {A : Type 0} (P : A → Type 0) (r : Result A) (a : A) → Reads P r → r ≡ ok a → P a
Reads-ok P r a h e = subst (Reads P) e h

parse_args-count :
    (p : Parser Node) (i end : ℕ) (ts : Tokens) → Reads (λ r. count r.0 ≤ i) (parse_args p i end ts)
unfolding parse_args
parse_args-count p zero end ts = omega arith
parse_args-count p (suc i) end ts = Reads-bind _ (p ts) _ λ (arg, ts₁) _.
    Reads-if _ (is_null arg) _ _ (λ _. omega arith)
      λ _.
        Reads-if _ (not (tok_char ts₁ == b',') || tok_char ts₁ == end) _ _ (λ _. omega arith)
          λ _. Reads-bind _ (parse_args p i end (next ts₁)) _ λ (args, ts₂) e.
            let d = Reads-ok (λ r. count r.0 ≤ i) _ _ (parse_args-count p i end (next ts₁)) e in
            omega arith

parse_arg_list-count :
    (p : Parser Node) (end : ℕ) (ts : Tokens)
    → Reads (λ r. count r.0 ≤ 32) (parse_arg_list p end ts)
unfolding parse_arg_list
parse_arg_list-count p end ts =
    let read =
      if tok_char (next ts) == end then ok (none, next ts) else parse_args p limit end (next ts) in
    let short : Reads (λ r. count r.0 ≤ 32) read =
      Reads-if _ (tok_char (next ts) == end) _ _ (λ _. omega arith)
        λ _. parse_args-count p limit end (next ts) in
    Reads-bind _ read _ λ (args, ts₁) e.
      let d = Reads-ok (λ r. count r.0 ≤ 32) read (args, ts₁) short e in
      Reads-if _ (tok_char ts₁ == end) _ _ (λ _. d) λ _. tt

parse_id_parts-length : (i : ℕ) (ts : Tokens) → Ensures (λ r. length r.0 ≤ i) (parse_id_parts i ts)
unfolding parse_id_parts
parse_id_parts-length zero ts = returned (omega arith)
parse_id_parts-length (suc i) ts =
    Ensures-if (is_coloncolon (tok ts))
      (λ _.
        Ensures-if (is_identifier (tok (next ts)))
          (λ _.
            Ensures-bind (parse_id_parts-length i (next (next ts))) λ _ d. returned (omega arith))
          λ _. thrown)
      λ _. returned (omega arith)

abbrev pub IsShortName : Node × Tokens → Type 0
IsShortName (t, rest) =
    (parts : List Bytes) × (t ≡ Parser.identifier parts) × (1 ≤ length parts) × (length parts ≤ 33)

parse_qualified_identifier-length :
    (ts : Tokens) → Ensures IsShortName (parse_qualified_identifier ts)
unfolding parse_qualified_identifier
parse_qualified_identifier-length ts =
    Ensures-bind (parse_id_parts-length limit (next ts))
      λ (parts, ts₁) d. returned (_, refl, omega arith, omega arith)

-- A list in brackets that is read has at most 32 items, whatever parser reads the items, and a
-- qualified identifier has at least one part and at most 33.
pub lists_are_short :
    (p : Parser Node) (end : ℕ) (ts ts' rest rest' : Tokens) (args : Nodes) (id : Node)
    → parse_arg_list p end ts ≡ ok (args, rest)
    → parse_qualified_identifier ts' ≡ ok (id, rest')
    → (count args ≤ 32) × IsShortName (id, rest')
lists_are_short p end ts ts' rest rest' args id h h' = (
  Reads-ok (λ r. count r.0 ≤ 32) _ (args, rest) (parse_arg_list-count p end ts) h,
  Ensures-ok (parse_qualified_identifier-length ts') h',
)
