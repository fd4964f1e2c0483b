-- ===== src/Parser/Args/Fuel.antt =====
-- The list readers of Args.antt are kept within their fuel, and read on, where their arguments'
-- reader is and does.
use carbonlang.Prelude.{
  ℕ, zero, suc, ◌≤◌, ◌<◌, refl, Bool, true, false, not, ◌||◌, length, arith, ◌==◌, if◌then◌else◌,
}
use carbonlang.Parser.{
  Tokens, Node, arg_list, call_expr, field_expr, index_expr, is_null, Parser, tok, tok_char, next,
  Ensures, returned, thrown, Ensures-if, Ensures-bind, Ensures-map, Shrinks, length-next_le,
  length-next_lt, length-next_char,
}
use carbonlang.Parser.Args.{
  is_identifier, is_coloncolon, limit, parse_id_parts, parse_qualified_identifier, parse_args,
  parse_arg_list, parse_tuple_rest, parse_enum_members, parse_postfix,
}

parse_id_parts-Ensures : (i : ℕ) (ts : Tokens) → Ensures (Shrinks ts) (parse_id_parts i ts)
unfolding parse_id_parts
parse_id_parts-Ensures zero ts = returned (omega arith)
parse_id_parts-Ensures (suc i) ts =
    Ensures-if (is_coloncolon (tok ts))
      (λ _.
        Ensures-if (is_identifier (tok (next ts)))
          (λ _.
            Ensures-bind (parse_id_parts-Ensures i (next (next ts)))
              λ _ d. returned (omega (arith, d, length-next_le ts, length-next_le (next ts))))
          λ _. thrown)
      λ _. returned (omega arith)

pub parse_qualified_identifier-Ensures :
    (ts : Tokens) → Ensures (λ r. length r.1 ≤ length (next ts)) (parse_qualified_identifier ts)
unfolding parse_qualified_identifier
parse_qualified_identifier-Ensures ts =
    Ensures-bind (parse_id_parts-Ensures limit (next ts)) λ _ d. returned d

module _ (p : Parser Node) (n : ℕ)
    (p-Ensures : (ts : Tokens) → length ts ≤ n → Ensures (Shrinks ts) (p ts)) where
  parse_args-Ensures :
      (i end : ℕ) (ts : Tokens) → length ts ≤ n → Ensures (Shrinks ts) (parse_args p i end ts)
  unfolding parse_args
  parse_args-Ensures zero end ts h = returned (omega arith)
  parse_args-Ensures (suc i) end ts h = Ensures-bind (p-Ensures ts h) λ (arg, ts₁) d.
      Ensures-if (is_null arg) (λ _. returned d)
        λ _.
          Ensures-if (not (tok_char ts₁ == b',') || tok_char ts₁ == end) (λ _. returned d)
            λ _.
              Ensures-bind
                (parse_args-Ensures i end (next ts₁) (omega (arith, d, length-next_le ts₁)))
                λ _ d'. returned (omega (arith, d, d', length-next_le ts₁))

  pub parse_arg_list-Ensures :
      (end : ℕ) (ts : Tokens)
      → length (next ts) ≤ n
      → Ensures (λ r. length r.1 ≤ length (next ts)) (parse_arg_list p end ts)
  unfolding parse_arg_list
  parse_arg_list-Ensures end ts h =
      Ensures-bind
        (Ensures-if (tok_char (next ts) == end) (λ _. returned (omega arith))
          λ _. parse_args-Ensures limit end (next ts) h)
        λ (args, ts₁) d.
          Ensures-if (tok_char ts₁ == end) (λ _. returned (omega (arith, d, length-next_le ts₁)))
            λ _. thrown

  pub parse_tuple_rest-Ensures :
      (f : ℕ) (ts : Tokens)
      → length ts < f
      → length ts ≤ suc n
      → Ensures (Shrinks ts) (parse_tuple_rest p f ts)
  unfolding parse_tuple_rest
  parse_tuple_rest-Ensures zero ts h hn = absurd (omega arith)
  parse_tuple_rest-Ensures (suc f) ts h hn =
      Ensures-if (tok_char ts == b',')
        (λ c.
          let g : length (next ts) < length ts = length-next_char ts b',' (omega arith) c in
          Ensures-bind (p-Ensures (next ts) (omega arith)) λ (expr, ts₁) d.
            Ensures-if (is_null expr) (λ _. returned (omega arith))
              λ _.
                Ensures-bind (parse_tuple_rest-Ensures f ts₁ (omega arith) (omega arith))
                  λ _ d'. returned (omega arith))
        λ _. returned (omega arith)

length-if_next : (c : Bool) (ts : Tokens) → length (if c then next ts else ts) ≤ length ts
length-if_next true ts = length-next_le ts
length-if_next false ts = omega arith

pub parse_enum_members-Ensures :
    (f : ℕ) (ts : Tokens) → length ts < f → Ensures (Shrinks ts) (parse_enum_members f ts)
unfolding parse_enum_members is_identifier
parse_enum_members-Ensures zero ts h = absurd (omega arith)
parse_enum_members-Ensures (suc f) ts h =
    Ensures-if (is_identifier (tok ts))
      (λ c.
        let g : length (next ts) < length ts = length-next_lt ts is_identifier refl c in
        Ensures-bind (parse_qualified_identifier-Ensures ts) λ (id, ts₁) d.
          let k : length (if tok_char ts₁ == b';' then next ts₁ else ts₁) ≤ length ts₁ =
            length-if_next (tok_char ts₁ == b';') ts₁ in
          Ensures-bind
            (parse_enum_members-Ensures f (if tok_char ts₁ == b';' then next ts₁ else ts₁)
              (omega arith))
            λ _ d'. returned (omega arith))
      λ _. returned (omega arith)

module _ (p q : Parser Node) (n : ℕ)
    (p-Ensures : (ts : Tokens) → length ts < n → Ensures (Shrinks ts) (p ts))
    (q-Ensures : (ts : Tokens) → length ts < n → Ensures (Shrinks ts) (q ts)) where
  below : (m : ℕ) → m < n → (ts : Tokens) → length ts ≤ m → Ensures (Shrinks ts) (p ts)
  below m g ts h = p-Ensures ts (omega arith)

  again :
      (f : ℕ)
      → ((expr : Node) (ts : Tokens)
          → length ts < f
          → length ts ≤ n
          → Ensures (Shrinks ts) (parse_postfix p q f expr ts))
      → (expr : Node) (ts ts₁ : Tokens) → length ts < suc f
      → length ts ≤ n
      → length ts₁ < length ts
      → Ensures (Shrinks ts) (parse_postfix p q f expr ts₁)
  again f ih expr ts ts₁ h hn d =
      Ensures-map (λ _ d'. omega arith) (ih expr ts₁ (omega arith) (omega arith))

  pub parse_postfix-Ensures :
      (f : ℕ) (expr : Node) (ts : Tokens)
      → length ts < f
      → length ts ≤ n
      → Ensures (Shrinks ts) (parse_postfix p q f expr ts)
  unfolding parse_postfix is_identifier
  parse_postfix-Ensures zero expr ts h hn = absurd (omega arith)
  parse_postfix-Ensures (suc f) expr ts h hn =
      Ensures-if (is_null expr) (λ _. returned (omega arith))
        λ _.
          Ensures-if (tok_char ts == b'(')
            (λ c.
              let g : length (next ts) < length ts = length-next_char ts b'(' (omega arith) c in
              Ensures-bind
                (parse_arg_list-Ensures p (length (next ts))
                  (below (length (next ts)) (omega arith)) b')' ts (omega arith))
                λ (args, ts₁) d.
                  again f (parse_postfix-Ensures f) (call_expr expr (arg_list args)) ts ts₁ h hn
                    (omega arith))
            λ _.
              Ensures-if (tok_char ts == b'.')
                (λ c.
                  let g : length (next ts) < length ts = length-next_char ts b'.' (omega arith) c in
                  Ensures-if (is_identifier (tok (next ts)))
                    (λ _. Ensures-bind (parse_qualified_identifier-Ensures (next ts)) λ (id, ts₁) d.
                      again f (parse_postfix-Ensures f) (field_expr expr id) ts ts₁ h hn
                        (omega (arith, length-next_le (next ts))))
                    λ _. thrown)
                λ _.
                  Ensures-if (tok_char ts == b'[')
                    (λ c.
                      let g : length (next ts) < length ts =
                        length-next_char ts b'[' (omega arith) c in
                      Ensures-bind (q-Ensures (next ts) (omega arith)) λ (i, ts₁) d.
                        Ensures-if (tok_char ts₁ == b']')
                          (λ _.
                            again f (parse_postfix-Ensures f) (index_expr expr i) ts (next ts₁) h hn
                              (omega (arith, length-next_le ts₁)))
                          λ _. thrown)
                    λ _. returned (omega arith)
