-- ===== src/TypeId.antt =====
-- carbonc/type_id.hh: a type is named by the scope that declares it and its place there. A scope
-- is a number, `none` the null pointer; the place `none` stands for -1.
use carbonlang.Prelude.{ℕ, Bool, true, false, ◌&&◌, Option, some, none, ◌≡◌, ◌↔◌, arith, ◌==◌}

pub record TypeId : Type 0 where
  pub scope : Option ℕ
  pub type_index : Option ℕ

abbrev pub invalid_type : TypeId
invalid_type = record { scope = none; type_index = none }

-- Equality of pointers, and of places.
abbrev pub option_eq : Option ℕ → Option ℕ → Bool
option_eq none none = true
option_eq (some a) (some b) = a == b
option_eq _ _ = false

unfoldable pub type_id_eq : TypeId → TypeId → Bool
type_id_eq a b = option_eq a.scope b.scope && option_eq a.type_index b.type_index

option_eq_iff : (a b : Option ℕ) → (option_eq a b ≡ true) ↔ (a ≡ b)
option_eq_iff none none = ground arith
option_eq_iff none (some b) = ground arith
option_eq_iff (some a) none = ground arith
option_eq_iff (some a) (some b) = ground arith

pub type_id_eq_iff : (a b : TypeId) → (type_id_eq a b ≡ true) ↔ (a ≡ b)
unfolding type_id_eq
type_id_eq_iff a b =
    ground (arith, option_eq_iff a.scope b.scope, option_eq_iff a.type_index b.type_index)
