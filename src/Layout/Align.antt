-- ===== src/Layout/Align.antt =====
-- carbonc/common.hh: `align` and multiples.
use carbonlang.Prelude.{
  ℕ, ◌+◌, ◌-◌, ◌*◌, ◌/◌, ◌%◌, ◌≤◌, ◌<◌, ◌≡◌, ap, ◌∙◌, inl, inr, arith, ◌==◌, Bool-cases,
}
use carbonlang.Layout.{align}
use native.Mathlib.Nat.{mod-lt, mod_self, div-add-mod, mul-add-mod_self_left}

add_multiple_mod : (n k a : ℕ) → k % a ≡ 0 → (n + k) % a ≡ n % a
add_multiple_mod n k a e =
    let whole : n + k ≡ a * (k / a) + n = omega (arith, div-add-mod k a) in
    ap (λ x. x % a) whole ∙ mul-add-mod_self_left a (k / a) n

pub multiples_add : (n k a : ℕ) → n % a ≡ 0 → k % a ≡ 0 → (n + k) % a ≡ 0
multiples_add n k a hn hk = add_multiple_mod n k a hk ∙ hn

pub align_of_multiple : (n a : ℕ) → n % a ≡ 0 → align n a ≡ n
unfolding align
align_of_multiple n a e = ground arith

pub align-le : (n a : ℕ) → 0 < a → n ≤ align n a
unfolding align
align-le n a h = ground (arith, mod-lt n h)

pub align-lt : (n a : ℕ) → 0 < a → align n a < n + a
unfolding align
align-lt n a h = ground (arith, mod-lt n h)

pub align-mod : (n a : ℕ) → 0 < a → align n a % a ≡ 0
unfolding align
align-mod n a h = elim (Bool-cases (n % a == 0)) [
  | inl e ↦ rw e (ground arith)
  | inr e ↦
      let whole : n - n % a + a ≡ a * (n / a) + a = omega (arith, div-add-mod n a, mod-lt n h) in
      rw e (ap (λ x. x % a) whole ∙ mul-add-mod_self_left a (n / a) a ∙ mod_self a)
]

-- Whole multiples can be added before or after.
pub align_add : (n k a : ℕ) → k % a ≡ 0 → align (n + k) a ≡ align n a + k
unfolding align
align_add n k a e = rw (add_multiple_mod n k a e) (ground (arith, div-add-mod n a))
