-- ===== src/Prelude/Bits.antt =====
-- Bit operations at variables: masks of low bits, and the test for a power of two.
use Prim.Native.Nat.{
  ℕ, zero, suc, ◌+◌, ◌-◌, ◌*◌, ◌/◌, ◌%◌, ◌^◌, ◌≤◌, ◌<◌, min, bit_and, digits, bit_and-bitwise,
}
use mathlib.Core.Path.{◌≡◌, refl, sym, ap, ◌∙◌}
use mathlib.Core.Logic.{◌≢◌}
use native.Mathlib.Omega.{arith}
use native.Mathlib.Decide.{ℕ_discrete}
use native.Mathlib.Nat.{pow-suc, div-add-mod', mod-lt, mod-eq_of_lt, mul-add-mod_self_right}

digits_of_zero : (bound y : ℕ) → digits (λ d. zero) min bound zero y ≡ 0
digits_of_zero zero y = refl
digits_of_zero (suc bound) y = refl

-- The digit recursion does not depend on its bound, once that covers the first number.
digits_bound :
    (x y k l : ℕ) → x ≤ l → x ≤ k → digits (λ d. zero) min k x y ≡ digits (λ d. zero) min l x y
digits_bound zero y k l small enough = digits_of_zero k y ∙ sym (digits_of_zero l y)
digits_bound (suc x) y zero l small enough = absurd (omega arith)
digits_bound (suc x) y (suc k) zero small enough = absurd (omega arith)
digits_bound (suc x) y (suc k) (suc l) small enough =
    let next = digits_bound (suc x / 2) (y / 2) k l (omega arith) (omega arith) in
    omega (arith, next)

pub bit_and_halves : (x y : ℕ) → bit_and x y ≡ 2 * bit_and (x / 2) (y / 2) + min (x % 2) (y % 2)
bit_and_halves (suc x) y =
    let half = suc x / 2 in
    let same = digits_bound half (y / 2) x half (omega arith) (omega arith) in
    omega (arith, same, bit_and-bitwise half (y / 2), bit_and-bitwise (suc x) y)
bit_and_halves zero y = omega (arith, bit_and-bitwise 0 (y / 2), bit_and-bitwise 0 y)

-- Induction on a bound, since the halves are no parts of a number.
bit_and_self_upto : (k x : ℕ) → x ≤ k → bit_and x x ≡ x
bit_and_self_upto k zero h = omega (arith, bit_and-bitwise 0 0)
bit_and_self_upto zero (suc x) h = absurd (omega arith)
bit_and_self_upto (suc k) (suc x) h =
    omega (arith, bit_and_halves (suc x) (suc x), bit_and_self_upto k (suc x / 2) (omega arith))

pub bit_and_self : (x : ℕ) → bit_and x x ≡ x
bit_and_self x = bit_and_self_upto x x (omega arith)

bit_and_none_upto : (k x : ℕ) → x ≤ k → bit_and x 0 ≡ 0
bit_and_none_upto (suc k) (suc x) h =
    let rest = bit_and_none_upto k (suc x / 2) (omega arith) in
    omega (arith, rest, bit_and_halves (suc x) 0)
bit_and_none_upto zero (suc x) h = absurd (omega arith)
bit_and_none_upto k zero h = omega (arith, bit_and-bitwise 0 0)

mod_double : (x m : ℕ) → 0 < m → x % (m * 2) ≡ 2 * (x / 2 % m) + x % 2
mod_double x m h =
    let low = 2 * (x / 2 % m) + x % 2 in
    let split : x ≡ x / 2 / m * (m * 2) + low = omega (arith, div-add-mod' (x / 2) m) in
    let small : low < m * 2 = omega (arith, mod-lt (x / 2) h) in
    ap (λ n. n % (m * 2)) split
    ∙ mul-add-mod_self_right (x / 2 / m) (m * 2) low
    ∙ mod-eq_of_lt small

pub pow2_pos : (k : ℕ) → 0 < 2 ^ k
pow2_pos zero = omega arith
pow2_pos (suc k) = omega (arith, pow-suc 2 k, pow2_pos k)

-- `x & (2^k - 1)` keeps the lowest `k` bits.
pub bit_and-mask : (k x : ℕ) → bit_and x (2 ^ k - 1) ≡ x % 2 ^ k
bit_and-mask zero x = omega (arith, bit_and_none_upto x x (omega arith))
bit_and-mask (suc k) x = rw (pow-suc 2 k) (
    let half : (2 ^ k * 2 - 1) / 2 ≡ 2 ^ k - 1 = omega (arith, pow2_pos k) in
    bit_and_halves x (2 ^ k * 2 - 1)
    ∙ rw (half, mod_double x (2 ^ k) (pow2_pos k), bit_and-mask k (x / 2))
        (omega (arith, pow2_pos k)))

even-bit_and : (n : ℕ) → 0 < n → n % 2 ≡ 0 → bit_and n (n - 1) ≡ 0 → bit_and (n / 2) (n / 2 - 1) ≡ 0
even-bit_and n p even e =
    let pred_half : (n - 1) / 2 ≡ n / 2 - 1 = omega arith in
    omega (arith, ap (bit_and (n / 2)) pred_half, bit_and_halves n (n - 1))

odd-bit_and : (n : ℕ) → 0 < n → n % 2 ≢ 0 → bit_and n (n - 1) ≡ 0 → n ≡ 1
odd-bit_and n p odd e =
    let pred_half : (n - 1) / 2 ≡ n / 2 = omega arith in
    omega (arith, ap (bit_and (n / 2)) pred_half, bit_and_halves n (n - 1), bit_and_self (n / 2))

-- A number that shares no bit with its predecessor is a power of two.
pub pow2_of_bit_and : (b n : ℕ) → n ≤ b → 0 < n → bit_and n (n - 1) ≡ 0 → (k : ℕ) × (n ≡ 2 ^ k)
pow2_of_bit_and zero n h p e = absurd (omega arith)
pow2_of_bit_and (suc b) n h p e = elim (ℕ_discrete (n % 2) 0) [
  | yes even ↦
      let (k, ih) =
        pow2_of_bit_and b (n / 2) (omega arith) (omega arith) (even-bit_and n p even e) in
      (suc k, omega (arith, pow-suc 2 k))
  | no odd ↦ (0, odd-bit_and n p odd e)
]
