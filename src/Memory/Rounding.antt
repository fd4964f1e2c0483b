-- ===== src/Memory/Rounding.antt =====
-- `next_pow2` of carbonc/memory.cc, and its loop.
use carbonlang.Prelude.{
  inl, inr, ℕ, zero, suc, ◌+◌, ◌-◌, ◌*◌, ◌^◌, ◌≤◌, ◌<◌, ◌≡◌, refl, ap, not, ◌&&◌, ◌⊎◌, true, some,
  none, arith, bit_and, ltb, ◌==◌, Bool-cases, ltb→lt, u64,
}
use carbonlang.Prelude.Bits.{pow2_of_bit_and}
use carbonlang.Memory.{double_until, next_pow2}
use native.Mathlib.Decide.{ℕ_discrete}
use native.Mathlib.Nat.{pow-suc, pow-le-pow_right}

-- `p` is a power of two, at least `n`, and less than twice `n`.
pub record IsNextPow2 (n p : ℕ) : Type 0 where
  pub exponent : ℕ
  pub is_power : p ≡ 2 ^ exponent
  pub covers : n ≤ p
  pub least : p < 2 * n

double_until-IsNextPow2 :
    (f k p n : ℕ)
    → p ≡ 2 ^ k
    → p < 2 * n
    → n ≤ 2 ^ 63
    → 64 < k + f
    → (r : ℕ) × (double_until f p n ≡ some r) × IsNextPow2 n r
unfolding double_until
double_until-IsNextPow2 zero k p n e small top enough =
    absurd (omega (arith, pow-le-pow_right {n = 2} (omega arith) {i = 64} {j = k} (omega arith)))
double_until-IsNextPow2 (suc f) k p n e small top enough = elim (Bool-cases (ltb p n)) [
  | inl below ↦
      let unwrapped : u64 (p * 2) ≡ p * 2 = omega (arith, ltb→lt p n below) in
      rw (below, unwrapped)
        (double_until-IsNextPow2 f (suc k) (p * 2) n (omega (arith, pow-suc 2 k))
          (omega (arith, ltb→lt p n below)) top (omega arith))
  | inr done ↦
      (p, rw done, record { exponent = k; is_power = e; covers = ground arith; least = small })
]

-- A power of two is its own rounding.
self-IsNextPow2 : (n k : ℕ) → 0 < n → n ≡ 2 ^ k → IsNextPow2 n n
self-IsNextPow2 n k pos e = record {
  exponent = k;
  is_power = e;
  covers = omega arith;
  least = omega arith;
}

-- The bucket size that the arena rounds a request of 1 to 2^63 bytes up to: the loop ends, and the
-- result is the least power of two that is not below the request.
pub next_pow2-IsNextPow2 :
    (n : ℕ) → 0 < n → n ≤ 2 ^ 63 → (r : ℕ) × (next_pow2 n ≡ some r) × IsNextPow2 n r
unfolding next_pow2
next_pow2-IsNextPow2 n pos top = elim (Bool-cases (not (n == 0) && bit_and n (n - 1) == 0)) [
  | inl power ↦
      let (k, e) = pow2_of_bit_and n n (omega arith) pos (ground arith) in
      (n, rw power, self-IsNextPow2 n k pos e)
  | inr other ↦ rw other (double_until-IsNextPow2 65 0 1 n refl (omega arith) top (omega arith))
]

-- Above 2^63 the doubled value wraps to 0 before it reaches the request, and stays there.
double_until_diverges :
    (f k p n : ℕ) → (p ≡ 0) ⊎ ((p ≡ 2 ^ k) × (k ≤ 63)) → 2 ^ 63 < n → double_until f p n ≡ none
unfolding double_until
double_until_diverges zero k p n h big = refl
double_until_diverges (suc f) k p n (inl e) big =
    let below : ltb p n ≡ true = ground arith in
    rw below (double_until_diverges f k (u64 (p * 2)) n (inl (omega arith)) big)
double_until_diverges (suc f) k p n (inr (e, h)) big =
    let bound : p ≤ 2 ^ 63 =
      omega (arith, pow-le-pow_right {n = 2} (omega arith) {i = k} {j = 63} h) in
    let below : ltb p n ≡ true = ground arith in
    elim (ℕ_discrete k 63) [
      | yes last ↦
          let wrapped : u64 (p * 2) ≡ 0 = omega (arith, ap (λ j. 2 ^ j) last) in
          rw below (double_until_diverges f k (u64 (p * 2)) n (inl wrapped) big)
      | no more ↦
          let room = pow-le-pow_right {n = 2} (omega arith) {i = k} {j = 62} (omega arith) in
          let doubled : u64 (p * 2) ≡ 2 ^ suc k = omega (arith, pow-suc 2 k, room) in
          rw below
            (double_until_diverges f (suc k) (u64 (p * 2)) n (inr (doubled, omega arith)) big)
    ]

-- For a request above 2^63 bytes the rounding loop ends after no number of rounds.
pub double_until-none : (rounds n : ℕ) → 2 ^ 63 < n → double_until rounds 1 n ≡ none
double_until-none rounds n = double_until_diverges rounds 0 1 n (inr (refl, omega arith))
