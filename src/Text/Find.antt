-- ===== src/Text/Find.antt =====
-- `find_last_of` of a string: what is at the place that it gives, and behind it.
use carbonlang.Prelude.{
  ℕ, zero, suc, ◌<◌, ◌≡◌, refl, ap, inl, inr, some, none, [], ◌∷◌, Bytes, arith, drop, ◌==◌, ==_iff,
  Bool-cases, Option-cases,
}
use carbonlang.Text.{find_last_of}

-- The character is there, and not behind it.
pub record IsLast (c n : ℕ) (s : Bytes) : Type 0 where
  pub is_here : drop n s ≡ c ∷ drop (suc n) s
  pub none_behind : find_last_of c (drop (suc n) s) ≡ none

pub find_last_of-IsLast : (c n : ℕ) (s : Bytes) → find_last_of c s ≡ some n → IsLast c n s
unfolding find_last_of
find_last_of-IsLast c n [] h = ground arith
find_last_of-IsLast c n (x ∷ xs) h = elim (Option-cases (find_last_of c xs)) [
  | inl missing ↦ elim (Bool-cases (x == c)) [
    | inl same ↦
        let first : 0 ≡ n = ground (arith, rw (missing, same) at h) in
        rw⁻¹ first
          (record { is_here = ap (λ y. y ∷ xs) ((==_iff x c).0 same); none_behind = missing })
    | inr differ ↦ ground (arith, rw (missing, differ) at h)
  ]
  | inr (k, found) ↦
      let later : suc k ≡ n = ground (arith, rw found at h) in
      let rest = find_last_of-IsLast c k xs found in
      rw⁻¹ later (record { is_here = rest.is_here; none_behind = rest.none_behind })
]

pub find_last_of-drop-none :
    (c k : ℕ) (s : Bytes) → find_last_of c s ≡ none → find_last_of c (drop k s) ≡ none
unfolding find_last_of
find_last_of-drop-none c zero s h = h
find_last_of-drop-none c (suc k) [] h = h
find_last_of-drop-none c (suc k) (x ∷ xs) h = elim (Option-cases (find_last_of c xs)) [
  | inl missing ↦ find_last_of-drop-none c k xs missing
  | inr (n, found) ↦ ground (arith, rw found at h)
]

-- Nothing is left behind a place after the last one.
pub find_last_of-drop :
    (c n k : ℕ) (s : Bytes) → find_last_of c s ≡ some n → n < k → find_last_of c (drop k s) ≡ none
unfolding find_last_of
find_last_of-drop c n zero s h less = ground arith
find_last_of-drop c n (suc k) [] h less = refl
find_last_of-drop c n (suc k) (x ∷ xs) h less = elim (Option-cases (find_last_of c xs)) [
  | inl missing ↦ find_last_of-drop-none c k xs missing
  | inr (j, found) ↦
      let later : suc j ≡ n = ground (arith, rw found at h) in
      find_last_of-drop c j k xs found (omega arith)
]
