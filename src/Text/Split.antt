-- ===== src/Text/Split.antt =====
-- carbonc/common.cc, `split`: its tokens and the string that they come from.
use carbonlang.Prelude.{
  ℕ, ◌≡◌, refl, sym, ap, ◌∙◌, inl, inr, false, List, [], ◌∷◌, ◌++◌, append_assoc, Bytes, All, ◌==◌,
  ==_iff, Bool-cases, if◌then◌else◌,
}
use carbonlang.Text.{ends_with, split_from, split}

-- Every token with a delimiter behind it.
abbrev pub unsplit : ℕ → List Bytes → Bytes
unsplit d [] = []
unsplit d (t ∷ ts) = t ++ d ∷ unsplit d ts

abbrev pub Lacks : ℕ → Bytes → Type 0
Lacks d [] = Unit
Lacks d (x ∷ xs) = ((x == d) ≡ false) × Lacks d xs

Lacks-append : (d x : ℕ) (t : Bytes) → Lacks d t → (x == d) ≡ false → Lacks d (t ++ x ∷ [])
Lacks-append d x [] h e = (e, tt)
Lacks-append d x (y ∷ t) (h, hs) e = (h, Lacks-append d x t hs e)

-- The string with a delimiter at its end, which the empty one does not need.
abbrev pub ended : ℕ → Bytes → Bytes
ended d [] = []
ended d (x ∷ xs) = if ends_with d (x ∷ xs) then x ∷ xs else (x ∷ xs) ++ d ∷ []

ended-cons : (d x y : ℕ) (ys : Bytes) → ended d (x ∷ y ∷ ys) ≡ x ∷ ended d (y ∷ ys)
ended-cons d x y ys = elim (Bool-cases (ends_with d (y ∷ ys))) [
  | inl closed ↦ rw closed refl
  | inr open_end ↦ rw open_end refl
]

split_from-rest :
    (d x : ℕ) (token : Bytes) → split_from d (token ++ x ∷ []) [] ≡ (token ++ x ∷ []) ∷ []
unfolding split_from
split_from-rest d x [] = refl
split_from-rest d x (t ∷ ts) = refl

unsplit-split_from :
    (d : ℕ) (token : Bytes) (x : ℕ) (xs : Bytes)
    → unsplit d (split_from d token (x ∷ xs)) ≡ token ++ ended d (x ∷ xs)
unfolding split_from
unsplit-split_from d token x [] = elim (Bool-cases (x == d)) [
  | inl same ↦ rw same (ap (λ c. token ++ c ∷ []) (sym ((==_iff x d).0 same)))
  | inr differ ↦ rw (differ, split_from-rest d x token) (append_assoc token (x ∷ []) (d ∷ []))
]
unsplit-split_from d token x (y ∷ ys) = elim (Bool-cases (x == d)) [
  | inl same ↦ rw same (
      ap (λ u. token ++ d ∷ u) (unsplit-split_from d [] y ys)
      ∙ ap (λ c. token ++ c ∷ ended d (y ∷ ys)) (sym ((==_iff x d).0 same))
      ∙ ap (λ u. token ++ u) (sym (ended-cons d x y ys)))
  | inr differ ↦ rw differ (
      unsplit-split_from d (token ++ x ∷ []) y ys
      ∙ append_assoc token (x ∷ []) (ended d (y ∷ ys))
      ∙ ap (λ u. token ++ u) (sym (ended-cons d x y ys)))
]

split_from-Lacks : (d : ℕ) (token s : Bytes) → Lacks d token → All (Lacks d) (split_from d token s)
unfolding split_from
split_from-Lacks d [] [] h = tt
split_from-Lacks d (t ∷ ts) [] h = (h, tt)
split_from-Lacks d token (x ∷ xs) h = elim (Bool-cases (x == d)) [
  | inl same ↦ rw same (h, split_from-Lacks d [] xs tt)
  | inr differ ↦
      rw differ (split_from-Lacks d (token ++ x ∷ []) xs (Lacks-append d x token h differ))
]

-- No token holds the delimiter; with a delimiter behind each, the tokens are the string again where it
-- is empty or ends in a delimiter, and the string with one more delimiter where it does not.
pub unsplit-split :
    (s : Bytes) (delimiter : ℕ)
    → All (Lacks delimiter) (split s delimiter)
      × (unsplit delimiter (split s delimiter) ≡ ended delimiter s)
unfolding split
unsplit-split [] delimiter = (tt, unfold split_from in refl)
unsplit-split (x ∷ xs) delimiter =
    (split_from-Lacks delimiter [] (x ∷ xs) tt, unsplit-split_from delimiter [] x xs)
