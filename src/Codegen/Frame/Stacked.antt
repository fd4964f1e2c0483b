-- ===== src/Codegen/Frame/Stacked.antt =====
-- carbonc/codegen_x64.cc, `get_func_stack_frame_size`: the distances of local variables below rbp, and
-- that they fit 32 bits.
use carbonlang.Prelude.{
  ℕ, zero, suc, ◌+◌, ◌-◌, ◌*◌, ◌%◌, ◌≤◌, ◌<◌, ◌≡◌, ◌∙◌, some, lt→ltb, u32_mod, int32_bound, refl,
  inl, inr, List, [], ◌∷◌, All, arith, ltb, if◌then◌else◌, Bool-cases,
}
use carbonlang.Scope.{◌>>=◌}
use carbonlang.Layout.{align, Sized}
use carbonlang.Layout.Align.{align-le, align-lt, align-mod, align_of_multiple}
use carbonlang.Layout.Structs.{
  IsAlignment, one, two, four, eight, sixteen, alignment_pos, alignment_le,
}
use carbonlang.Codegen.Frame.{int32, to_int32, place_args, place_locals}

-- A multiple of 16 below an address that is one is aligned as any type asks.
mod_of_16 : (n a : ℕ) → IsAlignment a → n % 16 ≡ 0 → n % a ≡ 0
mod_of_16 n _ one h = omega arith
mod_of_16 n _ two h = omega arith
mod_of_16 n _ four h = omega arith
mod_of_16 n _ eight h = omega arith
mod_of_16 n _ sixteen h = h

below_mod :
    (address d a : ℕ)
    → IsAlignment a
    → address % 16 ≡ 0
    → d ≤ address
    → d % a ≡ 0
    → (address - d) % a ≡ 0
below_mod address d _ one h le hd = omega arith
below_mod address d _ two h le hd = omega arith
below_mod address d _ four h le hd = omega arith
below_mod address d _ eight h le hd = omega arith
below_mod address d _ sixteen h le hd = omega arith

-- The variables at these distances below `address` follow one another downwards from `start`,
-- each one aligned, and the last one ends `end` below.
abbrev pub IsStacked : ℕ → List Sized → List ℕ → ℕ → ℕ → Type 0
IsStacked address [] [] start end = start ≤ end
IsStacked address (l ∷ ls) (d ∷ ds) start end =
    ((address - d) % l.alignment ≡ 0) × (start + l.size ≤ d) × IsStacked address ls ds d end
IsStacked address _ _ start end = ⊥

abbrev Aligned : Sized → Type 0
Aligned l = IsAlignment l.alignment

abbrev place : Sized → ℕ → ℕ
place l n = if ltb 8 l.size then align (n + l.size) 16 else align (n + l.size) l.alignment

place-mod : (l : Sized) (n : ℕ) → Aligned l → place l n % l.alignment ≡ 0
place-mod l n h = elim (Bool-cases (ltb 8 l.size)) [
  | inl e ↦
      rw e
        (mod_of_16 (align (n + l.size) 16) l.alignment h (align-mod (n + l.size) 16 (omega arith)))
  | inr e ↦ rw e (align-mod (n + l.size) l.alignment (alignment_pos h))
]

place-le : (l : Sized) (n : ℕ) → Aligned l → n + l.size ≤ place l n
place-le l n h = elim (Bool-cases (ltb 8 l.size)) [
  | inl e ↦ rw e (align-le (n + l.size) 16 (omega arith))
  | inr e ↦ rw e (align-le (n + l.size) l.alignment (alignment_pos h))
]

-- The distances without a bound, and the last one.
unfoldable pub stacked_from : List Sized → ℕ → List ℕ × ℕ
stacked_from [] n = ([], n)
stacked_from (l ∷ ls) n = let rest = stacked_from ls (place l n) in (place l n ∷ rest.0, rest.1)

-- The room that variables take at most.
abbrev pub room : List Sized → ℕ
room [] = 0
room (l ∷ ls) = l.size + 16 + room ls

pub int32-small : (n : ℕ) → n < int32_bound → int32 n ≡ some n
unfolding int32
int32-small n h = rw (lt→ltb n int32_bound h) refl

to_int32-small : (n : ℕ) → n < int32_bound → to_int32 n ≡ some n
unfolding to_int32
to_int32-small n h = let same : n % u32_mod ≡ n = omega arith in rw same (int32-small n h)

place-lt : (l : Sized) (n : ℕ) → Aligned l → place l n < n + l.size + 16
place-lt l n h = elim (Bool-cases (ltb 8 l.size)) [
  | inl e ↦ rw e (align-lt (n + l.size) 16 (omega arith))
  | inr e ↦
      let few : l.alignment ≤ 16 = alignment_le h in
      rw e (omega (arith, align-lt (n + l.size) l.alignment (alignment_pos h)))
]

pub stacked_from-room :
    (ls : List Sized) (n : ℕ) → All Aligned ls → (stacked_from ls n).1 ≤ n + room ls
unfolding stacked_from
stacked_from-room [] n h = omega arith
stacked_from-room (l ∷ ls) n (hl, h) =
    omega (arith, place-lt l n hl, stacked_from-room ls (place l n) h)

place-fits :
    (l : Sized) (n : ℕ)
    → Aligned l
    → n + l.size + 16 < int32_bound
    → (if ltb 8 l.size
        then int32 (align (n + l.size) 16)
        else (to_int32 l.alignment >>= λ alignment. int32 (align (n + l.size) alignment)))
      ≡ some (place l n)
place-fits l n h small = elim (Bool-cases (ltb 8 l.size)) [
  | inl e ↦
      let less = align-lt (n + l.size) 16 (omega arith) in
      rw e (int32-small (align (n + l.size) 16) (omega (arith, less)))
  | inr e ↦
      let few : l.alignment ≤ 16 = alignment_le h in
      let less = align-lt (n + l.size) l.alignment (alignment_pos h) in
      rw (e, to_int32-small l.alignment (omega arith), ◌>>=◌)
        (int32-small (align (n + l.size) l.alignment) (omega arith))
]

pub place_locals-fits :
    (ls : List Sized) (n : ℕ)
    → All Aligned ls
    → n + room ls < int32_bound
    → place_locals ls n ≡ some (stacked_from ls n)
unfolding place_locals stacked_from
place_locals-fits [] n h small = refl
place_locals-fits (l ∷ ls) n (hl, h) small =
    let less = place-lt l n hl in
    rw
      (
        to_int32-small l.size (omega arith),
        ◌>>=◌,
        int32-small (n + l.size) (omega arith),
        place-fits l n hl (omega arith),
        place_locals-fits ls (place l n) h (omega arith),
      )
      refl

abbrev pub args_from : ℕ → ℕ → List ℕ
args_from zero n = []
args_from (suc k) n = 8 * (n + 1) ∷ args_from k (n + 1)

pub place_args-fits :
    (count n : ℕ)
    → 8 * (n + count) < int32_bound
    → place_args count (8 * n) ≡ some (args_from count n)
unfolding place_args
place_args-fits zero n small = refl
place_args-fits (suc k) n small =
    let next : align (8 * n + 8) 8 ≡ 8 * (n + 1) =
      align_of_multiple (8 * n + 8) 8 (omega arith) ∙ omega arith in
    rw
      (
        next,
        int32-small (8 * (n + 1)) (omega arith),
        ◌>>=◌,
        place_args-fits k (n + 1) (omega arith),
      )
      refl

stacked_from-le : (ls : List Sized) (n : ℕ) → All Aligned ls → n ≤ (stacked_from ls n).1
unfolding stacked_from
stacked_from-le [] n h = omega arith
stacked_from-le (l ∷ ls) n (hl, h) =
    omega (arith, place-le l n hl, stacked_from-le ls (place l n) h)

pub stacked_from-IsStacked :
    (address : ℕ) (ls : List Sized) (n end : ℕ)
    → All Aligned ls
    → address % 16 ≡ 0
    → (stacked_from ls n).1 ≤ end
    → end ≤ address
    → IsStacked address ls (stacked_from ls n).0 n end
unfolding stacked_from
stacked_from-IsStacked address [] n end h ha le room = le
stacked_from-IsStacked address (l ∷ ls) n end (hl, h) ha le room = (
  below_mod address (place l n) l.alignment hl ha (omega (arith, stacked_from-le ls (place l n) h))
      (place-mod l n hl),
  place-le l n hl,
  stacked_from-IsStacked address ls (place l n) end h ha le room,
)
