-- ===== src/Layout/Structs.antt =====
-- carbonc/type_system.cc: the layouts that `compute_struct_size_alignment_offsets` makes.
use carbonlang.Prelude.{
  subst, ℕ, zero, suc, ◌+◌, ◌%◌, ◌≤◌, ◌<◌, max, ◌≡◌, refl, sym, ◌⊎◌, inl, inr, Bool, not, ◌&&◌,
  List, [], ◌∷◌, All, arith, ltb, if◌then◌else◌, Bool-cases,
}
use carbonlang.Layout.{
  align, Sized, StructLayout, Placed, place_fields, compute_struct_size_alignment_offsets,
}
use carbonlang.Layout.Align.{align_of_multiple, align-le, align-mod, align_add}

-- The alignments that occur.
pub data IsAlignment : ℕ → Type 0 where
  one : IsAlignment 1
  two : IsAlignment 2
  four : IsAlignment 4
  eight : IsAlignment 8
  sixteen : IsAlignment 16

-- A size is a whole number of alignments.
abbrev pub IsSized : Sized → Type 0
IsSized s = IsAlignment s.alignment × (s.size % s.alignment ≡ 0)

pub alignment_pos : {a : ℕ} → IsAlignment a → 0 < a
alignment_pos one = ground arith
alignment_pos two = ground arith
alignment_pos four = ground arith
alignment_pos eight = ground arith
alignment_pos sixteen = ground arith

pub alignment_le : {a : ℕ} → IsAlignment a → a ≤ 16
alignment_le one = omega arith
alignment_le two = omega arith
alignment_le four = omega arith
alignment_le eight = omega arith
alignment_le sixteen = omega arith

zero_mod : {a : ℕ} → IsAlignment a → 0 % a ≡ 0
zero_mod one = refl
zero_mod two = refl
zero_mod four = refl
zero_mod eight = refl
zero_mod sixteen = refl

divides_of_le : {a b : ℕ} → IsAlignment a → IsAlignment b → a ≤ b → b % a ≡ 0
divides_of_le one one h = refl
divides_of_le one two h = refl
divides_of_le one four h = refl
divides_of_le one eight h = refl
divides_of_le one sixteen h = refl
divides_of_le two one h = ground arith
divides_of_le two two h = refl
divides_of_le two four h = refl
divides_of_le two eight h = refl
divides_of_le two sixteen h = refl
divides_of_le four one h = ground arith
divides_of_le four two h = ground arith
divides_of_le four four h = refl
divides_of_le four eight h = refl
divides_of_le four sixteen h = refl
divides_of_le eight one h = ground arith
divides_of_le eight two h = ground arith
divides_of_le eight four h = ground arith
divides_of_le eight eight h = refl
divides_of_le eight sixteen h = refl
divides_of_le sixteen one h = ground arith
divides_of_le sixteen two h = ground arith
divides_of_le sixteen four h = ground arith
divides_of_le sixteen eight h = ground arith
divides_of_le sixteen sixteen h = refl

max-cases : (a b : ℕ) → (max a b ≡ a) ⊎ (max a b ≡ b)
max-cases a b = ground arith

max-IsAlignment : (a b : ℕ) → IsAlignment a → IsAlignment b → IsAlignment (max a b)
max-IsAlignment a b ha hb = elim (max-cases a b) [ inl e ↦ rw e ha | inr e ↦ rw e hb ]

-- The fields lie one after the other from `start` on, each at a multiple of its alignment, and
-- the last one ends before `end`.
abbrev pub IsLaidOut : List Sized → List ℕ → ℕ → ℕ → Type 0
IsLaidOut [] [] start end = start ≤ end
IsLaidOut (f ∷ fs) (o ∷ os) start end =
    (o % f.alignment ≡ 0) × (start ≤ o) × IsLaidOut fs os (o + f.size) end
IsLaidOut _ _ start end = ⊥

first_offset :
    (offs a : ℕ) → IsAlignment a → (if ltb 0 offs then align offs a else 0) ≡ align offs a
first_offset zero a h = sym (align_of_multiple 0 a (zero_mod h))
first_offset (suc n) a h = ground arith

-- What the loop over the fields gives.
record IsPlaced (fields : List Sized) (offs max_align : ℕ) (p : Placed) : Type 0 where
  laid_out : (end : ℕ) → p.offs ≤ end → IsLaidOut fields p.offsets offs end
  alignment : IsAlignment p.max_align
  max-le : max_align ≤ p.max_align
  divides : All (λ f. p.max_align % f.alignment ≡ 0) fields

place_fields-IsPlaced :
    (fields : List Sized) (offs max_align : ℕ)
    → All IsSized fields
    → IsAlignment max_align
    → IsPlaced fields offs max_align (place_fields fields offs max_align)
unfolding place_fields
place_fields-IsPlaced [] offs max_align h hm = record {
  laid_out = λ end h'. h';
  alignment = hm;
  max-le = omega arith;
  divides = tt;
}
place_fields-IsPlaced (f ∷ fs) offs max_align ((ha, hs), h) hm =
    let rest =
      place_fields-IsPlaced fs (align (offs + f.size) f.alignment) (max f.alignment max_align) h
        (max-IsAlignment _ _ ha hm) in
    record {
      laid_out = λ end h'. rw (first_offset offs f.alignment ha) (
        align-mod offs f.alignment (alignment_pos ha),
        align-le offs f.alignment (alignment_pos ha),
        subst
            (λ n.
              IsLaidOut fs
                (place_fields fs (align (offs + f.size) f.alignment)
                  (max f.alignment max_align)).offsets
                n end)
            (align_add offs f.size f.alignment hs) (rest.laid_out end h'),
      );
      alignment = rest.alignment;
      max-le = ground (arith, rest.max-le);
      divides = (divides_of_le ha rest.alignment (ground (arith, rest.max-le)), rest.divides);
    }

-- A layout in which every field has a place of its own, inside the structure.
pub record IsStructLayout (fields : List Sized) (s : StructLayout) : Type 0 where
  pub laid_out : IsLaidOut fields s.offsets 0 s.layout.size
  pub sized : IsSized s.layout
  pub divides : All (λ f. s.layout.alignment % f.alignment ≡ 0) fields

divides_16 : {a : ℕ} → IsAlignment a → 16 % a ≡ 0
divides_16 one = refl
divides_16 two = refl
divides_16 four = refl
divides_16 eight = refl
divides_16 sixteen = refl

All-divides_16 : (fields : List Sized) → All IsSized fields → All (λ f. 16 % f.alignment ≡ 0) fields
All-divides_16 [] h = tt
All-divides_16 (f ∷ fs) ((ha, _), h) = (divides_16 ha, All-divides_16 fs h)

-- Fields whose sizes are multiples of their alignments are laid out in order, without overlap and
-- each one aligned, inside the structure; the structure's size is a multiple of its alignment
-- again, and its alignment a multiple of each field's.
pub compute_struct-IsStructLayout :
    (is_c : Bool) (fields : List Sized)
    → All IsSized fields
    → IsStructLayout fields (compute_struct_size_alignment_offsets is_c fields)
unfolding compute_struct_size_alignment_offsets
compute_struct-IsStructLayout is_c fields h =
    let p = place_fields-IsPlaced fields 0 1 h one in
    let placed = place_fields fields 0 1 in
    elim (Bool-cases (not is_c && ltb 8 (align placed.offs placed.max_align))) [
      | inl large ↦ rw large (record {
        laid_out = p.laid_out _ (align-le placed.offs 16 (omega arith));
        sized = (sixteen, align-mod placed.offs 16 (omega arith));
        divides = All-divides_16 fields h;
      })
      | inr small ↦ rw small (record {
        laid_out = p.laid_out _ (align-le placed.offs placed.max_align (alignment_pos p.alignment));
        sized = (p.alignment, align-mod placed.offs placed.max_align (alignment_pos p.alignment));
        divides = p.divides;
      })
    ]
