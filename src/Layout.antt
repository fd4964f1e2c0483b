-- ===== src/Layout.antt =====
-- carbonc/common.hh, `align`, and carbonc/type_system.cc, `compute_struct_size_alignment_offsets`.
-- Sizes and offsets are numbers without a bound: sums that overflow are not modelled.
pub mod Align
pub mod Structs
use carbonlang.Prelude.{
  ℕ, ◌+◌, ◌-◌, ◌%◌, max, Bool, true, false, not, ◌&&◌, List, [], ◌∷◌, ltb, ◌==◌, if◌then◌else◌,
}

unfoldable pub align : ℕ → ℕ → ℕ
align number alignment =
    let offset = number % alignment in if offset == 0 then number else (number - offset) + alignment

-- What the layout reads of a type.
pub record Sized : Type 0 where
  pub size : ℕ
  pub alignment : ℕ

-- What the layout writes: the fields' offsets, and the structure's own size and alignment.
pub record StructLayout : Type 0 where
  pub offsets : List ℕ
  pub layout : Sized

pub record Placed : Type 0 where
  pub offsets : List ℕ
  pub offs : ℕ
  pub max_align : ℕ

-- The loop over the fields.
unfoldable pub place_fields : List Sized → ℕ → ℕ → Placed
unfolding align
place_fields [] offs max_align = record { offsets = []; offs = offs; max_align = max_align }
place_fields (f ∷ fs) offs max_align =
    let offset = if ltb 0 offs then align offs f.alignment else 0 in
    let rest = place_fields fs (align (offs + f.size) f.alignment) (max f.alignment max_align) in
    record rest { offsets = offset ∷ rest.offsets }

unfoldable pub compute_struct_size_alignment_offsets : Bool → List Sized → StructLayout
unfolding align place_fields
compute_struct_size_alignment_offsets is_c fields =
    let placed = place_fields fields 0 1 in
    let size = align placed.offs placed.max_align in
    record {
      offsets = placed.offsets;
      layout =
          (if not is_c && ltb 8 size
            then record { size = align placed.offs 16; alignment = 16 }
            else record { size = size; alignment = placed.max_align });
    }
