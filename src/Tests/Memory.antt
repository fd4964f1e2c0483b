-- ===== src/Tests/Memory.antt =====
-- carbonc/memory.cc: the theorems on the arena at concrete arenas.
use carbonlang.Prelude.{ℕ, ◌+◌, ◌^◌, ◌<◌, ◌≡◌, refl, some, none, [], ◌∷◌, arith, inr}
use carbonlang.Memory.{
  Bucket, MemoryArena, double_until, next_pow2, bucket_alloc, alignment_offset, fits_in_bucket,
  alloc_in, alloc, clear,
}
use carbonlang.Memory.Rounding.{IsNextPow2, next_pow2-IsNextPow2, double_until-none}
use carbonlang.Memory.Regions.{IsUsed, IsValidArena, IsFresh, IsNewRegion}
use carbonlang.Memory.Alloc.{alloc-IsNewRegion}
use carbonlang.Memory.Limits.{clear-IsValidArena, alloc_oversized}

-- 64 bytes at 4096, of which 10 are taken.
abbrev bucket : Bucket
bucket = record { data_ = 4096; end = 4160; size = 10; capacity = 64; alignment = 8 }

abbrev arena : MemoryArena
arena = record { buckets = bucket ∷ []; bucket_size = 64; alignment = 8 }

arena-IsValidArena : IsValidArena 3 arena
arena-IsValidArena = record {
  alignment_is = refl;
  buckets_valid = (
    record {
      within = omega arith;
      capacity_is = refl;
      alignment_is = refl;
      end_is = refl;
      no_wrap = omega arith;
    },
    tt,
    tt,
  );
  small = omega arith;
}

arena-IsFresh : IsFresh 3 arena 8192
arena-IsFresh = record { aligned = refl; no_wrap = omega arith; apart = (inr (omega arith), tt) }

-- The next multiple of 8 after the 10 bytes.
fits_behind : (alloc arena 8192 20).0 ≡ 4112
unfolding alloc alloc_in fits_in_bucket alignment_offset bucket_alloc
fits_behind = refl

alloc-IsNewRegion_example :
    IsValidArena 3 (alloc arena 8192 20).1
    × IsNewRegion 3 (alloc arena 8192 20).0 20 arena.buckets (alloc arena 8192 20).1.buckets
alloc-IsNewRegion_example =
    alloc-IsNewRegion arena 8192 20 arena-IsValidArena arena-IsFresh (omega arith)

alloc_oversized_example :
    ((alloc arena 8192 100).0 ≡ 8192) × (8192 + 64 < (alloc arena 8192 100).0 + 100)
alloc_oversized_example =
    alloc_oversized 3 arena 8192 100 arena-IsValidArena arena-IsFresh (omega arith) (omega arith)

clear-IsValidArena_example :
    IsValidArena 3 (clear arena) × ((x : ℕ) → ¬ IsUsed (clear arena).buckets x)
clear-IsValidArena_example = clear-IsValidArena 3 arena arena-IsValidArena

next_pow2-IsNextPow2_example : (r : ℕ) × (next_pow2 1000 ≡ some r) × IsNextPow2 1000 r
next_pow2-IsNextPow2_example = next_pow2-IsNextPow2 1000 (omega arith) (omega arith)

double_until-none_example : double_until 70 1 (2 ^ 63 + 1) ≡ none
double_until-none_example = double_until-none 70 (2 ^ 63 + 1) (omega arith)
