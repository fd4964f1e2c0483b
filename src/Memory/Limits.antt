-- ===== src/Memory/Limits.antt =====
-- `clear` of carbonc/memory.cc, and what `alloc` does with a request above the bucket size.
use carbonlang.Prelude.{
  ℕ, ◌+◌, ◌^◌, ◌<◌, ◌≡◌, refl, inl, inr, false, none, List, [], ◌∷◌, arith, Bool-cases, u64_mod,
  u64,
}
use carbonlang.Memory.{
  Bucket, MemoryArena, alignment_offset, fits_in_bucket, bucket_alloc, create_bucket, alloc_in,
  alloc_new, alloc, clear, reset_all,
}
use carbonlang.Memory.Regions.{IsUsed, IsApartFrom, AreValid, IsValidArena, IsFresh}
use carbonlang.Memory.Search.{room_of_fits}
use carbonlang.Memory.Alloc.{new_bucket-offset}

clear_all-none : (bs : List Bucket) (x : ℕ) → ¬ IsUsed (reset_all bs) x
unfolding reset_all
clear_all-none [] x u = u
clear_all-none (b ∷ bs) x (inl u) = omega arith
clear_all-none (b ∷ bs) x (inr u) = clear_all-none bs x u

reset_all-apart :
    (b : Bucket) (bs : List Bucket)
    → IsApartFrom b bs
    → IsApartFrom (record b { size = 0 }) (reset_all bs)
unfolding reset_all
reset_all-apart b [] h = tt
reset_all-apart b (c ∷ cs) h = (h.0, reset_all-apart b cs h.1)

reset_all-AreValid :
    (cap k : ℕ) (bs : List Bucket) → AreValid cap k bs → AreValid cap k (reset_all bs)
unfolding reset_all
reset_all-AreValid cap k [] h = tt
reset_all-AreValid cap k (b ∷ bs) (v, a, vs) = (
  record {
    within = omega arith;
    capacity_is = v.capacity_is;
    alignment_is = v.alignment_is;
    end_is = v.end_is;
    no_wrap = v.no_wrap;
  },
  reset_all-apart b bs a,
  reset_all-AreValid cap k bs vs,
)

-- Clearing a valid arena leaves it valid, with no byte taken.
pub clear-IsValidArena :
    (k : ℕ) (a : MemoryArena)
    → IsValidArena k a
    → IsValidArena k (clear a) × ((x : ℕ) → ¬ IsUsed (clear a).buckets x)
unfolding clear
clear-IsValidArena k a v = (
  record {
    alignment_is = v.alignment_is;
    buckets_valid = reset_all-AreValid a.bucket_size k a.buckets v.buckets_valid;
    small = v.small;
  },
  clear_all-none a.buckets,
)

-- No bucket of a valid arena fits a request above the bucket size.
alloc_in-none :
    (cap k size : ℕ) (bs : List Bucket)
    → AreValid cap k bs
    → cap < size
    → size + cap + 2 ^ k < u64_mod
    → alloc_in bs size ≡ none
unfolding alloc_in
alloc_in-none cap k size [] v big small = refl
alloc_in-none cap k size (b ∷ bs) (v, a, vs) big small =
    let full : fits_in_bucket b size ≡ false = elim (Bool-cases (fits_in_bucket b size)) [
      | inl fits ↦ absurd (omega (arith, room_of_fits cap k size small b v fits, v))
      | inr full ↦ full
    ] in
    rw (full, alloc_in-none cap k size bs vs big small)

alloc_new_place :
    (k : ℕ) (a : MemoryArena) (fresh size : ℕ)
    → IsValidArena k a
    → IsFresh k a fresh
    → a.bucket_size < size
    → ((alloc_new a fresh size).0 ≡ fresh)
      × (fresh + a.bucket_size < (alloc_new a fresh size).0 + size)
unfolding alloc_new bucket_alloc
alloc_new_place k a fresh size valid new big =
    let b = create_bucket fresh a.bucket_size a.alignment in
    let start : u64 (b.data_ + b.size + alignment_offset b) ≡ fresh =
      rw (new_bucket-offset a fresh size valid new)
        (unfold create_bucket in omega (arith, new.no_wrap)) in
    (start, omega (arith, start))

-- In a valid arena, with memory of its own for a new bucket, a request above the bucket size (of
-- a size whose sums do not wrap) is handed out all the same, at the start of the new bucket: the
-- bytes run past the end of the memory that it owns.
pub alloc_oversized :
    (k : ℕ) (a : MemoryArena) (fresh size : ℕ)
    → IsValidArena k a
    → IsFresh k a fresh
    → a.bucket_size < size
    → size + a.bucket_size + 2 ^ k < u64_mod
    → ((alloc a fresh size).0 ≡ fresh) × (fresh + a.bucket_size < (alloc a fresh size).0 + size)
unfolding alloc
alloc_oversized k a fresh size valid new big small =
    rw (alloc_in-none a.bucket_size k size a.buckets valid.buckets_valid big small, alloc)
      (alloc_new_place k a fresh size valid new big)
