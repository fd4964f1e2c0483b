-- ===== src/Memory.antt =====
-- carbonc/memory.hh and carbonc/memory.cc: the arena that every syntax node is allocated in.
-- An address and a size are numbers below 2^64, and sums wrap as `std::size_t` does. What
-- `new unsigned char[cap]` returns is an argument of `alloc`.
pub mod Rounding
pub mod Regions
pub mod Padding
pub mod Search
pub mod Alloc
pub mod Limits
use carbonlang.Prelude.{
  ℕ, zero, suc, ◌+◌, ◌-◌, ◌*◌, Bool, true, false, not, ◌&&◌, ◌||◌, Option, some, none, List, [],
  ◌∷◌, ◌++◌, bit_and, ltb, leb, ◌==◌, if◌then◌else◌, u64,
}

pub record Bucket : Type 0 where
  pub data_ : ℕ
  pub end : ℕ
  pub size : ℕ
  pub capacity : ℕ
  pub alignment : ℕ

pub record MemoryArena : Type 0 where
  pub buckets : List Bucket
  pub bucket_size : ℕ
  pub alignment : ℕ

-- `while (p < n) p <<= 1;`, with fuel.
unfoldable pub double_until : ℕ → ℕ → ℕ → Option ℕ
double_until zero p n = none
double_until (suc f) p n =
    let rest = double_until f (u64 (p * 2)) n in if ltb p n then rest else some p

-- 65 rounds are enough for every `n` up to 2^63; the loop does not end for a larger one.
unfoldable pub next_pow2 : ℕ → Option ℕ
next_pow2 n = if not (n == 0) && bit_and n (n - 1) == 0 then some n else double_until 65 1 n

unfoldable pub alignment_offset : Bucket → ℕ
alignment_offset b =
    let result_ptr = u64 (b.data_ + b.size) in
    let low = bit_and result_ptr (b.alignment - 1) in
    if not (low == 0) then b.alignment - low else 0

unfoldable pub create_bucket : ℕ → ℕ → ℕ → Bucket
create_bucket fresh cap alignment = record {
  data_ = fresh;
  end = fresh + cap;
  size = 0;
  capacity = cap;
  alignment = alignment;
}

unfoldable pub fits_in_bucket : Bucket → ℕ → Bool
fits_in_bucket b size = leb (u64 (b.size + size + alignment_offset b)) b.capacity

-- The address, and the bucket with the bytes taken.
unfoldable pub bucket_alloc : Bucket → ℕ → ℕ × Bucket
bucket_alloc b size =
    let offset = alignment_offset b in
    (u64 (b.data_ + b.size + offset), record b { size = u64 (b.size + (size + offset)) })

-- The constructor; `none` where `next_pow2` does not return.
unfoldable pub memory_arena : ℕ → ℕ → Option MemoryArena
unfolding next_pow2
memory_arena bucket_size alignment = elim (next_pow2 bucket_size) [
  | none ↦ none
  | some n ↦ some (record { buckets = []; bucket_size = n; alignment = alignment })
]

-- The loop of `alloc` over the buckets: the first that fits, if any.
unfoldable pub alloc_in : List Bucket → ℕ → Option (ℕ × List Bucket)
alloc_in [] size = none
alloc_in (b ∷ bs) size =
    if fits_in_bucket b size
    then (let (addr, b') = bucket_alloc b size in some (addr, b' ∷ bs))
    else (elim (alloc_in bs size) [ none ↦ none | some (addr, bs') ↦ some (addr, b ∷ bs') ])

-- All buckets are full: a new one, which the request is not compared with.
unfoldable pub alloc_new : MemoryArena → ℕ → ℕ → ℕ × MemoryArena
alloc_new a fresh size =
    let (addr, b) = bucket_alloc (create_bucket fresh a.bucket_size a.alignment) size in
    (addr, record a { buckets = a.buckets ++ b ∷ [] })

unfoldable pub alloc : MemoryArena → ℕ → ℕ → ℕ × MemoryArena
alloc a fresh size = elim (alloc_in a.buckets size) [
  | some (addr, bs) ↦ (addr, record a { buckets = bs })
  | none ↦ alloc_new a fresh size
]

unfoldable pub reset_all : List Bucket → List Bucket
reset_all [] = []
reset_all (b ∷ bs) = record b { size = 0 } ∷ reset_all bs

unfoldable pub clear : MemoryArena → MemoryArena
unfolding reset_all
clear a = record a { buckets = reset_all a.buckets }
