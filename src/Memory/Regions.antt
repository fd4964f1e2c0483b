-- ===== src/Memory/Regions.antt =====
-- Well-formed arenas of carbonc/memory.hh, and the addresses that they hand out.
use carbonlang.Prelude.{ℕ, ◌+◌, ◌%◌, ◌^◌, ◌≤◌, ◌<◌, ◌≡◌, ◌⊎◌, List, [], ◌∷◌, u64_mod}
use carbonlang.Memory.{Bucket, MemoryArena}

-- The bytes of a bucket that have been handed out, padding included.
abbrev pub IsUsedIn : Bucket → ℕ → Type 0
IsUsedIn b a = (b.data_ ≤ a) × (a < b.data_ + b.size)

abbrev pub IsUsed : List Bucket → ℕ → Type 0
IsUsed [] a = ⊥
IsUsed (b ∷ bs) a = IsUsedIn b a ⊎ IsUsed bs a

-- Two buckets have no byte in common.
abbrev pub IsApart : Bucket → Bucket → Type 0
IsApart b c = (b.data_ + b.capacity ≤ c.data_) ⊎ (c.data_ + c.capacity ≤ b.data_)

abbrev pub IsApartFrom : Bucket → List Bucket → Type 0
IsApartFrom b [] = Unit
IsApartFrom b (c ∷ cs) = IsApart b c × IsApartFrom b cs

-- A bucket of an arena whose alignment is 2^k: it keeps within its memory, which does not wrap.
pub record IsValidBucket (cap k : ℕ) (b : Bucket) : Type 0 where
  pub within : b.size ≤ b.capacity
  pub capacity_is : b.capacity ≡ cap
  pub alignment_is : b.alignment ≡ 2 ^ k
  pub end_is : b.end ≡ b.data_ + b.capacity
  pub no_wrap : b.data_ + b.capacity + 2 ^ k < u64_mod

abbrev pub AreValid : ℕ → ℕ → List Bucket → Type 0
AreValid cap k [] = Unit
AreValid cap k (b ∷ bs) = IsValidBucket cap k b × IsApartFrom b bs × AreValid cap k bs

-- An arena whose alignment is 2^k.
pub record IsValidArena (k : ℕ) (a : MemoryArena) : Type 0 where
  pub alignment_is : a.alignment ≡ 2 ^ k
  pub buckets_valid : AreValid a.bucket_size k a.buckets
  pub small : a.bucket_size + a.bucket_size + 2 ^ k < u64_mod

-- What `new unsigned char[cap]` promises of its result: memory of its own, aligned for any object.
pub record IsFresh (k : ℕ) (a : MemoryArena) (fresh : ℕ) : Type 0 where
  pub aligned : fresh % 2 ^ k ≡ 0
  pub no_wrap : fresh + a.bucket_size + 2 ^ k < u64_mod
  pub apart :
      IsApartFrom
        (record {
          data_ = fresh;
          end = fresh + a.bucket_size;
          size = 0;
          capacity = a.bucket_size;
          alignment = a.alignment;
        })
        a.buckets

-- A request of `size` bytes at `addr`: the bytes were free, are now taken, and nothing else that
-- was taken is given back.
pub record IsNewRegion (k addr size : ℕ) (before after : List Bucket) : Type 0 where
  pub aligned : addr % 2 ^ k ≡ 0
  pub taken : (x : ℕ) → addr ≤ x → x < addr + size → IsUsed after x
  pub was_free : (x : ℕ) → addr ≤ x → x < addr + size → ¬ IsUsed before x
  pub kept : (x : ℕ) → IsUsed before x → IsUsed after x
