-- ===== src/Memory/Search.antt =====
-- The loop of `memory_arena::alloc` in carbonc/memory.cc over the buckets that exist.
use carbonlang.Prelude.{
  ℕ, ◌+◌, ◌^◌, ◌≤◌, ◌<◌, ◌≡◌, inl, inr, true, Option, some, none, List, [], ◌∷◌, arith, Bool-cases,
  leb→le, u64_mod, u64,
}
use carbonlang.Memory.{Bucket, alignment_offset, fits_in_bucket, alloc_in}
use carbonlang.Memory.Regions.{IsUsed, IsApartFrom, IsValidBucket, AreValid, IsNewRegion}
use carbonlang.Memory.Padding.{IsTaken, bucket_alloc-IsTaken, offset_aligns}

-- A byte of one bucket is used in no bucket apart from it.
pub IsApart-not-IsUsed :
    (cap k : ℕ) (b : Bucket) (bs : List Bucket) (x : ℕ)
    → IsApartFrom b bs
    → AreValid cap k bs
    → b.data_ ≤ x
    → x < b.data_ + b.capacity
    → ¬ IsUsed bs x
IsApart-not-IsUsed cap k b [] x a v lo hi u = u
IsApart-not-IsUsed cap k b (c ∷ cs) x (a, rest) (v, _, vs) lo hi (inl u) = omega arith
IsApart-not-IsUsed cap k b (c ∷ cs) x (a, rest) (v, _, vs) lo hi (inr u) =
    IsApart-not-IsUsed cap k b cs x rest vs lo hi u

-- Only the place and the capacity of a bucket count.
pub IsApartFrom-same :
    (b b' : Bucket) (cs : List Bucket)
    → b'.data_ ≡ b.data_
    → b'.capacity ≡ b.capacity
    → IsApartFrom b cs
    → IsApartFrom b' cs
IsApartFrom-same b b' [] d c h = tt
IsApartFrom-same b b' (x ∷ xs) d c (h, hs) = (rw (d, c) h, IsApartFrom-same b b' xs d c hs)

-- The loop's result: still valid, a region of its own, and no bucket moved.
pub record IsAllocated (cap k size : ℕ) (bs : List Bucket) (addr : ℕ) (bs' : List Bucket)
    : Type 0 where
  pub valid : AreValid cap k bs'
  pub region : IsNewRegion k addr size bs bs'
  pub apart : (c : Bucket) → IsApartFrom c bs → IsApartFrom c bs'

-- Where the loop finds a bucket.
abbrev pub FindsRegion : ℕ → ℕ → ℕ → List Bucket → Option (ℕ × List Bucket) → Type 0
FindsRegion cap k size bs none = Unit
FindsRegion cap k size bs (some (addr, bs')) = IsAllocated cap k size bs addr bs'

module _ (cap k size : ℕ) (small : size + cap + 2 ^ k < u64_mod) where
  pub room_of_fits :
      (b : Bucket)
      → IsValidBucket cap k b
      → fits_in_bucket b size ≡ true
      → b.size + size + alignment_offset b ≤ b.capacity
  unfolding fits_in_bucket
  room_of_fits b v h =
      let less = (offset_aligns b v).1 in
      let unwrapped : u64 (b.size + size + alignment_offset b)
          ≡ b.size + size + alignment_offset b =
        omega (arith, v, less) in
      omega (arith, unwrapped, leb→le _ _ h)

  head-IsAllocated :
      (b : Bucket) (bs : List Bucket) (addr : ℕ) (b' : Bucket)
      → IsValidBucket cap k b
      → IsApartFrom b bs
      → AreValid cap k bs
      → IsTaken cap k size b addr b'
      → IsAllocated cap k size (b ∷ bs) addr (b' ∷ bs)
  head-IsAllocated b bs addr b' v a vs t = record {
    valid = (t.valid, IsApartFrom-same b b' bs t.same_data (omega (arith, t, v)) a, vs);
    region = record {
      aligned = t.aligned;
      taken = λ x lo hi. inl (omega arith);
      was_free = free;
      kept = keep;
    };
    apart = λ c h. (rw (t.same_data, t.valid.capacity_is, ← v.capacity_is) h.0, h.1);
  }
    where
      free : (x : ℕ) → addr ≤ x → x < addr + size → ¬ IsUsed (b ∷ bs) x
      free x lo hi (inl u) = omega arith
      free x lo hi (inr u) = IsApart-not-IsUsed cap k b bs x a vs (omega arith) (omega arith) u

      keep : (x : ℕ) → IsUsed (b ∷ bs) x → IsUsed (b' ∷ bs) x
      keep x (inl u) = inl (omega arith)
      keep x (inr u) = inr u

  tail-IsAllocated :
      (b : Bucket) (bs : List Bucket) (addr : ℕ) (bs' : List Bucket)
      → IsValidBucket cap k b
      → IsApartFrom b bs
      → IsAllocated cap k size bs addr bs'
      → IsAllocated cap k size (b ∷ bs) addr (b ∷ bs')
  tail-IsAllocated b bs addr bs' v a r = record {
    valid = (v, r.apart b a, r.valid);
    region = record {
      aligned = r.region.aligned;
      taken = λ x lo hi. inr (r.region.taken x lo hi);
      was_free = free;
      kept = keep;
    };
    apart = λ c h. (h.0, r.apart c h.1);
  }
    where
      free : (x : ℕ) → addr ≤ x → x < addr + size → ¬ IsUsed (b ∷ bs) x
      free x lo hi (inl u) =
          IsApart-not-IsUsed cap k b bs' x (r.apart b a) r.valid u.0 (omega arith)
            (r.region.taken x lo hi)
      free x lo hi (inr u) = r.region.was_free x lo hi u

      keep : (x : ℕ) → IsUsed (b ∷ bs) x → IsUsed (b ∷ bs') x
      keep x (inl u) = inl u
      keep x (inr u) = inr (r.region.kept x u)

  FindsRegion-cons :
      (b : Bucket) (bs : List Bucket) (o : Option (ℕ × List Bucket))
      → IsValidBucket cap k b
      → IsApartFrom b bs
      → FindsRegion cap k size bs o
      → FindsRegion cap k size
          (b ∷ bs)
          (elim o [ none ↦ none | some (addr, bs') ↦ some (addr, b ∷ bs') ])
  FindsRegion-cons b bs none v a h = tt
  FindsRegion-cons b bs (some (addr, bs')) v a h = tail-IsAllocated b bs addr bs' v a h

  pub alloc_in-FindsRegion :
      (bs : List Bucket) → AreValid cap k bs → FindsRegion cap k size bs (alloc_in bs size)
  unfolding alloc_in
  alloc_in-FindsRegion [] v = tt
  alloc_in-FindsRegion (b ∷ bs) (v, a, vs) = elim (Bool-cases (fits_in_bucket b size)) [
    | inl fits ↦
        let taken = bucket_alloc-IsTaken b size v (room_of_fits b v fits) in
        rw fits (head-IsAllocated b bs _ _ v a vs taken)
    | inr full ↦ rw full (FindsRegion-cons b bs (alloc_in bs size) v a (alloc_in-FindsRegion bs vs))
  ]
