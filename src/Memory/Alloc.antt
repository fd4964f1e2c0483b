-- ===== src/Memory/Alloc.antt =====
-- `memory_arena::alloc` of carbonc/memory.cc on requests that a bucket has room for.
use carbonlang.Prelude.{
  ℕ, ◌+◌, ◌≤◌, ◌≡◌, refl, ◌∙◌, inl, inr, Option, some, none, List, [], ◌∷◌, ◌++◌, arith,
}
use native.Mathlib.Nat.{add-zero}
use carbonlang.Memory.{
  Bucket, MemoryArena, alignment_offset, bucket_alloc, create_bucket, alloc_in, alloc_new, alloc,
}
use carbonlang.Memory.Regions.{
  IsUsed, IsApart, IsApartFrom, IsValidBucket, AreValid, IsValidArena, IsFresh, IsNewRegion,
}
use carbonlang.Memory.Padding.{pad, alignment_offset-pad, bucket_alloc-IsTaken}
use carbonlang.Memory.Search.{
  IsApartFrom-same, FindsRegion, alloc_in-FindsRegion, IsApart-not-IsUsed,
}

IsApart-comm : (b c : Bucket) → IsApart b c → IsApart c b
IsApart-comm b c (inl h) = inr h
IsApart-comm b c (inr h) = inl h

IsApartFrom-append :
    (b c : Bucket) (ds : List Bucket)
    → IsApartFrom c ds
    → IsApart c b
    → IsApartFrom c (ds ++ b ∷ [])
IsApartFrom-append b c [] h last = (last, tt)
IsApartFrom-append b c (d ∷ ds) (h, hs) last = (h, IsApartFrom-append b c ds hs last)

-- A bucket that is apart from all others may stand behind them.
AreValid-append :
    (cap k : ℕ) (b : Bucket) (bs : List Bucket)
    → AreValid cap k bs
    → IsValidBucket cap k b
    → IsApartFrom b bs
    → AreValid cap k (bs ++ b ∷ [])
AreValid-append cap k b [] vs v a = (v, tt, tt)
AreValid-append cap k b (c ∷ cs) (w, others, ws) v (a, more) =
    (w, IsApartFrom-append b c cs others (IsApart-comm b c a), AreValid-append cap k b cs ws v more)

IsUsed-append_left : (bs cs : List Bucket) (x : ℕ) → IsUsed bs x → IsUsed (bs ++ cs) x
IsUsed-append_left (b ∷ bs) cs x (inl u) = inl u
IsUsed-append_left (b ∷ bs) cs x (inr u) = inr (IsUsed-append_left bs cs x u)
IsUsed-append_left [] cs x u = absurd u

IsUsed-append_right : (bs cs : List Bucket) (x : ℕ) → IsUsed cs x → IsUsed (bs ++ cs) x
IsUsed-append_right [] cs x u = u
IsUsed-append_right (b ∷ bs) cs x u = inr (IsUsed-append_right bs cs x u)

module _ {k : ℕ} (a : MemoryArena) (fresh size : ℕ) (valid : IsValidArena k a)
    (new : IsFresh k a fresh) where
  new_bucket-IsValid : IsValidBucket a.bucket_size k (create_bucket fresh a.bucket_size a.alignment)
  unfolding create_bucket
  new_bucket-IsValid = record {
    within = omega arith;
    capacity_is = refl;
    alignment_is = valid.alignment_is;
    end_is = refl;
    no_wrap = new.no_wrap;
  }

  pub new_bucket-offset : alignment_offset (create_bucket fresh a.bucket_size a.alignment) ≡ 0
  new_bucket-offset =
      alignment_offset-pad _ new_bucket-IsValid
      ∙ (unfold pad create_bucket in rw (add-zero, new.aligned))

  new_bucket-room :
      size ≤ a.bucket_size
      → (create_bucket fresh a.bucket_size a.alignment).size
          + size
          + alignment_offset (create_bucket fresh a.bucket_size a.alignment)
        ≤ (create_bucket fresh a.bucket_size a.alignment).capacity
  new_bucket-room fits = rw new_bucket-offset (unfold create_bucket in omega arith)

  new_bucket-apart : IsApartFrom (create_bucket fresh a.bucket_size a.alignment) a.buckets
  unfolding create_bucket
  new_bucket-apart = new.apart

  new_bucket-capacity :
      (bucket_alloc (create_bucket fresh a.bucket_size a.alignment) size).1.capacity
      ≡ (create_bucket fresh a.bucket_size a.alignment).capacity
  unfolding bucket_alloc
  new_bucket-capacity = refl

  -- A bucket of its own, behind the others.
  alloc_new-IsNewRegion :
      size ≤ a.bucket_size
      → IsValidArena k (alloc_new a fresh size).1
        × IsNewRegion k (alloc_new a fresh size).0 size a.buckets (alloc_new a fresh size).1.buckets
  unfolding alloc_new
  alloc_new-IsNewRegion fits =
      let b = create_bucket fresh a.bucket_size a.alignment in
      let b' = (bucket_alloc b size).1 in
      let room : b.size + size + alignment_offset b ≤ b.capacity = new_bucket-room fits in
      let t = bucket_alloc-IsTaken b size new_bucket-IsValid room in
      let apart =
        IsApartFrom-same b b' a.buckets t.same_data new_bucket-capacity new_bucket-apart in
      (
        record {
          alignment_is = valid.alignment_is;
          buckets_valid = AreValid-append _ k b' a.buckets valid.buckets_valid t.valid apart;
          small = valid.small;
        },
        record {
          aligned = t.aligned;
          taken = λ x lo hi.
              IsUsed-append_right a.buckets (b' ∷ []) x
                (inl (omega (arith, t.same_data, t.above), omega (arith, t.ends)));
          was_free = λ x lo hi.
              IsApart-not-IsUsed a.bucket_size k b' a.buckets x apart valid.buckets_valid
                (omega (arith, t.same_data, t.above)) (omega (arith, t.ends, t.valid.within));
          kept = λ x u. IsUsed-append_left a.buckets (b' ∷ []) x u;
        },
      )

  found-IsNewRegion :
      (o : Option (ℕ × List Bucket))
      → FindsRegion a.bucket_size k size a.buckets o
      → size ≤ a.bucket_size
      → let r : ℕ × MemoryArena = elim o [
        | some (addr, bs) ↦ (addr, record a { buckets = bs })
        | none ↦ alloc_new a fresh size
      ] in
        IsValidArena k r.1 × IsNewRegion k r.0 size a.buckets r.1.buckets
  found-IsNewRegion none h fits = alloc_new-IsNewRegion fits
  found-IsNewRegion (some (addr, bs)) h fits = (
    record { alignment_is = valid.alignment_is; buckets_valid = h.valid; small = valid.small },
    h.region,
  )

  -- In a valid arena, with memory of its own for a new bucket, a request of at most the bucket
  -- size is given aligned bytes that were free and are now taken; whatever was taken stays taken,
  -- and the arena stays valid.
  pub alloc-IsNewRegion :
      size ≤ a.bucket_size
      → IsValidArena k (alloc a fresh size).1
        × IsNewRegion k (alloc a fresh size).0 size a.buckets (alloc a fresh size).1.buckets
  unfolding alloc
  alloc-IsNewRegion fits =
      found-IsNewRegion (alloc_in a.buckets size)
        (alloc_in-FindsRegion a.bucket_size k size (omega (arith, valid)) a.buckets
          valid.buckets_valid)
        fits
