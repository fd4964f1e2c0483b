-- ===== src/Memory/Padding.antt =====
-- `alignment_offset` and `bucket_alloc` of carbonc/memory.cc: the padding in front of a request.
use carbonlang.Prelude.{
  ℕ, ◌+◌, ◌-◌, ◌*◌, ◌%◌, ◌^◌, ◌≤◌, ◌<◌, ◌≡◌, refl, ap, ◌∙◌, ◌/◌, inl, inr, not, arith, ◌==◌,
  if◌then◌else◌, Bool-cases, u64,
}
use carbonlang.Prelude.Bits.{bit_and-mask, pow2_pos}
use native.Mathlib.Nat.{mod-lt, mod_self, div-add-mod, mul-add-mod_self_left, add-zero}
use carbonlang.Memory.{Bucket, alignment_offset, bucket_alloc}
use carbonlang.Memory.Regions.{IsValidBucket}

-- The padding from `s` to the next multiple of `m`.
unfoldable pub pad : ℕ → ℕ → ℕ
pad s m = if not (s % m == 0) then m - s % m else 0

pad-lt : (s m : ℕ) → 0 < m → pad s m < m
unfolding pad
pad-lt s m h = ground (arith, mod-lt s h)

add-pad : (s m : ℕ) → 0 < m → (s + pad s m) % m ≡ 0
unfolding pad
add-pad s m h = elim (Bool-cases (not (s % m == 0))) [
  | inl padded ↦
      let whole : s + (m - s % m) ≡ m * (s / m) + m = omega (arith, div-add-mod s m, mod-lt s h) in
      rw padded (ap (λ n. n % m) whole ∙ mul-add-mod_self_left m (s / m) m ∙ mod_self m)
  | inr exact ↦ rw (exact, add-zero) (ground arith)
]

pub alignment_offset-pad :
    {cap k : ℕ} (b : Bucket)
    → IsValidBucket cap k b
    → alignment_offset b ≡ pad (b.data_ + b.size) (2 ^ k)
unfolding alignment_offset pad
alignment_offset-pad {cap} {k} b v =
    let unwrapped : u64 (b.data_ + b.size) ≡ b.data_ + b.size = omega (arith, v) in
    rw (unwrapped, v.alignment_is, bit_and-mask k (b.data_ + b.size))

-- The padding brings the next free byte to a multiple of the alignment, by less than one.
pub offset_aligns :
    {cap k : ℕ} (b : Bucket)
    → IsValidBucket cap k b
    → ((b.data_ + b.size + alignment_offset b) % 2 ^ k ≡ 0) × (alignment_offset b < 2 ^ k)
offset_aligns {cap} {k} b v = rw (alignment_offset-pad b v) (
  add-pad (b.data_ + b.size) (2 ^ k) (pow2_pos k),
  pad-lt (b.data_ + b.size) (2 ^ k) (pow2_pos k),
)

-- What `bucket_alloc` does to a valid bucket that has the room.
pub record IsTaken (cap k size : ℕ) (b : Bucket) (addr : ℕ) (b' : Bucket) : Type 0 where
  pub aligned : addr % 2 ^ k ≡ 0
  pub above : b.data_ + b.size ≤ addr
  pub ends : addr + size ≡ b'.data_ + b'.size
  pub valid : IsValidBucket cap k b'
  pub same_data : b'.data_ ≡ b.data_

pub bucket_alloc-IsTaken :
    {cap k : ℕ} (b : Bucket) (size : ℕ)
    → IsValidBucket cap k b
    → b.size + size + alignment_offset b ≤ b.capacity
    → IsTaken cap k size b (bucket_alloc b size).0 (bucket_alloc b size).1
unfolding bucket_alloc
bucket_alloc-IsTaken {cap} {k} b size v room =
    let start : u64 (b.data_ + b.size + alignment_offset b)
        ≡ b.data_ + b.size + alignment_offset b =
      omega (arith, v) in
    let after : u64 (b.size + (size + alignment_offset b)) ≡ b.size + (size + alignment_offset b) =
      omega (arith, v) in
    record {
      aligned = rw start (offset_aligns b v).0;
      above = omega (arith, start);
      ends = omega (arith, start, after);
      valid = record {
        within = omega (arith, after);
        capacity_is = v.capacity_is;
        alignment_is = v.alignment_is;
        end_is = v.end_is;
        no_wrap = v.no_wrap;
      };
      same_data = refl;
    }
