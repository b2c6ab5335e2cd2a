-- ===== src/Buddy/Allocation.antt =====
-- What a request that `__buddy_list::allocate` (src/free_list.hpp) serves gives to the caller, and
-- that the block goes back by `deallocate`.
use abcmalloc.Base.{
  ℕ, ◌+◌, ◌-◌, ◌*◌, ◌%◌, ◌^◌, ◌≤◌, ◌<◌, ◌≡◌, ◌≢◌, ◌⊎◌, refl, ap, sym, ◌∙◌, subst, arith, true, ◌==◌,
  ltb, leb, if_cases, le-of-leb-false, le-of-ltb-false, update_self, ne-of-==, add64, sub64,
  sub64-add64,
}
use abcmalloc.Base.Bits.{bit-above}
use native.Mathlib.Nat.{pow-le-pow_right, mul-le-mul_left}
use abcmalloc.Buddy.State.{
  Buddy, Chunk, ok, hdr_of, hdr_of_tagged, tag_index, tag_order, block_alloc, order_for_size,
  order_size, find_free_order,
}
use abcmalloc.Buddy.FreeList.{take_and_split}
use abcmalloc.Buddy.Alloc.{hand_out, chunk_of, allocate_order, allocate}
use abcmalloc.Buddy.Free.{is_allocated, in_region, block_size, deallocate, give_back, uncount}
use abcmalloc.Buddy.Frame.{SameRegion, take_and_split-SameRegion}
use abcmalloc.Buddy.Mask.{MaskAgrees}
use abcmalloc.Buddy.Mask.Ops.{allocate-MaskAgrees}
use abcmalloc.Buddy.Mask.Merge.{merge_and_free-SameRegion}
use abcmalloc.Buddy.Order.{Fits, Fits-double, order_for_size-Fits, order_size_small, order_size-lt}

-- The largest order of the list fits the region, and the smallest block holds a header.
pub record Sized (k : ℕ) (s : Buddy) : Type 0 where
  pub header : 5 ≤ k
  pub top : 2 ^ k * 2 ^ (s.max_order - 1) ≤ s.total
  pub small : s.total < 2 ^ 64

module _ (k : ℕ) (s : Buddy) where
  order_size_of : (o : ℕ) → Sized k s → o < s.max_order → order_size k o ≡ 2 ^ k * 2 ^ o
  order_size_of o z p = order_size_small k o (
      omega (
        arith,
        mul-le-mul_left (2 ^ k)
            (pow-le-pow_right {n = 2} (omega arith) {i = o} {j = s.max_order - 1} (omega arith)),
        z.top,
        z.small,
      ))

  -- What a served request for a block of order `o` was given.
  abbrev served : (o : ℕ) → Buddy × Chunk
  served o =
      let (split, blk) = take_and_split k s (find_free_order s o) o in
      (hand_out k split blk o block_alloc, chunk_of k blk o)

  -- The guards that a served request of `n` bytes, at order `o`, has passed.
  record Served (n o : ℕ) (r : Buddy × Chunk) : Type 0 where
    based : s.base ≢ 0
    small : n + 32 ≤ 2 ^ 64 - 1
    order : o < s.max_order
    result : r ≡ served o

  allocate-Served :
      (n : ℕ) → (allocate k s n).1.ptr ≢ 0 → Served n (order_for_size k (n + 32)) (allocate k s n)
  unfolding allocate allocate_order
  allocate-Served n =
      if_cases P (ltb (2 ^ 64 - 1 - 32) n) (λ _ e. absurd (e refl))
        λ fits.
          if_cases P (s.base == 0) (λ _ e. absurd (e refl))
            λ based.
              if_cases P (leb s.max_order o) (λ _ e. absurd (e refl))
                λ below.
                  if_cases P (leb s.max_order (find_free_order s o)) (λ _ e. absurd (e refl))
                    λ _ _. record {
                      based = ne-of-== s.base 0 based;
                      small = omega (arith, le-of-ltb-false _ n fits);
                      order = le-of-leb-false s.max_order o below;
                      result = refl;
                    }
    where
      o : ℕ
      o = order_for_size k (n + 32)

      P : Buddy × Chunk → Type 0
      P r = r.1.ptr ≢ 0 → Served n o r

  -- In a list whose largest block fits its region (`Sized`), a request of `n` bytes that is
  -- served has `n` bytes at least; its block, header included, is of the smallest size or less
  -- than twice what is needed, and counts as used.
  pub allocate-fits :
      (n : ℕ)
      → Sized k s
      → (allocate k s n).1.ptr ≢ 0
      → let (s', c) = allocate k s n in
        (n ≤ c.len)
        × ((c.len + 32 ≡ 2 ^ k) ⊎ (c.len + 32 < 2 * (n + 32)))
        × (s'.allocated_bytes ≡ add64 s.allocated_bytes (c.len + 32))
  unfolding hand_out
  allocate-fits n z e =
      let o = order_for_size k (n + 32) in
      let v = allocate-Served n e in
      let fits = order_for_size-Fits k (n + 32) (omega arith) (omega (arith, v.small)) in
      let size = order_size_of o z v.order in
      rw (v.result, size)
        (ground (
          arith,
          fits.holds,
          Fits-double k (n + 32) o fits,
          (take_and_split-SameRegion k s (find_free_order s o) o).allocated_bytes,
        ))

module _ (k : ℕ) (t : Buddy) (blk o : ℕ) (small : o < 64) where
  hand_out-tag : (flags : ℕ) → tag_order k (hand_out k t blk o flags) blk ≡ o
  unfolding hand_out
  hand_out-tag flags = ground (arith, update_self t.block_tags (tag_index k t blk) (o % 2 ^ 8))

  hand_out-header :
      (flags : ℕ)
      → let h = hand_out k t blk o flags in
        (h.header_order (hdr_of_tagged k h blk) ≡ o)
        × (h.header_flags (hdr_of_tagged k h blk) ≡ flags)
  unfolding hand_out
  hand_out-header flags = rw (hand_out-tag flags) (
    update_self t.header_order (hdr_of k blk o) o,
    update_self t.header_flags (hdr_of k blk o) flags,
  )

  hand_out-is_allocated :
      (flags : ℕ)
      → o < t.max_order
      → in_region k (hand_out k t blk o flags) blk ≡ true
      → is_allocated k (hand_out k t blk o flags) blk ≡ true
  unfolding is_allocated hand_out
  hand_out-is_allocated flags p e = rw e (
      ground (
        arith,
        update_self t.block_tags (tag_index k t blk) (o % 2 ^ 8),
        bit-above 7 7 (o % 2 ^ 8) (omega arith) (omega arith),
      ))

  hand_out-max_order : (flags : ℕ) → (hand_out k t blk o flags).max_order ≡ t.max_order
  unfolding hand_out
  hand_out-max_order flags = refl

  hand_out-allocated_bytes :
      (flags : ℕ)
      → (hand_out k t blk o flags).allocated_bytes ≡ add64 t.allocated_bytes (order_size k o)
  unfolding hand_out
  hand_out-allocated_bytes flags = refl

  hand_out-base : (flags : ℕ) → (hand_out k t blk o flags).base ≡ t.base
  unfolding hand_out
  hand_out-base flags = refl

  hand_out-block_size :
      (flags : ℕ)
      → o < t.max_order
      → in_region k (hand_out k t blk o flags) blk ≡ true
      → block_size k (hand_out k t blk o flags) blk ≡ order_size k o
  unfolding block_size
  hand_out-block_size flags p e =
      rw (e, hand_out-tag flags) (ground (arith, hand_out-max_order flags))

-- `deallocate` past its guards, at a block with this header.
deallocate-live :
    (k : ℕ) (s : Buddy) (p o flags : ℕ)
    → is_allocated k s p ≡ true
    → s.header_order (hdr_of_tagged k s p) ≡ o
    → s.header_flags (hdr_of_tagged k s p) ≡ flags
    → o < s.max_order
    → o < 64
    → s.base ≢ 0
    → p ≢ 0
    → flags ≢ 0
    → deallocate k s p ≡ (give_back k s p o flags, ok)
unfolding deallocate
deallocate-live k s p o flags a eo ef below small based nonnull live = rw (a, eo, ef) (ground arith)

-- Giving back a plain block of order `o` takes its bytes off those in use.
give_back-allocated_bytes :
    (k : ℕ) (s : Buddy) (p o : ℕ)
    → MaskAgrees s
    → s.base ≢ 0
    → o < 64
    → (give_back k s p o block_alloc).allocated_bytes ≡ sub64 s.allocated_bytes (order_size k o)
unfolding give_back uncount
give_back-allocated_bytes k s p o v based small =
    (merge_and_free-SameRegion k (uncount k s o block_alloc) v.orders based p o v.agrees
      small).allocated_bytes

-- A block handed out at order `o`, and given back.
abbrev TakenBack : ℕ → Buddy → Buddy × Chunk → Type 0
TakenBack k s (s', c) =
    (is_allocated k s' c.ptr ≡ true)
    × (block_size k s' c.ptr ≡ c.len + 32)
    × ((deallocate k s' c.ptr).1 ≡ ok)
    × ((deallocate k s' c.ptr).0.allocated_bytes ≡ s.allocated_bytes)

hand_out-TakenBack :
    (k : ℕ) (s t : Buddy) (blk o : ℕ)
    → SameRegion s t
    → 32 ≤ order_size k o
    → o < s.max_order
    → o < 64
    → s.base ≢ 0
    → s.allocated_bytes < 2 ^ 64
    → blk ≢ 0
    → MaskAgrees (hand_out k t blk o block_alloc)
    → in_region k (hand_out k t blk o block_alloc) blk ≡ true
    → TakenBack k s (hand_out k t blk o block_alloc, chunk_of k blk o)
hand_out-TakenBack k s t blk o same header below small based bounded nonnull m inside = (
  live,
  hand_out-block_size k t blk o small block_alloc (omega (arith, same.max_order)) inside
      ∙ omega arith,
  ap (λ r. r.1) back,
  ap (λ r. r.0.allocated_bytes) back
      ∙ give_back-allocated_bytes k h blk o m
          (omega (arith, hand_out-base k t blk o small block_alloc, same.base)) small
      ∙ ap (λ a. sub64 a (order_size k o)) counted
      ∙ sub64-add64 s.allocated_bytes (order_size k o) bounded (order_size-lt k o),
)
  where
    h : Buddy
    h = hand_out k t blk o block_alloc

    counted : h.allocated_bytes ≡ add64 s.allocated_bytes (order_size k o)
    counted =
        hand_out-allocated_bytes k t blk o small block_alloc
        ∙ ap (λ a. add64 a (order_size k o)) same.allocated_bytes

    live : is_allocated k h blk ≡ true
    live = hand_out-is_allocated k t blk o small block_alloc (omega (arith, same.max_order)) inside

    back : deallocate k h blk ≡ (give_back k h blk o block_alloc, ok)
    back =
        deallocate-live k h blk o block_alloc live (hand_out-header k t blk o small block_alloc).0
          (hand_out-header k t blk o small block_alloc).1
          (omega (arith, hand_out-max_order k t blk o small block_alloc, same.max_order)) small
          (omega (arith, hand_out-base k t blk o small block_alloc, same.base)) nonnull
          (omega arith)

-- In a list whose largest block fits its region (`Sized`) and whose mask agrees with its lists, a
-- block that `allocate` serves, if it lies in the region, is allocated and has the size that it
-- was served with, and `deallocate` takes it back: the bytes in use are those from before.
pub allocate-deallocate :
    (k : ℕ) (s : Buddy) (n : ℕ)
    → Sized k s
    → MaskAgrees s
    → s.allocated_bytes < 2 ^ 64
    → (allocate k s n).1.ptr ≢ 0
    → in_region k (allocate k s n).0 (allocate k s n).1.ptr ≡ true
    → let (s', c) = allocate k s n in
      (is_allocated k s' c.ptr ≡ true)
      × (block_size k s' c.ptr ≡ c.len + 32)
      × ((deallocate k s' c.ptr).1 ≡ ok)
      × ((deallocate k s' c.ptr).0.allocated_bytes ≡ s.allocated_bytes)
allocate-deallocate k s n z m bounded e inside = subst (TakenBack k s) (sym v.result) (
    hand_out-TakenBack k s _ _ o (take_and_split-SameRegion k s (find_free_order s o) o)
      (omega (arith, fits.holds, order_size_of k s o z v.order)) v.order
      (omega (arith, v.order, m.orders)) v.based bounded (λ q. e (ap (λ r. r.1.ptr) v.result ∙ q))
      (subst (λ r. MaskAgrees r.0) v.result (allocate-MaskAgrees k s n m))
      (subst (λ r. in_region k r.0 r.1.ptr ≡ true) v.result inside))
  where
    o : ℕ
    o = order_for_size k (n + 32)

    v : Served k s n o (allocate k s n)
    v = allocate-Served k s n e

    fits : Fits k (n + 32) o
    fits = order_for_size-Fits k (n + 32) (omega arith) (omega (arith, v.small))
