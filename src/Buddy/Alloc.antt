-- ===== src/Buddy/Alloc.antt =====
-- The requests of `__buddy_list` (src/free_list.hpp): building the list over a region, and the
-- three ways to allocate.
use abcmalloc.Base.{
  ℕ, ◌+◌, ◌-◌, ◌*◌, ◌/◌, ◌%◌, ◌^◌, ◌||◌, Bool, true, false, not, ltb, leb, ◌==◌, bit_xor,
  if◌then◌else◌, update, add64, bit_or, Option, none, some, bit_and,
}
use abcmalloc.Base.Bits.Count.{floor_log2}
use abcmalloc.Buddy.State.{
  Buddy, Chunk, null_chunk, hdr_offset, block_alloc, block_temporal, tag_none, active_ring,
  order_for_size, order_size, tag_set_free, tag_set_alloc, mask_set, find_free_order, hdr_of,
}
use abcmalloc.Buddy.FreeList.{set_head, set_next, take_and_split, tcache_pop}

-- `__impl_zero_arrays`
unfoldable pub zero_arrays : Buddy → Buddy
zero_arrays s = record s {
  free_mask = 0;
  free_lists = λ i. 0;
  active = λ i r. 0;
  active_rotor = λ i. 0;
  tcache = λ i. 0;
  tcache_count = λ i. 0;
}

-- The region holds no list.
unfoldable pub no_region : Buddy → Bool → Buddy
no_region s external = record s {
  base = 0;
  total = 0;
  max_order = 0;
  tag_count = 0;
  tags_external = external;
}

-- The slot of the ring that `temporal_allocate` reads: the rotor's, or the other if that is empty.
abbrev pub temporal_slot : Buddy → ℕ → ℕ
temporal_slot s o =
    let first = s.active_rotor o % active_ring in
    if s.active o first == 0 then bit_xor first 1 else first

-- An address rounded up to a multiple of `alignof(void *)`, 8.
unfoldable pub align_ptr : ℕ → ℕ
align_ptr p = (p + 7) / 8 * 8

module _ (k : ℕ) where
  -- The end of `__impl_init_memory`: one free block of the largest order that fits, at the base.
  unfoldable pub one_block : Buddy → (base total : ℕ) → Buddy
  one_block s base total =
      let units = total / 2 ^ k in
      let orders = floor_log2 64 units + 1 in
      let top = if ltb 64 orders then 63 else orders - 1 in
      let sized = zero_arrays (record s {
        base = base;
        total = total;
        tag_count = units;
        max_order = if ltb 64 orders then 64 else orders;
      }) in
      let cleared = record sized {
        block_tags = λ i. if ltb i units then tag_none else s.block_tags i;
      } in
      tag_set_free k (mask_set (set_next (set_head cleared top base) base 0) top) base top

  -- `__impl_init_memory` with the tags in a buffer of their own.
  unfoldable pub init_external : Buddy → (aligned usable : ℕ) → Buddy
  init_external s aligned usable =
      let data_usable = usable / 2 ^ k * 2 ^ k in
      if ltb data_usable (2 ^ k)
      then no_region s false
      else one_block (record s { tags_external = true }) aligned data_usable

  -- `__impl_init_memory` with the tags at the front of the region.
  unfoldable pub init_internal : Buddy → (aligned usable : ℕ) → Buddy
  init_internal s aligned usable =
      let approx_tags = (usable + 2 ^ k) / (2 ^ k + 1) in
      let tag_area = (approx_tags + 2 ^ k - 1) / 2 ^ k * 2 ^ k in
      let data_usable = (usable - tag_area) / 2 ^ k * 2 ^ k in
      if leb usable tag_area
      then no_region s false
      else if ltb data_usable (2 ^ k)
      then no_region s false
      else one_block (record s { tags_external = false }) (aligned + tag_area) data_usable

  unfoldable pub init_memory : Buddy → (ptr len : ℕ) → (external : Bool) → Buddy
  init_memory s ptr len external =
      let adjust = align_ptr ptr - ptr in
      if leb len adjust
      then no_region s false
      else if external
      then init_external s (align_ptr ptr) (len - adjust)
      else init_internal s (align_ptr ptr) (len - adjust)

  -- The header and the tag of a block that is handed out, and the bytes it counts for.
  unfoldable pub hand_out : Buddy → (blk o flags : ℕ) → Buddy
  hand_out s blk o flags =
      let hdr = hdr_of k blk o in
      record (tag_set_alloc k s blk o) {
        header_order = update s.header_order hdr o;
        header_flags = update s.header_flags hdr flags;
        allocated_bytes = add64 s.allocated_bytes (order_size k o);
      }

  -- What the caller gets of a block of order `o`.
  abbrev pub chunk_of : (blk o : ℕ) → Chunk
  chunk_of blk o = record { ptr = blk; len = order_size k o - hdr_offset }

  -- `allocate`, past its guards, at order `o`.
  unfoldable pub allocate_order : Buddy → (o : ℕ) → Buddy × Chunk
  allocate_order s o =
      let i = find_free_order s o in
      let (split, blk) = take_and_split k s i o in
      if leb s.max_order i
      then (s, null_chunk)
      else (hand_out split blk o block_alloc, chunk_of blk o)

  unfoldable pub allocate : Buddy → (n : ℕ) → Buddy × Chunk
  allocate s n =
      let o = order_for_size k (n + hdr_offset) in
      if ltb (2 ^ 64 - 1 - hdr_offset) n
      then (s, null_chunk)
      else if s.base == 0
      then (s, null_chunk)
      else if leb s.max_order o
      then (s, null_chunk)
      else allocate_order s o

  -- A block that becomes the active temporal block of its order, in slot `r`.
  unfoldable pub activate : Buddy → (blk o r : ℕ) → Buddy
  activate s blk o r =
      let out = hand_out s blk o (bit_or block_alloc block_temporal) in
      record out {
        active = update s.active o (update (s.active o) r blk);
        active_rotor = update s.active_rotor o (bit_xor r 1);
      }

  -- `temporal_allocate` where no block of the order is active; `r` is the slot to fill.
  unfoldable pub temporal_fresh : Buddy → (o r : ℕ) → Buddy × Chunk
  temporal_fresh s o r =
      let (popped, cached) = tcache_pop k s o in
      let i = find_free_order popped o in
      let (split, blk) = take_and_split k popped i o in
      if not (cached == 0)
      then (activate popped cached o r, chunk_of cached o)
      else if leb popped.max_order i
      then (popped, null_chunk)
      else (activate split blk o r, chunk_of blk o)

  -- `temporal_allocate`, past its guards: an active block is handed out again.
  unfoldable pub temporal_order : Buddy → (o : ℕ) → Buddy × Chunk
  temporal_order s o =
      let r = temporal_slot s o in
      if s.active o r == 0 then temporal_fresh s o r else (
        record s { active_rotor = update s.active_rotor o (bit_xor r 1) },
        chunk_of (s.active o r) o,
      )

  unfoldable pub temporal_allocate : Buddy → (n : ℕ) → Buddy × Chunk
  temporal_allocate s n =
      let o = order_for_size k (n + hdr_offset) in
      if ltb (2 ^ 64 - 1 - hdr_offset) n
      then (s, null_chunk)
      else if s.base == 0
      then (s, null_chunk)
      else if leb s.max_order o
      then (s, null_chunk)
      else temporal_order s o

  -- `n & (n - 1)` tells whether `n` is a power of two.
  unfoldable pub allocate_exact : Buddy → (n : ℕ) → Buddy × Chunk
  allocate_exact s n =
      let o = order_for_size k n in
      let (split, blk) = take_and_split k s o o in
      if s.base == 0
      then (s, null_chunk)
      else if ltb n (2 ^ k)
      then (s, null_chunk)
      else if not (bit_and n (n - 1) == 0)
      then (s, null_chunk)
      else if leb s.max_order o
      then (s, null_chunk)
      else if s.free_lists o == 0
      then (s, null_chunk)
      else (hand_out split blk o block_alloc, chunk_of blk o)

  -- The constructors of `__buddy_list` over the memory `m`; `none` is `micron::abort()`.
  -- `is_zero` is `micron::__chunk::zero`.
  unfoldable pub construct :
      (is_zero : Chunk → Bool) → Buddy → Chunk → (external : Bool) → Option Buddy
  construct is_zero m mem external =
      let blank = record (zero_arrays (no_region m external)) {
        allocated_bytes = 0;
        tombstoned_bytes = 0;
      } in
      if is_zero mem || ltb mem.len (2 ^ k)
      then none
      else some (init_memory blank mem.ptr mem.len external)
