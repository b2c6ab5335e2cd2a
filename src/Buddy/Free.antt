-- ===== src/Buddy/Free.antt =====
-- The returns and queries of `__buddy_list` (src/free_list.hpp).
use abcmalloc.Base.{
  ℕ, ◌+◌, ◌/◌, ◌%◌, ◌^◌, Bool, false, not, ◌&&◌, ◌||◌, ltb, leb, ◌==◌, if◌then◌else◌, update, add64,
  sub64, bit_and,
}
use abcmalloc.Base.Bits.{bit}
use abcmalloc.Buddy.State.{
  Buddy, Chunk, null_chunk, RetFlag, invalid, failure, tombstoned, ok, block_free, block_alloc,
  block_tombstone, block_temporal, order_size, tag_index, tag_order, tag_set_none, hdr_of_tagged,
}
use abcmalloc.Buddy.FreeList.{merge_and_free, tcache_push}
use abcmalloc.Buddy.Alloc.{allocate}

-- `flags & f`, as a test
abbrev pub has_flag : ℕ → ℕ → Bool
has_flag flags f = not (bit_and flags f == 0)

-- `o < 0 || o >= max_order`, of the signed number in a header
abbrev pub bad_order : Buddy → ℕ → Bool
bad_order s o = leb (2 ^ 31) o || leb s.max_order o

-- The first slot of the ring of order `o` that holds `blk` is emptied.
unfoldable pub deactivate : Buddy → (blk o : ℕ) → Buddy
deactivate s blk o =
    if s.active o 0 == blk
    then record s { active = update s.active o (update (s.active o) 0 0) }
    else if s.active o 1 == blk
    then record s { active = update s.active o (update (s.active o) 1 0) }
    else s

module _ (k : ℕ) where
  -- A pointer inside the region, at a multiple of the smallest block.
  unfoldable pub in_region : Buddy → (ptr : ℕ) → Bool
  in_region s ptr =
      if ptr == 0 || s.base == 0 || ltb ptr s.base || leb (s.base + s.total) ptr
      then false
      else sub64 ptr s.base % 2 ^ k == 0

  unfoldable pub is_allocated : Buddy → (ptr : ℕ) → Bool
  is_allocated s ptr =
      let tag = s.block_tags (tag_index k s ptr) in
      in_region s ptr && (not (bit tag 7) && ltb tag s.max_order)

  unfoldable pub block_size : Buddy → (ptr : ℕ) → ℕ
  block_size s ptr =
      let o = tag_order k s ptr in
      if not (in_region s ptr) then 0 else if leb s.max_order o then 0 else order_size k o

  unfoldable pub allocated_size : Buddy → (ptr : ℕ) → ℕ
  allocated_size s ptr = if is_allocated s ptr then block_size s ptr else 0

  unfoldable pub is_tombstoned : Buddy → (ptr : ℕ) → Bool
  is_tombstoned s ptr = has_flag (s.header_flags (hdr_of_tagged k s ptr)) block_tombstone

  unfoldable pub is_temporal : Buddy → (ptr : ℕ) → Bool
  is_temporal s ptr = has_flag (s.header_flags (hdr_of_tagged k s ptr)) block_temporal

  unfoldable pub tombstone : Buddy → (ptr : ℕ) → Buddy × RetFlag
  tombstone s ptr =
      let hdr = hdr_of_tagged k s ptr in
      let o = s.header_order hdr in
      if not (is_allocated s ptr)
      then (s, invalid)
      else if bad_order s o
      then (s, invalid)
      else if not (has_flag (s.header_flags hdr) block_alloc)
      then (s, invalid)
      else (
        record s {
          header_flags = update s.header_flags hdr block_tombstone;
          allocated_bytes = sub64 s.allocated_bytes (order_size k o);
          tombstoned_bytes = add64 s.tombstoned_bytes (order_size k o);
        },
        tombstoned,
      )

  -- The counters after a block of order `o` is given back.
  unfoldable pub uncount : Buddy → (o flags : ℕ) → Buddy
  uncount s o flags = record s {
    allocated_bytes = sub64 s.allocated_bytes (order_size k o);
    tombstoned_bytes =
        if has_flag flags block_tombstone
        then sub64 s.tombstoned_bytes (order_size k o)
        else s.tombstoned_bytes;
  }

  -- A temporal block goes to the cache of its order while that has room.
  unfoldable pub free_temporal : Buddy → (addr o : ℕ) → Buddy
  free_temporal s addr o =
      let (pushed, cached) = tcache_push (deactivate s addr o) addr o in
      if cached
      then tag_set_none pushed (tag_index k pushed addr)
      else merge_and_free k pushed addr o

  -- `deallocate`, past its guards.
  unfoldable pub give_back : Buddy → (addr o flags : ℕ) → Buddy
  give_back s addr o flags =
      let counted = uncount s o flags in
      if has_flag flags block_temporal
      then free_temporal counted addr o
      else merge_and_free k counted addr o

  unfoldable pub deallocate : Buddy → (ptr : ℕ) → Buddy × RetFlag
  deallocate s ptr =
      let hdr = hdr_of_tagged k s ptr in
      let o = s.header_order hdr in
      let flags = s.header_flags hdr in
      if not (is_allocated s ptr)
      then (s, invalid)
      else if bad_order s o
      then (s, invalid)
      else if s.base == 0 || ptr == 0
      then (s, failure)
      else if flags == block_free
      then (s, invalid)
      else (give_back s ptr o flags, ok)

  -- `deallocate(T &node)` and `tombstone(T &node)`
  unfoldable pub deallocate_chunk : Buddy → Chunk → Buddy × RetFlag
  deallocate_chunk s node =
      if node.ptr == 0 || node.len == 0 then (s, invalid) else deallocate s node.ptr

  unfoldable pub tombstone_chunk : Buddy → Chunk → Buddy × RetFlag
  tombstone_chunk s node =
      if node.ptr == 0 || node.len == 0 then (s, invalid) else tombstone s node.ptr

  -- `reallocate`, less the copy of the bytes.
  unfoldable pub reallocate : Buddy → Chunk → (new_size : ℕ) → Buddy × Chunk
  reallocate s node new_size =
      let (grown, nnode) = allocate k s new_size in
      if s.base == 0
      then (s, null_chunk)
      else if node.ptr == 0
      then (grown, nnode)
      else if new_size == 0
      then ((deallocate_chunk s node).0, null_chunk)
      else if leb new_size node.len && ltb (node.len / 2) new_size
      then (s, node)
      else if nnode.ptr == 0
      then (grown, null_chunk)
      else ((deallocate_chunk grown node).0, nnode)

unfoldable pub available : Buddy → ℕ
available s = if s.base == 0 then 0 else sub64 s.total s.allocated_bytes
