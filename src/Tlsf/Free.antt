-- ===== src/Tlsf/Free.antt =====
-- The returns and queries of `__tlsf_list` (src/cache_list.hpp).
use abcmalloc.Base.{
  ℕ, ◌+◌, ◌-◌, ◌/◌, Bool, true, false, not, ◌&&◌, ◌||◌, ltb, leb, ◌==◌, if◌then◌else◌, update,
  add64, sub64,
}
use abcmalloc.Buddy.State.{
  Chunk, null_chunk, hdr_offset, RetFlag, invalid, failure, tombstoned, ok, block_free, block_alloc,
  block_tombstone, block_temporal,
}
use abcmalloc.Buddy.Free.{has_flag}
use abcmalloc.Tlsf.State.{Tlsf, idx_of, mapping_search, block_align, min_block}
use abcmalloc.Tlsf.FreeList.{coalesce_and_free}
use abcmalloc.Tlsf.Alloc.{allocate, class_valid}

-- The header of the block behind a pointer.
abbrev pub hdr_at : (ptr : ℕ) → ℕ
hdr_at ptr = sub64 ptr hdr_offset

unfoldable pub tombstone : Tlsf → (ptr : ℕ) → Tlsf × RetFlag
tombstone s ptr =
    let hdr = hdr_at ptr in
    if not (has_flag (s.flags hdr) block_alloc) then (s, invalid) else (
      record s {
        flags = update s.flags hdr block_tombstone;
        allocated_bytes = sub64 s.allocated_bytes (s.bsize hdr);
        tombstoned_bytes = add64 s.tombstoned_bytes (s.bsize hdr);
      },
      tombstoned,
    )

unfoldable pub tombstone_chunk : Tlsf → Chunk → Tlsf × RetFlag
tombstone_chunk s node =
    if node.ptr == 0 || node.len == 0 then (s, invalid) else tombstone s node.ptr

unfoldable pub is_tombstoned : Tlsf → (ptr : ℕ) → Bool
is_tombstoned s ptr = has_flag (s.flags (hdr_at ptr)) block_tombstone

unfoldable pub is_temporal : Tlsf → (ptr : ℕ) → Bool
is_temporal s ptr = has_flag (s.flags (hdr_at ptr)) block_temporal

-- `__clear_temporal_class`, and whether a slot held the block
unfoldable pub clear_temporal_class : Tlsf → (block size : ℕ) → Tlsf × Bool
clear_temporal_class s block size =
    let c = mapping_search size in
    let i = idx_of c in
    if not (class_valid s c)
    then (s, false)
    else if s.temporal_active i 0 == block
    then (
      record s { temporal_active = update s.temporal_active i (update (s.temporal_active i) 0 0) },
      true,
    )
    else if s.temporal_active i 1 == block
    then (
      record s { temporal_active = update s.temporal_active i (update (s.temporal_active i) 1 0) },
      true,
    )
    else (s, false)

unfoldable pub clear_temporal : Tlsf → (block size : ℕ) → Tlsf
clear_temporal s block size =
    let (cleared, done) = clear_temporal_class s block size in
    if done
    then cleared
    else if ltb min_block size
    then (clear_temporal_class cleared block (size - block_align)).0
    else cleared

-- `deallocate`, past its guards, for the header `block`
unfoldable pub give_back : Tlsf → (block : ℕ) → Tlsf
give_back s block =
    let size = s.bsize block in
    let counted = record s {
      allocated_bytes = sub64 s.allocated_bytes size;
      tombstoned_bytes =
          if has_flag (s.flags block) block_tombstone
          then sub64 s.tombstoned_bytes size
          else s.tombstoned_bytes;
    } in
    coalesce_and_free
      (if has_flag (s.flags block) block_temporal
        then clear_temporal counted block size
        else counted)
      block

unfoldable pub deallocate : Tlsf → (ptr : ℕ) → Tlsf × RetFlag
deallocate s ptr =
    if ptr == 0 || s.base == 0
    then (s, failure)
    else if s.flags (hdr_at ptr) == block_free
    then (s, invalid)
    else (give_back s (hdr_at ptr), ok)

unfoldable pub deallocate_chunk : Tlsf → Chunk → Tlsf × RetFlag
deallocate_chunk s node =
    if node.ptr == 0 || node.len == 0 then (s, invalid) else deallocate s node.ptr

-- `reallocate`, less the copy of the bytes
unfoldable pub reallocate : Tlsf → Chunk → (new_size : ℕ) → Tlsf × Chunk
reallocate s node new_size =
    let (grown, nnode) = allocate s new_size in
    if s.base == 0
    then (s, null_chunk)
    else if node.ptr == 0
    then (grown, nnode)
    else if new_size == 0
    then ((deallocate_chunk s node).0, null_chunk)
    else if leb new_size node.len && ltb (node.len / 2) new_size
    then (s, node)
    else if nnode.ptr == 0
    then (grown, null_chunk)
    else ((deallocate_chunk grown node).0, nnode)

unfoldable pub available : Tlsf → ℕ
available s = if s.base == 0 then 0 else sub64 s.total s.allocated_bytes

-- Whether the header of a pointer lies between the sentinels.
unfoldable pub in_data : Tlsf → (ptr : ℕ) → Bool
in_data s ptr =
    if s.base == 0 || ptr == 0
    then false
    else if ltb (hdr_at ptr) (s.base + block_align)
        || leb (s.base + block_align + s.total) (hdr_at ptr)
    then false
    else true

unfoldable pub block_size : Tlsf → (ptr : ℕ) → ℕ
block_size s ptr = if in_data s ptr then s.bsize (hdr_at ptr) else 0

unfoldable pub is_allocated : Tlsf → (ptr : ℕ) → Bool
is_allocated s ptr = in_data s ptr && not (s.flags (hdr_at ptr) == block_free)

unfoldable pub allocated_size : Tlsf → (ptr : ℕ) → ℕ
allocated_size s ptr = if is_allocated s ptr then block_size s ptr else 0
