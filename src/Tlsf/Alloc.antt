-- ===== src/Tlsf/Alloc.antt =====
-- The requests of `__tlsf_list` (src/cache_list.hpp): building the list over a region, and the three
-- ways to allocate.
use abcmalloc.Base.{
  ℕ, ◌+◌, ◌-◌, ◌*◌, ◌/◌, ◌%◌, ◌^◌, Bool, not, ◌&&◌, ◌||◌, ltb, leb, ◌==◌, if◌then◌else◌, update,
  add64, sub64, bit_and, bit_or, bit_xor, Option, none, some,
}
use abcmalloc.Buddy.State.{Chunk, null_chunk, hdr_offset, block_alloc, block_free, block_temporal}
use abcmalloc.Tlsf.State.{
  Tlsf, Class, fi, idx_of, mapping_insert, mapping_search, block_align, min_block, fl_shift,
  max_fl_count, temporal_ring, align_up, fls64, adjusted_block_size,
}
use abcmalloc.Tlsf.FreeList.{fl_insert, fl_remove, find_free, try_split}

unfoldable pub zero_arrays : Tlsf → Tlsf
zero_arrays s = record s {
  fl_bitmap = 0;
  sl_bitmap = λ _. 0;
  heads = λ _. 0;
  temporal_active = λ _ _. 0;
  temporal_rotor = λ _. 0;
}

-- `fail:`
unfoldable pub no_region : Tlsf → Tlsf
no_region s = record s { base = 0; total = 0; fl_count = 0 }

-- `fl - __fl_shift + 1`, at least 1 and at most `__fl_count`
unfoldable pub levels_of : (total : ℕ) → ℕ
levels_of total =
    let levels = fls64 total + 1 - fl_shift in
    if ltb max_fl_count levels then max_fl_count else if ltb levels 1 then 1 else levels

-- The sentinels at both ends of the region, and one free block between them.
unfoldable pub one_block : Tlsf → (aligned room : ℕ) → Tlsf
one_block s aligned room =
    let sized =
      zero_arrays (record s { base = aligned; total = room; fl_count = levels_of room }) in
    let end_at = aligned + block_align + room in
    let first = aligned + block_align in
    fl_insert
      (record sized {
        bsize =
            update (update (update s.bsize aligned block_align) end_at block_align) first
              (room % 2 ^ 32);
        flags =
            update (update (update s.flags aligned block_alloc) end_at block_alloc) first
              block_free;
        prev_phys = update (update (update s.prev_phys aligned 0) first aligned) end_at first;
        next_free = update (update s.next_free aligned 0) end_at 0;
        prev_free = update (update s.prev_free aligned 0) end_at 0;
      })
      first

unfoldable pub init_memory : Tlsf → (ptr len : ℕ) → Tlsf
init_memory s ptr len =
    let adjust = sub64 (align_up ptr) ptr in
    let usable = (len - adjust) / block_align * block_align in
    let room = usable - 2 * block_align in
    if leb len adjust
    then no_region s
    else if ltb usable (2 * block_align + min_block)
    then no_region s
    else if ltb 0xFFFFFFFF room
    then no_region s
    else one_block s (align_up ptr) room

-- The constructor over the memory `mem`; `min` is the template argument `Min`, and `none` is
-- `micron::abort()`. `is_zero` is `micron::__chunk::zero`, and `m` the memory before.
unfoldable pub construct : (min : ℕ) → (is_zero : Chunk → Bool) → (m : Tlsf) → Chunk → Option Tlsf
construct min is_zero m mem =
    let blank = record (zero_arrays (no_region m)) { allocated_bytes = 0; tombstoned_bytes = 0 } in
    if is_zero mem || ltb mem.len min then none else some (init_memory blank mem.ptr mem.len)

abbrev pub chunk_of : Tlsf → (block : ℕ) → Chunk
chunk_of s block = record { ptr = block + hdr_offset; len = sub64 (s.bsize block) hdr_offset }

-- A block that is handed out, less the chunk.
unfoldable pub hand_out : Tlsf → (block f : ℕ) → Tlsf
hand_out s block f = record s {
  flags = update s.flags block f;
  allocated_bytes = add64 s.allocated_bytes (s.bsize block);
}

-- `allocate` and `temporal_allocate`, once a block was looked for: it is cut and handed out.
unfoldable pub cut_out : Tlsf → (block needed f : ℕ) → Tlsf
cut_out s block needed f = hand_out (try_split s block needed) block f

unfoldable pub allocate : Tlsf → (n : ℕ) → Tlsf × Chunk
allocate s n =
    let needed = adjusted_block_size n in
    let (found, block) = find_free s needed in
    let out = cut_out found block needed block_alloc in
    if s.base == 0
    then (s, null_chunk)
    else if needed == 0
    then (s, null_chunk)
    else if block == 0
    then (found, null_chunk)
    else (out, chunk_of out block)

-- `fi >= 0 && fi < fl_count`
abbrev pub class_valid : Tlsf → Class → Bool
class_valid s c = leb fl_shift c.fl && ltb (fi c) s.fl_count

-- The slot of the ring that is read: the rotor's, or the other if that is empty.
abbrev pub temporal_slot : Tlsf → (i : ℕ) → ℕ
temporal_slot s i =
    let r = s.temporal_rotor i % temporal_ring in
    if s.temporal_active i r == 0 then bit_xor r 1 else r

-- A block becomes an active one of its class.
unfoldable pub activate : Tlsf → (c : Class) → (block : ℕ) → Tlsf
activate s c block =
    let i = idx_of c in
    let r = s.temporal_rotor i in
    if class_valid s c
    then record s {
      temporal_active = update s.temporal_active i (update (s.temporal_active i) r block);
      temporal_rotor = update s.temporal_rotor i (bit_xor r 1);
    }
    else s

-- `temporal_allocate` where no block of the class is active
unfoldable pub temporal_fresh : Tlsf → (c : Class) → (needed : ℕ) → Tlsf × Chunk
temporal_fresh s c needed =
    let (found, block) = find_free s needed in
    let out = activate (cut_out found block needed (bit_or block_alloc block_temporal)) c block in
    if block == 0 then (found, null_chunk) else (out, chunk_of out block)

unfoldable pub temporal_allocate : Tlsf → (n : ℕ) → Tlsf × Chunk
temporal_allocate s n =
    let needed = adjusted_block_size n in
    let c = mapping_search needed in
    let i = idx_of c in
    let r = temporal_slot s i in
    if s.base == 0
    then (s, null_chunk)
    else if needed == 0
    then (s, null_chunk)
    else if class_valid s c && not (s.temporal_active i r == 0)
    then (
      record s { temporal_rotor = update s.temporal_rotor i (bit_xor r 1) },
      chunk_of s (s.temporal_active i r),
    )
    else temporal_fresh s c needed

unfoldable pub allocate_exact : Tlsf → (n : ℕ) → Tlsf × Chunk
allocate_exact s n =
    let c = mapping_insert n in
    let block = s.heads (idx_of c) in
    let out = hand_out (fl_remove s block) block block_alloc in
    if s.base == 0
    then (s, null_chunk)
    else if ltb n min_block
    then (s, null_chunk)
    else if not (bit_and n (n - 1) == 0)
    then (s, null_chunk)
    else if not (class_valid s c)
    then (s, null_chunk)
    else if block == 0
    then (s, null_chunk)
    else (out, chunk_of out block)
