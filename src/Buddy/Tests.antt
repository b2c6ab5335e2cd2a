-- ===== src/Buddy/Tests.antt =====
-- Runs of the buddy list of src/free_list.hpp on a region of 4096 bytes, and its theorems there.
use abcmalloc.Base.{
  ℕ, ◌+◌, ◌-◌, ◌*◌, ◌^◌, ◌<◌, ◌≤◌, ◌≡◌, ◌≢◌, ◌⊎◌, refl, Bool, true, false, ◌||◌, ◌==◌, some, List,
  [], ◌∷◌, arith, add64,
}
use abcmalloc.Base.Bits.Count.{floor_log2, ctz}
use abcmalloc.Base.Bits.Mask.{set_bit, clear_bit}
use abcmalloc.Base.Bits.{bit}
use abcmalloc.Buddy.State.{
  Buddy, Chunk, invalid, ok, order_for_size, ceil_log2_u64, find_free_order, order_size, free_tag,
  link_valid,
}
use abcmalloc.Buddy.FreeList.{
  take_and_split, take_head, split_loop, push_right, merge_and_free, merge_loop, merge_round,
  joined, freelist_remove, remove_head, remove_inner, links_broken, freelist_push_off,
}
use abcmalloc.Buddy.Alloc.{
  zero_arrays, no_region, one_block, align_ptr, init_external, init_memory, construct, allocate,
  allocate_order, hand_out,
}
use abcmalloc.Buddy.Free.{
  is_allocated, in_region, block_size, deallocate, give_back, uncount, tombstone,
}
use abcmalloc.Buddy.Ops.{Op, allocates, tombstones, deallocates, step, run}
use abcmalloc.Buddy.Mask.{MaskAgrees}
use abcmalloc.Buddy.Mask.Ops.{find_free_order-first}
use abcmalloc.Buddy.Mask.Init.{run-construct-MaskAgrees}
use abcmalloc.Buddy.DoubleFree.{deallocate_twice}
use abcmalloc.Buddy.Allocation.{Sized, allocate-fits, allocate-deallocate}

-- Memory of all zeros, and no list yet.
abbrev pub memory : Buddy
memory = record {
  base = 0;
  total = 0;
  max_order = 0;
  allocated_bytes = 0;
  tombstoned_bytes = 0;
  free_mask = 0;
  block_tags = λ i. 0;
  tag_count = 0;
  tags_external = false;
  free_lists = λ i. 0;
  active = λ i r. 0;
  active_rotor = λ i. 0;
  tcache = λ i. 0;
  tcache_count = λ i. 0;
  next = λ i. 0;
  prev = λ i. 0;
  header_order = λ i. 0;
  header_flags = λ i. 0;
}

abbrev pub is_zero : Chunk → Bool
is_zero c = c.ptr == 0 || c.len == 0

abbrev pub page : Chunk
page = record { ptr = 8192; len = 4096 }

-- Blocks of 64 bytes and up, the tags in a buffer of their own.
abbrev pub fresh : Buddy
unfolding init_memory init_external one_block zero_arrays no_region align_ptr floor_log2 set_bit
    free_tag
fresh = init_memory 6 (zero_arrays (no_region memory true)) 8192 4096 true

fresh-construct : construct 6 is_zero memory page true ≡ some fresh
unfolding construct fresh
fresh-construct = refl

abbrev calls : List Op
calls = allocates 100 ∷ allocates 10 ∷ deallocates 8192 ∷ deallocates 8192 ∷ []

run-construct-MaskAgrees_example : MaskAgrees (run 6 fresh calls)
run-construct-MaskAgrees_example =
    run-construct-MaskAgrees 6 is_zero memory page true calls (omega arith) fresh-construct

fresh-MaskAgrees : MaskAgrees (run 6 fresh [])
fresh-MaskAgrees =
    run-construct-MaskAgrees 6 is_zero memory page true [] (omega arith) fresh-construct

-- What a run of the list computes with.
unfoldable pub running : ℕ
unfolding fresh run step allocate allocate_order order_for_size ceil_log2_u64 order_size
    find_free_order floor_log2 ctz set_bit clear_bit bit free_tag link_valid take_and_split
    take_head split_loop push_right merge_and_free merge_loop merge_round joined freelist_remove
    remove_head remove_inner links_broken freelist_push_off hand_out is_allocated in_region
    block_size deallocate give_back uncount tombstone
running = 0

-- 100 bytes take a block of 256, 10 bytes one of 64; the first is freed once.
used_after : (run 6 fresh calls).allocated_bytes ≡ 64
unfolding running
used_after = refl

-- A block that is tombstoned and then freed is taken off the byte count twice.
counted_twice :
    (run 6 fresh (allocates 100 ∷ tombstones 8192 ∷ deallocates 8192 ∷ [])).allocated_bytes
    ≡ 2 ^ 64 - 256
unfolding running
counted_twice = refl

find_free_order-first_example :
    ((j : ℕ) → 1 ≤ j → j < find_free_order fresh 1 → j < 64 → fresh.free_lists j ≡ 0)
    × (find_free_order fresh 1 < fresh.max_order
        → (1 ≤ find_free_order fresh 1) × (fresh.free_lists (find_free_order fresh 1) ≢ 0))
unfolding run
find_free_order-first_example = find_free_order-first fresh 1 fresh-MaskAgrees

fresh-Sized : Sized 6 fresh
unfolding running
fresh-Sized = omega arith

abbrev pub lent : Buddy
lent = (allocate 6 fresh 100).0

lent-ptr : (allocate 6 fresh 100).1.ptr ≡ 8192
unfolding running
lent-ptr = refl

allocate-fits_example :
    (100 ≤ 224)
    × ((224 + 32 ≡ 2 ^ 6) ⊎ (224 + 32 < 2 * (100 + 32)))
    × (lent.allocated_bytes ≡ add64 fresh.allocated_bytes (224 + 32))
unfolding running
allocate-fits_example = allocate-fits 6 fresh 100 fresh-Sized (omega arith)

allocate-deallocate_example :
    (is_allocated 6 lent 8192 ≡ true)
    × (block_size 6 lent 8192 ≡ 256)
    × ((deallocate 6 lent 8192).1 ≡ ok)
    × ((deallocate 6 lent 8192).0.allocated_bytes ≡ 0)
unfolding running
allocate-deallocate_example =
    allocate-deallocate 6 fresh 100 fresh-Sized fresh-MaskAgrees (omega arith) (omega arith) refl

deallocate_twice_example :
    let freed = (deallocate 6 lent 8192).0 in
    (is_allocated 6 freed 8192 ≡ false)
    × (deallocate 6 freed 8192 ≡ (freed, invalid))
    × (tombstone 6 freed 8192 ≡ (freed, invalid))
unfolding running
deallocate_twice_example = deallocate_twice 6 lent 8192 refl
