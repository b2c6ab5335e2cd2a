-- ===== src/Tlsf/Tests.antt =====
-- Runs of src/cache_list.hpp on a region of 1024 bytes at 4096, and the theorems on the list there.
use abcmalloc.Base.{ℕ, ◌+◌, ◌≤◌, ◌≡◌, ◌≢◌, refl, Bool, true, false, ◌==◌, ◌||◌, arith, some, inl}
use abcmalloc.Base.Bits.Count.{floor_log2, ctz}
use abcmalloc.Base.Bits.Mask.{set_bit, clear_bit}
use abcmalloc.Buddy.State.{Chunk, ok}
use abcmalloc.Tlsf.State.{Tlsf, idx, mapping_search, mapping_insert, adjusted_block_size}
use abcmalloc.Tlsf.FreeList.{
  fl_insert, fl_remove, find_free, pick_list, take_picked, take_head, unmark_if_empty, write_rest,
  try_split, merge_forward, merge_backward, relink, coalesce_and_free,
}
use abcmalloc.Tlsf.Alloc.{
  zero_arrays, no_region, levels_of, one_block, init_memory, construct, hand_out, cut_out, allocate,
  temporal_allocate, temporal_fresh, activate,
}
use abcmalloc.Tlsf.Free.{
  deallocate, tombstone, clear_temporal, clear_temporal_class, give_back, is_allocated, in_data,
}
use abcmalloc.Tlsf.Mapping.{mapping_search-holds}
use abcmalloc.Tlsf.Search.{Picks, pick_list-Picks}
use abcmalloc.Tlsf.Valid.{Valid}
use abcmalloc.Tlsf.Valid.Allocation.{adjusted_bounds}
use abcmalloc.Tlsf.Valid.Init.{construct-Valid, only}
use abcmalloc.Tlsf.Run.{Reach, Sound, built, after, allocated, taken, Reach-Sound}
use abcmalloc.Tlsf.Answers.{Fits, allocate-Fits, allocate-answers}

abbrev pub memory : Tlsf
memory = record {
  base = 0;
  total = 0;
  fl_count = 0;
  allocated_bytes = 0;
  tombstoned_bytes = 0;
  fl_bitmap = 0;
  sl_bitmap = λ _. 0;
  heads = λ _. 0;
  temporal_active = λ _ _. 0;
  temporal_rotor = λ _. 0;
  bsize = λ _. 0;
  flags = λ _. 0;
  prev_phys = λ _. 0;
  next_free = λ _. 0;
  prev_free = λ _. 0;
}

abbrev pub region_0 : Chunk
region_0 = record { ptr = 4096; len = 1024 }

abbrev pub list_0 : Tlsf
list_0 = init_memory memory 4096 1024

abbrev pub list_1 : Tlsf
list_1 = (allocate list_0 100).0

abbrev list_2 : Tlsf
list_2 = (allocate list_1 100).0

abbrev pub is_zero : Chunk → Bool
is_zero c = c.ptr == 0 || c.len == 0

abbrev pub live_0 : ℕ → Bool
live_0 _ = false

abbrev live_1 : ℕ → Bool
live_1 = taken live_0 (allocate list_0 100).1

abbrev live_2 : ℕ → Bool
live_2 = taken live_1 (allocate list_1 100).1

-- The first block starts behind the low sentinel and its own header, and the next one behind it: 100
-- bytes take 192.
pub first_chunk : (allocate list_0 100).1.ptr ≡ 4160
unfolding construct init_memory one_block zero_arrays no_region levels_of fl_insert mapping_insert
    mapping_search allocate adjusted_block_size find_free pick_list take_picked take_head
    unmark_if_empty cut_out try_split write_rest hand_out floor_log2 set_bit clear_bit ctz
first_chunk = refl

next_chunk : (allocate list_1 100).1.ptr ≡ 4160 + 192
unfolding construct init_memory one_block zero_arrays no_region levels_of fl_insert mapping_insert
    mapping_search allocate adjusted_block_size find_free pick_list take_picked take_head
    unmark_if_empty cut_out try_split write_rest hand_out floor_log2 set_bit clear_bit ctz
next_chunk = refl

-- What was freed is merged with the rest, and the region is one block again.
all_free : (deallocate list_1 4160).0.bsize 4128 ≡ 960
unfolding construct init_memory one_block zero_arrays no_region levels_of fl_insert mapping_insert
    mapping_search allocate adjusted_block_size find_free pick_list take_picked take_head
    unmark_if_empty cut_out try_split write_rest hand_out floor_log2 set_bit clear_bit ctz
    deallocate give_back coalesce_and_free merge_forward merge_backward relink fl_remove
all_free = refl

built_0 : construct 64 is_zero memory region_0 ≡ some list_0
unfolding construct zero_arrays no_region
built_0 = refl

pub base_0 : list_0.base ≡ 4096
unfolding construct init_memory one_block zero_arrays no_region levels_of fl_insert mapping_insert
    floor_log2 set_bit
base_0 = refl

has_base : list_0.base ≢ 0
has_base e = omega (arith, base_0, e)

pub list_0-Reach : Reach list_0 live_0
list_0-Reach = built 64 is_zero memory region_0 list_0 (omega arith) built_0 has_base

list_1-Reach : Reach list_1 live_1
list_1-Reach = after list_0-Reach (allocated 100 (omega arith))

list_2-Reach : Reach list_2 live_2
list_2-Reach = after list_1-Reach (allocated 100 (omega arith))

Reach-Sound_example : Sound list_2 live_2
Reach-Sound_example = Reach-Sound list_2-Reach

allocate-Fits_example : Fits list_0 100 (allocate list_0 100).1
allocate-Fits_example =
    allocate-Fits list_0-Reach 100 (omega arith) (λ e. omega (arith, first_chunk, e))

low_class : (mapping_search (adjusted_block_size 100)).fl ≡ 7
unfolding mapping_search mapping_insert adjusted_block_size floor_log2
low_class = refl

low_step : (mapping_search (adjusted_block_size 100)).si ≡ 8
unfolding mapping_search mapping_insert adjusted_block_size floor_log2
low_step = refl

high_class : (mapping_insert 960).fl ≡ 9
unfolding mapping_insert floor_log2
high_class = refl

levels_0 : list_0.fl_count ≡ 4
unfolding construct init_memory one_block zero_arrays no_region levels_of fl_insert mapping_insert
    floor_log2 set_bit
levels_0 = refl

head_0 : list_0.heads (idx 3 14) ≡ 4128
unfolding construct init_memory one_block zero_arrays no_region levels_of fl_insert mapping_insert
    floor_log2 set_bit
head_0 = refl

allocate-answers_example : (allocate list_0 100).1.ptr ≢ 0
allocate-answers_example =
    allocate-answers list_0-Reach 100 (omega arith) (omega (arith, low_class, levels_0)) 3 14
      (omega arith) (omega arith) (inl (omega (arith, low_class))) (λ e. omega (arith, head_0, e))

mapping_search-holds_example : adjusted_block_size 100 ≤ 960
mapping_search-holds_example =
    mapping_search-holds (adjusted_block_size 100) 960 (adjusted_bounds 100 (omega arith)).0
      (omega (arith, (adjusted_bounds 100 (omega arith)).3)) (omega arith) (omega arith)
      (inl (omega (arith, low_class, high_class)))

list_0-Valid : Valid list_0 (only (list_0.base + 32)) (only (list_0.base + 32))
list_0-Valid = construct-Valid 64 is_zero memory list_0 region_0 (omega arith) built_0 has_base

pick_list-Picks_example :
    Picks list_0
      (mapping_search (adjusted_block_size 100))
      (pick_list list_0 (mapping_search (adjusted_block_size 100)))
pick_list-Picks_example =
    pick_list-Picks list_0 (mapping_search (adjusted_block_size 100)) (omega (arith, levels_0))
      (omega (arith, low_step)) list_0-Valid.core.marked

-- A block that was merged into the one before it keeps its own flags, and is freed again.
abbrev merged_back : Tlsf
merged_back = (deallocate (deallocate (allocate list_2 100).0 4160).0 4352).0

freed_again : ((deallocate merged_back 4352).1 ≡ ok) × (is_allocated merged_back 4352 ≡ true)
unfolding construct init_memory one_block zero_arrays no_region levels_of fl_insert mapping_insert
    mapping_search allocate adjusted_block_size find_free pick_list take_picked take_head
    unmark_if_empty cut_out try_split write_rest hand_out floor_log2 set_bit clear_bit ctz
    deallocate give_back coalesce_and_free merge_forward merge_backward relink fl_remove
    is_allocated in_data
freed_again = (refl, refl)

-- A temporal block that was tombstoned and then freed stays in the ring: it is handed out by the next
-- temporal request, and once more by the request after that.
abbrev returned : Tlsf
returned = (deallocate (tombstone (temporal_allocate list_0 100).0 4160).0 4160).0

abbrev shared_again : Tlsf
shared_again = (temporal_allocate returned 100).0

ring_keeps_returned :
    ((temporal_allocate list_0 100).1.ptr ≡ 4160)
    × ((temporal_allocate returned 100).1.ptr ≡ 4160)
    × ((allocate shared_again 100).1.ptr ≡ 4160)
unfolding construct init_memory one_block zero_arrays no_region levels_of fl_insert mapping_insert
    mapping_search allocate adjusted_block_size find_free pick_list take_picked take_head
    unmark_if_empty cut_out try_split write_rest hand_out floor_log2 set_bit clear_bit ctz
    deallocate give_back coalesce_and_free merge_forward merge_backward relink fl_remove
    is_allocated in_data temporal_allocate tombstone temporal_fresh activate clear_temporal
    clear_temporal_class
ring_keeps_returned = (refl, refl, refl)
