-- ===== src/Arena/ResizeTests.antt =====
-- A block of 192 bytes at 4160 with canaries, which is resized to 100 bytes.
use abcmalloc.Base.{ℕ, ◌≡◌, refl, true, false, arith, some}
use abcmalloc.Base.Bits.Count.{floor_log2, ctz}
use abcmalloc.Base.Bits.Mask.{set_bit, clear_bit}
use abcmalloc.Cache.Tier.{contains, contains_from}
use abcmalloc.Harden.Tests.{fill, fill-FillsBytes}
use abcmalloc.Index.{find_range, find_loop}
use abcmalloc.Sheet.{block_size_of}
use abcmalloc.Tlsf.State.{mapping_insert, mapping_search, adjusted_block_size}
use abcmalloc.Tlsf.FreeList.{
  fl_insert, find_free, pick_list, take_picked, take_head, unmark_if_empty, try_split, write_rest,
}
use abcmalloc.Tlsf.Alloc.{
  construct, init_memory, one_block, zero_arrays, no_region, levels_of, allocate, cut_out, hand_out,
}
use abcmalloc.Tlsf.Free.{in_data, block_size}
use abcmalloc.Arena.Route.{locate}
use abcmalloc.Arena.Query.{size_of_alloc, is_cached}
use abcmalloc.Arena.Pop.{Checks}
use abcmalloc.Arena.Push.{Heap}
use abcmalloc.Arena.Resize.{relaid, resize, has_canaries, Reused, resize-Reused}
use abcmalloc.Arena.Tests.{lent}
use abcmalloc.Arena.GrowTests.{system, options, spaces, heap, guarded_setup}

abbrev checks : Checks
checks = record { alignment = true; provenance = true }

abbrev copy : (ℕ → ℕ) → (to from n : ℕ) → ℕ → ℕ
copy m to from n = m

abbrev held : Heap
held = record heap { arena = record heap.arena { precise = lent } }

size_100 : size_of_alloc guarded_setup held.arena 4176 ≡ 128
unfolding size_of_alloc locate find_range find_loop block_size_of block_size in_data construct
    init_memory one_block zero_arrays no_region levels_of fl_insert mapping_insert mapping_search
    allocate adjusted_block_size find_free pick_list take_picked take_head unmark_if_empty cut_out
    try_split write_rest hand_out floor_log2 set_bit clear_bit ctz
size_100 = refl

in_tier : has_canaries (locate held.arena 4176) ≡ true
unfolding locate find_range find_loop
in_tier = refl

not_kept : is_cached guarded_setup held.arena 4176 ≡ false
unfolding is_cached locate find_range find_loop contains contains_from
not_kept = refl

resize-Reused_example :
    let h' =
      relaid guarded_setup checks system options spaces fill copy held 4176 100
        (locate held.arena 4176) in
    (resize guarded_setup checks system options spaces fill copy held 4176 100 500
      ≡ some (h', 4176))
    × Reused guarded_setup checks system options spaces fill fill-FillsBytes copy refl held 4176 100
        (omega arith)
        h'
resize-Reused_example =
    resize-Reused guarded_setup checks system options spaces fill fill-FillsBytes copy refl held
      4176 100 (omega arith) 500 in_tier not_kept (omega (arith, size_100))
      (omega (arith, size_100))
