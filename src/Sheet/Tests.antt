-- ===== src/Sheet/Tests.antt =====
-- A sheet over a region of 4096 bytes.
use abcmalloc.Base.{◌≡◌, refl, true, false, some}
use abcmalloc.Buddy.State.{Buddy, Chunk}
use abcmalloc.Buddy.Free.{deallocate_chunk}
use abcmalloc.Buddy.Tests.{memory, is_zero, page, lent, running}
use abcmalloc.Reserve.{empty_reserve}
use abcmalloc.Registry.{empty_registry}
use abcmalloc.Sheet.{buddy_book, Sheet, empty, release, try_unmark, find, is_block_allocated}
use abcmalloc.Sheet.Release.{IsReleased, release-IsReleased}
use abcmalloc.Sheet.Unmark.{list, try_unmark_twice}

-- A block of 256 bytes is in use.
abbrev lending : Sheet Buddy
lending = record { kernel_memory = page; book = lent; guard_offset = 0 }

abbrev block : Chunk
block = record { ptr = 8192; len = 224 }

try_unmark_twice_example :
    let s' = record lending { book = (deallocate_chunk 6 lending.book block).0 } in
    (try_unmark (list 6 memory is_zero is_zero) is_zero is_zero lending block ≡ some (s', true))
    × (find (list 6 memory is_zero is_zero) is_zero is_zero s' 8192 ≡ some false)
    × (is_block_allocated (list 6 memory is_zero is_zero) is_zero is_zero s' 8192 ≡ false)
    × (try_unmark (list 6 memory is_zero is_zero) is_zero is_zero s' block ≡ some (s', false))
unfolding running deallocate_chunk empty
try_unmark_twice_example = try_unmark_twice 6 memory is_zero is_zero lending block refl refl refl

release-IsReleased_example :
    let ((r', g'), s') =
      release (buddy_book 6 is_zero memory) is_zero is_zero empty_reserve empty_registry lending in
    IsReleased (buddy_book 6 is_zero memory) is_zero is_zero s'
    × (release (buddy_book 6 is_zero memory) is_zero is_zero r' g' s' ≡ ((r', g'), s'))
release-IsReleased_example =
    release-IsReleased (buddy_book 6 is_zero memory) is_zero is_zero refl empty_reserve
      empty_registry lending
