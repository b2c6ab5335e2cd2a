-- ===== src/Tlsf/FreeList.antt =====
-- The free lists of `__tlsf_list` (src/cache_list.hpp): one for each class of sizes, doubly linked,
-- with a bitmap of the classes of each first level and one of the first levels.
use abcmalloc.Base.{
  ℕ, ◌+◌, ◌-◌, ◌^◌, Bool, true, false, not, ◌&&◌, ◌||◌, ltb, leb, ◌==◌, if◌then◌else◌, update,
  bit_and, sub64, ◌%◌, Option, none, some,
}
use abcmalloc.Base.Bits.Mask.{set_bit, clear_bit}
use abcmalloc.Base.Bits.Count.{ctz}
use abcmalloc.Buddy.State.{block_free}
use abcmalloc.Tlsf.State.{
  Tlsf, Class, fi, idx, idx_of, mapping_insert, mapping_search, min_block, next_phys,
}

-- `if ( p ) p->prev_free = v;`
abbrev pub set_prev_free_if : (ℕ → ℕ) → (p v : ℕ) → ℕ → ℕ
set_prev_free_if f p v = if p == 0 then f else update f p v

unfoldable pub fl_insert : Tlsf → (block : ℕ) → Tlsf
fl_insert s block =
    let c = mapping_insert (s.bsize block) in
    let head = s.heads (idx_of c) in
    record s {
      next_free = update s.next_free block head;
      prev_free = set_prev_free_if (update s.prev_free block 0) head block;
      heads = update s.heads (idx_of c) block;
      flags = update s.flags block block_free;
      fl_bitmap = set_bit s.fl_bitmap (fi c);
      sl_bitmap = update s.sl_bitmap (fi c) (set_bit (s.sl_bitmap (fi c)) c.si);
    }

-- The end of `fl_remove` and of `find_free`: a list that has become empty leaves the bitmaps.
unfoldable pub unmark_if_empty : Tlsf → (f si : ℕ) → Tlsf
unmark_if_empty s f si =
    let new_sl = clear_bit 32 (s.sl_bitmap f) si in
    if s.heads (idx f si) == 0
    then record s {
      sl_bitmap = update s.sl_bitmap f new_sl;
      fl_bitmap = if new_sl == 0 then clear_bit 32 s.fl_bitmap f else s.fl_bitmap;
    }
    else s

unfoldable pub fl_remove : Tlsf → (block : ℕ) → Tlsf
fl_remove s block =
    let c = mapping_insert (s.bsize block) in
    let before = s.prev_free block in
    let following = s.next_free block in
    unmark_if_empty
      (record s {
        next_free = if before == 0 then s.next_free else update s.next_free before following;
        heads = if before == 0 then update s.heads (idx_of c) following else s.heads;
        prev_free = set_prev_free_if s.prev_free following before;
      })
      (fi c) c.si

-- `~0u << i`
abbrev pub from_bit : ℕ → ℕ
from_bit i = 2 ^ 32 - 1 - (2 ^ i - 1)

-- The search of the bitmaps in `find_free`: a list that is not empty, of a class from the given one on.
unfoldable pub pick_list : Tlsf → Class → Option (ℕ × ℕ)
pick_list s c =
    let sl_map = bit_and (s.sl_bitmap (fi c)) (from_bit c.si) in
    let fl_map = bit_and s.fl_bitmap (from_bit (fi c + 1)) in
    let f = ctz 32 fl_map in
    if leb s.fl_count (fi c)
    then none
    else if not (sl_map == 0)
    then some (fi c, ctz 32 sl_map)
    else if fl_map == 0
    then none
    else some (f, ctz 32 (s.sl_bitmap f))

-- The head of a list leaves it.
unfoldable pub take_head : Tlsf → (f si : ℕ) → Tlsf × ℕ
take_head s f si =
    let block = s.heads (idx f si) in
    let following = s.next_free block in
    (
      unmark_if_empty
          (record s {
            heads = update s.heads (idx f si) following;
            prev_free = set_prev_free_if s.prev_free following 0;
          })
          f si,
      block,
    )

-- `none` is `nullptr`.
unfoldable pub take_picked : Tlsf → Option (ℕ × ℕ) → Tlsf × ℕ
take_picked s none = (s, 0)
take_picked s (some (f, si)) = take_head s f si

unfoldable pub find_free : Tlsf → (needed : ℕ) → Tlsf × ℕ
find_free s needed = take_picked s (pick_list s (mapping_search needed))

-- The header of the rest of a block that is cut at `needed`; sizes are of 32 bits in a header.
unfoldable pub write_rest : Tlsf → (block needed remain : ℕ) → Tlsf
write_rest s block needed remain =
    let rem = block + needed in
    record s {
      bsize = update (update s.bsize block (needed % 2 ^ 32)) rem (remain % 2 ^ 32);
      prev_phys = update (update s.prev_phys rem block) (rem + remain % 2 ^ 32) rem;
    }

unfoldable pub try_split : Tlsf → (block needed : ℕ) → Tlsf
try_split s block needed =
    let remain = sub64 (s.bsize block) needed in
    if ltb remain min_block
    then s
    else fl_insert (write_rest s block needed remain) (block + needed)

-- The forward merge of `coalesce_and_free`, and whether it merged.
unfoldable pub merge_forward : Tlsf → (block : ℕ) → Tlsf × Bool
merge_forward s block =
    let next = next_phys s block in
    let removed = fl_remove s next in
    if s.flags next == block_free
    then (
      record removed { bsize = update s.bsize block ((s.bsize block + s.bsize next) % 2 ^ 32) },
      true,
    )
    else (s, false)

-- The backward merge, with the block that it leaves.
unfoldable pub merge_backward : Tlsf → (block : ℕ) → (Tlsf × ℕ) × Bool
merge_backward s block =
    let prev = s.prev_phys block in
    let removed = fl_remove s prev in
    if not (prev == 0) && (s.flags prev == block_free)
    then (
      (
        record removed { bsize = update s.bsize prev ((s.bsize prev + s.bsize block) % 2 ^ 32) },
        prev,
      ),
      true,
    )
    else ((s, block), false)

-- `if ( merged ) next_phys(block)->prev_phys = block;`
unfoldable pub relink : Bool → Tlsf → (block : ℕ) → Tlsf
relink merged s block =
    if merged then record s { prev_phys = update s.prev_phys (next_phys s block) block } else s

unfoldable pub coalesce_and_free : Tlsf → (block : ℕ) → Tlsf
coalesce_and_free s block =
    let (forward, merged) = merge_forward s block in
    let ((backward, first), merged') = merge_backward forward block in
    fl_insert (relink (merged || merged') backward first) first
