-- ===== src/Buddy/FreeList.antt =====
-- The free lists of `__buddy_list` (src/free_list.hpp): doubly linked, one for each order, with a
-- bitmap of those that are not empty. A list's first block has no meaningful `prev`.
use abcmalloc.Base.{
  ℕ, zero, suc, ◌+◌, ◌-◌, ◌/◌, ◌^◌, Bool, true, false, not, ◌&&◌, ◌||◌, bit_xor, ltb, leb, ◌==◌,
  if◌then◌else◌, update, sub64, sub32, add32,
}
use abcmalloc.Base.Bits.Mask.{set_bit, clear_bit}
use abcmalloc.Buddy.State.{
  Buddy, cache_cap, order_size, tag_index_of, tag_index, tag_set_free_at, tag_set_none,
  tag_is_free_at_off, free_tag, mask_set, mask_clear_if_empty, link_valid,
}

abbrev pub set_head : Buddy → ℕ → ℕ → Buddy
set_head s o n = record s { free_lists = update s.free_lists o n }

abbrev pub set_next : Buddy → ℕ → ℕ → Buddy
set_next s p n = record s { next = update s.next p n }

abbrev pub set_prev : Buddy → ℕ → ℕ → Buddy
set_prev s p n = record s { prev = update s.prev p n }

-- `if ( p ) p->prev = n;`
abbrev pub set_prev_if : Buddy → ℕ → ℕ → Buddy
set_prev_if s p n = if p == 0 then s else set_prev s p n

-- What the loop of `__merge_and_free` carries: `off`, `o` and the list.
pub record Merge : Type 0 where
  pub off : ℕ
  pub order : ℕ
  pub list : Buddy

module _ (k : ℕ) where
  -- A link that leads out of the region counts as null.
  abbrev checked_link : Buddy → ℕ → ℕ
  checked_link s n = if link_valid k s n then n else 0

  -- The block `cur` is found behind `before`: it is taken out.
  unfoldable pub unlink_found : Buddy → (before following o : ℕ) → Buddy
  unlink_found s before following o =
      let linked = if before == 0 then set_head s o following else set_next s before following in
      let backed = if before == 0 then linked else set_prev_if linked following before in
      mask_clear_if_empty backed o

  -- `while ( cur && guard++ <= tag_count )`: the fuel is the number of rounds that the guard allows.
  unfoldable pub remove_slow_loop : ℕ → Buddy → (before cur buddy o : ℕ) → Buddy × Bool
  remove_slow_loop zero s before cur buddy o = (s, false)
  remove_slow_loop (suc rounds) s before cur buddy o =
      let nx = checked_link s (s.next cur) in
      let rest = remove_slow_loop rounds s cur nx buddy o in
      if cur == 0
      then (s, false)
      else if cur == buddy
      then (unlink_found s before nx o, true)
      else rest

  unfoldable pub freelist_remove_slow : Buddy → (buddy o : ℕ) → Buddy × Bool
  freelist_remove_slow s buddy o = remove_slow_loop (suc s.tag_count) s 0 (s.free_lists o) buddy o

  -- The node is the head of its list.
  unfoldable pub remove_head : Buddy → (node following o : ℕ) → Buddy × Bool
  remove_head s node following o =
      if not (link_valid k s following)
      then freelist_remove_slow s node o
      else if following == 0
      then (record (set_head s o 0) { free_mask = clear_bit 64 s.free_mask o }, true)
      else (set_head s o following, true)

  -- The links of the node and of its neighbours do not agree.
  unfoldable pub links_broken : Buddy → (node before following : ℕ) → Bool
  links_broken s node before following =
      not (link_valid k s before)
      || before == 0
      || not (s.next before == node)
      || (not (following == 0) && not (s.prev following == node))

  -- The node stands inside its list.
  unfoldable pub remove_inner : Buddy → (node before following o : ℕ) → Buddy × Bool
  remove_inner s node before following o =
      if not (link_valid k s following)
      then freelist_remove_slow s node o
      else if links_broken s node before following
      then freelist_remove_slow s node o
      else (set_prev_if (set_next s before following) following before, true)

  unfoldable pub freelist_remove : Buddy → (buddy o : ℕ) → Buddy × Bool
  freelist_remove s buddy o =
      if s.free_lists o == buddy
      then remove_head s buddy (s.next buddy) o
      else remove_inner s buddy (s.prev buddy) (s.next buddy) o

  unfoldable pub freelist_push_off : Buddy → (addr o off : ℕ) → Buddy
  freelist_push_off s addr o off =
      let linked = set_next s addr (s.free_lists o) in
      let backed =
        if s.free_lists o == 0 then mask_set linked o else set_prev linked (s.free_lists o) addr in
      tag_set_free_at (set_head backed o addr) (tag_index_of k off) o

  -- The right half of a block that is split goes to the list of order `from`. The mask is the local
  -- copy of `free_mask`.
  unfoldable pub push_right : Buddy → (mask right from : ℕ) → Buddy × ℕ
  push_right s mask right from =
      let head = s.free_lists from in
      let linked = set_next s right head in
      let backed = if head == 0 then linked else set_prev linked head right in
      let listed = set_head backed from right in
      (
        record listed { block_tags = update s.block_tags (tag_index k s right) (free_tag from) },
        if head == 0 then set_bit mask from else mask,
      )

  -- `while ( from > target )` with `from = target + levels`; `split_size` is the size at `from`.
  unfoldable pub split_loop : (levels target blk split_size : ℕ) → Buddy → (mask : ℕ) → Buddy × ℕ
  split_loop zero target blk split_size s mask = (s, mask)
  split_loop (suc levels) target blk split_size s mask =
      let half = split_size / 2 in
      let (s', mask') = push_right s mask (blk + half) (target + levels) in
      split_loop levels target blk half s' mask'

  -- The head of list `from` leaves its list; a corrupted tail is dropped.
  unfoldable pub take_head : Buddy → (from : ℕ) → Buddy × ℕ
  take_head s from =
      let following = checked_link s (s.next (s.free_lists from)) in
      (
        set_head s from following,
        if following == 0 then clear_bit 64 s.free_mask from else s.free_mask,
      )

  -- `__take_and_split`: the first block of list `from`, cut down to order `target`.
  unfoldable pub take_and_split : Buddy → (from target : ℕ) → Buddy × ℕ
  take_and_split s from target =
      let blk = s.free_lists from in
      let (taken, mask) = take_head s from in
      let (split, mask') = split_loop (from - target) target blk (order_size k from) taken mask in
      (record split { free_mask = mask' }, blk)

  -- The buddy has been taken off its list: the two become one block of the next order.
  unfoldable pub joined : Merge → (buddy_off : ℕ) → Buddy → Merge
  joined m buddy_off s = record {
    off = if ltb buddy_off m.off then buddy_off else m.off;
    order = m.order + 1;
    list = tag_set_none s (tag_index_of k (if ltb m.off buddy_off then buddy_off else m.off));
  }

  -- One round, and whether the loop goes on (it ends by `break` otherwise).
  unfoldable pub merge_round : Merge → Merge × Bool
  merge_round m =
      let buddy_off = bit_xor m.off (order_size k m.order) in
      if not (tag_is_free_at_off k m.list buddy_off m.order)
      then (m, false)
      else (let (removed, done) = freelist_remove m.list (m.list.base + buddy_off) m.order in
          if done then (joined m buddy_off removed, true) else (record m { list = removed }, false))

  -- `while ( o < max_order - 1 )`
  unfoldable pub merge_loop : ℕ → Merge → Merge
  merge_loop zero m = m
  merge_loop (suc rounds) m =
      let (m', more) = merge_round m in
      let rest = merge_loop rounds m' in
      if ltb m.order (m.list.max_order - 1) then (if more then rest else m') else m

  unfoldable pub merge_and_free : Buddy → (addr o : ℕ) → Buddy
  merge_and_free s addr o =
      let m = merge_loop s.max_order (record { off = sub64 addr s.base; order = o; list = s }) in
      freelist_push_off m.list (s.base + m.off) m.order m.off

  -- The per-order cache of blocks that were handed out as temporal.
  -- `tcache_count` is a signed number: from 2 ^ 31 on it is negative.
  unfoldable pub tcache_pop : Buddy → (o : ℕ) → Buddy × ℕ
  tcache_pop s o =
      let blk = s.tcache o in
      let nx = s.next blk in
      if s.tcache_count o == 0 || leb (2 ^ 31) (s.tcache_count o)
      then (s, 0)
      else if link_valid k s nx
      then (
        record s {
          tcache = update s.tcache o nx;
          tcache_count = update s.tcache_count o (sub32 (s.tcache_count o) 1);
        },
        blk,
      )
      else (
        record s { tcache = update s.tcache o 0; tcache_count = update s.tcache_count o 0 },
        blk,
      )

unfoldable pub tcache_push : Buddy → (blk o : ℕ) → Buddy × Bool
tcache_push s blk o =
    if leb cache_cap (s.tcache_count o) && ltb (s.tcache_count o) (2 ^ 31) then (s, false) else (
      record (set_next s blk (s.tcache o)) {
        tcache = update s.tcache o blk;
        tcache_count = update s.tcache_count o (add32 (s.tcache_count o) 1);
      },
      true,
    )
