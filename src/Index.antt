-- ===== src/Index.antt =====
-- The index of the sheets of a tier, `__arena::__tier` of src/arena.hpp: address ranges sorted by
-- their lower ends. A sheet is a number, the address of its `node`.
pub mod Search
pub mod Order
pub mod Register
mod Tests
use abcmalloc.Base.Bits.{bit}
use abcmalloc.Base.Bits.Mask.{set_bit, clear_bit}
use abcmalloc.Base.{
  bit_or, bit_and, ◌*◌, ◌%◌, ◌^◌, ℕ, zero, suc, ◌+◌, ◌-◌, ◌/◌, Bool, true, false, ◌&&◌, ltb, leb,
  ◌==◌, if◌then◌else◌, Option, none, some, List, update, first_cells, not, sub32,
}

-- `__range`
pub record Range : Type 0 where
  pub lo : ℕ
  pub hi : ℕ
  pub nd : ℕ

-- `__idx`, `__count`, `__last_hit` and the words of the bitmap `__space_mask`
pub record Index : Type 0 where
  pub idx : ℕ → Range
  pub count : ℕ
  pub last_hit : ℕ
  pub space_mask : ℕ → ℕ

-- The loop of `find_range` between `lo` and `hi`, both included, with `hi - lo + 1 = left` entries
-- to look at. The bounds are signed in the code: `hi` is `lo + left - 1`, and `lo <= hi` is
-- `left > 0`. Each round looks at fewer entries, so that `left` bounds the rounds too.
unfoldable pub find_loop : (fuel : ℕ) → Index → (addr lo left : ℕ) → Option ℕ
find_loop zero s addr lo left = none
find_loop (suc fuel) s addr lo left =
    let mid = lo + (left - 1) / 2 in
    let lower = find_loop fuel s addr lo (mid - lo) in
    let upper = find_loop fuel s addr (mid + 1) (lo + left - (mid + 1)) in
    if left == 0
    then none
    else if ltb addr (s.idx mid).lo
    then lower
    else if leb (s.idx mid).hi addr
    then upper
    else some mid

unfoldable pub find_range : Index → (addr : ℕ) → Option ℕ
find_range s addr = find_loop s.count s addr 0 s.count

-- `while ( pos < __count and __idx[pos].lo < lo ) ++pos;` with `left` entries from `pos` on.
unfoldable pub insert_position : Index → (lo left pos : ℕ) → ℕ
insert_position s lo zero pos = pos
insert_position s lo (suc left) pos =
    let rest = insert_position s lo left (pos + 1) in if ltb (s.idx pos).lo lo then rest else pos

-- `for ( u32 i = __count; i > pos; --i ) __idx[i] = __idx[i - 1];` with `left = i - pos`.
unfoldable pub shift_right : (ℕ → Range) → (left pos : ℕ) → ℕ → Range
shift_right f zero pos = f
shift_right f (suc left) pos = shift_right (update f (pos + suc left) (f (pos + left))) left pos

-- `for ( u32 i = pos; i + 1 < __count; ++i ) __idx[i] = __idx[i + 1];` with `left = __count - 1 - i`.
unfoldable pub shift_left : (ℕ → Range) → (left i : ℕ) → ℕ → Range
shift_left f zero i = f
shift_left f (suc left) i = shift_left (update f i (f (i + 1))) left (i + 1)

-- The helpers of the bitmap: `pos >> 6` is the word of a position, `pos & 63` its bit there.
unfoldable pub mask_get : (ℕ → ℕ) → (pos : ℕ) → Bool
mask_get m pos = bit (m (pos / 64)) (pos % 64)

unfoldable pub mask_set : (ℕ → ℕ) → (pos : ℕ) → ℕ → ℕ
mask_set m pos = update m (pos / 64) (set_bit (m (pos / 64)) (pos % 64))

unfoldable pub mask_clear : (ℕ → ℕ) → (pos : ℕ) → ℕ → ℕ
mask_clear m pos = update m (pos / 64) (clear_bit 64 (m (pos / 64)) (pos % 64))

-- The loop of `__mask_insert` over the `left` words from `i` on, which carries a bit upwards.
unfoldable pub shift_words_up : (m : ℕ → ℕ) → (left i c : ℕ) → ℕ → ℕ
shift_words_up m zero i c = m
shift_words_up m (suc left) i c =
    shift_words_up (update m i (bit_or (m i * 2 % 2 ^ 64) c)) left (i + 1) (m i / 2 ^ 63 % 2)

-- The loop of `__mask_remove` over the `left` words from `i` on; `words` is `__detail_words`.
unfoldable pub shift_words_down : (words : ℕ) → (m : ℕ → ℕ) → (left i : ℕ) → ℕ → ℕ
shift_words_down words m zero i = m
shift_words_down words m (suc left) i =
    let next_carry = if ltb (i + 1) words then m (i + 1) % 2 else 0 in
    shift_words_down words (update m i (bit_or (m i / 2) (next_carry * 2 ^ 63))) left (i + 1)

-- The bits below bit `b`, all ones.
abbrev pub low_ones : (b : ℕ) → ℕ
low_ones b = if b == 0 then 0 else 2 ^ b - 1

unfoldable pub mask_insert : (words : ℕ) → (ℕ → ℕ) → (pos : ℕ) → (value : Bool) → ℕ → ℕ
mask_insert words m pos value =
    let i = pos / 64 in
    let b = pos % 64 in
    let w = m i in
    let hi_keep_mask = if b == 63 then 0 else 2 ^ 64 - 1 - (2 ^ (b + 1) - 1) in
    let lo = bit_and w (low_ones b) in
    let hi = bit_and (w * 2 % 2 ^ 64) hi_keep_mask in
    shift_words_up (update m i (bit_or (bit_or lo hi) ((if value then 1 else 0) * 2 ^ b)))
      (words - (i + 1)) (i + 1) (w / 2 ^ 63 % 2)

unfoldable pub mask_remove : (words : ℕ) → (ℕ → ℕ) → (pos : ℕ) → ℕ → ℕ
mask_remove words m pos =
    let i = pos / 64 in
    let b = pos % 64 in
    let w = m i in
    let carry_in = if ltb (i + 1) words then m (i + 1) % 2 else 0 in
    let hi_keep_mask =
      if b == 0 then 2 ^ 63 - 1 else bit_and (2 ^ 63 - 1) (2 ^ 64 - 1 - (2 ^ b - 1)) in
    let lo = bit_and w (low_ones b) in
    let hi = bit_and (w / 2) hi_keep_mask in
    shift_words_down words (update m i (bit_or (bit_or lo hi) (carry_in * 2 ^ 63)))
      (words - (i + 1)) (i + 1)

-- `__detail_words`
abbrev pub detail_words : (max_sheets : ℕ) → ℕ
detail_words max_sheets = (max_sheets + 63) / 64

module _ (max_sheets : ℕ) where
  -- A position is `__max_sheets` if the index is full, as is `__no_hit`.
  unfoldable pub register_sheet : Index → (nd lo hi : ℕ) → Index × ℕ
  register_sheet s nd lo hi =
      let pos = insert_position s lo s.count 0 in
      let moved = shift_right s.idx (s.count - pos) pos in
      if leb max_sheets s.count then (s, max_sheets) else (
        record s {
          idx = update moved pos (record { lo = lo; hi = hi; nd = nd });
          count = s.count + 1;
          last_hit =
              if not (s.last_hit == max_sheets)
                && (leb pos s.last_hit && ltb (s.last_hit + 1) max_sheets)
              then s.last_hit + 1
              else s.last_hit;
          space_mask = mask_insert (detail_words max_sheets) s.space_mask pos true;
        },
        pos,
      )

  unfoldable pub unregister : Index → (pos : ℕ) → Index
  unregister s pos = if leb s.count pos then s else record s {
    idx = shift_left s.idx (s.count - 1 - pos) pos;
    count = s.count - 1;
    last_hit =
        if s.last_hit == max_sheets
        then s.last_hit
        else if pos == s.last_hit
        then max_sheets
        else if ltb pos s.last_hit
        then s.last_hit - 1
        else s.last_hit;
    space_mask = mask_remove (detail_words max_sheets) s.space_mask pos;
  }
