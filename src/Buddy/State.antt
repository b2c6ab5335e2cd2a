-- ===== src/Buddy/State.antt =====
-- `struct __buddy_list` of src/free_list.hpp: its fields, the blocks that it keeps in the region it
-- manages, and the tags and headers of blocks.
-- The template argument `Min` is a power of two, given here by its exponent `k`, which is also the
-- constant `__log2_min`; `Mx` is 64, as in every use. A pointer is a number, `nullptr` is 0.
-- `next` and `prev` are the fields of the `free_block` at an address, `header_order` and
-- `header_flags` those of the `block_header` at an address: four typed views of the region's memory.
-- The `cold` cache has no slot (`__cold_cap` is 0) and is left out.
use abcmalloc.Base.{
  ℕ, ◌+◌, ◌-◌, ◌*◌, ◌/◌, ◌%◌, ◌^◌, Bool, true, false, ◌||◌, bit_or, ltb, leb, ◌==◌, if◌then◌else◌,
  update, sub64,
}
use abcmalloc.Base.Bits.Mask.{set_bit, clear_bit}
use abcmalloc.Base.Bits.Count.{ctz, floor_log2}

pub record Buddy : Type 0 where
  pub base : ℕ
  pub total : ℕ
  pub max_order : ℕ
  pub allocated_bytes : ℕ
  pub tombstoned_bytes : ℕ
  pub free_mask : ℕ
  pub block_tags : ℕ → ℕ
  pub tag_count : ℕ
  pub tags_external : Bool
  pub free_lists : ℕ → ℕ
  pub active : ℕ → ℕ → ℕ
  pub active_rotor : ℕ → ℕ
  pub tcache : ℕ → ℕ
  pub tcache_count : ℕ → ℕ
  pub next : ℕ → ℕ
  pub prev : ℕ → ℕ
  pub header_order : ℕ → ℕ
  pub header_flags : ℕ → ℕ

-- The results of `tombstone` and `deallocate`.
pub data RetFlag : Type 0 where
  invalid failure out_of_space tombstoned ok : RetFlag

-- `micron::__chunk<byte>`; `{ nullptr, 0 }` is a failed request.
pub record Chunk : Type 0 where
  pub ptr : ℕ
  pub len : ℕ

abbrev pub null_chunk : Chunk
null_chunk = record { ptr = 0; len = 0 }

abbrev pub hdr_offset : ℕ
hdr_offset = 32

abbrev pub block_free : ℕ
block_free = 0

abbrev pub block_alloc : ℕ
block_alloc = 1

abbrev pub block_tombstone : ℕ
block_tombstone = 2

abbrev pub block_temporal : ℕ
block_temporal = 4

abbrev pub tag_none : ℕ
tag_none = 0xFF

abbrev pub cache_cap : ℕ
cache_cap = 4

abbrev pub active_ring : ℕ
active_ring = 2

-- `64 - __builtin_clzll(v - 1)`, at `v` above 1
unfoldable pub ceil_log2_u64 : ℕ → ℕ
ceil_log2_u64 v = floor_log2 64 (v - 1) + 1

-- `(u8)(o | __tag_free)`
unfoldable pub free_tag : ℕ → ℕ
free_tag o = bit_or o 0x80 % 2 ^ 8

abbrev pub tag_set_free_at : Buddy → ℕ → ℕ → Buddy
tag_set_free_at s tidx o = record s { block_tags = update s.block_tags tidx (free_tag o) }

abbrev pub tag_set_none : Buddy → ℕ → Buddy
tag_set_none s tidx = record s { block_tags = update s.block_tags tidx tag_none }

abbrev pub mask_set : Buddy → ℕ → Buddy
mask_set s o = record s { free_mask = set_bit s.free_mask o }

abbrev pub mask_clear_if_empty : Buddy → ℕ → Buddy
mask_clear_if_empty s o =
    if s.free_lists o == 0 then record s { free_mask = clear_bit 64 s.free_mask o } else s

unfoldable pub find_free_order : Buddy → ℕ → ℕ
find_free_order s o = let m = s.free_mask / 2 ^ o in if m == 0 then s.max_order else o + ctz 64 m

module _ (k : ℕ) where
  unfoldable pub order_for_size : ℕ → ℕ
  unfolding ceil_log2_u64
  order_for_size n =
      let units = (n - 1) / 2 ^ k + 1 in if leb units 1 then 0 else ceil_log2_u64 units

  unfoldable pub order_size : ℕ → ℕ
  order_size o = 2 ^ k * 2 ^ o % 2 ^ 64

  abbrev pub tag_index_of : ℕ → ℕ
  tag_index_of off = off / 2 ^ k

  abbrev pub tag_index : Buddy → ℕ → ℕ
  tag_index s addr = tag_index_of (sub64 addr s.base)

  -- The order in the tag of a block, whether free or allocated.
  abbrev pub tag_order : Buddy → ℕ → ℕ
  tag_order s addr = s.block_tags (tag_index s addr) % 2 ^ 7

  abbrev pub tag_set_free : Buddy → ℕ → ℕ → Buddy
  tag_set_free s addr o = tag_set_free_at s (tag_index s addr) o

  abbrev pub tag_set_alloc : Buddy → ℕ → ℕ → Buddy
  tag_set_alloc s addr o = record s {
    block_tags = update s.block_tags (tag_index s addr) (o % 2 ^ 8);
  }

  abbrev pub tag_is_free_at_off : Buddy → ℕ → ℕ → Bool
  tag_is_free_at_off s off o = s.block_tags (tag_index_of off) == free_tag o

  abbrev pub hdr_of : ℕ → ℕ → ℕ
  hdr_of block_start o = block_start + order_size o - hdr_offset

  -- The header at the tail of a block, found through the block's tag.
  abbrev pub hdr_of_tagged : Buddy → ℕ → ℕ
  hdr_of_tagged s block_start = hdr_of block_start (tag_order s block_start)

  -- A link is null, or a block start inside the region.
  unfoldable pub link_valid : Buddy → ℕ → Bool
  link_valid s n =
      if n == 0
      then true
      else if ltb n s.base || leb (s.base + s.total) n
      then false
      else sub64 n s.base % 2 ^ k == 0
