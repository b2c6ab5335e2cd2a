-- ===== src/Tlsf/State.antt =====
-- `struct __tlsf_list` of src/cache_list.hpp: its fields, the headers of its blocks, and the classes
-- of sizes. A header is at the start of its block; `bsize`, `flags`, `prev_phys`, `next_free` and
-- `prev_free` are the fields of the `tlsf_hdr` at an address. A pointer is a number, `nullptr` is 0.
use abcmalloc.Base.{ℕ, ◌+◌, ◌-◌, ◌*◌, ◌/◌, ◌%◌, ◌^◌, ltb, if◌then◌else◌, add64, sub64}
use abcmalloc.Base.Bits.Count.{floor_log2}

pub record Tlsf : Type 0 where
  pub base : ℕ
  pub total : ℕ
  pub fl_count : ℕ
  pub allocated_bytes : ℕ
  pub tombstoned_bytes : ℕ
  pub fl_bitmap : ℕ
  pub sl_bitmap : ℕ → ℕ
  pub heads : ℕ → ℕ
  pub temporal_active : ℕ → ℕ → ℕ
  pub temporal_rotor : ℕ → ℕ
  pub bsize : ℕ → ℕ
  pub flags : ℕ → ℕ
  pub prev_phys : ℕ → ℕ
  pub next_free : ℕ → ℕ
  pub prev_free : ℕ → ℕ

abbrev pub block_align : ℕ
block_align = 32

abbrev pub min_block : ℕ
min_block = 64

abbrev pub sl_log2 : ℕ
sl_log2 = 4

abbrev pub sl_count : ℕ
sl_count = 16

abbrev pub fl_shift : ℕ
fl_shift = 6

abbrev pub max_fl_count : ℕ
max_fl_count = 26

abbrev pub temporal_ring : ℕ
temporal_ring = 2

-- `align_up`, at the one alignment that it is called with
abbrev pub align_up : ℕ → ℕ
align_up v = sub64 (add64 v block_align) 1 / block_align * block_align

abbrev pub fls64 : ℕ → ℕ
fls64 v = floor_log2 64 v

-- What `mapping_insert` and `mapping_search` give: `fi` is `fl - __fl_shift`, a signed number, which
-- is negative for sizes below 64. Such a size is in no header that the list writes.
pub record Class : Type 0 where
  pub fl : ℕ
  pub si : ℕ

abbrev pub fi : Class → ℕ
fi c = c.fl - fl_shift

abbrev pub idx : (fi si : ℕ) → ℕ
idx fi si = fi * sl_count + si

abbrev pub idx_of : Class → ℕ
idx_of c = idx (fi c) c.si

unfoldable pub mapping_insert : (size : ℕ) → Class
mapping_insert size =
    let fl = fls64 size in record { fl = fl; si = size / 2 ^ (fl - sl_log2) % sl_count }

unfoldable pub mapping_search : (size : ℕ) → Class
mapping_search size = mapping_insert (sub64 (add64 size (2 ^ (fls64 size - sl_log2))) 1)

abbrev pub next_phys : Tlsf → ℕ → ℕ
next_phys s b = b + s.bsize b

-- The overhead is the size of a vector of 256 bits and that of a header, 32 bytes each; 0 is a
-- request that is too large.
unfoldable pub adjusted_block_size : (user_n : ℕ) → ℕ
adjusted_block_size user_n =
    let needed = (user_n + 64 + 31) / block_align * block_align in
    if ltb (2 ^ 64 - 1 - 64 - 31) user_n
    then 0
    else if ltb needed min_block
    then min_block
    else needed
