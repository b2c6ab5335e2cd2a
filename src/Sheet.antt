-- ===== src/Sheet.antt =====
-- A sheet, a region of memory and the list that keeps its blocks: `class sheet` of src/book.hpp.
-- The list is a `Book`; that of `sheet` is the buddy list of src/free_list.hpp (`buddy_book`).
-- `micron::abort()` is `none`. `is_zero` and `is_invalid` are the methods of `micron::__chunk`.
pub mod Release
pub mod Unmark
mod Tests
use abcmalloc.Base.{
  ℕ, ◌+◌, ◌-◌, ◌^◌, Bool, true, false, not, ◌&&◌, ◌||◌, ltb, leb, ◌==◌, if◌then◌else◌, Option, none,
  some, sub64,
}
use abcmalloc.Buddy.State.{
  Buddy, Chunk, null_chunk, RetFlag, invalid, failure, out_of_space, tombstoned, ok,
}
use abcmalloc.Buddy.Alloc.{allocate, temporal_allocate, construct}
use abcmalloc.Buddy.Free.{
  tombstone, tombstone_chunk, deallocate, deallocate_chunk, is_allocated, is_tombstoned,
  is_temporal, block_size, available,
}
use abcmalloc.Reserve.{Reserve, contains}
use abcmalloc.Reserve
use abcmalloc.Registry.{Registry, sheet_register, sheet_unregister}

-- What a sheet asks of its list `__book`.
pub record Book (S : Type 0) : Type 0 where
  pub construct : Chunk → Option S
  pub allocate : S → ℕ → S × Chunk
  pub temporal_allocate : S → ℕ → S × Chunk
  pub deallocate : S → ℕ → S × RetFlag
  pub deallocate_chunk : S → Chunk → S × RetFlag
  pub tombstone : S → ℕ → S × RetFlag
  pub tombstone_chunk : S → Chunk → S × RetFlag
  pub is_allocated : S → ℕ → Bool
  pub is_tombstoned : S → ℕ → Bool
  pub is_temporal : S → ℕ → Bool
  pub block_size : S → ℕ → ℕ
  pub available : S → ℕ
  pub total : S → ℕ
  pub used : S → ℕ
  pub tombstoned : S → ℕ

-- `__buddy_list`, as a `Book`; a list is built in memory `m`.
abbrev pub buddy_book : (k : ℕ) → (is_zero : Chunk → Bool) → (m : Buddy) → Book Buddy
buddy_book k is_zero m = record {
  construct = λ mem. construct k is_zero m mem false;
  allocate = allocate k;
  temporal_allocate = temporal_allocate k;
  deallocate = deallocate k;
  deallocate_chunk = deallocate_chunk k;
  tombstone = tombstone k;
  tombstone_chunk = tombstone_chunk k;
  is_allocated = is_allocated k;
  is_tombstoned = is_tombstoned k;
  is_temporal = is_temporal k;
  block_size = block_size k;
  available = available;
  total = λ s. s.total;
  used = λ s. s.allocated_bytes;
  tombstoned = λ s. s.tombstoned_bytes;
}

pub record Sheet (S : Type 0) : Type 0 where
  pub kernel_memory : Chunk
  pub book : S
  pub guard_offset : ℕ

-- What a failed `try_mark` gives: the last address, and a length of 255.
abbrev pub failed_chunk : Chunk
failed_chunk = record { ptr = 2 ^ 64 - 1; len = 0xFF }

-- Whether a flag of the list counts as success.
unfoldable pub succeeded : RetFlag → Bool
succeeded out_of_space = false
succeeded invalid = false
succeeded failure = false
succeeded tombstoned = true
succeeded ok = true

-- `__release_kernel_chunk` of src/hooks.hpp: memory outside the reservation is unmapped, which changes
-- nothing here.
unfoldable pub release_kernel_chunk : Reserve → Chunk → Reserve
release_kernel_chunk r mem = if contains r mem.ptr then Reserve.release r mem.ptr mem.len else r

module _ {S : Type 0} (b : Book S) (is_zero is_invalid : Chunk → Bool) where
  -- The constructors: over the memory `mem`, less `offset` bytes for a guard page at its end.
  unfoldable pub make :
      (memory : Bool)
      → Reserve
      → Registry
      → (owner : ℕ) → (mem : Chunk) → (offset : ℕ) → Option (Registry × Sheet S)
  make memory r g owner mem offset =
      elim (b.construct (record { ptr = mem.ptr; len = sub64 mem.len offset })) [
        | none ↦ none
        | some list ↦ some (
          sheet_register memory r g owner mem.ptr mem.len,
          record { kernel_memory = mem; book = list; guard_offset = offset },
        )
      ]

  unfoldable pub empty : Sheet S → Bool
  empty s = is_zero s.kernel_memory

  -- `__impl_release`, which `release`, `reset` and the destructor call.
  unfoldable pub release : Reserve → Registry → Sheet S → (Reserve × Registry) × Sheet S
  release r g s = if is_zero s.kernel_memory then ((r, g), s) else (
    (
      release_kernel_chunk r s.kernel_memory,
      sheet_unregister r g s.kernel_memory.ptr s.kernel_memory.len,
    ),
    record s { kernel_memory = null_chunk },
  )

  -- The chunk that a failed request of the list becomes.
  unfoldable pub or_failed : (failed : Chunk) → Sheet S → S × Chunk → Sheet S × Chunk
  or_failed failed s (list, p) =
      (record s { book = list }, if is_zero p || is_invalid p then failed else p)

  unfoldable pub mark : Sheet S → (mem_sz : ℕ) → Sheet S × Chunk
  mark s mem_sz =
      if empty s then (s, null_chunk) else or_failed null_chunk s (b.allocate s.book mem_sz)

  unfoldable pub temporal_mark : Sheet S → (mem_sz : ℕ) → Sheet S × Chunk
  temporal_mark s mem_sz =
      if empty s
      then (s, null_chunk)
      else or_failed null_chunk s (b.temporal_allocate s.book mem_sz)

  unfoldable pub try_mark : Sheet S → (mem_sz : ℕ) → Option (Sheet S × Chunk)
  try_mark s mem_sz =
      if empty s then none else some (or_failed failed_chunk s (b.allocate s.book mem_sz))

  unfoldable pub try_unmark : Sheet S → Chunk → Option (Sheet S × Bool)
  try_unmark s p =
      let r = b.deallocate_chunk s.book p in
      if empty s
      then none
      else if is_zero p
      then none
      else some (record s { book = r.0 }, succeeded r.1)

  unfoldable pub try_tombstone : Sheet S → Chunk → Option (Sheet S × Bool)
  try_tombstone s p =
      let r = b.tombstone_chunk s.book p in
      if empty s
      then none
      else if is_zero p
      then none
      else some (record s { book = r.0 }, succeeded r.1)

  unfoldable pub try_unmark_no_size : Sheet S → (p : ℕ) → Option (Sheet S × Bool)
  try_unmark_no_size s p =
      if empty s
      then none
      else if p == 0
      then none
      else some (record s { book = (b.deallocate s.book p).0 }, true)

  unfoldable pub try_tombstone_no_size : Sheet S → (p : ℕ) → Option (Sheet S × Bool)
  try_tombstone_no_size s p =
      if empty s
      then none
      else if p == 0
      then none
      else some (record s { book = (b.tombstone s.book p).0 }, true)

  unfoldable pub find : Sheet S → (p : ℕ) → Option Bool
  find s p =
      if p == 0
      then some false
      else if empty s
      then none
      else some (b.is_allocated s.book p && not (b.is_tombstoned s.book p))

  unfoldable pub is_block_allocated : Sheet S → (p : ℕ) → Bool
  is_block_allocated s p = b.is_allocated s.book p && not (b.is_tombstoned s.book p)

  unfoldable pub available_bytes : Sheet S → ℕ
  available_bytes s = if empty s then 0 else b.available s.book

  unfoldable pub total_bytes : Sheet S → ℕ
  total_bytes s = if empty s then 0 else b.total s.book

  unfoldable pub block_size_of : Sheet S → (ptr : ℕ) → ℕ
  block_size_of s ptr = b.block_size s.book ptr

  unfoldable pub is_temporal_block : Sheet S → (ptr : ℕ) → Bool
  is_temporal_block s ptr = b.is_temporal s.book ptr

  unfoldable pub ftotal : Sheet S → ℕ
  ftotal s = b.total s.book

  unfoldable pub used_bytes : Sheet S → ℕ
  used_bytes s = b.used s.book

  unfoldable pub tombstoned_in : Sheet S → ℕ
  tombstoned_in s = b.tombstoned s.book

  unfoldable pub allocated : Sheet S → ℕ
  allocated s = sub64 s.kernel_memory.len s.guard_offset

  unfoldable pub addr : Sheet S → ℕ
  addr s = s.kernel_memory.ptr

  unfoldable pub addr_end : Sheet S → ℕ
  addr_end s = s.kernel_memory.ptr + s.kernel_memory.len - s.guard_offset

  unfoldable pub is_at : Sheet S → (a : ℕ) → Bool
  is_at s a = leb (addr s) a && ltb a (addr_end s)
