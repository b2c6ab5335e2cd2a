-- ===== src/Arena/Grow.antt =====
-- The expansion of a tier of src/arena.hpp by one more sheet, and of the tier that the nodes and sheets
-- are put into.
use abcmalloc.Base.{
  ℕ, zero, suc, ◌+◌, ◌-◌, ◌*◌, ◌/◌, Bool, true, false, not, ◌&&◌, ◌||◌, ◌==◌, if◌then◌else◌, update,
  Option, none, some, add64, sub64,
}
use abcmalloc.Buddy.State.{Buddy, Chunk}
use abcmalloc.Index.{register_sheet}
use abcmalloc.Reserve.{Reserve, carve, round_up}
use abcmalloc.Sheet.{Book, Sheet, make, empty, release, try_mark, addr, addr_end, allocated}
use abcmalloc.Arena.Tier.{Tier, Config, link_at_tail, unlink_node}
use abcmalloc.Arena.Remove.{World, ◌>>=◌, unmark_from_arena}

-- What the system answers (`mmap`, `sys_allocator::alloc`, `mprotect`), what is documented of a failed
-- `mmap` and of a failed chunk, the page size, and the constants of the configuration.
pub record System : Type 0 where
  pub fresh : Option ℕ
  pub fixed : (slot len : ℕ) → Option ℕ
  pub sys_alloc : (sz : ℕ) → ℕ
  pub protects : (ptr len : ℕ) → Bool
  pub mmap_failed : (ptr : ℕ) → Bool
  pub failed_allocation : Chunk → Bool
  pub page : ℕ
  pub owner : ℕ
  pub memory : Bool
  pub guard_pages : Bool
  pub guard_metadata : Bool

-- What the arena has besides its tiers: `own` is the sheet `_arena_memory`.
pub record Memory : Type 0 where
  pub world : World
  pub own : Sheet Buddy

-- The answer of `__mark_arena`; `micron::abort()` is `aborted`.
pub data Marked : Type 0 where
  aborted : Marked
  out_of_rounds : Marked
  marked : Memory → Chunk → Marked

-- A new round, where the arena has grown.
abbrev pub retry : (Memory → Marked) → Option Memory → Marked
retry f none = aborted
retry f (some m) = f m

module _ (y : System) (is_zero is_invalid : Chunk → Bool) where
  unfoldable pub get_kernel_chunk : Reserve → (sz : ℕ) → Reserve × Chunk
  get_kernel_chunk r sz =
      let (r', p) = carve y.fresh y.fixed r sz in
      if p == 0
      then (r', record { ptr = y.sys_alloc sz; len = sz })
      else (r', record { ptr = p; len = round_up sz })

  unfoldable pub kernel_chunk_valid : Chunk → Bool
  kernel_chunk_valid c = not (c.ptr == 0) && (not (y.mmap_failed c.ptr) && not (c.len == 0))

  unfoldable pub page_round : (sz : ℕ) → ℕ
  page_round sz = sub64 (add64 sz y.page) 1 / y.page * y.page

  -- Whether the last page of a chunk could be protected.
  unfoldable pub make_guard : Chunk → Bool
  make_guard c = y.protects (c.ptr + (c.len - y.page)) y.page

  unfoldable pub get_guarded_kernel_chunk : Reserve → (sz : ℕ) → Option (Reserve × Chunk)
  get_guarded_kernel_chunk r sz =
      let (r', c) = get_kernel_chunk r (add64 sz y.page) in
      if is_zero c || y.mmap_failed c.ptr
      then none
      else if not (make_guard c)
      then none
      else some (r', c)

  -- The tier with a new node at `nd`, which is not in its index yet.
  abbrev pub linked : {S : Type 0} → Tier S → (nd : ℕ) → Sheet S → Tier S
  linked t nd sh = link_at_tail (record t { sheets = update t.sheets nd sh }) nd

  -- `meta` is the list of the sheets of `_arena_tier`, `inner` its constants, and `inner_pair` the size
  -- of one of its nodes with its sheet.
  module _ (meta : Book Buddy) (inner : Config) (inner_pair : ℕ) where
    -- The chunk for a new sheet of `_arena_tier`, and the bytes of its guard page.
    unfoldable pub metadata_chunk : Reserve → (sz : ℕ) → Option ((Reserve × Chunk) × ℕ)
    metadata_chunk r sz =
        let got = get_kernel_chunk r sz in
        if y.guard_metadata
        then get_guarded_kernel_chunk r sz >>= (λ g. some (g, y.page))
        else if not (kernel_chunk_valid got.1)
        then none
        else some (got, 0)

    unfoldable pub inner_registered : Memory → (nd : ℕ) → Sheet Buddy → Option Memory
    inner_registered m nd sh =
        let t = linked m.world.inner nd sh in
        let (index, pos) =
          register_sheet inner.max_sheets t.index nd (addr meta is_zero is_invalid sh)
            (addr_end meta is_zero is_invalid sh) in
        if empty meta is_zero is_invalid sh
        then none
        else if pos == inner.max_sheets
        then none
        else some (record m { world = record m.world { inner = record t { index = index } } })

    unfoldable pub expand_from : Memory → (buf : Chunk) → (sz : ℕ) → Option Memory
    expand_from m buf sz = do
      ((reserve, mem), offset) ← metadata_chunk m.world.reserve sz
      (registry, sh) ←
          make meta is_zero is_invalid y.memory reserve m.world.registry y.owner mem offset
      inner_registered
          (record m { world = record m.world { reserve = reserve; registry = registry } }) buf.ptr
          sh

    unfoldable pub expand_arena_tier : Memory → (sz : ℕ) → Option Memory
    expand_arena_tier m sz = do
      (own, buf) ← try_mark meta is_zero is_invalid m.own inner_pair
      if y.failed_allocation buf then none else expand_from (record m { own = own }) buf sz

    unfoldable pub reload_arena_buf : Memory → Option Memory
    reload_arena_buf m =
        expand_arena_tier m
          (allocated meta is_zero is_invalid (m.world.inner.sheets m.world.inner.tail) * 2)

    -- A round of `__mark_arena`, where the last sheet has answered; `next` are the rounds after it.
    unfoldable pub mark_round :
        (next : Memory → Marked) → Memory → Option (Sheet Buddy × Chunk) → Marked
    mark_round next m none = aborted
    mark_round next m (some (sh, buf)) =
        let kept = record m {
          world = record m.world {
            inner = record m.world.inner {
              sheets = update m.world.inner.sheets m.world.inner.tail sh;
            };
          };
        } in
        if y.failed_allocation buf then retry next (reload_arena_buf kept) else marked kept buf

    -- `__mark_arena`: a new sheet is added as often as the last one has no room. Each round adds an entry
    -- to the index of the tier, which ends the program where it is full.
    unfoldable pub mark_arena : (fuel : ℕ) → Memory → (sz : ℕ) → Marked
    mark_arena zero m sz = out_of_rounds
    mark_arena (suc fuel) m sz =
        mark_round (λ m'. mark_arena fuel m' sz) m
          (try_mark meta is_zero is_invalid (m.world.inner.sheets m.world.inner.tail) sz)

    module _ {S : Type 0} (b : Book S) (k : Config) (pair : ℕ) where
      -- The ends of `__expand_tlsf` and `__expand_buddy` that fail: the memory of the node goes back.
      unfoldable pub give_up : World → Tier S → (buf : Chunk) → Option ((World × Tier S) × Bool)
      give_up w t buf = do
        w' ← unmark_from_arena is_zero is_invalid meta w (record { ptr = buf.ptr; len = pair })
        some ((w', t), false)

      -- The end where the sheet is there: it is released, and then the memory of the node goes back.
      unfoldable pub give_up_sheet :
          World → Tier S → (buf : Chunk) → Sheet S → Option ((World × Tier S) × Bool)
      give_up_sheet w t buf sh =
          let ((reserve, registry), released) =
            release b is_zero is_invalid w.reserve w.registry sh in
          give_up (record w { reserve = reserve; registry = registry })
            (record t { sheets = update t.sheets buf.ptr released }) buf

      unfoldable pub registered :
          World → Tier S → (buf : Chunk) → Sheet S → Option ((World × Tier S) × Bool)
      registered w t buf sh =
          let t' = linked t buf.ptr sh in
          let (index, pos) =
            register_sheet k.max_sheets t'.index buf.ptr (addr b is_zero is_invalid sh)
              (addr_end b is_zero is_invalid sh) in
          if empty b is_zero is_invalid sh
          then give_up_sheet w t buf sh
          else if pos == k.max_sheets
          then give_up_sheet w (unlink_node t' buf.ptr) buf sh
          else some ((w, record t' { index = index }), true)

      -- A sheet over the memory `mem` is put into the node at `buf`.
      unfoldable pub attach :
          World → Tier S → (buf mem : Chunk) → (offset : ℕ) → Option ((World × Tier S) × Bool)
      attach w t buf mem offset = do
        (registry, sh) ← make b is_zero is_invalid y.memory w.reserve w.registry y.owner mem offset
        registered (record w { registry = registry }) t buf sh

      -- What follows the request for memory.
      unfoldable pub attach_valid :
          World
          → Tier S
          → (buf : Chunk) → Reserve × Chunk
          → (guard : Bool) → Option ((World × Tier S) × Bool)
      attach_valid w t buf (reserve, mem) guard =
          let w' = record w { reserve = reserve } in
          if not (kernel_chunk_valid mem)
          then give_up w' t buf
          else if guard
          then if make_guard mem then attach w' t buf mem y.page else none
          else attach w' t buf mem 0

      -- The memory of a node was marked by `__mark_arena`; the rest of the call is `f`.
      abbrev pub with_node :
          Marked
          → (Memory → Chunk → Option ((World × Tier S) × Bool))
          → Option ((Memory × Tier S) × Bool)
      with_node aborted f = none
      with_node out_of_rounds f = none
      with_node (marked m buf) f = do
        ((w, t), grown) ← f m buf
        some ((record m { world = w }, t), grown)

      -- One round more than the tier of the nodes has places is enough.
      abbrev pub mark_node : Memory → Marked
      mark_node m = mark_arena (inner.max_sheets + 1) m pair

      unfoldable pub expand_tlsf : Memory → Tier S → (sz : ℕ) → Option ((Memory × Tier S) × Bool)
      expand_tlsf m t sz = with_node (mark_node m) (λ m' buf.
          attach_valid m'.world t buf (get_kernel_chunk m'.world.reserve (page_round sz)) false)

      unfoldable pub expand_buddy : Memory → Tier S → (sz : ℕ) → Option ((Memory × Tier S) × Bool)
      expand_buddy m t sz = with_node (mark_node m) (λ m' buf.
          attach_valid m'.world t buf
            (get_kernel_chunk m'.world.reserve (if y.guard_pages then add64 sz y.page else sz))
            y.guard_pages)
