-- ===== src/Arena/Remove.antt =====
-- The returns to a tier of src/arena.hpp: through the cache, to the sheet, or as a tombstone; and the
-- release of sheets that are empty. `micron::abort()` is `none`.
use abcmalloc.Base.{
  ℕ, zero, suc, ◌-◌, ◌/◌, ◌%◌, ◌^◌, Bool, true, false, not, ◌&&◌, ◌||◌, ltb, ◌==◌, if◌then◌else◌,
  Option, none, some,
}
use abcmalloc.Buddy.State.{Buddy, Chunk, hdr_offset}
use abcmalloc.Cache.Tier.{push, contains}
use abcmalloc.Index.{find_range, unregister}
use abcmalloc.Reserve.{Reserve}
use abcmalloc.Registry.{Registry}
use abcmalloc.Sheet.{
  Book, Sheet, release, try_unmark, try_unmark_no_size, try_tombstone, try_tombstone_no_size,
  is_block_allocated, is_temporal_block, block_size_of, used_bytes, tombstoned_in, ftotal,
}
use abcmalloc.Arena.Tier.{
  Tier, Config, caching, node_at, sheet_at, set_sheet, mark_available, unlink_node, bump_dealloc,
}

-- `handle_double_free` of src/harden.hpp; what it prints is left out.
unfoldable pub handle_double_free : (action : ℕ) → Option Bool
handle_double_free action =
    if action == 0
    then some false
    else if action == 1
    then some false
    else if action == 2
    then none
    else some false

-- What the tiers of an arena share: the reservation, the registry, and the tier `_arena_tier` of the
-- memory for nodes and sheets.
pub record World : Type 0 where
  pub reserve : Reserve
  pub registry : Registry
  pub inner : Tier Buddy

infixl 5 ◌>>=◌
abbrev pub ◌>>=◌ {ℓ κ} : {A : Type ℓ} {B : Type κ} → Option A → (A → Option B) → Option B
none >>= f = none
some a >>= f = f a

-- What is freed: a chunk, or the block at an address (`HasSize`).
pub data Target : Type 0 where
  sized : Chunk → Target
  at_addr : (addr : ℕ) → Target

abbrev pub target_ptr : Target → ℕ
target_ptr (sized c) = c.ptr
target_ptr (at_addr addr) = addr

module _ (is_zero is_invalid : Chunk → Bool) where
  module _ {S : Type 0} (b : Book S) where
    unfoldable pub unmark_target : Sheet S → Target → Option (Sheet S × Bool)
    unmark_target sh (sized c) = try_unmark b is_zero is_invalid sh c
    unmark_target sh (at_addr addr) = try_unmark_no_size b is_zero is_invalid sh addr

    unfoldable pub tombstone_target : Sheet S → Target → Option (Sheet S × Bool)
    tombstone_target sh (sized c) = try_tombstone b is_zero is_invalid sh c
    tombstone_target sh (at_addr addr) = try_tombstone_no_size b is_zero is_invalid sh addr

  -- `__unmark_from_arena`; `meta` is the list of the sheets of `_arena_tier`.
  module _ (meta : Book Buddy) where
    unfoldable pub unmark_entry : World → Chunk → (pos : ℕ) → Option World
    unmark_entry w c pos = do
      (sh, done) ← try_unmark meta is_zero is_invalid (sheet_at w.inner pos) c
      some (record w {
        inner =
            if done
            then mark_available (set_sheet w.inner pos sh) pos
            else set_sheet w.inner pos sh;
      })

    unfoldable pub unmark_from_arena : World → Chunk → Option World
    unmark_from_arena w c = elim (find_range w.inner.index c.ptr) [
      | none ↦ some w
      | some pos ↦ unmark_entry w c pos
    ]

  -- `pair` is the size of a node and its sheet together.
  module _ {S : Type 0} (b : Book S) (meta : Book Buddy) (k : Config) (pair : ℕ) where
    -- A sheet is reset, and its entry and its node go.
    unfoldable pub reclaim : World → Tier S → (pos : ℕ) → Option (World × Tier S)
    reclaim w t pos =
        let nd = node_at t pos in
        let ((reserve, registry), sh) =
          release b is_zero is_invalid w.reserve w.registry (sheet_at t pos) in
        let unlinked = unlink_node (set_sheet t pos sh) nd in
        do
          w' ←
              unmark_from_arena meta (record w { reserve = reserve; registry = registry })
                (record { ptr = nd; len = pair })
          some (w', record unlinked { index = unregister k.max_sheets unlinked.index pos })

    -- Whether an entry is not that of the head, and nothing of its sheet is in use.
    unfoldable pub is_drained : Tier S → (pos : ℕ) → Bool
    is_drained t pos =
        (used_bytes b is_zero is_invalid (sheet_at t pos) == 0) && not (node_at t pos == t.head)

    -- Whether more than half of the sheet are tombstones.
    unfoldable pub is_mostly_tombstones : Tier S → (pos : ℕ) → Bool
    is_mostly_tombstones t pos =
        ltb (ftotal b is_zero is_invalid (sheet_at t pos) / 2)
          (tombstoned_in b is_zero is_invalid (sheet_at t pos))

    -- `__try_reclaim_empty`
    unfoldable pub try_reclaim_empty : World → Tier S → (pos : ℕ) → Option (World × Tier S)
    try_reclaim_empty w t pos =
        if is_drained t pos && not k.persistent then reclaim w t pos else some (w, t)

    -- The loop of `__sweep_tier_tombstones`, from entry `left - 1` down.
    unfoldable pub sweep_from : World → Tier S → (left : ℕ) → Option (World × Tier S)
    sweep_from w t zero = some (w, t)
    sweep_from w t (suc i) = do
      (w', t') ←
          if not (node_at t i == 0)
            && (is_drained t i && (is_mostly_tombstones t i && not k.persistent))
          then reclaim w t i
          else some (w, t)
      sweep_from w' t' i

    unfoldable pub sweep_tier_tombstones : World → Tier S → Option (World × Tier S)
    sweep_tier_tombstones w t = sweep_from w (record t { dealloc_count = 0 }) t.index.count

    -- `__tombstone_accounting`
    unfoldable pub tombstone_accounting : World → Tier S → (pos : ℕ) → Option (World × Tier S)
    tombstone_accounting w t pos =
        let (bumped, sweep) = bump_dealloc k t in
        if is_drained t pos && (is_mostly_tombstones t pos && not k.persistent)
        then reclaim w t pos
        else if k.sweep_interval == 0
        then some (w, t)
        else if sweep
        then sweep_tier_tombstones w bumped
        else some (w, bumped)

    -- The end of `__tier_remove_impl`, where the sheet has answered `done`.
    unfoldable pub removed :
        (after : Option (World × Tier S))
        → World
        → Tier S
        → (done : Bool) → Option ((World × Tier S) × Bool)
    removed after w t true = do r ← after; some (r, true)
    removed after w t false = do r ← handle_double_free k.double_free_action; some ((w, t), r)

    -- `__tier_remove_impl`: forced to tombstone, or by the class of the tier.
    unfoldable pub remove_forced :
        World → Tier S → (pos : ℕ) → Target → Option ((World × Tier S) × Bool)
    remove_forced w t pos target = do
      (sh, _) ← tombstone_target b (sheet_at t pos) target
      r ← tombstone_accounting w (mark_available (set_sheet t pos sh) pos) pos
      some (r, true)

    unfoldable pub remove_tombstone :
        World → Tier S → (pos : ℕ) → Target → Option ((World × Tier S) × Bool)
    remove_tombstone w t pos target = do
      (sh, done) ← tombstone_target b (sheet_at t pos) target
      removed (tombstone_accounting w (mark_available (set_sheet t pos sh) pos) pos) w
          (set_sheet t pos sh) done

    unfoldable pub remove_unmark :
        World → Tier S → (pos : ℕ) → Target → Option ((World × Tier S) × Bool)
    remove_unmark w t pos target = do
      (sh, done) ← unmark_target b (sheet_at t pos) target
      removed (try_reclaim_empty w (mark_available (set_sheet t pos sh) pos) pos) w
          (set_sheet t pos sh) done

    unfoldable pub tier_remove_impl :
        (force : Bool) → World → Tier S → (pos : ℕ) → Target → Option ((World × Tier S) × Bool)
    tier_remove_impl force w t pos target =
        if force
        then remove_forced w t pos target
        else if k.tomb
        then remove_tombstone w t pos target
        else remove_unmark w t pos target

    -- A block enters the cache, if there is room.
    unfoldable pub cache_push : Tier S → (ptr size : ℕ) → Tier S × Bool
    cache_push t ptr size =
        let (cache, done) = push k.cache_slots t.cache ptr (size % 2 ^ 32) in
        (record t { cache = cache }, done)

    -- `__tier_remove_at`
    unfoldable pub tier_remove_at :
        World → Tier S → (pos addr : ℕ) → Option ((World × Tier S) × Bool)
    tier_remove_at w t pos addr =
        let sh = sheet_at t pos in
        let bsz = block_size_of b is_zero is_invalid sh addr in
        let (pushed, done) = cache_push t addr (bsz - hdr_offset) in
        if not k.redzone && not (is_block_allocated b is_zero is_invalid sh addr)
        then removed none w t false
        else if caching k && not k.redzone
        then if contains t.cache addr
          then removed none w t false
          else if not (is_temporal_block b is_zero is_invalid sh addr)
              && (ltb hdr_offset bsz && done)
          then some ((w, pushed), true)
          else tier_remove_impl false w t pos (at_addr addr)
        else tier_remove_impl false w t pos (at_addr addr)

    -- `__cache_push_or_remove`
    unfoldable pub cache_push_or_remove :
        World → Tier S → (pos : ℕ) → Chunk → Option ((World × Tier S) × Bool)
    cache_push_or_remove w t pos chunk =
        let sh = sheet_at t pos in
        let bsz = block_size_of b is_zero is_invalid sh chunk.ptr in
        let cap = bsz - hdr_offset in
        let clen = if ltb cap chunk.len then cap else chunk.len in
        let (pushed, done) = cache_push t chunk.ptr clen in
        if caching k
        then if not (is_block_allocated b is_zero is_invalid sh chunk.ptr)
            || contains t.cache chunk.ptr
          then removed none w t false
          else if ltb hdr_offset bsz && done
          then some ((w, pushed), true)
          else tier_remove_impl false w t pos (sized chunk)
        else tier_remove_impl false w t pos (sized chunk)
