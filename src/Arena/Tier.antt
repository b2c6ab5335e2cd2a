-- ===== src/Arena/Tier.antt =====
-- A tier of an arena, `__arena::__tier` of src/arena.hpp: the index of its sheets, the list of their
-- nodes, and the cache of the blocks that were freed last. A node is its address; `sheets` is the
-- sheet that its field `nd` points to, and `prev` and `nxt` are its links.
use abcmalloc.Base.{
  ℕ, zero, suc, ◌+◌, ◌-◌, ◌*◌, ◌%◌, ◌^◌, Bool, true, false, not, ◌&&◌, ltb, leb, ◌==◌,
  if◌then◌else◌, update, add32, add64, bit_and, Option, none, some,
}
use abcmalloc.Base.Bits.Count.{ctz}
use abcmalloc.Buddy.State.{Chunk, null_chunk}
use abcmalloc.Cache.Tier.{TierCache, probe, probe_ge, pop_at}
use abcmalloc.Index.{Index, mask_get, mask_set, mask_clear, detail_words}
use abcmalloc.Sheet.{Book, Sheet, mark, temporal_mark}

pub record Tier (S : Type 0) : Type 0 where
  pub index : Index
  pub sheets : ℕ → Sheet S
  pub prev : ℕ → ℕ
  pub nxt : ℕ → ℕ
  pub head : ℕ
  pub tail : ℕ
  pub dealloc_count : ℕ
  pub cache : TierCache

-- The template arguments of a tier and the constants of the configuration that it reads.
pub record Config : Type 0 where
  pub max_sheets : ℕ
  pub cache_slots : ℕ
  pub launder : Bool
  pub redzone : Bool
  pub per_class_free_cache : Bool
  pub tomb : Bool
  pub persistent : Bool
  pub sweep_interval : ℕ
  pub double_free_action : ℕ

-- `__cache_slots > 0` and the flags with it
abbrev pub caching : Config → Bool
caching k = k.per_class_free_cache && (ltb 0 k.cache_slots && not k.launder)

-- The loop of `has_space` over the `left` words from `i` on.
unfoldable pub has_space_from : (m : ℕ → ℕ) → (left i : ℕ) → Bool
has_space_from m zero i = false
has_space_from m (suc left) i = if not (m i == 0) then true else has_space_from m left (i + 1)

module _ {S : Type 0} where
  unfoldable pub link_at_tail : Tier S → (nd : ℕ) → Tier S
  link_at_tail t nd = record t {
    prev = update t.prev nd t.tail;
    nxt = if t.tail == 0 then update t.nxt nd 0 else update (update t.nxt nd 0) t.tail nd;
    tail = nd;
  }

  unfoldable pub unlink_node : Tier S → (nd : ℕ) → Tier S
  unlink_node t nd =
      let before = t.prev nd in
      let nxt = if before == 0 then t.nxt else update t.nxt before (t.nxt nd) in
      let following = nxt nd in
      let prev = if following == 0 then t.prev else update t.prev following before in
      record t { nxt = nxt; prev = prev; tail = if nd == t.tail then prev nd else t.tail }

  unfoldable pub mark_exhausted : Tier S → (pos : ℕ) → Tier S
  mark_exhausted t pos = record t {
    index = record t.index { space_mask = mask_clear t.index.space_mask pos };
  }

  unfoldable pub mark_available : Tier S → (pos : ℕ) → Tier S
  mark_available t pos = record t {
    index = record t.index { space_mask = mask_set t.index.space_mask pos };
  }

  unfoldable pub has_space : Config → Tier S → Bool
  has_space k t = has_space_from t.index.space_mask (detail_words k.max_sheets) 0

  unfoldable pub bump_dealloc : Config → Tier S → Tier S × Bool
  bump_dealloc k t =
      let n = add32 t.dealloc_count 1 in (record t { dealloc_count = n }, leb k.sweep_interval n)

  -- The node of an entry of the index, and its sheet.
  abbrev pub node_at : Tier S → (pos : ℕ) → ℕ
  node_at t pos = (t.index.idx pos).nd

  abbrev pub sheet_at : Tier S → (pos : ℕ) → Sheet S
  sheet_at t pos = t.sheets (node_at t pos)

  abbrev pub set_sheet : Tier S → (pos : ℕ) → Sheet S → Tier S
  set_sheet t pos sh = record t { sheets = update t.sheets (node_at t pos) sh }

  -- `for_each`, for a function that adds up
  unfoldable pub sum_from : (Sheet S → ℕ) → Tier S → (left i : ℕ) → ℕ
  sum_from f t zero i = 0
  sum_from f t (suc left) i =
      let rest = sum_from f t left (i + 1) in
      if node_at t i == 0 then rest else add64 (f (sheet_at t i)) rest

  unfoldable pub for_each : (Sheet S → ℕ) → Tier S → ℕ
  for_each f t = sum_from f t t.index.count 0

-- The requests to a tier. `temporal` is whether a request takes a temporal block.
module _ {S : Type 0} (b : Book S) (is_zero is_invalid : Chunk → Bool) (k : Config) where
  -- A request to the sheet of an entry.
  unfoldable pub ask : (temporal : Bool) → Tier S → (pos sz : ℕ) → Tier S × Chunk
  ask temporal t pos sz =
      let asked =
        if temporal
        then temporal_mark b is_zero is_invalid (sheet_at t pos) sz
        else mark b is_zero is_invalid (sheet_at t pos) sz in
      (set_sheet t pos asked.0, asked.1)

  -- The inner loop of `__bucket_insert`: the bits of one word of the bitmap, lowest first. Each round
  -- clears one of its 64 bits.
  unfoldable pub scan_bits :
      (temporal : Bool) → (fuel : ℕ) → Tier S → (sz w mask : ℕ) → Tier S × Chunk
  scan_bits temporal zero t sz w mask = (t, null_chunk)
  scan_bits temporal (suc fuel) t sz w mask =
      let pos = w * 64 + ctz 64 mask in
      let (asked, mem) = ask temporal t pos sz in
      let rest =
        scan_bits temporal fuel (mark_exhausted asked pos) sz w (bit_and mask (mask - 1)) in
      if mask == 0
      then (t, null_chunk)
      else if leb t.index.count pos
      then (t, null_chunk)
      else if not (is_zero mem)
      then (record asked { index = record asked.index { last_hit = pos } }, mem)
      else rest

  -- The outer loop, over the `left` words from `w` on.
  unfoldable pub scan_words : (temporal : Bool) → (left : ℕ) → Tier S → (sz w : ℕ) → Tier S × Chunk
  scan_words temporal zero t sz w = (t, null_chunk)
  scan_words temporal (suc left) t sz w =
      let (scanned, mem) = scan_bits temporal 64 t sz w (t.index.space_mask w) in
      let rest = scan_words temporal left scanned sz (w + 1) in
      if is_zero mem then rest else (scanned, mem)

  -- `__bucket_insert` and `__bucket_insert_temporal`: the sheet that answered last comes first.
  unfoldable pub insert_by : (temporal : Bool) → Tier S → (sz : ℕ) → Tier S × Chunk
  insert_by temporal t sz =
      let lh = t.index.last_hit in
      let (asked, mem) = ask temporal t lh sz in
      if ltb lh t.index.count && mask_get t.index.space_mask lh
      then if not (is_zero mem)
        then (asked, mem)
        else scan_words temporal (detail_words k.max_sheets) (mark_exhausted asked lh) sz 0
      else scan_words temporal (detail_words k.max_sheets) t sz 0

  unfoldable pub bucket_insert : Tier S → (sz : ℕ) → Tier S × Chunk
  bucket_insert = insert_by k.launder

  unfoldable pub bucket_insert_temporal : Tier S → (sz : ℕ) → Tier S × Chunk
  bucket_insert_temporal = insert_by true

  -- The entry of the cache that answers a request.
  unfoldable pub cache_hit : Tier S → (sz : ℕ) → Option ℕ
  cache_hit t sz =
      if not (caching k)
      then none
      else if k.redzone
      then probe t.cache (sz % 2 ^ 32)
      else probe_ge t.cache (sz % 2 ^ 32)

  unfoldable pub take_cached : Tier S → (hit : ℕ) → Tier S × Chunk
  take_cached t hit =
      let (cache, c) = pop_at t.cache hit in
      (record t { cache = cache }, record { ptr = c.ptr; len = c.size })

  unfoldable pub pop_or_insert : Tier S → (sz : ℕ) → Option ℕ → Tier S × Chunk
  pop_or_insert t sz none = bucket_insert t sz
  pop_or_insert t sz (some hit) = take_cached t hit

  unfoldable pub cache_pop_or_insert : Tier S → (sz : ℕ) → Tier S × Chunk
  cache_pop_or_insert t sz = pop_or_insert t sz (cache_hit t sz)
