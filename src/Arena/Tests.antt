-- ===== src/Arena/Tests.antt =====
-- An arena with one sheet of 1024 bytes at 4096 for the small requests, and no other.
use abcmalloc.Base.{ℕ, ◌%◌, ◌^◌, ◌≤◌, ◌≡◌, refl, sym, ◌∙◌, true, false, arith, some}
use abcmalloc.Base.Bits.{bit}
use abcmalloc.Base.Bits.Count.{floor_log2, ctz}
use abcmalloc.Base.Bits.Mask.{set_bit, clear_bit}
use abcmalloc.Buddy.State.{Buddy, Chunk, null_chunk}
use abcmalloc.Buddy.Tests.{memory}
use abcmalloc.Cache.Tier.{TierCache, contents, contains, contains_from, probe_ge}
use abcmalloc.Cache.Tier
use abcmalloc.Index.{mask_get}
use abcmalloc.Registry.{empty_registry}
use abcmalloc.Reserve.{empty_reserve}
use abcmalloc.Sheet.{Sheet, buddy_book, mark, empty, or_failed, is_block_allocated, block_size_of}
use abcmalloc.Tlsf.State.{Tlsf}
use abcmalloc.Tlsf.Free.{is_allocated, in_data, is_tombstoned, block_size}
use abcmalloc.Tlsf.Alloc.{
  construct, init_memory, one_block, zero_arrays, no_region, levels_of, allocate, cut_out, hand_out,
}
use abcmalloc.Tlsf.FreeList.{
  fl_insert, find_free, pick_list, take_picked, take_head, unmark_if_empty, try_split, write_rest,
}
use abcmalloc.Tlsf.State.{mapping_insert, mapping_search, adjusted_block_size}
use abcmalloc.Tlsf.Tests.{list_0, list_1, live_0, list_0-Reach, base_0, is_zero}
use abcmalloc.Tlsf.Tests
use abcmalloc.Arena.Tier.{
  Tier, Config, sheet_at, ask, insert_by, bucket_insert, cache_hit, pop_or_insert,
  cache_pop_or_insert,
}
use abcmalloc.Arena.Insert.{InRange, Serves, Holds}
use abcmalloc.Arena.Small.{tlsf_book, IsWithin, tlsf-Serves}
use abcmalloc.Arena.Remove.{cache_push_or_remove, tier_remove_at}
use abcmalloc.Arena.Route.{Kind, Setup, Arena, vmap_alloc, locate}
use abcmalloc.Arena.Pop.{Checks, pop, pop_at, pop_sized, ts_pop, ts_pop_at, ts_pop_sized}
use abcmalloc.Arena.Recycle.{
  with_cached, refused_free, kept, cache_push_or_remove-pop, cache_push_or_remove_twice,
}
use abcmalloc.Index.Search.{IsSorted}
use abcmalloc.Arena.Unknown.{Refused, frees-Refused}
use abcmalloc.Arena.Requests.{vmap_alloc-locate}
use abcmalloc.Arena.Routing.{
  Class, first, second, third, fourth, fifth, outside, index_of, IsTlsf, SmallTiers, Within, Intact,
  index-IsSorted, class_of, class_at,
}

abbrev pub config : Config
config = record {
  max_sheets = 64;
  cache_slots = 8;
  launder = false;
  redzone = false;
  per_class_free_cache = true;
  tomb = false;
  persistent = false;
  sweep_interval = 64;
  double_free_action = 1;
}

abbrev buddies : Kind Buddy
buddies = record { book = buddy_book 6 is_zero memory; config = config; pair = 512 }

abbrev pub lists : Kind Tlsf
lists = record { book = tlsf_book 256 is_zero Tests.memory; config = config; pair = 512 }

abbrev pub setup : Setup
setup = record {
  precise = lists;
  small = lists;
  medium = buddies;
  large = buddies;
  huge = buddies;
  meta = buddy_book 6 is_zero memory;
  is_zero = is_zero;
  is_invalid = λ _. false;
  redzone = false;
  redzone_size = 16;
  redzone_byte = 0xFE;
  fail_result = 0;
}

abbrev pub no_sheets : {S : Type 0} → Sheet S → Tier S
no_sheets sh = record {
  index = record {
    idx = λ _. record { lo = 0; hi = 0; nd = 0 };
    count = 0;
    last_hit = 0;
    space_mask = λ _. 0;
  };
  sheets = λ _. sh;
  prev = λ _. 0;
  nxt = λ _. 0;
  head = 0;
  tail = 0;
  dealloc_count = 0;
  cache = Tier.empty;
}

abbrev pub small_sheet : Sheet Tlsf
small_sheet = record {
  kernel_memory = record { ptr = 4096; len = 1024 };
  book = list_0;
  guard_offset = 0;
}

abbrev pub one_sheet : Tier Tlsf
one_sheet = record (no_sheets small_sheet) {
  index = record {
    idx = λ _. record { lo = 4096; hi = 5120; nd = 64 };
    count = 1;
    last_hit = 0;
    space_mask = λ _. 1;
  };
  head = 64;
  tail = 64;
}

abbrev pub no_memory : Sheet Buddy
no_memory = record { kernel_memory = null_chunk; book = memory; guard_offset = 0 }

abbrev pub arena : Arena
arena = record {
  precise = one_sheet;
  small = no_sheets small_sheet;
  medium = no_sheets no_memory;
  large = no_sheets no_memory;
  huge = no_sheets no_memory;
  world = record {
    reserve = empty_reserve;
    registry = empty_registry;
    inner = no_sheets no_memory;
  };
  bytes = λ _. 0;
}

lists-IsTlsf : IsTlsf setup lists
lists-IsTlsf = record { min = 256; memory = Tests.memory; book = refl; no_launder = refl }

setup-SmallTiers : SmallTiers setup
setup-SmallTiers = record {
  precise = lists-IsTlsf;
  small = lists-IsTlsf;
  null_zero = refl;
  nonnull = λ c n e. ground (arith, n, e);
}

total_0 : list_0.total ≡ 960
unfolding construct init_memory one_block zero_arrays no_region levels_of fl_insert mapping_insert
    floor_log2 set_bit
total_0 = refl

list_0-IsWithin : IsWithin 4096 5120 list_0
list_0-IsWithin = record {
  live = live_0;
  reached = list_0-Reach;
  above = omega (arith, base_0);
  below = omega (arith, base_0, total_0);
}

one_sheet-Holds : Holds (λ lo hi s. IsWithin lo hi s.book) one_sheet
one_sheet-Holds = record {
  sorted = record { proper = λ i p. omega arith; apart = λ i j p q. absurd (omega arith) };
  nodes = λ i j p q e. omega arith;
  sheets_ok = λ i p. list_0-IsWithin;
  cached = λ i p. absurd (omega arith);
  few = omega arith;
}

no_sheets-Holds :
    {S : Type 0} (P : (lo hi : ℕ) → Sheet S → Type 0) (sh : Sheet S) → Holds P (no_sheets sh)
no_sheets-Holds P sh = record {
  sorted = record { proper = λ i p. absurd (omega arith); apart = λ i j p q. absurd (omega arith) };
  nodes = λ i j p q e. absurd (omega arith);
  sheets_ok = λ i p. absurd (omega arith);
  cached = λ i p. absurd (omega arith);
  few = omega arith;
}

alone : (c : Class) (p : ℕ) → InRange (index_of arena c) p → c ≡ first
alone first p h = refl
alone second p (i, q, _, _) = absurd (omega arith)
alone third p (i, q, _, _) = absurd (omega arith)
alone fourth p (i, q, _, _) = absurd (omega arith)
alone fifth p (i, q, _, _) = absurd (omega arith)
alone outside p (i, q, _, _) = absurd (omega arith)

no_sheets-IsSorted : IsSorted (no_sheets no_memory).index
no_sheets-IsSorted = record {
  proper = λ i p. absurd (omega arith);
  apart = λ i j p q. absurd (omega arith);
}

arena-Intact : Intact arena
arena-Intact = record {
  precise = one_sheet-Holds;
  small = no_sheets-Holds Within small_sheet;
  medium = no_sheets-IsSorted;
  large = no_sheets-IsSorted;
  huge = no_sheets-IsSorted;
  apart = λ c d p h k. alone c p h ∙ sym (alone d p k);
}

vmap_alloc-locate_example :
    Intact (vmap_alloc setup arena 100).0
    × (is_zero (vmap_alloc setup arena 100).1 ≡ false
        → class_at (locate (vmap_alloc setup arena 100).0 (vmap_alloc setup arena 100).1.ptr)
          ≡ class_of 100)
vmap_alloc-locate_example = vmap_alloc-locate setup setup-SmallTiers arena-Intact 100 (omega arith)

-- The request is answered with the first block of the list.
answered : (vmap_alloc setup arena 100).1.ptr ≡ 4160
unfolding vmap_alloc cache_pop_or_insert pop_or_insert cache_hit probe_ge bucket_insert insert_by
    ask mark or_failed empty mask_get construct init_memory one_block zero_arrays no_region
    levels_of fl_insert mapping_insert mapping_search allocate adjusted_block_size find_free
    pick_list take_picked take_head unmark_if_empty cut_out try_split write_rest hand_out floor_log2
    set_bit clear_bit ctz bit
answered = refl

tlsf-Serves_example :
    Serves
      (tlsf_book 256 is_zero Tests.memory)
      is_zero
      (λ _. false)
      (λ lo hi s. IsWithin lo hi s.book)
tlsf-Serves_example =
    tlsf-Serves 256 Tests.memory is_zero (λ _. false) refl (λ c n e. ground (arith, n, e))

-- The block of 128 bytes at 4160 is in use.
abbrev pub lent : Tier Tlsf
lent = record one_sheet { sheets = λ _. record small_sheet { book = list_1 } }

abbrev block : Chunk
block = record { ptr = 4160; len = 100 }

lent_live : is_block_allocated lists.book is_zero (λ _. false) (sheet_at lent 0) 4160 ≡ true
unfolding is_block_allocated construct init_memory one_block zero_arrays no_region levels_of
    fl_insert mapping_insert mapping_search allocate adjusted_block_size find_free pick_list
    take_picked take_head unmark_if_empty cut_out try_split write_rest hand_out floor_log2 set_bit
    clear_bit ctz is_allocated in_data is_tombstoned
lent_live = refl

lent_big : block_size_of lists.book is_zero (λ _. false) (sheet_at lent 0) 4160 ≡ 192
unfolding block_size_of block_size construct init_memory one_block zero_arrays no_region levels_of
    fl_insert mapping_insert mapping_search allocate adjusted_block_size find_free pick_list
    take_picked take_head unmark_if_empty cut_out try_split write_rest hand_out floor_log2 set_bit
    clear_bit ctz is_allocated in_data is_tombstoned
lent_big = refl

not_cached : contains lent.cache 4160 ≡ false
unfolding contains contains_from
not_cached = refl

cache_push_or_remove-pop_example :
    let size = kept is_zero (λ _. false) lists.book (sheet_at lent 0) block in
    let t' = with_cached lent 4160 size in
    (cache_push_or_remove is_zero
        (λ _. false)
        lists.book
        setup.meta
        config
        512
        arena.world
        lent
        0
        block
      ≡ some ((arena.world, t'), true))
    × ((sz : ℕ)
        → sz % 2 ^ 32 ≤ size % 2 ^ 32
        → (config.redzone ≡ true → sz % 2 ^ 32 ≡ size % 2 ^ 32)
        → let r = cache_pop_or_insert lists.book is_zero (λ _. false) config t' sz in
          (r.1 ≡ record { ptr = 4160; len = size % 2 ^ 32 })
          × (contents r.0.cache ≡ contents lent.cache))
cache_push_or_remove-pop_example =
    cache_push_or_remove-pop is_zero (λ _. false) lists.book setup.meta config 512 refl arena.world
      lent 0 block lent_live (omega (arith, lent_big)) (omega arith) (omega arith) not_cached

cache_push_or_remove_twice_example :
    let size = kept is_zero (λ _. false) lists.book (sheet_at lent 0) block in
    let t' = with_cached lent 4160 size in
    (cache_push_or_remove is_zero
        (λ _. false)
        lists.book
        setup.meta
        config
        512
        arena.world
        lent
        0
        block
      ≡ some ((arena.world, t'), true))
    × (cache_push_or_remove is_zero
          (λ _. false)
          lists.book
          setup.meta
          config
          512
          arena.world
          t'
          0
          block
        ≡ refused_free 1 (arena.world, t'))
    × (config.redzone ≡ false
        → tier_remove_at is_zero (λ _. false) lists.book setup.meta config 512 arena.world t' 0 4160
          ≡ refused_free 1 (arena.world, t'))
cache_push_or_remove_twice_example =
    cache_push_or_remove_twice is_zero (λ _. false) lists.book setup.meta config 512 refl
      arena.world lent 0 block lent_live (omega (arith, lent_big)) (omega arith) (omega arith)
      not_cached

-- The address 100 is below every range of the arena.
below_all : (c : Class) → ¬ InRange (index_of arena c) 100
below_all first (i, q, x, y) = absurd (omega (arith, x))
below_all second (i, q, _, _) = absurd (omega arith)
below_all third (i, q, _, _) = absurd (omega arith)
below_all fourth (i, q, _, _) = absurd (omega arith)
below_all fifth (i, q, _, _) = absurd (omega arith)
below_all outside (i, q, _, _) = absurd (omega arith)

frees-Refused_example :
    let k : Checks = record { alignment = true; provenance = true } in
    let c : Chunk = record { ptr = 100; len = 8 } in
    Refused 0 arena (pop setup k arena c)
    × Refused 0 arena (pop_at setup k arena 100)
    × Refused 0 arena (pop_sized setup k arena 100 8)
    × Refused 0 arena (ts_pop setup k arena c)
    × Refused 0 arena (ts_pop_at setup k arena 100)
    × Refused 0 arena (ts_pop_sized setup k arena 100 8)
frees-Refused_example =
    frees-Refused setup (record { alignment = true; provenance = true }) arena
      (index-IsSorted arena arena-Intact) 100 below_all 8 (λ q. absurd (omega (arith, q))) refl
