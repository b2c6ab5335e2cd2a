-- ===== src/Lib.antt =====
-- abcmalloc, a general purpose allocator: a model of its parts, and what is proved of them.
--
-- An arena of the allocator serves requests from tiers, one for each class of sizes. A tier keeps
-- sheets, regions of memory each with a list of its blocks, an index of the address ranges of its
-- sheets, and a cache of the blocks that were freed last. The memory of the sheets is carved from a
-- reservation of address space, and a registry tells which arena owns an address.
--
-- The parts and the files that model them:
--   Buddy      src/free_list.hpp, `__buddy_list`: the record `Buddy` has the fields of the struct, and
--              four functions of the address for the typed views of the region (`next` and `prev` of
--              `free_block`, `order` and `flags` of `block_header`). Buddy/State has the tags, headers
--              and the mask, Buddy/FreeList the lists, splitting and merging, Buddy/Alloc
--              `__impl_init_memory`, `allocate`, `temporal_allocate` and `allocate_exact`, Buddy/Free
--              `deallocate`, `tombstone`, `reallocate` and the queries, and Buddy/Ops sequences of calls.
--   Tlsf       src/cache_list.hpp, `__tlsf_list`: the record `Tlsf` has the fields of the struct, and five
--              functions of the address for the fields of the headers `tlsf_hdr`. Tlsf/State has the
--              classes of sizes, Tlsf/FreeList the lists, splitting and merging, Tlsf/Alloc
--              `__impl_init_memory`, `allocate`, `temporal_allocate` and `allocate_exact`, Tlsf/Free
--              `deallocate`, `tombstone`, `reallocate` and the queries. Tlsf/Tiles, Tlsf/Lists and
--              Tlsf/Bitmaps are the parts of the invariant that Tlsf/Core puts together, Tlsf/Valid adds
--              the flags, Tlsf/Run is the relation of the calls, and Tlsf/Refine the abstract allocator.
--   Cache      src/tcache.hpp, `__tier_tcache`: the arrays `_ptr` and `_size`, and `_count`.
--   Index      src/arena.hpp, the part of `__tier` that finds a sheet by address: `__idx`, `__count`,
--              `__last_hit` and the bitmap `__space_mask`, with `register_sheet`, `unregister` and
--              `find_range`.
--   Reserve    src/va_reserve.hpp: the bump cursor and the free runs, `__va_carve`,
--              `__va_carve_reserved`, `__va_release`.
--   Registry   src/sheet_header.hpp: the owner table for the reservation, and the list of the sheets
--              outside of it. It reads the reservation (`contains`).
--   Sheet      src/book.hpp, `class sheet`: what it asks of its list is the record `Book`, which
--              `buddy_book` fills with the operations of Buddy, and `tlsf_book`
--              of Arena/Small with those of Tlsf, for `class tlsf_sheet`. It calls the registry, and the
--              reservation through `__release_kernel_chunk` of src/hooks.hpp.
--   Harden     src/harden.hpp: the checks of sizes, pointers and canaries.
--   Predictor  src/prediction.hpp, `alloc_predictor`.
--   Stats      src/stats.hpp, the counters.
--   Remote     src/mpsc_free.hpp, `__mpsc_free_queue`: the cells, `__tail` and `__head`. A push is a claim of
--              the tail and the filling of its cell; Remote/Fifo is the relation of the steps of all
--              threads, and Remote/Drain the loop of `drain`.
--   Arena      src/arena.hpp: Arena/Tier has a tier (`__tier`: an index of Index, a cache of Cache, the
--              sheets and the list of their nodes) and the requests to it (`__bucket_insert`,
--              `__cache_pop_or_insert`), Arena/Remove the returns to it and the release of its empty
--              sheets (`__tier_remove_impl`, `__tier_remove_at`, `__cache_push_or_remove`,
--              `__sweep_tier_tombstones`), Arena/Route the five tiers together: `__vmap_alloc` picks one
--              by the size, `__vmap_remove` and the like by the address, with the canaries of the
--              first two. Arena/Query has the questions (`__vmap_valid_block`, `__size_of_alloc`,
--              `present`), Arena/Pop `pop` and `ts_pop`, and Arena/Grow the expansion of a tier by a sheet
--              (`__expand_tlsf`, `__expand_buddy`), whose node goes into `_arena_tier` (`__mark_arena`),
--              Arena/Push `push` and `launder` (Arena/Answers follows the rounds of `push`, Arena/Others
--              the tiers that it leaves alone), and Arena/Resize `resize` and `reset_page`. Arena/Routing
--              and Arena/Unknown are about the dispatch by address. What a tier needs of its sheets is
--              the record `Serves` of Arena/Insert; Arena/Small fills it for the sheets over the TLSF
--              list.
--   Base       shared by all: Boolean tests, arrays as functions of the index, words, bits.
-- The tests of a part, with its theorems on concrete data, are in its module Tests.
--
-- Numbers, pointers and memory: a pointer is a number and 0 is `nullptr`. Machine words are numbers
-- whose wrap-around is written out (`add64`, `sub64`, `% 2 ^ 32`). An array is a function of the
-- index, whose length is stated where it matters. `micron::abort()` is `none`.
--
-- Loops: a loop over a range is recursion on the rounds that are left. Six loops run on fuel. The
-- slow removal from a free list has the code's own guard as its fuel, `tag_count + 1` rounds. The
-- loop of `__merge_and_free` raises the order below `max_order` in each round, and has `max_order`
-- rounds. The binary search of `find_range` looks at fewer entries each round, and has `__count`
-- rounds, which its theorem shows to be enough. The loop of `drain` is given as many rounds as its
-- caller wants: one more than the positions that are claimed are enough, if no producer is about to
-- push. The loop over the bits of one word in `__bucket_insert` has 64 rounds, as each clears one of
-- the 64 bits. The retries of `__mark_arena` have one round more than the index of `_arena_tier` has
-- places; each round that goes on fills one.
--
-- Arguments that stand for code outside the repository: the answers of `mmap`, `mprotect` and
-- `sys_allocator::alloc`, `memset` with its documented effect, the methods `zero` and `invalid` of
-- `micron::__chunk`, and the page size. Of the repository, the sizes that tiers grow by are
-- arguments too (`__calculate_space_small` and the like of src/hooks.hpp), as they are computed in
-- floating point, and so is the answer of `check_oom`.
--
-- Atomic operations are steps one after the other; interleavings of threads are modelled for the
-- queue of remote frees, with memory that all threads see in one order, and not for the other parts.
-- Not modelled either: of the arena, its construction, the fills of freed memory, `freeze`
-- and the handling of remote frees; the interface for threads (src/tapi.hpp) and the functions of src/malloc.hpp, which come
-- on top of the parts here; the doctor, the inspection and the printing, which change nothing; the
-- `cold` cache of the buddy list, which has no slot, the flushing of its temporal cache, and the
-- moves of lists and sheets. A request to the TLSF list of 2^62 bytes or more is outside of its
-- theorems, and so is a region that reaches the last 32 bytes of the address space, a return that
-- succeeds for a pointer that is not handed out, and a temporal request that the ring of active blocks answers with a block that was
-- returned. The tiers for 4096 bytes and more are built on the buddy list; the theorem on the place of
-- an answer in the arena is about the smaller sizes only.
pub mod Base
pub mod Buddy
pub mod Tlsf
pub mod Cache
pub mod Index
pub mod Reserve
pub mod Registry
pub mod Sheet
pub mod Harden
pub mod Predictor
pub mod Stats
pub mod Remote
pub mod Arena
