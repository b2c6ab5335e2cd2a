-- ===== src/Arena/Query.antt =====
-- The questions to the arena of src/arena.hpp: whether an address is in it, in use or cached, and how
-- large the block there is.
use abcmalloc.Base.{
  ℕ, ◌+◌, ◌-◌, ◌*◌, Bool, true, false, not, ◌&&◌, ◌==◌, ltb, if◌then◌else◌, Option, some,
}
use abcmalloc.Buddy.State.{Buddy, hdr_offset}
use abcmalloc.Cache.Tier.{contains}
use abcmalloc.Sheet.{Book, Sheet, is_block_allocated, find, block_size_of}
use abcmalloc.Tlsf.State.{Tlsf}
use abcmalloc.Arena.Tier.{sheet_at}
use abcmalloc.Arena.Remove.{◌>>=◌}
use abcmalloc.Arena.Route.{
  Setup, Arena, Place, in_precise, in_small, in_medium, in_large, in_huge, nowhere, locate,
  before_canary,
}

module _ (e : Setup) where
  unfoldable pub vmap_within : Arena → (addr : ℕ) → Bool
  vmap_within a addr = elim (locate a addr) [ nowhere ↦ false | _ ↦ true ]

  -- A question to the sheet of an entry, with the address of the block.
  abbrev ask_at :
      {A : Type 0}
      → ((S : Type 0) → Book S → Sheet S → ℕ → A)
      → (nothing : A) → Arena
      → (addr : ℕ) → Place
      → A
  ask_at f nothing a addr (in_precise pos) =
      f Tlsf e.precise.book (sheet_at a.precise pos) (before_canary e true addr)
  ask_at f nothing a addr (in_small pos) =
      f Tlsf e.small.book (sheet_at a.small pos) (before_canary e true addr)
  ask_at f nothing a addr (in_medium pos) = f Buddy e.medium.book (sheet_at a.medium pos) addr
  ask_at f nothing a addr (in_large pos) = f Buddy e.large.book (sheet_at a.large pos) addr
  ask_at f nothing a addr (in_huge pos) = f Buddy e.huge.book (sheet_at a.huge pos) addr
  ask_at f nothing a addr nowhere = nothing

  unfoldable pub vmap_valid_block : Arena → (addr : ℕ) → Bool
  vmap_valid_block a addr =
      ask_at (λ S b sh p. is_block_allocated b e.is_zero e.is_invalid sh p) false a addr
        (locate a addr)

  unfoldable pub vmap_locate_at : Arena → (addr : ℕ) → Option Bool
  vmap_locate_at a addr =
      ask_at (λ S b sh p. find b e.is_zero e.is_invalid sh p) (some false) a addr (locate a addr)

  -- `__is_cached`
  unfoldable pub is_cached : Arena → (ptr : ℕ) → Bool
  is_cached a ptr = elim (locate a ptr) [
    | in_precise _ ↦ contains a.precise.cache ptr
    | in_small _ ↦ contains a.small.cache ptr
    | in_medium _ ↦ contains a.medium.cache ptr
    | in_large _ ↦ contains a.large.cache ptr
    | in_huge _ ↦ contains a.huge.cache ptr
    | nowhere ↦ false
  ]

  -- `__size_of_alloc`: the overhead is a header, and two canaries where the tier has them.
  abbrev overhead : Place → ℕ
  overhead (in_precise _) = if e.redzone then hdr_offset + 2 * e.redzone_size else hdr_offset
  overhead (in_small _) = if e.redzone then hdr_offset + 2 * e.redzone_size else hdr_offset
  overhead _ = hdr_offset

  unfoldable pub size_of_alloc : Arena → (addr : ℕ) → ℕ
  size_of_alloc a addr =
      let p = locate a addr in
      let bs = ask_at (λ S b sh ptr. block_size_of b e.is_zero e.is_invalid sh ptr) 0 a addr p in
      if ltb (overhead p) bs then bs - overhead p else 0

  -- `__block_ptr_of`
  unfoldable pub block_ptr_of : Arena → (user : ℕ) → ℕ
  block_ptr_of a user = elim (locate a user) [
    | in_precise _ ↦ before_canary e true user
    | in_small _ ↦ before_canary e true user
    | _ ↦ user
  ]

  unfoldable pub present : Arena → (mem : ℕ) → Option Bool
  present a mem =
      if mem == 0
      then some false
      else vmap_locate_at a mem >>= (λ located. some (located && not (is_cached a mem)))

  unfoldable pub has_provenance : Arena → (mem : ℕ) → Bool
  has_provenance a mem = if mem == 0 then false else vmap_within a mem

  unfoldable pub is_valid_block : Arena → (mem : ℕ) → Bool
  is_valid_block a mem = if mem == 0 then false else vmap_valid_block a mem
