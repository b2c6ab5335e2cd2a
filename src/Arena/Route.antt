-- ===== src/Arena/Route.antt =====
-- The arena of src/arena.hpp: which tier serves a request, and which one a pointer goes back to.
use abcmalloc.Base.{
  ℕ, ◌*◌, Bool, true, false, not, ◌&&◌, ltb, leb, ◌==◌, if◌then◌else◌, Option, none, some, add64,
  sub64,
}
use abcmalloc.Buddy.State.{Buddy, Chunk}
use abcmalloc.Harden.{verify_redzone, verify_redzone_leading, write_redzone}
use abcmalloc.Index.{find_range}
use abcmalloc.Sheet.{Book}
use abcmalloc.Tlsf.State.{Tlsf}
use abcmalloc.Arena.Tier.{Tier, Config, cache_pop_or_insert, bucket_insert_temporal}
use abcmalloc.Arena.Remove.{
  World, sized, at_addr, cache_push_or_remove, tier_remove_at, tier_remove_impl, ◌>>=◌,
}

-- `__class_small`, `__class_medium`, `__class_large` and `__class_huge`
abbrev pub class_small : ℕ
class_small = 512

abbrev pub class_medium : ℕ
class_medium = 4096

abbrev pub class_large : ℕ
class_large = 32768

abbrev pub class_huge : ℕ
class_huge = 262144

-- The template arguments of a tier: the list of its sheets, its constants, and the size of a node with
-- its sheet.
pub record Kind (S : Type 0) : Type 0 where
  pub book : Book S
  pub config : Config
  pub pair : ℕ

-- The tiers, `meta` for `_arena_tier`, the methods of `micron::__chunk`, and the constants of the
-- configuration.
pub record Setup : Type 0 where
  pub precise : Kind Tlsf
  pub small : Kind Tlsf
  pub medium : Kind Buddy
  pub large : Kind Buddy
  pub huge : Kind Buddy
  pub meta : Book Buddy
  pub is_zero : Chunk → Bool
  pub is_invalid : Chunk → Bool
  pub redzone : Bool
  pub redzone_size : ℕ
  pub redzone_byte : ℕ
  pub fail_result : ℕ

-- `bytes` are the bytes of memory that the canaries are in.
pub record Arena : Type 0 where
  pub precise : Tier Tlsf
  pub small : Tier Tlsf
  pub medium : Tier Buddy
  pub large : Tier Buddy
  pub huge : Tier Buddy
  pub world : World
  pub bytes : ℕ → ℕ

-- The tier and the entry of its index that hold an address; the tiers are asked in this order.
pub data Place : Type 0 where
  in_precise : (pos : ℕ) → Place
  in_small : (pos : ℕ) → Place
  in_medium : (pos : ℕ) → Place
  in_large : (pos : ℕ) → Place
  in_huge : (pos : ℕ) → Place
  nowhere : Place

abbrev or_else : Option ℕ → (ℕ → Place) → Place → Place
or_else none found rest = rest
or_else (some pos) found rest = found pos

-- `__dispatch_addr`, less the call
unfoldable pub locate : Arena → (addr : ℕ) → Place
locate a addr = or_else (find_range a.precise.index addr) in_precise (
    or_else (find_range a.small.index addr) in_small (
      or_else (find_range a.medium.index addr) in_medium (
        or_else (find_range a.large.index addr) in_large
          (or_else (find_range a.huge.index addr) in_huge nowhere))))

-- `fail_state` of src/harden.hpp
unfoldable pub fail_state : (result : ℕ) → Option Bool
fail_state result =
    if result == 0
    then none
    else if result == 1
    then none
    else if result == 2
    then some false
    else some true

module _ (e : Setup) where
  -- The state of the tier that answered goes back into the arena.
  abbrev pub put_precise : Arena → Tier Tlsf × Chunk → Arena × Chunk
  put_precise a (t, c) = (record a { precise = t }, c)

  abbrev pub put_small : Arena → Tier Tlsf × Chunk → Arena × Chunk
  put_small a (t, c) = (record a { small = t }, c)

  abbrev pub put_medium : Arena → Tier Buddy × Chunk → Arena × Chunk
  put_medium a (t, c) = (record a { medium = t }, c)

  abbrev pub put_large : Arena → Tier Buddy × Chunk → Arena × Chunk
  put_large a (t, c) = (record a { large = t }, c)

  abbrev pub put_huge : Arena → Tier Buddy × Chunk → Arena × Chunk
  put_huge a (t, c) = (record a { huge = t }, c)

  abbrev pub pop_from : {S : Type 0} → Kind S → Tier S → (sz : ℕ) → Tier S × Chunk
  pop_from k t sz = cache_pop_or_insert k.book e.is_zero e.is_invalid k.config t sz

  abbrev launder_from : {S : Type 0} → Kind S → Tier S → (sz : ℕ) → Tier S × Chunk
  launder_from k t sz = bucket_insert_temporal k.book e.is_zero e.is_invalid k.config t sz

  unfoldable pub vmap_alloc : Arena → (sz : ℕ) → Arena × Chunk
  vmap_alloc a sz =
      if leb sz class_small
      then put_precise a (pop_from e.precise a.precise sz)
      else if ltb sz class_medium
      then put_small a (pop_from e.small a.small sz)
      else if leb sz class_large
      then put_medium a (pop_from e.medium a.medium sz)
      else if leb sz class_huge
      then put_large a (pop_from e.large a.large sz)
      else put_huge a (pop_from e.huge a.huge sz)

  unfoldable pub vmap_launder : Arena → (sz : ℕ) → Arena × Chunk
  vmap_launder a sz =
      if ltb sz class_medium
      then put_small a (launder_from e.small a.small sz)
      else if leb sz class_large
      then put_medium a (launder_from e.medium a.medium sz)
      else if leb sz class_huge
      then put_large a (launder_from e.large a.large sz)
      else put_huge a (launder_from e.huge a.huge sz)

  -- The size that is asked of the tiers for a request with canaries; only the first two tiers have them.
  unfoldable pub rz_inflate : (sz : ℕ) → ℕ
  rz_inflate sz =
      let inflated = add64 sz (2 * e.redzone_size) in
      if not e.redzone
      then sz
      else if ltb inflated class_medium
      then inflated
      else if ltb sz class_medium
      then class_medium
      else sz

  unfoldable pub rz_active : (sz : ℕ) → Bool
  rz_active sz = e.redzone && ltb (add64 sz (2 * e.redzone_size)) class_medium

  -- `__rz_apply`; `memset` is micron's.
  unfoldable pub rz_apply :
      (memset : (ℕ → ℕ) → (at v n : ℕ) → ℕ → ℕ) → Arena → Chunk → (user_sz : ℕ) → Arena × Chunk
  rz_apply memset a memory user_sz =
      let ptr = add64 memory.ptr e.redzone_size in
      (
        record a {
          bytes = write_redzone e.redzone e.redzone_size e.redzone_byte memset a.bytes ptr user_sz;
        },
        record { ptr = ptr; len = user_sz },
      )

  -- A return to a tier with canaries, which are checked first.
  unfoldable pub guarded :
      {A : Type 0} → (intact : Bool) → A → Option (A × Bool) → Option (A × Bool)
  guarded intact a r =
      if e.redzone && not intact then fail_state e.fail_result >>= (λ b. some (a, b)) else r

  -- A return `f` to the tier that holds the pointer; its first argument is whether the tier has canaries,
  -- and `intact` whether those of the block are.
  unfoldable pub return_at :
      ((canaries : Bool) (S : Type 0)
        → Kind S
        → World
        → Tier S
        → (pos : ℕ) → Option ((World × Tier S) × Bool))
      → (intact : Bool) → Arena
      → Place
      → Option (Arena × Bool)
  return_at f intact a (in_precise pos) = guarded intact a (do
    ((w, t), r) ← f true Tlsf e.precise a.world a.precise pos
    some (record a { precise = t; world = w }, r))
  return_at f intact a (in_small pos) = guarded intact a (do
    ((w, t), r) ← f true Tlsf e.small a.world a.small pos
    some (record a { small = t; world = w }, r))
  return_at f intact a (in_medium pos) = do
    ((w, t), r) ← f false Buddy e.medium a.world a.medium pos
    some (record a { medium = t; world = w }, r)
  return_at f intact a (in_large pos) = do
    ((w, t), r) ← f false Buddy e.large a.world a.large pos
    some (record a { large = t; world = w }, r)
  return_at f intact a (in_huge pos) = do
    ((w, t), r) ← f false Buddy e.huge a.world a.huge pos
    some (record a { huge = t; world = w }, r)
  return_at f intact a nowhere = some (a, false)

  -- The chunk of a block with its canaries.
  abbrev pub with_canaries : (canaries : Bool) → Chunk → Chunk
  with_canaries canaries m =
      if canaries && e.redzone
      then record { ptr = sub64 m.ptr e.redzone_size; len = add64 m.len (2 * e.redzone_size) }
      else m

  abbrev pub before_canary : (canaries : Bool) → (addr : ℕ) → ℕ
  before_canary canaries addr = if canaries && e.redzone then sub64 addr e.redzone_size else addr

  abbrev pub intact_chunk : Arena → Chunk → Bool
  intact_chunk a m = verify_redzone e.redzone e.redzone_size e.redzone_byte a.bytes m.ptr m.len

  abbrev pub intact_leading : Arena → (addr : ℕ) → Bool
  intact_leading a addr =
      verify_redzone_leading e.redzone e.redzone_size e.redzone_byte a.bytes addr

  unfoldable pub vmap_remove : Arena → Chunk → Option (Arena × Bool)
  vmap_remove a m =
      return_at
        (λ canaries S k w t pos.
          cache_push_or_remove e.is_zero e.is_invalid k.book e.meta k.config k.pair w t pos
            (with_canaries canaries m))
        (intact_chunk a m) a (locate a m.ptr)

  unfoldable pub vmap_remove_at : Arena → (addr : ℕ) → Option (Arena × Bool)
  vmap_remove_at a addr =
      return_at
        (λ canaries S k w t pos.
          tier_remove_at e.is_zero e.is_invalid k.book e.meta k.config k.pair w t pos
            (before_canary canaries addr))
        (intact_leading a addr) a (locate a addr)

  unfoldable pub vmap_tombstone : Arena → Chunk → Option (Arena × Bool)
  vmap_tombstone a m =
      return_at
        (λ canaries S k w t pos.
          tier_remove_impl e.is_zero e.is_invalid k.book e.meta k.config k.pair true w t pos
            (sized (with_canaries canaries m)))
        (intact_chunk a m) a (locate a m.ptr)

  unfoldable pub vmap_tombstone_at : Arena → (addr : ℕ) → Option (Arena × Bool)
  vmap_tombstone_at a addr =
      return_at
        (λ canaries S k w t pos.
          tier_remove_impl e.is_zero e.is_invalid k.book e.meta k.config k.pair true w t pos
            (at_addr (before_canary canaries addr)))
        (intact_leading a addr) a (locate a addr)
