-- ===== src/Arena/Push.antt =====
-- The requests of src/arena.hpp: `push` tries the tier for the size, and adds a sheet to it as long as it
-- has no room. How much a tier grows by is computed in floating point; it is an argument (`Spaces`).
use abcmalloc.Base.{
  ◌-◌, ◌&&◌, ℕ, zero, suc, ◌+◌, ◌*◌, ◌%◌, ◌^◌, Bool, true, not, ◌||◌, ltb, leb, ◌==◌, if◌then◌else◌,
  update, Option, none, some,
}
use abcmalloc.Buddy.State.{Buddy, Chunk}
use abcmalloc.Harden.{check_constraint}
use abcmalloc.Index.{register_sheet}
use abcmalloc.Predictor
use abcmalloc.Predictor.{Predictor, Classes, predict_size}
use abcmalloc.Sheet.{Sheet, make, empty, try_mark, addr, addr_end}
use abcmalloc.Tlsf.State.{Tlsf}
use abcmalloc.Arena.Tier.{Tier, Config}
use abcmalloc.Arena.Remove.{◌>>=◌}
use abcmalloc.Arena.Route.{
  Kind, Setup, Arena, class_small, class_medium, class_large, class_huge, vmap_alloc, vmap_launder,
  rz_inflate, rz_active, rz_apply,
}
use abcmalloc.Arena.Grow.{System, Memory, get_kernel_chunk, page_round, expand_tlsf, expand_buddy}

-- `__calculate_space_cache` and the like of src/hooks.hpp.
pub record Spaces : Type 0 where
  pub cache : ℕ → ℕ
  pub small : ℕ → ℕ
  pub medium : ℕ → ℕ
  pub large : ℕ → ℕ
  pub huge : ℕ → ℕ
  pub bulk : ℕ → ℕ

-- The constants of the configuration that a request reads, the sizes of the sheets, and whether the
-- system is out of memory. `lazy` is `__default_lazy_construct and !__default_eager_hot_tiers`.
pub record Options : Type 0 where
  pub constrained : Bool
  pub limit : ℕ
  pub out_of_memory : Bool
  pub max_retries : ℕ
  pub overcommit : ℕ
  pub cache_step : ℕ
  pub lazy : Bool
  pub page_log : ℕ
  pub classes : Classes
  pub inner : Config
  pub inner_pair : ℕ
  pub small_sheet : ℕ
  pub medium_sheet : ℕ
  pub large_sheet : ℕ
  pub huge_sheet : ℕ

-- The arena with its predictor, and its sheet for the first metadata.
pub record Heap : Type 0 where
  pub arena : Arena
  pub own : Sheet Buddy
  pub predict : Predictor

-- The answer of a request that failed, `{ (byte *)-1, max }`.
abbrev pub failed_request : Chunk
failed_request = record { ptr = 2 ^ 64 - 1; len = 2 ^ 64 - 1 }

module _ (e : Setup) (y : System) (o : Options) (space : Spaces) where
  abbrev pub memory_of : Heap → Memory
  memory_of h = record { world = h.arena.world; own = h.own }

  -- The heap with the tier that has grown, which `put` puts into the arena.
  abbrev pub grown_heap :
      {S : Type 0}
      → Heap
      → (put : Arena → Tier S → Arena) → Option ((Memory × Tier S) × Bool)
      → Option (Heap × Bool)
  grown_heap h put r = r >>= (λ ((m, t), done).
      some (record h { arena = put (record h.arena { world = m.world }) t; own = m.own }, done))

  -- `head.nd == nullptr`: a tier gets its head and its tail at once, and keeps both.
  abbrev pub is_unset : {S : Type 0} → Tier S → Bool
  is_unset t = t.tail == 0

  -- `__init_tlsf` and `__init_buddy`: the first sheet of a tier, at its head, of a size that is not
  -- `__default_magic_size`.
  unfoldable pub first_sheet :
      {S : Type 0}
      → Kind S
      → (sheet_size : ℕ) → Memory
      → Tier S
      → (n : ℕ) → Option ((Memory × Tier S) × Bool)
  first_sheet k sheet_size m t n = do
    (own, buf) ← try_mark e.meta e.is_zero e.is_invalid m.own sheet_size
    let (reserve, mem) = get_kernel_chunk y e.is_zero e.is_invalid m.world.reserve n
    (registry, sh) ←
        make k.book e.is_zero e.is_invalid y.memory reserve m.world.registry y.owner mem 0
    if y.failed_allocation buf || empty k.book e.is_zero e.is_invalid sh
        then none
        else some (
          (
            record { world = record m.world { reserve = reserve; registry = registry }; own = own },
            record t {
              sheets = update t.sheets t.head sh;
              prev = update t.prev t.head 0;
              nxt = update t.nxt t.head 0;
              tail = t.head;
              index =
                  (register_sheet k.config.max_sheets t.index t.head
                    (addr k.book e.is_zero e.is_invalid sh)
                    (addr_end k.book e.is_zero e.is_invalid sh)).0;
            },
          ),
          true,
        )

  abbrev pub more_tlsf :
      Kind Tlsf → Heap → Tier Tlsf → (sz : ℕ) → Option ((Memory × Tier Tlsf) × Bool)
  more_tlsf k h t sz =
      expand_tlsf y e.is_zero e.is_invalid e.meta o.inner o.inner_pair k.book k.config k.pair
        (memory_of h) t sz

  abbrev pub more_buddy :
      Kind Buddy → Heap → Tier Buddy → (sz : ℕ) → Option ((Memory × Tier Buddy) × Bool)
  more_buddy k h t sz =
      expand_buddy y e.is_zero e.is_invalid e.meta o.inner o.inner_pair k.book k.config k.pair
        (memory_of h) t sz

  -- `__buf_expand_exact`
  unfoldable pub buf_expand_exact : Heap → (class_sz exact_sz : ℕ) → Option (Heap × Bool)
  buf_expand_exact h class_sz exact_sz =
      let a = h.arena in
      let m = memory_of h in
      if leb class_sz class_small
      then grown_heap h (λ a' t. record a' { precise = t })
          (more_tlsf e.precise h a.precise exact_sz)
      else if ltb class_sz class_medium
      then grown_heap h (λ a' t. record a' { small = t })
          (if o.lazy && is_unset a.small
            then first_sheet e.small o.small_sheet m a.small
                (page_round y e.is_zero e.is_invalid (space.small class_small))
            else more_tlsf e.small h a.small exact_sz)
      else if leb class_sz class_large
      then grown_heap h (λ a' t. record a' { medium = t })
          (if o.lazy && is_unset a.medium
            then first_sheet e.medium o.medium_sheet m a.medium (space.medium class_medium)
            else more_buddy e.medium h a.medium exact_sz)
      else if leb class_sz class_huge
      then grown_heap h (λ a' t. record a' { large = t })
          (if is_unset a.large
            then first_sheet e.large o.large_sheet m a.large exact_sz
            else more_buddy e.large h a.large exact_sz)
      else grown_heap h (λ a' t. record a' { huge = t })
          (if is_unset a.huge
            then first_sheet e.huge o.huge_sheet m a.huge exact_sz
            else more_buddy e.huge h a.huge exact_sz)

  -- `__predict += next; predict_size(next)`, and the expansion by that size.
  unfoldable pub expand_predicted : Heap → (alloc_sz next : ℕ) → Option (Heap × Bool)
  expand_predicted h alloc_sz next =
      let p = Predictor.push h.predict next in
      buf_expand_exact (record h { predict = p }) alloc_sz
        (predict_size o.page_log o.classes p next)

  abbrev pub at_least : (sz least : ℕ) → ℕ
  at_least sz least = if ltb sz least then least else sz

  -- `(alloc_sz << 1) + __class_huge`
  abbrev pub least_bulk : (alloc_sz : ℕ) → ℕ
  least_bulk alloc_sz = (alloc_sz * 2 + class_huge) % 2 ^ 64

  -- The size of the next sheet of the huge tier.
  unfoldable pub huge_space : Heap → (alloc_sz : ℕ) → ℕ
  huge_space h alloc_sz =
      let base = space.huge alloc_sz * o.overcommit % 2 ^ 64 in
      let mult = if leb (2 ^ 20) alloc_sz then 1 else 1 + h.arena.huge.index.count in
      at_least (base * mult % 2 ^ 64) (least_bulk alloc_sz)

  -- The ladder of `push`.
  unfoldable pub expand_for : Heap → (alloc_sz : ℕ) → Option (Heap × Bool)
  expand_for h alloc_sz =
      if leb alloc_sz class_small
      then buf_expand_exact h alloc_sz (space.cache o.cache_step)
      else if ltb alloc_sz class_medium
      then expand_predicted h alloc_sz (space.small alloc_sz * o.overcommit % 2 ^ 64)
      else if leb alloc_sz class_large
      then expand_predicted h alloc_sz (space.medium alloc_sz * o.overcommit % 2 ^ 64)
      else if leb alloc_sz class_huge
      then expand_predicted h alloc_sz (space.large alloc_sz * o.overcommit % 2 ^ 64)
      else if ltb alloc_sz (2 ^ 29)
      then expand_predicted h alloc_sz (huge_space h alloc_sz)
      else buf_expand_exact h alloc_sz (at_least (space.bulk alloc_sz) (least_bulk alloc_sz))

  module _ (memset : (ℕ → ℕ) → (at v n : ℕ) → ℕ → ℕ) where
    -- An answer that is not zero gets its canaries.
    unfoldable pub deliver : (sz : ℕ) → Arena → Chunk → Arena × Chunk
    deliver sz a memory = if rz_active e sz then rz_apply e memset a memory sz else (a, memory)

    abbrev pub delivered : Heap → Arena × Chunk → Heap × Chunk
    delivered h (a, c) = (record h { arena = a }, c)

    -- What follows an expansion: the next round, if it succeeded.
    abbrev pub after_expanding :
        (next : Heap → Option (Heap × Chunk)) → Heap × Bool → Option (Heap × Chunk)
    after_expanding next (h, done) = if done then next h else some (h, failed_request)

    -- The loop of `push`, with `left` retries after this round.
    unfoldable pub push_loop : (left : ℕ) → Heap → (sz : ℕ) → Option (Heap × Chunk)
    push_loop zero h sz =
        let (a, memory) = vmap_alloc e h.arena (rz_inflate e sz) in
        if not (e.is_zero memory)
        then some (delivered h (deliver sz a memory))
        else some (record h { arena = a }, failed_request)
    push_loop (suc left) h sz =
        let (a, memory) = vmap_alloc e h.arena (rz_inflate e sz) in
        let rest =
          expand_for (record h { arena = a }) (rz_inflate e sz)
          >>= after_expanding (λ h'. push_loop left h' sz) in
        if not (e.is_zero memory) then some (delivered h (deliver sz a memory)) else rest

    unfoldable pub push : Heap → (sz : ℕ) → Option (Heap × Chunk)
    push h sz =
        if check_constraint o.constrained o.limit sz
        then none
        else if o.out_of_memory
        then none
        else push_loop o.max_retries h sz

    -- The ladder of `launder`.
    unfoldable pub expand_launder : Heap → (alloc_sz : ℕ) → Option (Heap × Bool)
    expand_launder h alloc_sz =
        if ltb alloc_sz class_medium
        then buf_expand_exact h alloc_sz (space.small alloc_sz * o.overcommit % 2 ^ 64)
        else if leb alloc_sz class_large
        then buf_expand_exact h alloc_sz (space.medium alloc_sz * o.overcommit % 2 ^ 64)
        else if leb alloc_sz class_huge
        then buf_expand_exact h alloc_sz (space.large alloc_sz * o.overcommit % 2 ^ 64)
        else if ltb alloc_sz (2 ^ 29)
        then buf_expand_exact h alloc_sz (huge_space h alloc_sz)
        else buf_expand_exact h alloc_sz (at_least (space.bulk alloc_sz) (least_bulk alloc_sz))

    -- The loop of `launder`, with `left` retries after this round.
    unfoldable pub launder_loop : (left : ℕ) → Heap → (sz : ℕ) → Option (Heap × Chunk)
    launder_loop zero h sz =
        let (a, memory) = vmap_launder e h.arena (rz_inflate e sz) in
        if not (e.is_zero memory)
        then some (delivered h (deliver sz a memory))
        else some (record h { arena = a }, failed_request)
    launder_loop (suc left) h sz =
        let (a, memory) = vmap_launder e h.arena (rz_inflate e sz) in
        let rest =
          expand_launder (record h { arena = a }) (rz_inflate e sz)
          >>= after_expanding (λ h'. launder_loop left h' sz) in
        if not (e.is_zero memory) then some (delivered h (deliver sz a memory)) else rest

    unfoldable pub launder : Heap → (sz : ℕ) → Option (Heap × Chunk)
    launder h sz =
        if check_constraint o.constrained o.limit sz
        then none
        else if o.out_of_memory
        then none
        else launder_loop o.max_retries h sz
