-- ===== src/Arena/Resize.antt =====
-- `resize`, `reset_page` and the totals of src/arena.hpp.
use abcmalloc.Base.{
  ℕ, ◌+◌, ◌-◌, ◌/◌, ◌^◌, Bool, true, false, ◌&&◌, ◌||◌, ltb, leb, ◌==◌, if◌then◌else◌, Option, none,
  some, add64, ◌≡◌, ◌≤◌, ◌<◌, refl, arith, ==_ne, leb-of-le, ltb-of-lt,
}
use abcmalloc.Buddy.State.{Chunk}
use abcmalloc.Cache.Tier.{invalidate_range}
use abcmalloc.Harden.{write_redzone}
use abcmalloc.Harden.Redzone.{FillsBytes, verify_redzone-write_redzone}
use abcmalloc.Index.{find_range}
use abcmalloc.Sheet.{release, allocated}
use abcmalloc.Arena.Tier.{Tier, sheet_at, set_sheet, for_each}
use abcmalloc.Arena.Remove.{World, ◌>>=◌}
use abcmalloc.Arena.Route.{
  Kind, Setup, Arena, Place, in_precise, in_small, in_medium, in_large, in_huge, nowhere, locate,
  fail_state, intact_chunk,
}
use abcmalloc.Arena.Query.{is_cached, size_of_alloc}
use abcmalloc.Arena.Pop.{Checks, pop_at}
use abcmalloc.Arena.Grow.{System}
use abcmalloc.Arena.Push.{Spaces, Options, Heap, push}

module _ (e : Setup) where
  abbrev usage_of : {S : Type 0} → Kind S → Tier S → ℕ
  usage_of k t = for_each (allocated k.book e.is_zero e.is_invalid) t

  unfoldable pub total_usage : Arena → ℕ
  total_usage a =
      add64
        (add64
          (add64 (add64 (usage_of e.precise a.precise) (usage_of e.small a.small))
            (usage_of e.medium a.medium))
          (usage_of e.large a.large))
        (usage_of e.huge a.huge)

  -- A sheet is released, and the cache drops its blocks.
  abbrev reset_sheet : {S : Type 0} → Kind S → World → Tier S → (pos : ℕ) → World × Tier S
  reset_sheet k w t pos =
      let ((reserve, registry), sh) =
        release k.book e.is_zero e.is_invalid w.reserve w.registry (sheet_at t pos) in
      (
        record w { reserve = reserve; registry = registry },
        record (set_sheet t pos sh) {
          cache = invalidate_range t.cache (t.index.idx pos).lo (t.index.idx pos).hi;
        },
      )

  unfoldable pub do_reset : {S : Type 0} → Kind S → (addr : ℕ) → World → Tier S → World × Tier S
  do_reset k addr w t = elim (find_range t.index addr) [
    | none ↦ (w, t)
    | some pos ↦ reset_sheet k w t pos
  ]

  unfoldable pub reset_page : (persistent : Bool) → Arena → (addr : ℕ) → Option Arena
  reset_page persistent a addr =
      let (w1, precise) = do_reset e.precise addr a.world a.precise in
      let (w2, small) = do_reset e.small addr w1 a.small in
      let (w3, medium) = do_reset e.medium addr w2 a.medium in
      let (w4, large) = do_reset e.large addr w3 a.large in
      let (w5, huge) = do_reset e.huge addr w4 a.huge in
      if persistent
      then fail_state e.fail_result >>= (λ _. some a)
      else some (record a {
        precise = precise;
        small = small;
        medium = medium;
        large = large;
        huge = huge;
        world = w5;
      })

  module _ (k : Checks) (y : System) (o : Options) (space : Spaces)
      (memset : (ℕ → ℕ) → (at v n : ℕ) → ℕ → ℕ) (memcpy : (ℕ → ℕ) → (to from n : ℕ) → ℕ → ℕ) where
    -- The trailing canary of a block that is used again, at its new size.
    abbrev pub relaid : Heap → (ptr new_sz : ℕ) → Place → Heap
    relaid h ptr new_sz place =
        let again = record h {
          arena = record h.arena {
            bytes =
                write_redzone e.redzone e.redzone_size e.redzone_byte memset h.arena.bytes ptr
                  new_sz;
          };
        } in
        elim place [ in_precise _ ↦ again | in_small _ ↦ again | _ ↦ h ]

    unfoldable pub is_sentinel_chunk : Chunk → Bool
    is_sentinel_chunk c = (c.ptr == 2 ^ 64 - 1) || (c.ptr == 0)

    abbrev smaller : (a b : ℕ) → ℕ
    smaller a b = if ltb a b then a else b

    -- The bytes move to the fresh chunk, and the old block is freed.
    unfoldable pub moved : (ptr old_size new_sz preserve_sz : ℕ) → Heap × Chunk → Option (Heap × ℕ)
    moved ptr old_size new_sz preserve_sz (h, fresh) =
        let copy_size = smaller (smaller old_size new_sz) preserve_sz in
        let copied = record h.arena { bytes = memcpy h.arena.bytes fresh.ptr ptr copy_size } in
        if is_sentinel_chunk fresh
        then some (h, 0)
        else pop_at e k copied ptr >>= (λ (a, _). some (record h { arena = a }, fresh.ptr))

    unfoldable pub resize : Heap → (ptr new_sz preserve_sz : ℕ) → Option (Heap × ℕ)
    resize h ptr new_sz preserve_sz =
        let old_size = size_of_alloc e h.arena ptr in
        if is_cached e h.arena ptr
        then some (h, 0)
        else if old_size == 0
        then some (h, 0)
        else if leb new_sz old_size && ltb (old_size / 2) new_sz
        then some (relaid h ptr new_sz (locate h.arena ptr), ptr)
        else push e y o space memset h new_sz >>= moved ptr old_size new_sz preserve_sz

-- Whether a place is in one of the tiers with canaries.
abbrev pub has_canaries : Place → Bool
has_canaries (in_precise _) = true
has_canaries (in_small _) = true
has_canaries _ = false

module _ (e : Setup) (k : Checks) (y : System) (o : Options) (space : Spaces)
    (memset : (ℕ → ℕ) → (at v n : ℕ) → ℕ → ℕ) (fills : FillsBytes memset)
    (memcpy : (ℕ → ℕ) → (to from n : ℕ) → ℕ → ℕ) (on : e.redzone ≡ true) (h : Heap) (ptr new_sz : ℕ)
    (low : e.redzone_size ≤ ptr) where
  -- The block is guarded at its new size, and the bytes of the user are as they were.
  abbrev pub Reused : Heap → Type 0
  Reused h' =
      (intact_chunk e h'.arena (record { ptr = ptr; len = new_sz }) ≡ true)
      × ((i : ℕ) → ptr ≤ i → i < ptr + new_sz → h'.arena.bytes i ≡ h.arena.bytes i)

  relaid-Reused :
      (place : Place)
      → has_canaries place ≡ true
      → Reused (relaid e k y o space memset memcpy h ptr new_sz place)
  relaid-Reused (in_precise _) _ = rw on (
      let v =
        verify_redzone-write_redzone e.redzone_size e.redzone_byte memset fills h.arena.bytes ptr
          new_sz low in
      (v.0, v.1))
  relaid-Reused (in_small _) _ = rw on (
      let v =
        verify_redzone-write_redzone e.redzone_size e.redzone_byte memset fills h.arena.bytes ptr
          new_sz low in
      (v.0, v.1))
  relaid-Reused (in_medium _) n = cc
  relaid-Reused (in_large _) n = cc
  relaid-Reused (in_huge _) n = cc
  relaid-Reused nowhere n = cc

  -- With canaries, and where `memset` does what is documented: a block of the first two tiers that is in
  -- no cache, resized to at most its size and more than half of it, stays where it is, passes the check of
  -- a free at its new size, and keeps the bytes up to there.
  pub resize-Reused :
      (preserve_sz : ℕ)
      → has_canaries (locate h.arena ptr) ≡ true
      → is_cached e h.arena ptr ≡ false
      → new_sz ≤ size_of_alloc e h.arena ptr
      → size_of_alloc e h.arena ptr / 2 < new_sz
      → let h' = relaid e k y o space memset memcpy h ptr new_sz (locate h.arena ptr) in
        (resize e k y o space memset memcpy h ptr new_sz preserve_sz ≡ some (h', ptr)) × Reused h'
  unfolding resize
  resize-Reused preserve_sz place free fits much = (
    rw
        (
          free,
          ==_ne (size_of_alloc e h.arena ptr) 0 (omega arith),
          leb-of-le new_sz (size_of_alloc e h.arena ptr) fits,
          ltb-of-lt (size_of_alloc e h.arena ptr / 2) new_sz much,
        )
        refl,
    relaid-Reused (locate h.arena ptr) place,
  )
