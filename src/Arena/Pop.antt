-- ===== src/Arena/Pop.antt =====
-- The frees of src/arena.hpp: `pop` and `ts_pop`, each for a chunk, an address, and an address with a
-- size. The counters and the fills of freed memory are left out.
use abcmalloc.Base.{ℕ, Bool, true, false, not, ◌&&◌, ◌==◌, if◌then◌else◌, Option, some}
use abcmalloc.Buddy.State.{Chunk}
use abcmalloc.Harden.{check_chunk_valid, check_ptr_valid, check_alignment}
use abcmalloc.Arena.Remove.{◌>>=◌}
use abcmalloc.Arena.Route.{
  Setup, Arena, fail_state, vmap_remove, vmap_remove_at, vmap_tombstone, vmap_tombstone_at,
}
use abcmalloc.Arena.Query.{is_valid_block}

-- The constants of the configuration that `__free_admit` reads.
pub record Checks : Type 0 where
  pub alignment : Bool
  pub provenance : Bool

module _ (e : Setup) (k : Checks) where
  unfoldable pub free_admit : (has_size : Bool) → Arena → (p len : ℕ) → Option Bool
  free_admit has_size a p len =
      if not (if has_size then check_chunk_valid p len else check_ptr_valid p)
      then fail_state e.fail_result
      else if not (check_alignment k.alignment p)
      then fail_state e.fail_result
      else if k.provenance && not (is_valid_block e a p)
      then fail_state e.fail_result
      else some true

  -- A free `f` of a pointer that was admitted or not.
  abbrev pub if_admitted : Arena → Option Bool → Option (Arena × Bool) → Option (Arena × Bool)
  if_admitted a admitted f = admitted >>= (λ ok. if ok then f else some (a, false))

  unfoldable pub pop : Arena → Chunk → Option (Arena × Bool)
  pop a mem =
      if e.is_zero mem
      then some (a, true)
      else if_admitted a (free_admit false a mem.ptr mem.len) (vmap_remove e a mem)

  unfoldable pub pop_at : Arena → (mem : ℕ) → Option (Arena × Bool)
  pop_at a mem =
      if mem == 0
      then some (a, true)
      else if_admitted a (free_admit false a mem 0) (vmap_remove_at e a mem)

  unfoldable pub pop_sized : Arena → (mem len : ℕ) → Option (Arena × Bool)
  pop_sized a mem len =
      if mem == 0
      then some (a, false)
      else if_admitted a (free_admit true a mem len)
          (vmap_remove e a (record { ptr = mem; len = len }))

  unfoldable pub ts_pop : Arena → Chunk → Option (Arena × Bool)
  ts_pop a mem =
      if e.is_zero mem
      then some (a, false)
      else if_admitted a (free_admit false a mem.ptr mem.len) (vmap_tombstone e a mem)

  unfoldable pub ts_pop_at : Arena → (mem : ℕ) → Option (Arena × Bool)
  ts_pop_at a mem =
      if mem == 0
      then some (a, false)
      else if_admitted a (free_admit false a mem 0) (vmap_tombstone_at e a mem)

  unfoldable pub ts_pop_sized : Arena → (mem len : ℕ) → Option (Arena × Bool)
  ts_pop_sized a mem len =
      if mem == 0
      then some (a, false)
      else if_admitted a (free_admit true a mem len)
          (vmap_tombstone e a (record { ptr = mem; len = len }))
