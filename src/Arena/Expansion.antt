-- ===== src/Arena/Expansion.antt =====
-- What the expansion of a tier of src/arena.hpp leaves, whether it succeeds or fails.
use abcmalloc.Base.{
  ℕ, ◌+◌, ◌<◌, ◌≡◌, refl, Bool, true, false, not, ◌==◌, Option, none, some, if_cases,
}
use abcmalloc.Buddy.State.{Buddy, Chunk}
use abcmalloc.Index.{register_sheet}
use abcmalloc.Reserve.{Reserve}
use abcmalloc.Sheet.{Book, Sheet, make, empty, addr, addr_end}
use abcmalloc.Arena.Tier.{Tier, Config, link_at_tail, unlink_node}
use abcmalloc.Arena.Remove.{World, ◌>>=◌, unmark_from_arena}
use abcmalloc.Arena.Grow.{
  System, Memory, Marked, aborted, out_of_rounds, marked, linked, kernel_chunk_valid, make_guard,
  give_up, give_up_sheet, registered, attach, attach_valid, with_node, expand_tlsf, expand_buddy,
}
use abcmalloc.Arena.Growth.{register_sheet-OneMore}

-- The tier after an expansion: one sheet more, within the limit of the tier, or the same index; the
-- cache is the same.
pub record Expanded {S : Type 0} (k : Config) (t t' : Tier S) (grown : Bool) : Type 0 where
  pub cache : t'.cache ≡ t.cache
  pub more : grown ≡ true → (t'.index.count ≡ t.index.count + 1) × (t.index.count < k.max_sheets)
  pub same : grown ≡ false → t'.index ≡ t.index

-- The outcome of an expansion, with the rest of the arena in `A`; `none` is an abort.
abbrev pub Outcome : {S A : Type 0} → Config → Tier S → Option ((A × Tier S) × Bool) → Type 0
Outcome k t none = true ≡ true
Outcome k t (some ((_, t'), grown)) = Expanded k t t' grown

bind-Outcome :
    {S A B : Type 0} (k : Config) (t : Tier S) (o : Option B) (f : B → Option ((A × Tier S) × Bool))
    → ((b : B) → Outcome k t (f b))
    → Outcome k t (o >>= f)
bind-Outcome k t none f v = refl
bind-Outcome k t (some b) f v = v b

module _ (y : System) (is_zero is_invalid : Chunk → Bool) (meta : Book Buddy) (inner : Config)
    (inner_pair : ℕ) {S : Type 0} (b : Book S) (k : Config) (pair : ℕ) (t : Tier S) where
  give_up-Outcome :
      (w : World) (u : Tier S) (buf : Chunk)
      → u.index ≡ t.index
      → u.cache ≡ t.cache
      → Outcome k t (give_up y is_zero is_invalid meta inner inner_pair b k pair w u buf)
  unfolding give_up
  give_up-Outcome w u buf e c =
      bind-Outcome k t
        (unmark_from_arena is_zero is_invalid meta w (record { ptr = buf.ptr; len = pair })) _
        (λ _. record { cache = c; more = λ n. cc; same = λ _. e })

  give_up_sheet-Outcome :
      (w : World) (u : Tier S) (buf : Chunk) (sh : Sheet S)
      → u.index ≡ t.index
      → u.cache ≡ t.cache
      → Outcome k t (give_up_sheet y is_zero is_invalid meta inner inner_pair b k pair w u buf sh)
  unfolding give_up_sheet
  give_up_sheet-Outcome w u buf sh e c = give_up-Outcome _ _ buf e c

  registered-Outcome :
      (w : World) (buf : Chunk) (sh : Sheet S)
      → Outcome k t (registered y is_zero is_invalid meta inner inner_pair b k pair w t buf sh)
  unfolding registered link_at_tail unlink_node
  registered-Outcome w buf sh =
      let more =
        register_sheet-OneMore k.max_sheets t.index buf.ptr (addr b is_zero is_invalid sh)
          (addr_end b is_zero is_invalid sh) in
      if_cases (Outcome k t) (empty b is_zero is_invalid sh)
        (λ _. give_up_sheet-Outcome w t buf sh refl refl)
        λ _.
          if_cases (Outcome k t)
            ((register_sheet k.max_sheets t.index buf.ptr (addr b is_zero is_invalid sh)
                (addr_end b is_zero is_invalid sh)).1
              == k.max_sheets)
            (λ _.
              give_up_sheet-Outcome w
                (unlink_node (linked y is_zero is_invalid t buf.ptr sh) buf.ptr) buf sh refl refl)
            (λ n. record { cache = refl; more = λ _. more n; same = λ f. cc })

  attach-Outcome :
      (w : World) (buf mem : Chunk) (offset : ℕ)
      → Outcome k t (attach y is_zero is_invalid meta inner inner_pair b k pair w t buf mem offset)
  unfolding attach
  attach-Outcome w buf mem offset =
      bind-Outcome k t (make b is_zero is_invalid y.memory w.reserve w.registry y.owner mem offset)
        _ (λ (registry, sh). registered-Outcome (record w { registry = registry }) buf sh)

  attach_valid-Outcome :
      (w : World) (buf : Chunk) (got : Reserve × Chunk) (guard : Bool)
      → Outcome k t
          (attach_valid y is_zero is_invalid meta inner inner_pair b k pair w t buf got guard)
  unfolding attach_valid
  attach_valid-Outcome w buf (reserve, mem) guard =
      if_cases (Outcome k t) (not (kernel_chunk_valid y is_zero is_invalid mem))
        (λ _. give_up-Outcome _ t buf refl refl)
        λ _.
          if_cases (Outcome k t) guard
            (λ _.
              if_cases (Outcome k t) (make_guard y is_zero is_invalid mem)
                (λ _. attach-Outcome _ buf mem y.page) (λ _. refl))
            (λ _. attach-Outcome _ buf mem 0)

  with_node-Outcome :
      (m : Marked) (f : Memory → Chunk → Option ((World × Tier S) × Bool))
      → ((m' : Memory) (buf : Chunk) → Outcome k t (f m' buf))
      → Outcome k t (with_node y is_zero is_invalid meta inner inner_pair b k pair m f)
  with_node-Outcome aborted f v = refl
  with_node-Outcome out_of_rounds f v = refl
  with_node-Outcome (marked m buf) f v = by (f m buf) (v m buf)
    where
      by :
          (o : Option ((World × Tier S) × Bool))
          → Outcome k t o
          → Outcome k t (o >>= (λ ((w, u), grown). some ((record m { world = w }, u), grown)))
      by none _ = refl
      by (some ((w, u), grown)) x = x

  -- Whatever the system answers, an expansion of a tier that does not end the program gives it one sheet
  -- more, within its limit, if it reports success, and leaves its index as it was if it reports
  -- failure; the cache of the tier does not change.
  pub expand-Outcome :
      (m : Memory) (sz : ℕ)
      → Outcome k t (expand_tlsf y is_zero is_invalid meta inner inner_pair b k pair m t sz)
        × Outcome k t (expand_buddy y is_zero is_invalid meta inner inner_pair b k pair m t sz)
  unfolding expand_tlsf expand_buddy
  expand-Outcome m sz = (
    with_node-Outcome _ _ (λ m' buf. attach_valid-Outcome m'.world buf _ false),
    with_node-Outcome _ _ (λ m' buf. attach_valid-Outcome m'.world buf _ y.guard_pages),
  )
