-- ===== src/Arena/Growth.antt =====
-- The expansion of tiers of src/arena.hpp: it ends, and what it leaves.
use abcmalloc.Base.{
  ℕ, zero, suc, ◌+◌, ◌<◌, ◌≤◌, ◌≡◌, ◌≢◌, refl, Bool, true, false, leb, ◌==◌, Option, none, some,
  arith, if_cases, le-of-leb-false, ==_self,
}
use abcmalloc.Buddy.State.{Buddy, Chunk}
use abcmalloc.Index.{Index, register_sheet}
use abcmalloc.Sheet.{Book, Sheet, make, empty, try_mark, addr, addr_end}
use abcmalloc.Arena.Tier.{Config, link_at_tail}
use abcmalloc.Arena.Remove.{◌>>=◌}
use abcmalloc.Arena.Grow.{
  System, Memory, Marked, out_of_rounds, retry, metadata_chunk, inner_registered, expand_from,
  expand_arena_tier, reload_arena_buf, mark_round, mark_arena,
}

-- The number of the sheets of `_arena_tier`.
abbrev pub inner_count : Memory → ℕ
inner_count m = m.world.inner.index.count

-- An arena that has one sheet more than `n` for its nodes, out of at most `top`.
abbrev OneMore : (top n : ℕ) → Option Memory → Type 0
OneMore top n none = true ≡ true
OneMore top n (some m) = (inner_count m ≡ n + 1) × (n < top)

bind-OneMore :
    {A : Type 0} (top n : ℕ) (o : Option A) (f : A → Option Memory)
    → ((a : A) → OneMore top n (f a))
    → OneMore top n (o >>= f)
bind-OneMore top n none f v = refl
bind-OneMore top n (some a) f v = v a

pub register_sheet-OneMore :
    (top : ℕ) (s : Index) (nd lo hi : ℕ)
    → ((register_sheet top s nd lo hi).1 == top) ≡ false
    → ((register_sheet top s nd lo hi).0.count ≡ s.count + 1) × (s.count < top)
unfolding register_sheet
register_sheet-OneMore top s nd lo hi =
    if_cases (λ (r : Index × ℕ). (r.1 == top) ≡ false → (r.0.count ≡ s.count + 1) × (s.count < top))
      (leb top s.count) (λ _ n. absurd (ground (arith, n, ==_self top)))
      (λ e _. (refl, le-of-leb-false top s.count e))

module _ (y : System) (is_zero is_invalid : Chunk → Bool) (meta : Book Buddy) (inner : Config)
    (inner_pair : ℕ) where
  inner_registered-OneMore :
      (m : Memory) (nd : ℕ) (sh : Sheet Buddy)
      → OneMore inner.max_sheets
          (inner_count m)
          (inner_registered y is_zero is_invalid meta inner inner_pair m nd sh)
  unfolding inner_registered link_at_tail
  inner_registered-OneMore m nd sh =
      let more =
        register_sheet-OneMore inner.max_sheets m.world.inner.index nd
          (addr meta is_zero is_invalid sh) (addr_end meta is_zero is_invalid sh) in
      if_cases (OneMore inner.max_sheets (inner_count m)) (empty meta is_zero is_invalid sh)
        (λ _. refl)
        λ _.
          if_cases (OneMore inner.max_sheets (inner_count m))
            ((register_sheet inner.max_sheets m.world.inner.index nd
                (addr meta is_zero is_invalid sh) (addr_end meta is_zero is_invalid sh)).1
              == inner.max_sheets)
            (λ _. refl) (λ n. more n)

  expand_from-OneMore :
      (m : Memory) (buf : Chunk) (sz : ℕ)
      → OneMore inner.max_sheets
          (inner_count m)
          (expand_from y is_zero is_invalid meta inner inner_pair m buf sz)
  unfolding expand_from
  expand_from-OneMore m buf sz =
      bind-OneMore _ _
        (metadata_chunk y is_zero is_invalid meta inner inner_pair m.world.reserve sz) _
        λ ((reserve, mem), offset).
          bind-OneMore _ _
            (make meta is_zero is_invalid y.memory reserve m.world.registry y.owner mem offset) _
            λ (registry, sh).
              inner_registered-OneMore
                (record m { world = record m.world { reserve = reserve; registry = registry } })
                buf.ptr sh

  expand_arena_tier-OneMore :
      (m : Memory) (sz : ℕ)
      → OneMore inner.max_sheets
          (inner_count m)
          (expand_arena_tier y is_zero is_invalid meta inner inner_pair m sz)
  unfolding expand_arena_tier
  expand_arena_tier-OneMore m sz =
      bind-OneMore _ _ (try_mark meta is_zero is_invalid m.own inner_pair) _ λ (own, buf).
        if_cases (OneMore inner.max_sheets (inner_count m)) (y.failed_allocation buf) (λ _. refl)
          (λ _. expand_from-OneMore (record m { own = own }) buf sz)

  retry-ends :
      (n : ℕ) (f : Memory → Marked) (o : Option Memory)
      → OneMore inner.max_sheets n o
      → ((m : Memory) → inner_count m ≡ n + 1 → n < inner.max_sheets → f m ≢ out_of_rounds)
      → retry f o ≢ out_of_rounds
  retry-ends n f none _ _ = λ e. cc
  retry-ends n f (some m) v ends = ends m v.0 v.1

  mark_round-ends :
      (next : Memory → Marked) (m : Memory) (o : Option (Sheet Buddy × Chunk))
      → ((m' : Memory)
          → inner_count m' ≡ inner_count m + 1
          → inner_count m < inner.max_sheets
          → next m' ≢ out_of_rounds)
      → mark_round y is_zero is_invalid meta inner inner_pair next m o ≢ out_of_rounds
  unfolding mark_round reload_arena_buf
  mark_round-ends next m none ends = λ e. cc
  mark_round-ends next m (some (sh, buf)) ends =
      if_cases (λ (r : Marked). r ≢ out_of_rounds) (y.failed_allocation buf)
        (λ _. retry-ends (inner_count m) next _ (expand_arena_tier-OneMore _ _) ends) (λ _ e. cc)

  -- `__mark_arena` ends: one round for each place that the index of the tier for nodes has left, and one
  -- more, are enough, whatever the system answers.
  pub mark_arena-ends :
      (fuel : ℕ) (m : Memory) (sz : ℕ)
      → inner.max_sheets < fuel + inner_count m
      → inner_count m ≤ inner.max_sheets
      → mark_arena y is_zero is_invalid meta inner inner_pair fuel m sz ≢ out_of_rounds
  unfolding mark_arena
  mark_arena-ends zero m sz p q = absurd (omega arith)
  mark_arena-ends (suc fuel) m sz p q =
      mark_round-ends (λ m'. mark_arena y is_zero is_invalid meta inner inner_pair fuel m' sz) m _
        (λ m' e less. mark_arena-ends fuel m' sz (omega arith) (omega arith))
