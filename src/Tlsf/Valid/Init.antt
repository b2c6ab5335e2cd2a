-- ===== src/Tlsf/Valid/Init.antt =====
-- The constructor of `__tlsf_list` and `init_memory` (src/cache_list.hpp).
use abcmalloc.Base.{
  ℕ, ◌+◌, ◌-◌, ◌*◌, ◌/◌, ◌%◌, ◌^◌, ◌<◌, ◌≤◌, ◌≡◌, ◌≢◌, ◌⊎◌, refl, sym, ap, ◌∙◌, subst, Bool, true,
  false, ◌==◌, arith, update, if_cases, update_cases, update_self, update-ne, ◌||◌, sub64, ltb, leb,
  inl, Option, some, le-of-ltb-false, le-of-leb-false,
}
use mathlib.Core.Option.{some-injective}
use abcmalloc.Base.Bits.{bit-zero}
use abcmalloc.Buddy.State.{Chunk}
use abcmalloc.Tlsf.State.{Tlsf, align_up}
use abcmalloc.Tlsf.FreeList.{fl_insert}
use abcmalloc.Tlsf.Alloc.{zero_arrays, no_region, levels_of, one_block, init_memory, construct}
use abcmalloc.Tlsf.Lists.{Linked, list_of}
use abcmalloc.Tlsf.Bitmaps.{Marked}
use abcmalloc.Tlsf.Tiles.{Tiled}
use abcmalloc.Tlsf.Core.{Core}
use abcmalloc.Tlsf.Core.Lists.{fl_insert-Core}
use abcmalloc.Tlsf.Valid.{Valid, fl_insert-SaysBut, not_low_end, stop}

levels_of-le : (total : ℕ) → levels_of total ≤ 26
unfolding levels_of
levels_of-le total = ground arith

no_lists : (lst next prev : ℕ → ℕ) → Linked (λ _. false) lst (λ _. 0) next prev
no_lists lst next prev = record {
  not_null = refl;
  head = λ i n. absurd (n refl);
  after = λ b h _. absurd (ground (arith, h));
  first = λ b h _. absurd (ground (arith, h));
  before = λ b h _. absurd (ground (arith, h));
}

no_marks : Marked 0 (λ _. 0) (λ _. 0)
no_marks = record {
  classes = λ f p. record { fits = omega arith; says = λ j q. bit-zero j };
  levels = record { fits = omega arith; says = λ j q. bit-zero j };
}

-- The set of one address.
abbrev pub only : ℕ → ℕ → Bool
only b = update (λ _. false) b true

only_eq : (b a : ℕ) → only b a ≡ true → b ≡ a
only_eq b a =
    update_cases (λ (x : Bool). x ≡ true → b ≡ a) (λ _. false) b true a (λ e _. e)
      (λ _ h. absurd (ground (arith, h)))

one_tile :
    (base first stop : ℕ) (bsize back : ℕ → ℕ)
    → base < first
    → stop < first + 2 ^ 32
    → first + bsize first ≡ stop
    → 64 ≤ bsize first
    → bsize first < 2 ^ 32
    → first % 32 ≡ 0
    → bsize first % 32 ≡ 0
    → back stop ≡ first
    → back first ≡ base
    → Tiled base first stop (only first) bsize back
one_tile base first stop bsize back below room ends low high steps sizes back_stop back_first =
    record {
      below = below;
      room = room;
      inside = at (λ a. (first ≤ a) × (a + bsize a ≤ stop)) (omega arith, omega arith);
      sized = at (λ a. (64 ≤ bsize a) × (bsize a < 2 ^ 32)) (low, high);
      aligned = at (λ a. (a % 32 ≡ 0) × (bsize a % 32 ≡ 0)) (steps, sizes);
      apart = λ a b p q l. absurd (omega (arith, only_eq first a p, only_eq first b q));
      next = at (λ a. (a + bsize a ≡ stop) ⊎ (only first (a + bsize a) ≡ true)) (inl ends);
      linked = at (λ a. back (a + bsize a) ≡ a) (ap back ends ∙ back_stop);
      prev =
          at
            (λ a.
              ((a ≡ first) × (back a ≡ base))
              ⊎ ((only first (back a) ≡ true) × (back a + bsize (back a) ≡ a)))
            (inl (refl, back_first));
    }
  where
    at : (P : ℕ → Type 0) → P first → (a : ℕ) → only first a ≡ true → P a
    at P h a p = subst P (only_eq first a p) h

-- The sentinels and the block between them, before it enters its list.
abbrev region : Tlsf → (aligned room : ℕ) → Tlsf
region s aligned room =
    let sized =
      zero_arrays (record s { base = aligned; total = room; fl_count = levels_of room }) in
    let end_at = aligned + 32 + room in
    let first = aligned + 32 in
    record sized {
      bsize = update (update (update s.bsize aligned 32) end_at 32) first (room % 2 ^ 32);
      flags = update (update (update s.flags aligned 1) end_at 1) first 0;
      prev_phys = update (update (update s.prev_phys aligned 0) first aligned) end_at first;
      next_free = update (update s.next_free aligned 0) end_at 0;
      prev_free = update (update s.prev_free aligned 0) end_at 0;
    }

module _ (s : Tlsf) (aligned room : ℕ) (nz : aligned ≢ 0) (steps : aligned % 32 ≡ 0)
    (low : 64 ≤ room) (high : room < 2 ^ 32) (sizes : room % 32 ≡ 0)
    (space : aligned + 64 + room ≤ 2 ^ 64) where
  abbrev first : ℕ
  first = aligned + 32

  abbrev end_at : ℕ
  end_at = aligned + 32 + room

  size_first : (region s aligned room).bsize first ≡ room
  unfolding zero_arrays
  size_first =
      update_self (update (update s.bsize aligned 32) end_at 32) first (room % 2 ^ 32) ∙ omega arith

  back_first : (region s aligned room).prev_phys first ≡ aligned
  unfolding zero_arrays
  back_first =
      update-ne (update (update s.prev_phys aligned 0) first aligned) end_at first first
        (omega arith)
      ∙ update_self (update s.prev_phys aligned 0) first aligned

  region-Core : Core (region s aligned room) (only first) (λ _. false)
  unfolding zero_arrays
  region-Core = record {
    based = nz;
    in_space = omega arith;
    levels = levels_of-le room;
    tiled =
        one_tile aligned first end_at (region s aligned room).bsize
          (region s aligned room).prev_phys (omega arith) (omega arith) (omega (arith, size_first))
          (omega (arith, size_first)) (omega (arith, size_first)) (omega arith)
          (ap (λ (x : ℕ). x % 32) size_first ∙ sizes)
          (update_self (update (update s.prev_phys aligned 0) first aligned) end_at first)
          back_first;
    subset = λ a h. absurd (ground (arith, h));
    linked =
        no_lists (list_of (region s aligned room).bsize) (region s aligned room).next_free
          (region s aligned room).prev_free;
    marked = no_marks;
  }

  flags_low : ((region s aligned room).flags aligned == 0) ≡ false
  unfolding zero_arrays
  flags_low =
      ap (λ (x : ℕ). x == 0)
        (update-ne (update (update s.flags aligned 1) end_at 1) first 0 aligned (omega arith)
          ∙ update-ne (update s.flags aligned 1) end_at 1 aligned (omega arith)
          ∙ update_self s.flags aligned 1)

  flags_high : ((region s aligned room).flags end_at == 0) ≡ false
  unfolding zero_arrays
  flags_high =
      ap (λ (x : ℕ). x == 0)
        (update-ne (update (update s.flags aligned 1) end_at 1) first 0 end_at (omega arith)
          ∙ update_self (update s.flags aligned 1) end_at 1)

  -- A region of one free block between the sentinels.
  pub one_block-Valid : Valid (one_block s aligned room) (only (aligned + 32)) (only (aligned + 32))
  unfolding one_block zero_arrays fl_insert
  one_block-Valid =
      let here : only first first ≡ true = update_self (λ _. false) first true in
      let core = fl_insert-Core region-Core first here refl in
      let r =
        fl_insert-SaysBut region-Core first here aligned (λ c p n _. absurd (n (only_eq first c p)))
          flags_low flags_high in
      record {
        core = core;
        says = λ c p. r.blocks c p (λ e. not_low_end core c p (sym e));
        low_end = r.low_end;
        high_end = r.high_end;
      }

-- A list over a region has one block, which is free.
pub init_memory-Valid :
    (s : Tlsf) (ptr len : ℕ)
    → ptr + len + 32 ≤ 2 ^ 64
    → (init_memory s ptr len).base ≢ 0
    → Valid
        (init_memory s ptr len)
        (only ((init_memory s ptr len).base + 32))
        (only ((init_memory s ptr len).base + 32))
unfolding init_memory no_region one_block fl_insert zero_arrays
init_memory-Valid s ptr len space =
    let adjust = sub64 (align_up ptr) ptr in
    let usable = (len - adjust) / 32 * 32 in
    let room = usable - 64 in
    if_cases ok_from (leb len adjust) (λ _ n. absurd (n refl))
      λ a.
        if_cases ok_from (ltb usable 128) (λ _ n. absurd (n refl))
          λ b.
            if_cases ok_from (ltb 0xFFFFFFFF room) (λ _ n. absurd (n refl))
              λ c n.
                let lo = le-of-ltb-false usable 128 b in
                let hi = le-of-ltb-false 0xFFFFFFFF room c in
                let l = le-of-leb-false len adjust a in
                one_block-Valid s (align_up ptr) room n (omega arith) (omega (arith, lo))
                  (omega (arith, hi)) (omega arith) (omega (arith, l, lo))
  where
    ok_from : Tlsf → Type 0
    ok_from t = t.base ≢ 0 → Valid t (only (t.base + 32)) (only (t.base + 32))

-- The constructor either refuses the memory, or makes a list without a region, or a valid one.
pub construct-Valid :
    (min : ℕ) (is_zero : Chunk → Bool) (m s : Tlsf) (mem : Chunk)
    → mem.ptr + mem.len + 32 ≤ 2 ^ 64
    → construct min is_zero m mem ≡ some s
    → s.base ≢ 0
    → Valid s (only (s.base + 32)) (only (s.base + 32))
unfolding construct
construct-Valid min is_zero m s mem space =
    if_cases
      (λ (o : Option Tlsf).
        o ≡ some s → s.base ≢ 0 → Valid s (only (s.base + 32)) (only (s.base + 32)))
      (is_zero mem || ltb mem.len min) (λ _ e _. cc)
      (λ _ e.
        subst (λ (t : Tlsf). t.base ≢ 0 → Valid t (only (t.base + 32)) (only (t.base + 32)))
          (some-injective _ _ e) (init_memory-Valid _ mem.ptr mem.len space))
