-- ===== src/Tlsf/Valid/Merge.antt =====
-- `coalesce_and_free` of src/cache_list.hpp: the block that is freed takes over the free blocks next to
-- it, and the list stays valid.
pub mod Forward
pub mod Backward
use abcmalloc.Base.{
  ℕ, ◌+◌, ◌-◌, ◌*◌, ◌/◌, ◌%◌, ◌^◌, ◌<◌, ◌≤◌, ◌≡◌, ◌≢◌, ◌⊎◌, refl, sym, ap, ◌∙◌, subst, Bool, true,
  false, ◌==◌, if◌then◌else◌, arith, update, if_cases, update_cases, update_self, update-ne, inl,
  inr, Bool-cases, eq-of-==, ne-of-==, not, ◌&&◌, ◌||◌, ==_ne,
}
use abcmalloc.Tlsf.State.{Tlsf, idx_of, mapping_insert, next_phys}
use abcmalloc.Tlsf.FreeList.{
  fl_insert, fl_remove, unmark_if_empty, merge_forward, merge_backward, relink, coalesce_and_free,
  set_prev_free_if,
}
use abcmalloc.Tlsf.Core.{Core, block_not_zero}
use abcmalloc.Tlsf.Core.Lists.{fl_remove-Core, fl_insert-Core}
use abcmalloc.Tlsf.Core.Merge.{joined_at, joined-Core, Core-back}
use abcmalloc.Tlsf.Valid.{Valid, SaysBut, fl_insert-SaysBut, not_low_end, stop}

-- The fields that `fl_remove` writes.
abbrev pub removed : Tlsf → ℕ → Tlsf
removed s b = record s {
  next_free = (fl_remove s b).next_free;
  prev_free = (fl_remove s b).prev_free;
  heads = (fl_remove s b).heads;
  fl_bitmap = (fl_remove s b).fl_bitmap;
  sl_bitmap = (fl_remove s b).sl_bitmap;
}

pub fl_remove-removed : (s : Tlsf) (b : ℕ) → fl_remove s b ≡ removed s b
unfolding fl_remove unmark_if_empty
fl_remove-removed s b =
    elim (Bool-cases (
      (if s.prev_free b == 0
          then update s.heads (idx_of (mapping_insert (s.bsize b))) (s.next_free b)
          else s.heads)
        (idx_of (mapping_insert (s.bsize b)))
      == 0)) [ inl e ↦ rw e refl | inr e ↦ rw e refl ]

-- `fl_remove` does not read the links between neighbours.
pub fl_remove-back :
    (s : Tlsf) (b : ℕ) (back : ℕ → ℕ)
    → fl_remove (record s { prev_phys = back }) b ≡ record (removed s b) { prev_phys = back }
unfolding fl_remove unmark_if_empty
fl_remove-back s b back =
    elim (Bool-cases (
      (if s.prev_free b == 0
          then update s.heads (idx_of (mapping_insert (s.bsize b))) (s.next_free b)
          else s.heads)
        (idx_of (mapping_insert (s.bsize b)))
      == 0)) [ inl e ↦ rw e refl | inr e ↦ rw e refl ]

-- The blocks that are handed out.
abbrev pub used : (start free : ℕ → Bool) → ℕ → Bool
used start free c = start c && not (free c)

pub unused : (x y : Bool) → y ≡ true → (x && not y) ≡ false
unused true y h = ap not h
unused false y h = refl

-- The links between neighbours, with the one that `relink` would write.
abbrev pub links : Bool → Tlsf → (block : ℕ) → ℕ → ℕ
links m t block = if m then update t.prev_phys (block + t.bsize block) block else t.prev_phys

pub relink-links :
    (m : Bool) (t : Tlsf) (block : ℕ) → relink m t block ≡ record t { prev_phys = links m t block }
unfolding relink
relink-links true t block = refl
relink-links false t block = refl

-- What holds between the two merges of the block that is freed.
pub record Mid (s : Tlsf) (start free : ℕ → Bool) (block : ℕ) (t : Tlsf) (m : Bool)
    (start' free' : ℕ → Bool) : Type 0 where
  pub core : Core (record t { prev_phys = links m t block }) start' free'
  pub here : start' block ≡ true
  pub out : free' block ≡ false
  pub says : SaysBut block t start' free'
  pub same_used : (c : ℕ) → used start' free' c ≡ used start free c
  pub same_size : (c : ℕ) → block ≢ c → t.bsize c ≡ s.bsize c

pub data MidOf (s : Tlsf) (start free : ℕ → Bool) (block : ℕ) : Tlsf × Bool → Type 0 where
  mid :
      (t : Tlsf) (m : Bool) (start' free' : ℕ → Bool)
      → Mid s start free block t m start' free'
      → MidOf s start free block (t, m)

-- A list after a block of it was freed.
pub data Freed (s : Tlsf) (start free : ℕ → Bool) (block : ℕ) : Tlsf → Type 0 where
  freed :
      (u : Tlsf) (start' free' : ℕ → Bool)
      → Valid u start' free'
      → ((c : ℕ) → used start' free' c ≡ update (used start free) block false c)
      → ((c : ℕ) → block ≢ c → used start free c ≡ true → u.bsize c ≡ s.bsize c)
      → Freed s start free block u
