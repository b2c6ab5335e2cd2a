-- ===== src/Tlsf/Core/Lists.antt =====
-- `fl_insert`, `fl_remove` and the head that `find_free` takes (src/cache_list.hpp).
use abcmalloc.Base.{
  ℕ, ◌≡◌, ◌≢◌, sym, ap, ◌∙◌, Bool, true, false, ◌==◌, if◌then◌else◌, update, arith, inl, inr,
  Bool-cases, if_cases, eq-of-==, ne-of-==,
}
use abcmalloc.Tlsf.State.{Tlsf, fi, idx_of, mapping_insert}
use abcmalloc.Tlsf.FreeList.{fl_insert, fl_remove, unmark_if_empty, set_prev_free_if}
use abcmalloc.Tlsf.Lists.{list_of}
use abcmalloc.Tlsf.Lists.Insert.{Linked-insert}
use abcmalloc.Tlsf.Lists.Remove.{Linked-remove, heads_other}
use abcmalloc.Tlsf.Bitmaps.{Marked, Marked-set, Marked-unmark}
use abcmalloc.Tlsf.Core.{Core, block_not_zero, class_bounds}

module _ {s : Tlsf} {start free : ℕ → Bool} (v : Core s start free) where
  -- A block that is in no list enters one.
  pub fl_insert-Core :
      (b : ℕ) → start b ≡ true → free b ≡ false → Core (fl_insert s b) start (update free b true)
  unfolding fl_insert
  fl_insert-Core b h out = record {
    based = v.based;
    in_space = v.in_space;
    levels = v.levels;
    tiled = v.tiled;
    subset = λ a.
        if_cases (λ (x : Bool). x ≡ true → start a ≡ true) (b == a)
          (λ e _. ap start (sym (eq-of-== b a e)) ∙ h) (λ _. v.subset a);
    linked = Linked-insert v.linked b out (block_not_zero v b h);
    marked =
        let (_, p, q) = class_bounds v b h in
        Marked-set v.marked (fi (mapping_insert (s.bsize b))) (mapping_insert (s.bsize b)).si p q b
          (block_not_zero v b h);
  }

  -- The lists after the links of a block were taken out, before the bitmaps.
  abbrev unlinked : ℕ → Tlsf
  unlinked b = record s {
    next_free =
        if s.prev_free b == 0
        then s.next_free
        else update s.next_free (s.prev_free b) (s.next_free b);
    heads =
        if s.prev_free b == 0 then update s.heads (list_of s.bsize b) (s.next_free b) else s.heads;
    prev_free = set_prev_free_if s.prev_free (s.next_free b) (s.prev_free b);
  }

  list_not_empty :
      (b : ℕ)
      → free b ≡ true
      → (unlinked b).heads (list_of s.bsize b) ≢ 0
      → s.heads (list_of s.bsize b) ≢ 0
  list_not_empty b h n z = elim (Bool-cases (s.prev_free b == 0)) [
    | inl e ↦
        block_not_zero v b (v.subset b h)
          (sym (v.linked.first b h (eq-of-== (s.prev_free b) 0 e)) ∙ z)
    | inr e ↦ n (
        heads_other v.linked b h (list_of s.bsize b) (λ w. absurd (ne-of-== (s.prev_free b) 0 e w))
        ∙ z)
  ]

  unlinked-Core :
      (b : ℕ)
      → free b ≡ true
      → (fl : ℕ) (sl : ℕ → ℕ) → Marked fl sl (unlinked b).heads
      → Core (record (unlinked b) { fl_bitmap = fl; sl_bitmap = sl }) start (update free b false)
  unlinked-Core b h fl sl m = record {
    based = v.based;
    in_space = v.in_space;
    levels = v.levels;
    tiled = v.tiled;
    subset = λ a.
        if_cases (λ (x : Bool). x ≡ true → start a ≡ true) (b == a) (λ _ w. ground arith)
          (λ _. v.subset a);
    linked = Linked-remove v.linked b h;
    marked = m;
  }

  -- A free block leaves its list.
  pub fl_remove-Core : (b : ℕ) → free b ≡ true → Core (fl_remove s b) start (update free b false)
  unfolding fl_remove unmark_if_empty
  fl_remove-Core b h =
      let c = mapping_insert (s.bsize b) in
      let (_, p, q) = class_bounds v b (v.subset b h) in
      let (emptied, filled) =
        Marked-unmark v.marked (fi c) c.si p q (unlinked b).heads
          (λ i n. heads_other v.linked b h i (λ _. n)) (list_not_empty b h) in
      if_cases (λ (t : Tlsf). Core t start (update free b false))
        ((unlinked b).heads (idx_of c) == 0)
        (λ e. unlinked-Core b h _ _ (emptied (eq-of-== ((unlinked b).heads (idx_of c)) 0 e)))
        (λ e.
          unlinked-Core b h s.fl_bitmap s.sl_bitmap
            (filled (ne-of-== ((unlinked b).heads (idx_of c)) 0 e)))
