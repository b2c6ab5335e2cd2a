-- ===== src/Tlsf/Core/Find.antt =====
-- `find_free` (src/cache_list.hpp): the block that it takes leaves its list as by `fl_remove`, and is
-- large enough.
use abcmalloc.Base.{
  ℕ, ◌^◌, ◌<◌, ◌≤◌, ◌≡◌, ◌≢◌, refl, sym, subst, Bool, true, arith, Option, none, some, inl, inr,
  Bool-cases, ltb, lt-of-ltb, le-of-ltb-false,
}
use abcmalloc.Tlsf.State.{Tlsf, Class, fi, idx, mapping_insert, mapping_search}
use abcmalloc.Tlsf.FreeList.{fl_remove, take_head, take_picked, find_free, pick_list}
use abcmalloc.Tlsf.Mapping.{NotBefore, mapping_search-holds}
use abcmalloc.Tlsf.Search.{FromClass, Picks, pick_list-Picks}
use abcmalloc.Tlsf.Core.{Core, class_bounds}

-- The answers of `find_free`: none, if all lists of the classes that are searched are empty, or a free
-- block that holds the size, which has left its list.
pub data Found (s : Tlsf) (free : ℕ → Bool) (needed : ℕ) : Tlsf × ℕ → Type 0 where
  not_found : Picks s (mapping_search needed) none → Found s free needed (s, 0)
  found : (b : ℕ) → free b ≡ true → needed ≤ s.bsize b → Found s free needed (fl_remove s b, b)

search_si : (needed : ℕ) → (mapping_search needed).si < 16
unfolding mapping_search mapping_insert
search_si needed = omega arith

module _ {s : Tlsf} {start free : ℕ → Bool} (v : Core s start free) where
  -- The class of the head of a list is the one of the list.
  head_class :
      (f j : ℕ)
      → f < 26
      → j < 16
      → s.heads (idx f j) ≢ 0
      → (6 ≤ (mapping_insert (s.bsize (s.heads (idx f j)))).fl)
        × (fi (mapping_insert (s.bsize (s.heads (idx f j)))) ≡ f)
        × ((mapping_insert (s.bsize (s.heads (idx f j)))).si ≡ j)
  head_class f j p q n =
      let b = s.heads (idx f j) in
      let (h, l, _) = v.linked.head (idx f j) n in
      let (x, y, z) = class_bounds v b (v.subset b h) in (x, omega (arith, l), omega (arith, l))

  take_head-fl_remove :
      (f j : ℕ)
      → f < 26
      → j < 16
      → s.heads (idx f j) ≢ 0
      → take_head s f j ≡ (fl_remove s (s.heads (idx f j)), s.heads (idx f j))
  unfolding take_head fl_remove
  take_head-fl_remove f j p q n =
      let (_, e, d) = head_class f j p q n in rw ((v.linked.head (idx f j) n).2, e, d) refl

  FromClass-NotBefore :
      (needed f j : ℕ) (d : Class)
      → FromClass (mapping_search needed) f j
      → 6 ≤ d.fl
      → fi d ≡ f
      → d.si ≡ j
      → NotBefore (mapping_search needed) d
  FromClass-NotBefore needed f j d (inl l) p e g = inl (omega arith)
  FromClass-NotBefore needed f j d (inr (h, l)) p e g =
      elim (Bool-cases (ltb (mapping_search needed).fl d.fl)) [
        | inl t ↦ inl (lt-of-ltb (mapping_search needed).fl d.fl t)
        | inr t ↦
            inr (omega (arith, le-of-ltb-false (mapping_search needed).fl d.fl t), omega arith)
      ]

  pub find_free-Found :
      (needed : ℕ) → 64 ≤ needed → needed < 2 ^ 63 → Found s free needed (find_free s needed)
  unfolding find_free take_picked
  find_free-Found needed low high =
      by (pick_list s (mapping_search needed))
        (pick_list-Picks s (mapping_search needed) v.levels (search_si needed) v.marked)
    where
      by :
          (o : Option (ℕ × ℕ))
          → Picks s (mapping_search needed) o
          → Found s free needed (take_picked s o)
      by none w = not_found w
      by (some (f, j)) (p, q, from, n) =
          let b = s.heads (idx f j) in
          let (h, _, _) = v.linked.head (idx f j) n in
          let (x, y, z) = head_class f j p q n in
          let (low', high') = v.tiled.sized b (v.subset b h) in
          subst (λ (r : Tlsf × ℕ). Found s free needed r) (sym (take_head-fl_remove f j p q n))
            (found b h (
              mapping_search-holds needed (s.bsize b) low high low' high'
                (FromClass-NotBefore needed f j (mapping_insert (s.bsize b)) from x y z)))
