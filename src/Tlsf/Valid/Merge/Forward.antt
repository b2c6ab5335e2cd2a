-- ===== src/Tlsf/Valid/Merge/Forward.antt =====
-- The forward merge of `coalesce_and_free` (src/cache_list.hpp).
use abcmalloc.Base.{
  ℕ, ◌+◌, ◌%◌, ◌^◌, ◌≡◌, refl, sym, ap, ◌∙◌, subst, Bool, true, false, ◌==◌, arith, update,
  if_cases, update_self, update-ne, inl, inr, Bool-cases, eq-of-==, ne-of-==,
}
use abcmalloc.Tlsf.State.{Tlsf}
use abcmalloc.Tlsf.FreeList.{merge_forward}
use abcmalloc.Tlsf.Core.{Core}
use abcmalloc.Tlsf.Core.Lists.{fl_remove-Core}
use abcmalloc.Tlsf.Core.Merge.{joined-Core, Core-back}
use abcmalloc.Tlsf.Valid.{SaysBut}
use abcmalloc.Tlsf.Valid.Merge.{removed, fl_remove-removed, unused, links, Mid, MidOf, mid}

module _ {s : Tlsf} {start free : ℕ → Bool} (v : Core s start free) (block : ℕ)
    (here : start block ≡ true) (out : free block ≡ false) (says : SaysBut block s start free) where
  abbrev next : ℕ
  next = block + s.bsize block

  abbrev taken_over : Tlsf
  taken_over = record (removed s next) {
    bsize = update s.bsize block ((s.bsize block + s.bsize next) % 2 ^ 32);
  }

  next_free_block : (s.flags next == 0) ≡ true → (start next ≡ true) × (free next ≡ true)
  next_free_block e = elim (v.tiled.next block here) [
    | inl w ↦ absurd (ground (arith, says.high_end, ap s.flags w))
    | inr h ↦ (h, sym (says.blocks next h (omega (arith, (v.tiled.sized block here).0))) ∙ e)
  ]

  module _ (h : start next ≡ true) (f : free next ≡ true) where
    out_still : update free next false block ≡ false
    out_still = update-ne free next false block (omega (arith, (v.tiled.sized block here).0)) ∙ out

    merged-Core :
        Core
          (record taken_over { prev_phys = links true taken_over block })
          (update start next false)
          (update free next false)
    merged-Core =
        Core-back
          (joined-Core
            (subst (λ (t : Tlsf). Core t start (update free next false)) (fl_remove-removed s next)
              (fl_remove-Core v next f))
            block next here h refl out_still (update_self free next false))
          (links true taken_over block)
          (λ c.
            ap (λ (z : ℕ). update s.prev_phys z block c) {x = block + taken_over.bsize block}
              {y = next + s.bsize next}
              (omega (
                arith,
                update_self s.bsize block ((s.bsize block + s.bsize next) % 2 ^ 32),
                v.tiled.room,
                (v.tiled.inside block here).0,
                (v.tiled.inside next h).1,
              )))

    merged-Mid :
        Mid s start free block taken_over true (update start next false) (update free next false)
    merged-Mid = record {
      core = merged-Core;
      here = update-ne start next false block (omega (arith, (v.tiled.sized block here).0)) ∙ here;
      out = out_still;
      says = record {
        blocks = λ c p m. elim (Bool-cases (next == c)) [
          | inl e ↦ absurd (ground (arith, p, e))
          | inr e ↦
              rw e (says.blocks c (sym (update-ne start next false c (ne-of-== next c e)) ∙ p) m)
        ];
        low_end = says.low_end;
        high_end = says.high_end;
      };
      same_used = λ c. elim (Bool-cases (next == c)) [
        | inl e ↦ rw e (sym (unused (start c) (free c) (sym (ap free (eq-of-== next c e)) ∙ f)))
        | inr e ↦ rw e refl
      ];
      same_size = λ c m. update-ne s.bsize block ((s.bsize block + s.bsize next) % 2 ^ 32) c m;
    }

  pub merge_forward-MidOf : MidOf s start free block (merge_forward s block)
  unfolding merge_forward
  merge_forward-MidOf =
      if_cases (λ (r : Tlsf × Bool). MidOf s start free block r) (s.flags next == 0)
        (λ e.
          let (h, f) = next_free_block e in
          subst
            (λ (t : Tlsf). MidOf s start free block (
              record t { bsize = update s.bsize block ((s.bsize block + s.bsize next) % 2 ^ 32) },
              true,
            ))
            (sym (fl_remove-removed s next))
            (mid taken_over true (update start next false) (update free next false)
              (merged-Mid h f)))
        (λ _. mid s false start free (record {
          core = v;
          here = here;
          out = out;
          says = says;
          same_used = λ c. refl;
          same_size = λ c m. refl;
        }))
