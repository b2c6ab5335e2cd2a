-- ===== src/Tlsf/Valid/Merge/Backward.antt =====
-- The backward merge of `coalesce_and_free` (src/cache_list.hpp), and the whole function.
use abcmalloc.Base.{
  ℕ, ◌+◌, ◌%◌, ◌^◌, ◌≡◌, ◌≢◌, ◌⊎◌, refl, sym, ap, ◌∙◌, subst, Bool, true, false, ◌==◌,
  if◌then◌else◌, arith, update, if_cases, update_self, update-ne, inl, inr, Bool-cases, eq-of-==,
  ne-of-==, not, ◌&&◌, ◌||◌,
}
use abcmalloc.Tlsf.State.{Tlsf}
use abcmalloc.Tlsf.FreeList.{fl_insert, merge_forward, merge_backward, relink, coalesce_and_free}
use abcmalloc.Tlsf.Core.{Core}
use abcmalloc.Tlsf.Core.Lists.{fl_remove-Core, fl_insert-Core}
use abcmalloc.Tlsf.Core.Merge.{joined-Core, Core-back}
use abcmalloc.Tlsf.Valid.{SaysBut, fl_insert-SaysBut, not_low_end}
use abcmalloc.Tlsf.Valid.Merge.{
  removed, fl_remove-removed, fl_remove-back, used, unused, links, relink-links, Mid, MidOf, mid,
  Freed, freed,
}
use abcmalloc.Tlsf.Valid.Merge.Forward.{merge_forward-MidOf}

-- Of two writes of one link, the second stays.
overwritten :
    (m : Bool) (p : ℕ → ℕ) (x a b c : ℕ)
    → update p x b c ≡ update (if m then update p x a else p) x b c
overwritten false p x a b c = refl
overwritten true p x a b c = elim (Bool-cases (x == c)) [ inl e ↦ rw e refl | inr e ↦ rw e refl ]

and_right : (x y : Bool) → (x && y) ≡ true → y ≡ true
and_right true y h = h
and_right false y h = absurd (ground (arith, h))

or_false : (m : Bool) → (m || false) ≡ m
or_false true = refl
or_false false = refl

or_true : (m : Bool) → (m || true) ≡ true
or_true true = refl
or_true false = refl

module _ {s : Tlsf} {start free : ℕ → Bool} {block : ℕ} {t : Tlsf} {m : Bool}
    {start' free' : ℕ → Bool} (v : Mid s start free block t m start' free') where
  abbrev linked_mid : Tlsf
  linked_mid = record t { prev_phys = links m t block }

  -- The last step of a merge that leaves the block `first`.
  closed :
      (w : Tlsf) (start2 free2 : ℕ → Bool) (first : ℕ)
      → Core w start2 free2
      → start2 first ≡ true
      → free2 first ≡ false
      → SaysBut first w start2 free2
      → ((c : ℕ) → used start2 (update free2 first true) c ≡ update (used start free) block false c)
      → ((c : ℕ) → block ≢ c → used start free c ≡ true → w.bsize c ≡ s.bsize c)
      → Freed s start free block (fl_insert w first)
  unfolding fl_insert
  closed w start2 free2 first core h o says u sizes =
      let r =
        fl_insert-SaysBut core first h w.base (λ c p n _. says.blocks c p n) says.low_end
          says.high_end in
      freed (fl_insert w first) start2 (update free2 first true)
        (record {
          core = fl_insert-Core core first h o;
          says = λ c p. r.blocks c p (λ e. not_low_end core c p (sym e));
          low_end = r.low_end;
          high_end = r.high_end;
        })
        u sizes

  used_alone :
      (c : ℕ) → used start' (update free' block true) c ≡ update (used start free) block false c
  used_alone c = elim (Bool-cases (block == c)) [
    | inl e ↦ rw e (unused (start' c) true refl)
    | inr e ↦ rw e (v.same_used c)
  ]

  alone : Freed s start free block (fl_insert (relink (m || false) t block) block)
  alone =
      rw (or_false m, relink-links m t block)
        (closed linked_mid start' free' block v.core v.here v.out
          (record { blocks = v.says.blocks; low_end = v.says.low_end; high_end = v.says.high_end })
          used_alone (λ c n _. v.same_size c n))

  abbrev before : ℕ
  before = t.prev_phys block

  links_here : links m t block block ≡ before
  links_here =
      if_cases (λ (f : ℕ → ℕ). f block ≡ before) m
        (λ _.
          update-ne t.prev_phys (block + t.bsize block) block block
            (omega (arith, (v.core.tiled.sized block v.here).0)))
        (λ _. refl)

  before_free_block :
      (t.flags before == 0) ≡ true
      → (start' before ≡ true) × (before + t.bsize before ≡ block) × (free' before ≡ true)
  before_free_block e = by (
      subst
        (λ (x : ℕ).
          ((block ≡ t.base + 32) × (x ≡ t.base)) ⊎ ((start' x ≡ true) × (x + t.bsize x ≡ block)))
        links_here (v.core.tiled.prev block v.here))
    where
      by :
          ((block ≡ t.base + 32) × (before ≡ t.base))
            ⊎ ((start' before ≡ true) × (before + t.bsize before ≡ block))
          → (start' before ≡ true) × (before + t.bsize before ≡ block) × (free' before ≡ true)
      by (inl (x, y)) = absurd (ground (arith, v.says.low_end, ap t.flags y))
      by (inr (h, y)) = (
        h,
        y,
        sym (v.says.blocks before h (λ z. omega (arith, (v.core.tiled.sized before h).0))) ∙ e,
      )

  abbrev united : Tlsf
  united = record (removed t before) {
    bsize = update t.bsize before ((t.bsize before + t.bsize block) % 2 ^ 32);
  }

  module _ (h : start' before ≡ true) (touch : before + t.bsize before ≡ block)
      (f : free' before ≡ true) where
    not_block : before ≢ block
    not_block e = omega (arith, (v.core.tiled.sized before h).0)

    united-Core :
        Core
          (record united { prev_phys = update t.prev_phys (before + united.bsize before) before })
          (update start' block false)
          (update free' before false)
    united-Core =
        Core-back
          (joined-Core
            (subst (λ (w : Tlsf). Core w start' (update free' before false))
              (fl_remove-back t before (links m t block)) (fl_remove-Core v.core before f))
            before block h v.here touch (update_self free' before false)
            (update-ne free' before false block not_block ∙ v.out))
          (update t.prev_phys (before + united.bsize before) before)
          (λ c.
            ap (λ (z : ℕ). update t.prev_phys z before c) {x = before + united.bsize before}
              {y = block + t.bsize block}
              (omega (
                arith,
                update_self t.bsize before ((t.bsize before + t.bsize block) % 2 ^ 32),
                v.core.tiled.room,
                (v.core.tiled.inside before h).0,
                (v.core.tiled.inside block v.here).1,
              ))
            ∙ overwritten m t.prev_phys (block + t.bsize block) block before c)

    united-SaysBut : SaysBut before united (update start' block false) (update free' before false)
    united-SaysBut = record {
      blocks = λ c p n. elim (Bool-cases (block == c)) [
        | inl e ↦ absurd (ground (arith, p, e))
        | inr e ↦
            v.says.blocks c (sym (update-ne start' block false c (ne-of-== block c e)) ∙ p)
              (ne-of-== block c e)
            ∙ sym (update-ne free' before false c n)
      ];
      low_end = v.says.low_end;
      high_end = v.says.high_end;
    }

    used_united :
        (c : ℕ)
        → used (update start' block false) (update (update free' before false) before true) c
          ≡ update (used start free) block false c
    used_united c = elim (Bool-cases (block == c)) [
      | inl e ↦ rw e refl
      | inr e ↦ elim (Bool-cases (before == c)) [
        | inl d ↦
            rw (e, d)
              (unused (start' c) true refl
                ∙ sym (unused (start' c) (free' c) (sym (ap free' (eq-of-== before c d)) ∙ f))
                ∙ v.same_used c)
        | inr d ↦ rw (e, d) (v.same_used c)
      ]
    ]

    size_united : (c : ℕ) → block ≢ c → used start free c ≡ true → united.bsize c ≡ s.bsize c
    size_united c n u =
        update-ne t.bsize before ((t.bsize before + t.bsize block) % 2 ^ 32) c (λ e.
          ground (
            arith,
            sym u ∙ sym (v.same_used c) ∙ unused (start' c) (free' c) (sym (ap free' e) ∙ f),
          ))
        ∙ v.same_size c n

    united-Freed : Freed s start free block (fl_insert (relink (m || true) united before) before)
    unfolding relink
    united-Freed = rw (or_true m) (
        closed
          (record united { prev_phys = update t.prev_phys (before + united.bsize before) before })
          (update start' block false) (update free' before false) before united-Core
          (update-ne start' block false before (λ e. not_block (sym e)) ∙ h)
          (update_self free' before false)
          (record {
            blocks = united-SaysBut.blocks;
            low_end = v.says.low_end;
            high_end = v.says.high_end;
          })
          used_united size_united)

  after_backward : Freed s start free block (
      let ((backward, first), merged') = merge_backward t block in
      fl_insert (relink (m || merged') backward first) first)
  unfolding merge_backward
  after_backward =
      if_cases
        (λ (r : (Tlsf × ℕ) × Bool).
          Freed s start free block (fl_insert (relink (m || r.1) r.0.0 r.0.1) r.0.1))
        (not (before == 0) && (t.flags before == 0))
        (λ e.
          let (h, touch, f) =
            before_free_block (and_right (not (before == 0)) (t.flags before == 0) e) in
          subst
            (λ (w : Tlsf). Freed s start free block (
              fl_insert
                (relink (m || true)
                  (record w {
                    bsize = update t.bsize before ((t.bsize before + t.bsize block) % 2 ^ 32);
                  })
                  before)
                before))
            (sym (fl_remove-removed t before)) (united-Freed h touch f))
        (λ _. alone)

module _ {s : Tlsf} {start free : ℕ → Bool} (v : Core s start free) (block : ℕ)
    (here : start block ≡ true) (out : free block ≡ false) (says : SaysBut block s start free) where
  -- Giving a block back to the lists keeps the list valid, whatever its own header said.
  pub coalesce_and_free-Freed : Freed s start free block (coalesce_and_free s block)
  unfolding coalesce_and_free
  coalesce_and_free-Freed = by (merge_forward s block) (merge_forward-MidOf v block here out says)
    where
      by :
          (r : Tlsf × Bool)
          → MidOf s start free block r
          → Freed s start free block (
              let ((backward, first), merged') = merge_backward r.0 block in
              fl_insert (relink (r.1 || merged') backward first) first)
      by _ (mid t m start' free' w) = after_backward w
