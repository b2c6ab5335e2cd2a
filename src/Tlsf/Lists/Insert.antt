-- ===== src/Tlsf/Lists/Insert.antt =====
-- `fl_insert` of src/cache_list.hpp keeps the free lists linked.
use abcmalloc.Base.{
  ℕ, ◌≡◌, ◌≢◌, sym, ap, ◌∙◌, subst, Bool, true, false, ◌==◌, update, arith, inl, inr, Bool-cases,
  if_cases, eq-of-==, ne-of-==, update_cases, update_self, update-ne,
}
use abcmalloc.Tlsf.FreeList.{set_prev_free_if}
use abcmalloc.Tlsf.Lists.{Linked}

module _ {free : ℕ → Bool} {lst heads next prev : ℕ → ℕ} (v : Linked free lst heads next prev) where
  module _ (b : ℕ) (out : free b ≡ false) where
    abbrev old_head : ℕ
    old_head = heads (lst b)

    abbrev next_after : ℕ → ℕ
    next_after = update next b old_head

    abbrev prev_after : ℕ → ℕ
    prev_after = set_prev_free_if (update prev b 0) old_head b

    free_ne : (c : ℕ) → free c ≡ true → b ≢ c
    free_ne c h e = ground (arith, ap free e)

    head_ne : (i : ℕ) → heads i ≢ 0 → b ≢ heads i
    head_ne i h = free_ne (heads i) (v.head i h).0

    prev_self : prev_after b ≡ 0
    prev_self =
        if_cases (λ (f : ℕ → ℕ). f b ≡ 0) (old_head == 0) (λ _. update_self prev b 0)
          (λ e.
            update-ne (update prev b 0) old_head b b
              (λ f. head_ne (lst b) (ne-of-== old_head 0 e) (sym f))
            ∙ update_self prev b 0)

    prev_head : old_head ≢ 0 → prev_after old_head ≡ b
    prev_head h =
        if_cases (λ (f : ℕ → ℕ). f old_head ≡ b) (old_head == 0)
          (λ e. absurd (h (eq-of-== old_head 0 e))) (λ _. update_self (update prev b 0) old_head b)

    prev_other : (c : ℕ) → b ≢ c → (old_head ≢ 0 → old_head ≢ c) → prev_after c ≡ prev c
    prev_other c p q =
        if_cases (λ (f : ℕ → ℕ). f c ≡ prev c) (old_head == 0) (λ _. update-ne prev b 0 c p)
          (λ e.
            update-ne (update prev b 0) old_head b c (q (ne-of-== old_head 0 e))
            ∙ update-ne prev b 0 c p)

    still_free : (c : ℕ) → free c ≡ true → update free b true c ≡ true
    still_free c h = ground (arith, h)

    was_free : (c : ℕ) → update free b true c ≡ true → b ≢ c → free c ≡ true
    was_free c h n = ground (arith, h)

    not_zero : (c : ℕ) → free c ≡ true → c ≢ 0
    not_zero c h e = ground (arith, ap free e, v.not_null)

    -- A block is the new one, the one that was the head, or another.
    data Spot (c : ℕ) : Type 0 where
      new : b ≡ c → Spot c
      old : b ≢ c → old_head ≢ 0 → old_head ≡ c → Spot c
      other : b ≢ c → (old_head ≢ 0 → old_head ≢ c) → Spot c

    spot : (c : ℕ) → Spot c
    spot c = elim (Bool-cases (b == c)) [
      | inl e ↦ new (eq-of-== b c e)
      | inr e ↦ elim (Bool-cases (old_head == c)) [
        | inr f ↦ other (ne-of-== b c e) (λ _. ne-of-== old_head c f)
        | inl f ↦ elim (Bool-cases (old_head == 0)) [
          | inl z ↦ other (ne-of-== b c e) (λ n. absurd (n (eq-of-== old_head 0 z)))
          | inr z ↦ old (ne-of-== b c e) (ne-of-== old_head 0 z) (eq-of-== old_head c f)
        ]
      ]
    ]

    -- A block that is not free goes to the front of its list.
    pub Linked-insert :
        b ≢ 0 → Linked (update free b true) lst (update heads (lst b) b) next_after prev_after
    Linked-insert p = record {
      not_null = ground (arith, v.not_null);
      head = λ i.
          update_cases
            (λ (x : ℕ). x ≢ 0 → (update free b true x ≡ true) × (lst x ≡ i) × (prev_after x ≡ 0))
            heads (lst b) b i (λ e _. (update_self free b true, e, prev_self))
            (λ n h.
              let (f, l, z) = v.head i h in
              (
                still_free (heads i) f,
                l,
                prev_other (heads i) (head_ne i h)
                      (λ q s. absurd (n (sym (v.head (lst b) q).1 ∙ ap lst s ∙ l)))
                    ∙ z,
              ));
      after = λ c h.
          update_cases
            (λ (x : ℕ).
              x ≢ 0 → (update free b true x ≡ true) × (lst x ≡ lst c) × (prev_after x ≡ c))
            next b old_head c
            (λ e n.
              let (f, l, _) = v.head (lst b) n in
              (still_free old_head f, l ∙ ap lst e, prev_head n ∙ e))
            (λ m n.
              let (f, l, z) = v.after c (was_free c h m) n in
              (
                still_free (next c) f,
                l,
                prev_other (next c) (free_ne (next c) f) (λ q s. absurd (
                      not_zero c (was_free c h m) (sym z ∙ ap prev (sym s) ∙ (v.head (lst b) q).2)))
                    ∙ z,
              ));
      first = λ c h e. front p c h e (spot c);
      before = λ c h n. behind c h n (spot c);
    }
      where
        front :
            b ≢ 0
            → (c : ℕ) → update free b true c ≡ true
            → prev_after c ≡ 0
            → Spot c
            → update heads (lst b) b (lst c) ≡ c
        front p c h e (new s) =
            update_cases (λ (x : ℕ). x ≡ c) heads (lst b) b (lst c) (λ _. s)
              (λ n. absurd (n (ap lst s)))
        front p c h e (old m n s) = absurd (p (sym (prev_head n) ∙ ap prev_after s ∙ e))
        front p c h e (other m n) =
            let top = v.first c (was_free c h m) (sym (prev_other c m n) ∙ e) in
            update_cases (λ (x : ℕ). x ≡ c) heads (lst b) b (lst c)
              (λ q. absurd (
                n (λ z. not_zero c (was_free c h m) (sym (ap heads q ∙ top) ∙ z))
                  (ap heads q ∙ top)))
              (λ _. top)

        behind :
            (c : ℕ)
            → update free b true c ≡ true
            → prev_after c ≢ 0
            → Spot c
            → (update free b true (prev_after c) ≡ true)
              × (lst (prev_after c) ≡ lst c)
              × (next_after (prev_after c) ≡ c)
        behind c h n (new s) = absurd (n (ap prev_after (sym s) ∙ prev_self))
        behind c h n (old m q s) =
            subst (λ (x : ℕ). (update free b true x ≡ true) × (lst x ≡ lst c) × (next_after x ≡ c))
              (sym (ap prev_after (sym s) ∙ prev_head q))
              (
                update_self free b true,
                sym (v.head (lst b) q).1 ∙ ap lst s,
                update_self next b old_head ∙ s,
              )
        behind c h n (other m q) =
            let e = prev_other c m q in
            let (f, l, z) = v.before c (was_free c h m) (λ w. n (e ∙ w)) in
            subst (λ (x : ℕ). (update free b true x ≡ true) × (lst x ≡ lst c) × (next_after x ≡ c))
              (sym e)
              (
                still_free (prev c) f,
                l,
                update-ne next b old_head (prev c) (free_ne (prev c) f) ∙ z,
              )
