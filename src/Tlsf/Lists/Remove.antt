-- ===== src/Tlsf/Lists/Remove.antt =====
-- `fl_remove` of src/cache_list.hpp keeps the free lists linked.
use abcmalloc.Base.{
  ℕ, ◌≡◌, ◌≢◌, refl, sym, ap, ◌∙◌, subst, Bool, true, false, ◌==◌, if◌then◌else◌, update, arith,
  inl, inr, ◌⊎◌, Bool-cases, if_cases, eq-of-==, ne-of-==, update_cases, update_self, update-ne,
}
use abcmalloc.Tlsf.FreeList.{set_prev_free_if}
use abcmalloc.Tlsf.Lists.{Linked}

module _ {free : ℕ → Bool} {lst heads next prev : ℕ → ℕ} (v : Linked free lst heads next prev) where
  not_zero : (c : ℕ) → free c ≡ true → c ≢ 0
  not_zero c h e = ground (arith, ap free e, v.not_null)

  module _ (b : ℕ) (here : free b ≡ true) where
    abbrev heads_after : ℕ → ℕ
    heads_after = if prev b == 0 then update heads (lst b) (next b) else heads

    abbrev next_after : ℕ → ℕ
    next_after = if prev b == 0 then next else update next (prev b) (next b)

    abbrev prev_after : ℕ → ℕ
    prev_after = set_prev_free_if prev (next b) (prev b)

    abbrev still : ℕ → Bool
    still = update free b false

    still_free : (c : ℕ) → free c ≡ true → b ≢ c → still c ≡ true
    still_free c h n = ground (arith, h)

    was_free : (c : ℕ) → still c ≡ true → (free c ≡ true) × (b ≢ c)
    was_free c =
        update_cases (λ (x : Bool). x ≡ true → (free c ≡ true) × (b ≢ c)) free b false c
          (λ _ h. ground arith) (λ n h. (h, n))

    pub heads_at : prev b ≡ 0 → heads_after (lst b) ≡ next b
    heads_at e = rw e (update_self heads (lst b) (next b))

    pub heads_other : (i : ℕ) → (prev b ≡ 0 → lst b ≢ i) → heads_after i ≡ heads i
    heads_other i p =
        if_cases (λ (f : ℕ → ℕ). f i ≡ heads i) (prev b == 0)
          (λ e. update-ne heads (lst b) (next b) i (p (eq-of-== (prev b) 0 e))) (λ _. refl)

    next_at : prev b ≢ 0 → next_after (prev b) ≡ next b
    next_at n =
        if_cases (λ (f : ℕ → ℕ). f (prev b) ≡ next b) (prev b == 0)
          (λ e. absurd (n (eq-of-== (prev b) 0 e))) (λ _. update_self next (prev b) (next b))

    next_other : (c : ℕ) → (prev b ≢ 0 → prev b ≢ c) → next_after c ≡ next c
    next_other c p =
        if_cases (λ (f : ℕ → ℕ). f c ≡ next c) (prev b == 0) (λ _. refl)
          (λ e. update-ne next (prev b) (next b) c (p (ne-of-== (prev b) 0 e)))

    prev_at : next b ≢ 0 → prev_after (next b) ≡ prev b
    prev_at n =
        if_cases (λ (f : ℕ → ℕ). f (next b) ≡ prev b) (next b == 0)
          (λ e. absurd (n (eq-of-== (next b) 0 e))) (λ _. update_self prev (next b) (prev b))

    prev_other : (c : ℕ) → (next b ≢ 0 → next b ≢ c) → prev_after c ≡ prev c
    prev_other c p =
        if_cases (λ (f : ℕ → ℕ). f c ≡ prev c) (next b == 0) (λ _. refl)
          (λ e. update-ne prev (next b) (prev b) c (p (ne-of-== (next b) 0 e)))

    -- Whether a block is the neighbour `n` of `b`, which may be none.
    is_neighbour : (n c : ℕ) → ((n ≢ 0) × (n ≡ c)) ⊎ (n ≢ 0 → n ≢ c)
    is_neighbour n c = elim (Bool-cases (n == c)) [
      | inr e ↦ inr (λ _. ne-of-== n c e)
      | inl e ↦ elim (Bool-cases (n == 0)) [
        | inl z ↦ inr (λ m. absurd (m (eq-of-== n 0 z)))
        | inr z ↦ inl (ne-of-== n 0 z, eq-of-== n c e)
      ]
    ]

    b_not_zero : b ≢ 0
    b_not_zero = not_zero b here

    -- What a head of another list, or a head when `b` is none, is.
    other_head :
        (i : ℕ)
        → heads i ≢ 0
        → b ≢ heads i
        → (still (heads i) ≡ true) × (lst (heads i) ≡ i) × (prev_after (heads i) ≡ 0)
    other_head i h n =
        let (f, l, z) = v.head i h in
        (
          still_free (heads i) f n,
          l,
          prev_other (heads i) (λ q s. b_not_zero (sym (v.after b here q).2 ∙ ap prev s ∙ z)) ∙ z,
        )

    head_kept :
        (i : ℕ)
        → ((prev b ≡ 0) × (lst b ≡ i)) ⊎ (prev b ≡ 0 → lst b ≢ i)
        → heads_after i ≢ 0
        → (still (heads_after i) ≡ true)
          × (lst (heads_after i) ≡ i)
          × (prev_after (heads_after i) ≡ 0)
    head_kept i (inl (z, e)) h =
        let top = ap heads_after (sym e) ∙ heads_at z in
        let n = λ (w : next b ≡ 0). h (top ∙ w) in
        let (f, l, p) = v.after b here n in
        subst (λ (x : ℕ). (still x ≡ true) × (lst x ≡ i) × (prev_after x ≡ 0)) (sym top)
          (
            still_free (next b) f (λ s. b_not_zero (sym p ∙ ap prev (sym s) ∙ z)),
            l ∙ e,
            prev_at n ∙ z,
          )
    head_kept i (inr m) h =
        let top = heads_other i m in
        let n = λ (w : heads i ≡ 0). h (top ∙ w) in
        subst (λ (x : ℕ). (still x ≡ true) × (lst x ≡ i) × (prev_after x ≡ 0)) (sym top)
          (other_head i n (λ s. m (ap prev s ∙ (v.head i n).2) (ap lst s ∙ (v.head i n).1)))

    after_kept :
        (c : ℕ)
        → still c ≡ true
        → ((prev b ≢ 0) × (prev b ≡ c)) ⊎ (prev b ≢ 0 → prev b ≢ c)
        → next_after c ≢ 0
        → (still (next_after c) ≡ true)
          × (lst (next_after c) ≡ lst c)
          × (prev_after (next_after c) ≡ c)
    after_kept c h (inl (p, e)) n =
        let top = ap next_after (sym e) ∙ next_at p in
        let m = λ (w : next b ≡ 0). n (top ∙ w) in
        let (f, l, z) = v.after b here m in
        subst (λ (x : ℕ). (still x ≡ true) × (lst x ≡ lst c) × (prev_after x ≡ c)) (sym top)
          (
            still_free (next b) f (λ s. (was_free c h).1 (sym z ∙ ap prev (sym s) ∙ e)),
            l ∙ sym (v.before b here p).1 ∙ ap lst e,
            prev_at m ∙ e,
          )
    after_kept c h (inr p) n =
        let top = next_other c p in
        let (f, m) = was_free c h in
        let (g, l, z) = v.after c f (λ w. n (top ∙ w)) in
        subst (λ (x : ℕ). (still x ≡ true) × (lst x ≡ lst c) × (prev_after x ≡ c)) (sym top)
          (
            still_free (next c) g
                (λ s. let e = ap prev s ∙ z in p (λ w. not_zero c f (sym e ∙ w)) e),
            l,
            prev_other (next c) (λ q s. m (sym (v.after b here q).2 ∙ ap prev s ∙ z)) ∙ z,
          )

    first_kept :
        (c : ℕ)
        → still c ≡ true
        → ((next b ≢ 0) × (next b ≡ c)) ⊎ (next b ≢ 0 → next b ≢ c)
        → prev_after c ≡ 0
        → heads_after (lst c) ≡ c
    first_kept c h (inl (p, e)) z =
        ap heads_after (ap lst (sym e) ∙ (v.after b here p).1)
        ∙ heads_at (sym (prev_at p) ∙ ap prev_after e ∙ z)
        ∙ e
    first_kept c h (inr p) z =
        let (f, m) = was_free c h in
        let top = v.first c f (sym (prev_other c p) ∙ z) in
        heads_other (lst c) (λ w e. m (sym (v.first b here w) ∙ ap heads e ∙ top)) ∙ top

    before_kept :
        (c : ℕ)
        → still c ≡ true
        → ((next b ≢ 0) × (next b ≡ c)) ⊎ (next b ≢ 0 → next b ≢ c)
        → prev_after c ≢ 0
        → (still (prev_after c) ≡ true)
          × (lst (prev_after c) ≡ lst c)
          × (next_after (prev_after c) ≡ c)
    before_kept c h (inl (p, e)) n =
        let top = ap prev_after (sym e) ∙ prev_at p in
        let m = λ (w : prev b ≡ 0). n (top ∙ w) in
        let (f, l, z) = v.before b here m in
        subst (λ (x : ℕ). (still x ≡ true) × (lst x ≡ lst c) × (next_after x ≡ c)) (sym top)
          (
            still_free (prev b) f (λ s. (was_free c h).1 (sym z ∙ ap next (sym s) ∙ e)),
            l ∙ sym (v.after b here p).1 ∙ ap lst e,
            next_at m ∙ e,
          )
    before_kept c h (inr p) n =
        let top = prev_other c p in
        let (f, m) = was_free c h in
        let (g, l, z) = v.before c f (λ w. n (top ∙ w)) in
        subst (λ (x : ℕ). (still x ≡ true) × (lst x ≡ lst c) × (next_after x ≡ c)) (sym top)
          (
            still_free (prev c) g
                (λ s. let e = ap next s ∙ z in p (λ w. not_zero c f (sym e ∙ w)) e),
            l,
            next_other (prev c) (λ q s. m (sym (v.before b here q).2 ∙ ap next s ∙ z)) ∙ z,
          )

    -- Whether `b` is the head of list `i`.
    is_first : (i : ℕ) → ((prev b ≡ 0) × (lst b ≡ i)) ⊎ (prev b ≡ 0 → lst b ≢ i)
    is_first i = elim (Bool-cases (prev b == 0)) [
      | inr e ↦ inr (λ z. absurd (ne-of-== (prev b) 0 e z))
      | inl e ↦ elim (Bool-cases (lst b == i)) [
        | inl f ↦ inl (eq-of-== (prev b) 0 e, eq-of-== (lst b) i f)
        | inr f ↦ inr (λ _. ne-of-== (lst b) i f)
      ]
    ]

    -- A free block leaves its list.
    pub Linked-remove : Linked still lst heads_after next_after prev_after
    Linked-remove = record {
      not_null = still_null;
      head = λ i. head_kept i (is_first i);
      after = λ c h. after_kept c h (is_neighbour (prev b) c);
      first = λ c h. first_kept c h (is_neighbour (next b) c);
      before = λ c h. before_kept c h (is_neighbour (next b) c);
    }
      where
        still_null : still 0 ≡ false
        still_null = ground (arith, v.not_null)
