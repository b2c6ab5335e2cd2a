-- ===== src/Tlsf/Tiles/Cut.antt =====
-- A block of src/cache_list.hpp is cut in two, and the blocks still tile the region.
use abcmalloc.Base.{
  ℕ, ◌+◌, ◌-◌, ◌%◌, ◌^◌, ◌<◌, ◌≤◌, ◌≡◌, ◌≢◌, ◌⊎◌, refl, sym, ap, ◌∙◌, subst, Bool, true, false,
  ◌==◌, update, arith, inl, inr, Bool-cases, eq-of-==, ne-of-==, ltb, lt-of-ltb, le-of-ltb-false,
  update_cases, update_self, update-ne,
}
use abcmalloc.Tlsf.Tiles.{Tiled, same_block}

module _ {base first stop : ℕ} {start : ℕ → Bool} {bsize back : ℕ → ℕ}
    (v : Tiled base first stop start bsize back) where
  module _ (b n : ℕ) (here : start b ≡ true) (fits : n + 64 ≤ bsize b) (enough : 64 ≤ n)
      (steps : n % 32 ≡ 0) where
    abbrev rest : ℕ
    rest = b + n

    abbrev start_cut : ℕ → Bool
    start_cut = update start rest true

    abbrev bsize_cut : ℕ → ℕ
    bsize_cut = update (update bsize b n) rest (bsize b - n)

    abbrev back_cut : ℕ → ℕ
    back_cut = update (update back rest b) (b + bsize b) rest

    pub rest_not_start : start rest ≡ false
    rest_not_start = elim (Bool-cases (start rest)) [
      | inr e ↦ e
      | inl e ↦ absurd (omega (arith, same_block v b rest here e (omega arith) (omega arith)))
    ]

    size_rest : bsize_cut rest ≡ bsize b - n
    size_rest = update_self (update bsize b n) rest (bsize b - n)

    size_b : bsize_cut b ≡ n
    size_b = update-ne (update bsize b n) rest (bsize b - n) b (omega arith) ∙ update_self bsize b n

    size_other : (a : ℕ) → rest ≢ a → b ≢ a → bsize_cut a ≡ bsize a
    size_other a p q = update-ne (update bsize b n) rest (bsize b - n) a p ∙ update-ne bsize b n a q

    -- A block after the cut is the rest, the front, or another one.
    data Part (a : ℕ) : Type 0 where
      is_rest : rest ≡ a → Part a
      is_front : b ≡ a → Part a
      is_other : rest ≢ a → b ≢ a → start a ≡ true → Part a

    part : (a : ℕ) → start_cut a ≡ true → Part a
    part a =
        update_cases (λ (x : Bool). x ≡ true → Part a) start rest true a (λ e _. is_rest e)
          (λ m h. elim (Bool-cases (b == a)) [
            | inl e ↦ is_front (eq-of-== b a e)
            | inr e ↦ is_other m (ne-of-== b a e) h
          ])

    -- To prove `P` of the blocks after the cut and their sizes.
    per_part :
        (P : ℕ → ℕ → Type 0)
        → P b n
        → P rest (bsize b - n)
        → ((a : ℕ) → rest ≢ a → b ≢ a → start a ≡ true → P a (bsize a))
        → (a : ℕ) → start_cut a ≡ true
        → P a (bsize_cut a)
    per_part P at_b at_rest at_other a h = by (part a h)
      where
        by : Part a → P a (bsize_cut a)
        by (is_rest e) =
            subst (λ (x : ℕ). P x (bsize_cut x)) e
              (subst (λ (x : ℕ). P rest x) (sym size_rest) at_rest)
        by (is_front e) =
            subst (λ (x : ℕ). P x (bsize_cut x)) e (subst (λ (x : ℕ). P b x) (sym size_b) at_b)
        by (is_other p q s) = subst (λ (x : ℕ). P a x) (sym (size_other a p q)) (at_other a p q s)

    kept : (a : ℕ) → start a ≡ true → start_cut a ≡ true
    kept a h = update_cases (λ (x : Bool). x ≡ true) start rest true a (λ _. refl) (λ _. h)

    -- An old block other than `b` lies wholly before `b`, or wholly after it.
    beside : (a : ℕ) → b ≢ a → start a ≡ true → (a + bsize a ≤ b) ⊎ (b + bsize b ≤ a)
    beside a q h = elim (Bool-cases (ltb a b)) [
      | inl e ↦ inl (v.apart a b h here (lt-of-ltb a b e))
      | inr e ↦ inr (v.apart b a here h (omega (arith, q, le-of-ltb-false a b e)))
    ]

    front_apart : (c : ℕ) → Part c → b < c → b + n ≤ c
    front_apart c (is_rest e) l = omega arith
    front_apart c (is_front e) l = absurd (omega arith)
    front_apart c (is_other p q h) l = elim (beside c q h) [
      | inl e ↦ absurd (omega arith)
      | inr e ↦ omega arith
    ]

    rest_apart : (c : ℕ) → Part c → rest < c → rest + (bsize b - n) ≤ c
    rest_apart c (is_rest e) l = absurd (omega arith)
    rest_apart c (is_front e) l = absurd (omega arith)
    rest_apart c (is_other p q h) l = elim (beside c q h) [
      | inl e ↦ absurd (omega arith)
      | inr e ↦ omega arith
    ]

    other_apart : (c : ℕ) → Part c → (a : ℕ) → b ≢ a → start a ≡ true → a < c → a + bsize a ≤ c
    other_apart c (is_rest e) a q h l = elim (beside a q h) [
      | inl f ↦ omega arith
      | inr f ↦ absurd (omega arith)
    ]
    other_apart c (is_front e) a q h l = elim (beside a q h) [
      | inl f ↦ omega arith
      | inr f ↦ absurd (omega arith)
    ]
    other_apart c (is_other _ _ k) a q h l = v.apart a c h k l

    next_kept : (a z : ℕ) → a + z ≡ b + bsize b → (a + z ≡ stop) ⊎ (start_cut (a + z) ≡ true)
    next_kept a z e =
        subst (λ (x : ℕ). (x ≡ stop) ⊎ (start_cut x ≡ true)) (sym e)
          (elim (v.next b here) [ inl f ↦ inl f | inr f ↦ inr (kept (b + bsize b) f) ])

    back_other : (a : ℕ) → b + bsize b ≢ a → rest ≢ a → back_cut a ≡ back a
    back_other a p q =
        update-ne (update back rest b) (b + bsize b) rest a p ∙ update-ne back rest b a q

    back_rest : back_cut rest ≡ b
    back_rest =
        update-ne (update back rest b) (b + bsize b) rest rest (omega arith)
        ∙ update_self back rest b

    linked_other : (a : ℕ) → b ≢ a → start a ≡ true → back_cut (a + bsize a) ≡ a
    linked_other a q h =
        back_other (a + bsize a) (λ e. q (sym (v.linked b here) ∙ ap back e ∙ v.linked a h))
          (λ e. elim (beside a q h) [
            | inl f ↦ omega arith
            | inr f ↦ omega (arith, (v.sized a h).0)
          ])
        ∙ v.linked a h

    -- The link of a block to an old block before it, other than `b`.
    prev_other :
        (a : ℕ)
        → back_cut a ≡ back a
        → b ≢ back a
        → ((a ≡ first) × (back a ≡ base))
          ⊎ ((start (back a) ≡ true) × (back a + bsize (back a) ≡ a))
        → ((a ≡ first) × (back_cut a ≡ base))
          ⊎ ((start_cut (back_cut a) ≡ true) × (back_cut a + bsize_cut (back_cut a) ≡ a))
    prev_other a e q (inl (f, g)) = inl (f, e ∙ g)
    prev_other a e q (inr (h, g)) = inr (
        subst (λ (x : ℕ). (start_cut x ≡ true) × (x + bsize_cut x ≡ a)) (sym e)
          (
            kept (back a) h,
            ap (λ (z : ℕ). back a + z)
                  (size_other (back a) (λ r. ground (arith, ap start r, rest_not_start)) q)
                ∙ g,
          ))

    back_not_b :
        (a : ℕ)
        → start a ≡ true
        → b ≡ back a
        → b + bsize b ≢ a
        → ¬ (
            ((a ≡ first) × (back a ≡ base))
            ⊎ ((start (back a) ≡ true) × (back a + bsize (back a) ≡ a)))
    back_not_b a h f m (inl (x, y)) = omega (arith, v.below, (v.inside b here).0)
    back_not_b a h f m (inr (x, y)) = m (ap (λ (z : ℕ). z + bsize z) f ∙ y)

    prev_cut :
        (a : ℕ)
        → Part a
        → ((a ≡ first) × (back_cut a ≡ base))
          ⊎ ((start_cut (back_cut a) ≡ true) × (back_cut a + bsize_cut (back_cut a) ≡ a))
    prev_cut a (is_rest e) = inr (
        subst (λ (x : ℕ). (start_cut x ≡ true) × (x + bsize_cut x ≡ a))
          (sym (ap back_cut (sym e) ∙ back_rest)) (kept b here, ap (λ (z : ℕ). b + z) size_b ∙ e))
    prev_cut a (is_front e) =
        prev_other a (back_other a (omega arith) (omega arith))
          (λ f. not_self (v.prev a (ap start (sym e) ∙ here)) f)
          (v.prev a (ap start (sym e) ∙ here))
      where
        not_self :
            ((a ≡ first) × (back a ≡ base))
              ⊎ ((start (back a) ≡ true) × (back a + bsize (back a) ≡ a))
            → b ≢ back a
        not_self (inl (x, y)) f = omega (arith, v.below)
        not_self (inr (x, y)) f = omega (arith, ap (λ (z : ℕ). z + bsize z) f)
    prev_cut a (is_other p q h) = elim (Bool-cases (b + bsize b == a)) [
      | inl e ↦ inr (
          subst (λ (x : ℕ). (start_cut x ≡ true) × (x + bsize_cut x ≡ a))
            (sym (
              ap back_cut (sym (eq-of-== (b + bsize b) a e))
              ∙ update_self (update back rest b) (b + bsize b) rest))
            (
              update_self start rest true,
              ap (λ (z : ℕ). rest + z) size_rest ∙ omega (arith, eq-of-== (b + bsize b) a e),
            ))
      | inr e ↦
          prev_other a (back_other a (ne-of-== (b + bsize b) a e) p)
            (λ f. back_not_b a h f (ne-of-== (b + bsize b) a e) (v.prev a h)) (v.prev a h)
    ]

    -- A block is cut in two.
    pub Tiled-cut : Tiled base first stop start_cut bsize_cut back_cut
    Tiled-cut = record {
      below = v.below;
      room = v.room;
      inside =
          per_part (λ a z. (first ≤ a) × (a + z ≤ stop))
            ((v.inside b here).0, omega (arith, (v.inside b here).1))
            (omega (arith, (v.inside b here).0), omega (arith, (v.inside b here).1))
            (λ a _ _ s. v.inside a s);
      sized =
          per_part (λ a z. (64 ≤ z) × (z < 2 ^ 32)) (enough, omega (arith, (v.sized b here).1))
            (omega arith, omega (arith, (v.sized b here).1)) (λ a _ _ s. v.sized a s);
      aligned =
          per_part (λ a z. (a % 32 ≡ 0) × (z % 32 ≡ 0)) ((v.aligned b here).0, steps)
            (omega (arith, (v.aligned b here).0, steps), omega (arith, (v.aligned b here).1, steps))
            (λ a _ _ s. v.aligned a s);
      apart = λ a c p q.
          per_part (λ x z. x < c → x + z ≤ c) (front_apart c (part c q)) (rest_apart c (part c q))
            (λ x _ m h. other_apart c (part c q) x m h) a p;
      next =
          per_part (λ a z. (a + z ≡ stop) ⊎ (start_cut (a + z) ≡ true))
            (inr (update_self start rest true)) (next_kept rest (bsize b - n) (omega arith))
            (λ a _ _ h. elim (v.next a h) [ inl f ↦ inl f | inr f ↦ inr (kept (a + bsize a) f) ]);
      linked =
          per_part (λ a z. back_cut (a + z) ≡ a) back_rest
            (ap back_cut {x = rest + (bsize b - n)} {y = b + bsize b} (omega arith)
              ∙ update_self (update back rest b) (b + bsize b) rest)
            (λ a _ m h. linked_other a m h);
      prev = λ a h. prev_cut a (part a h);
    }
