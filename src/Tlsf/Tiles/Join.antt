-- ===== src/Tlsf/Tiles/Join.antt =====
-- Two blocks of src/cache_list.hpp become one, and the blocks still tile the region.
use abcmalloc.Base.{
  ℕ, ◌+◌, ◌%◌, ◌^◌, ◌<◌, ◌≤◌, ◌≡◌, ◌≢◌, ◌⊎◌, sym, ap, ◌∙◌, subst, Bool, true, false, ◌==◌, update,
  arith, inl, inr, Bool-cases, eq-of-==, ne-of-==, update_cases, update_self, update-ne,
}
use abcmalloc.Tlsf.Tiles.{Tiled}

module _ {base first stop : ℕ} {start : ℕ → Bool} {bsize back : ℕ → ℕ}
    (v : Tiled base first stop start bsize back) where
  module _ (a b : ℕ) (left : start a ≡ true) (right : start b ≡ true)
      (touch : a + bsize a ≡ b) where
    abbrev start_joined : ℕ → Bool
    start_joined = update start b false

    abbrev bsize_joined : ℕ → ℕ
    bsize_joined = update bsize a (bsize a + bsize b)

    abbrev back_joined : ℕ → ℕ
    back_joined = update back (b + bsize b) a

    was_start : (x : ℕ) → start_joined x ≡ true → (b ≢ x) × (start x ≡ true)
    was_start x =
        update_cases (λ (y : Bool). y ≡ true → (b ≢ x) × (start x ≡ true)) start b false x
          (λ _ h. ground arith) (λ n h. (n, h))

    still_start : (x : ℕ) → b ≢ x → start x ≡ true → start_joined x ≡ true
    still_start x n h =
        update_cases (λ (y : Bool). y ≡ true) start b false x (λ e. absurd (n e)) (λ _. h)

    -- To prove `P` of the blocks after the merge and their sizes.
    per_block :
        (P : ℕ → ℕ → Type 0)
        → P a (bsize a + bsize b)
        → ((x : ℕ) → a ≢ x → b ≢ x → start x ≡ true → P x (bsize x))
        → (x : ℕ) → start_joined x ≡ true
        → P x (bsize_joined x)
    per_block P at_a at_other x h =
        update_cases (λ (z : ℕ). P x z) bsize a (bsize a + bsize b) x
          (λ e. subst (λ (y : ℕ). P y (bsize a + bsize b)) e at_a)
          (λ n. at_other x n (was_start x h).0 (was_start x h).1)

    apart_joined :
        (c : ℕ)
        → start_joined c ≡ true
        → (x : ℕ) → start_joined x ≡ true
        → x < c
        → x + bsize_joined x ≤ c
    apart_joined c q =
        per_block (λ x z. x < c → x + z ≤ c)
          (λ l. omega (
            arith,
            v.apart a c left (was_start c q).1 l,
            v.apart b c right (was_start c q).1
                (omega (arith, (was_start c q).0, v.apart a c left (was_start c q).1 l)),
          ))
          (λ x _ _ h l. v.apart x c h (was_start c q).1 l)

    next_joined :
        (x : ℕ)
        → start_joined x ≡ true
        → (x + bsize_joined x ≡ stop) ⊎ (start_joined (x + bsize_joined x) ≡ true)
    next_joined =
        per_block (λ x z. (x + z ≡ stop) ⊎ (start_joined (x + z) ≡ true))
          (subst (λ (y : ℕ). (y ≡ stop) ⊎ (start_joined y ≡ true)) {x = b + bsize b}
            {y = a + (bsize a + bsize b)} (omega arith)
            (elim (v.next b right) [
              | inl e ↦ inl e
              | inr h ↦ inr (still_start (b + bsize b) (omega (arith, (v.sized b right).0)) h)
            ]))
          (λ x m _ h. elim (v.next x h) [
            | inl e ↦ inl e
            | inr k ↦ inr (
                still_start (x + bsize x)
                  (λ e. m (sym (v.linked a left) ∙ ap back (touch ∙ e) ∙ v.linked x h)) k)
          ])

    linked_joined : (x : ℕ) → start_joined x ≡ true → back_joined (x + bsize_joined x) ≡ x
    linked_joined =
        per_block (λ x z. back_joined (x + z) ≡ x)
          (ap back_joined {x = a + (bsize a + bsize b)} {y = b + bsize b} (omega arith)
            ∙ update_self back (b + bsize b) a)
          (λ x _ m h.
            update-ne back (b + bsize b) a (x + bsize x)
              (λ e. m (sym (v.linked b right) ∙ ap back e ∙ v.linked x h))
            ∙ v.linked x h)

    prev_other :
        (x : ℕ)
        → b ≢ x
        → b + bsize b ≢ x
        → back_joined x ≡ back x
        → ((x ≡ first) × (back x ≡ base))
          ⊎ ((start (back x) ≡ true) × (back x + bsize (back x) ≡ x))
        → ((x ≡ first) × (back_joined x ≡ base))
          ⊎ ((start_joined (back_joined x) ≡ true)
              × (back_joined x + bsize_joined (back_joined x) ≡ x))
    prev_other x m n e (inl (f, g)) = inl (f, e ∙ g)
    prev_other x m n e (inr (h, g)) = inr (
        subst (λ (y : ℕ). (start_joined y ≡ true) × (y + bsize_joined y ≡ x)) (sym e)
          (
            still_start (back x) (λ f. n (ap (λ (z : ℕ). z + bsize z) f ∙ g)) h,
            ap (λ (z : ℕ). back x + z)
                  (update-ne bsize a (bsize a + bsize b) (back x)
                    (λ f. m (sym touch ∙ ap (λ (z : ℕ). z + bsize z) f ∙ g)))
                ∙ g,
          ))

    prev_joined :
        (x : ℕ)
        → start_joined x ≡ true
        → ((x ≡ first) × (back_joined x ≡ base))
          ⊎ ((start_joined (back_joined x) ≡ true)
              × (back_joined x + bsize_joined (back_joined x) ≡ x))
    prev_joined x h = elim (Bool-cases (b + bsize b == x)) [
      | inl e ↦ inr (
          subst (λ (y : ℕ). (start_joined y ≡ true) × (y + bsize_joined y ≡ x))
            (sym (
              ap back_joined (sym (eq-of-== (b + bsize b) x e)) ∙ update_self back (b + bsize b) a))
            (
              still_start a (omega (arith, (v.sized a left).0)) left,
              ap (λ (z : ℕ). a + z) (update_self bsize a (bsize a + bsize b))
                  ∙ omega (arith, eq-of-== (b + bsize b) x e),
            ))
      | inr e ↦
          prev_other x (was_start x h).0 (ne-of-== (b + bsize b) x e)
            (update-ne back (b + bsize b) a x (ne-of-== (b + bsize b) x e))
            (v.prev x (was_start x h).1)
    ]

    -- A block and the next one become one.
    pub Tiled-join : Tiled base first stop start_joined bsize_joined back_joined
    Tiled-join = record {
      below = v.below;
      room = v.room;
      inside =
          per_block (λ x z. (first ≤ x) × (x + z ≤ stop))
            ((v.inside a left).0, omega (arith, (v.inside b right).1)) (λ x _ _ h. v.inside x h);
      sized =
          per_block (λ x z. (64 ≤ z) × (z < 2 ^ 32))
            (
              omega (arith, (v.sized a left).0),
              omega (arith, v.room, (v.inside a left).0, (v.inside b right).1),
            )
            (λ x _ _ h. v.sized x h);
      aligned =
          per_block (λ x z. (x % 32 ≡ 0) × (z % 32 ≡ 0))
            ((v.aligned a left).0, omega (arith, (v.aligned a left).1, (v.aligned b right).1))
            (λ x _ _ h. v.aligned x h);
      apart = λ x c p q. apart_joined c q x p;
      next = next_joined;
      linked = linked_joined;
      prev = prev_joined;
    }
