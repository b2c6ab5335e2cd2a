-- ===== src/Tlsf/Tiles.antt =====
-- The blocks of src/cache_list.hpp tile the region between the sentinels: local conditions on the set
-- `start` of the addresses where blocks start, kept when a block is cut and when two are merged.
pub mod Cut
pub mod Join
use abcmalloc.Base.{
  ℕ, ◌+◌, ◌-◌, ◌*◌, ◌/◌, ◌%◌, ◌^◌, ◌<◌, ◌≤◌, ◌≡◌, ◌≢◌, ◌⊎◌, refl, sym, ap, ◌∙◌, subst, Bool, true,
  false, not, ◌==◌, if◌then◌else◌, update, arith, inl, inr, Bool-cases, if_cases, eq-of-==,
  ne-of-==, ltb, lt-of-ltb, le-of-ltb-false, ==_ne, update_cases, update_self, update-ne,
}

-- The blocks lie between `first` and `stop`, are aligned, do not overlap, and each ends where the
-- next one starts; the link `back` of each leads to the one before, that of the first to `base`.
pub record Tiled (base first stop : ℕ) (start : ℕ → Bool) (bsize back : ℕ → ℕ) : Type 0 where
  pub below : base < first
  pub room : stop < first + 2 ^ 32
  pub inside : (a : ℕ) → start a ≡ true → (first ≤ a) × (a + bsize a ≤ stop)
  pub sized : (a : ℕ) → start a ≡ true → (64 ≤ bsize a) × (bsize a < 2 ^ 32)
  pub aligned : (a : ℕ) → start a ≡ true → (a % 32 ≡ 0) × (bsize a % 32 ≡ 0)
  pub apart : (a b : ℕ) → start a ≡ true → start b ≡ true → a < b → a + bsize a ≤ b
  pub next : (a : ℕ) → start a ≡ true → (a + bsize a ≡ stop) ⊎ (start (a + bsize a) ≡ true)
  pub linked : (a : ℕ) → start a ≡ true → back (a + bsize a) ≡ a
  pub prev :
      (a : ℕ)
      → start a ≡ true
      → ((a ≡ first) × (back a ≡ base)) ⊎ ((start (back a) ≡ true) × (back a + bsize (back a) ≡ a))

module _ {base first stop : ℕ} {start : ℕ → Bool} {bsize back : ℕ → ℕ}
    (v : Tiled base first stop start bsize back) where
  pub Tiled-back :
      (back' : ℕ → ℕ) → ((a : ℕ) → back' a ≡ back a) → Tiled base first stop start bsize back'
  Tiled-back back' h = record {
    below = v.below;
    room = v.room;
    inside = v.inside;
    sized = v.sized;
    aligned = v.aligned;
    apart = v.apart;
    next = v.next;
    linked = λ a p. h (a + bsize a) ∙ v.linked a p;
    prev = λ a p.
        subst (λ (x : ℕ). ((a ≡ first) × (x ≡ base)) ⊎ ((start x ≡ true) × (x + bsize x ≡ a)))
          (sym (h a)) (v.prev a p);
  }

  -- Two blocks that share a byte are one.
  pub same_block : (a b : ℕ) → start a ≡ true → start b ≡ true → a ≤ b → b < a + bsize a → a ≡ b
  same_block a b p q l h = elim (Bool-cases (a == b)) [
    | inl e ↦ eq-of-== a b e
    | inr e ↦ absurd (omega (arith, v.apart a b p q (omega (arith, ne-of-== a b e))))
  ]
