-- ===== src/Tlsf/Bitmaps.antt =====
-- The bitmaps of src/cache_list.hpp name the lists that are not empty: `sl_bitmap` of a first level
-- those of its classes, and `fl_bitmap` the first levels with any.
use abcmalloc.Base.{
  ℕ, ◌-◌, ◌^◌, ◌<◌, ◌≡◌, ◌≢◌, refl, sym, ap, ◌∙◌, subst, Bool, true, false, not, ◌==◌,
  if◌then◌else◌, update, arith, inl, inr, Bool-cases, eq-of-==, ne-of-==, ==_ne, update_cases,
  update_self, update-ne,
}
use abcmalloc.Base.Bits.{bit, bit-zero, eq_zero_of_bits, bit_and-lt}
use abcmalloc.Base.Bits.Mask.{
  set_bit, clear_bit, bit-set_bit, bit-clear_bit, set_bit-lt, clear_bit-lt,
}
use abcmalloc.Tlsf.State.{idx}

-- Bit `j` of a word is whether `test j` holds, for the `n` lowest bits, and there are no others.
pub record Names (n w : ℕ) (test : ℕ → Bool) : Type 0 where
  pub fits : w < 2 ^ n
  pub says : (j : ℕ) → j < n → bit w j ≡ test j

-- A word is 0 exactly if its bits are.
Names-zero :
    (n w : ℕ) (test : ℕ → Bool) → Names n w test → ((j : ℕ) → j < n → test j ≡ false) → w ≡ 0
Names-zero n w test v h = eq_zero_of_bits n w v.fits (λ i p. v.says i p ∙ h i p)

pub Names-set :
    (n w i : ℕ) (test test' : ℕ → Bool)
    → i < n
    → test' i ≡ true
    → ((j : ℕ) → j < n → i ≢ j → test' j ≡ test j)
    → Names n w test
    → Names n (set_bit w i) test'
Names-set n w i test test' p here there v = record {
  fits = set_bit-lt n w i v.fits p;
  says = λ j q. elim (Bool-cases (i == j)) [
    | inl e ↦
        subst (λ (k : ℕ). bit (set_bit w i) k ≡ test' k) (eq-of-== i j e)
          (ground (arith, bit-set_bit w i i, here))
    | inr e ↦ ground (arith, bit-set_bit w i j, v.says j q, there j q)
  ];
}

pub Names-clear :
    (n w i : ℕ) (test test' : ℕ → Bool)
    → i < n
    → n < 32
    → test' i ≡ false
    → ((j : ℕ) → j < n → i ≢ j → test' j ≡ test j)
    → Names n w test
    → Names n (clear_bit 32 w i) test'
unfolding clear_bit
Names-clear n w i test test' p small here there v = record {
  fits = bit_and-lt n w (2 ^ 32 - 1 - 2 ^ i) v.fits;
  says = λ j q. elim (Bool-cases (i == j)) [
    | inl e ↦
        subst (λ (k : ℕ). bit (clear_bit 32 w i) k ≡ test' k) (eq-of-== i j e)
          (ground (arith, bit-clear_bit 32 w i i (omega arith) (omega arith), here))
    | inr e ↦
        ground (arith, bit-clear_bit 32 w i j (omega arith) (omega arith), v.says j q, there j q)
  ];
}

pub Names-congr :
    (n w : ℕ) (test test' : ℕ → Bool)
    → ((j : ℕ) → j < n → test' j ≡ test j)
    → Names n w test
    → Names n w test'
Names-congr n w test test' h v = record { fits = v.fits; says = λ j p. v.says j p ∙ sym (h j p) }

-- Where a bit is left after one is cleared, there was one.
some_left : (w i : ℕ) → i < 16 → (clear_bit 32 w i == 0) ≡ false → (w == 0) ≡ false
some_left w i p h = elim (Bool-cases (w == 0)) [
  | inr e ↦ e
  | inl e ↦ absurd (
      ne-of-== (clear_bit 32 w i) 0 h (
        rw (eq-of-== w 0 e) (
          eq_zero_of_bits 32 (clear_bit 32 0 i) (clear_bit-lt 32 0 i (omega arith))
            (λ j q. bit-clear_bit 32 0 i j (omega arith) q ∙ ground (arith, bit-zero j)))))
]

-- The lists are 26 times 16; there are as many first levels as words `sl_bitmap`.
pub record Marked (fl : ℕ) (sl heads : ℕ → ℕ) : Type 0 where
  pub classes : (f : ℕ) → f < 26 → Names 16 (sl f) (λ j. not (heads (idx f j) == 0))
  pub levels : Names 26 fl (λ f. not (sl f == 0))

-- Lists of two first levels are different lists, and so are two lists of one level.
other_level : (f si g j : ℕ) → si < 16 → j < 16 → f ≢ g → idx f si ≢ idx g j
other_level f si g j p q m e = omega arith

nonzero_bit : (w i : ℕ) → not (set_bit w i == 0) ≡ true
nonzero_bit w i = elim (Bool-cases (set_bit w i == 0)) [
  | inr e ↦ rw e refl
  | inl e ↦
      ground
        (arith, bit-set_bit w i i, bit-zero i, ap (λ (x : ℕ). bit x i) (eq-of-== (set_bit w i) 0 e))
]

module _ {fl : ℕ} {sl heads : ℕ → ℕ} (v : Marked fl sl heads) (f si : ℕ) (p : f < 26)
    (q : si < 16) where
  -- A list gets a block.
  pub Marked-set :
      (b : ℕ)
      → b ≢ 0
      → Marked (set_bit fl f) (update sl f (set_bit (sl f) si)) (update heads (idx f si) b)
  Marked-set b n = record {
    classes = λ g r.
        update_cases (λ (w : ℕ). Names 16 w (λ j. not (update heads (idx f si) b (idx g j) == 0)))
          sl f (set_bit (sl f) si) g
          (λ e.
            Names-set 16 (sl f) si (λ j. not (heads (idx f j) == 0))
              (λ j. not (update heads (idx f si) b (idx g j) == 0)) q (ground arith)
              (λ j t m. ground arith) (v.classes f p))
          (λ m.
            Names-congr 16 (sl g) (λ j. not (heads (idx g j) == 0))
              (λ j. not (update heads (idx f si) b (idx g j) == 0))
              (λ j t.
                ap (λ (x : ℕ). not (x == 0))
                  (update-ne heads (idx f si) b (idx g j) (other_level f si g j q t m)))
              (v.classes g r));
    levels =
        Names-set 26 fl f (λ g. not (sl g == 0)) (λ g. not (update sl f (set_bit (sl f) si) g == 0))
          p
          (ap (λ (x : ℕ). not (x == 0)) (update_self sl f (set_bit (sl f) si))
            ∙ nonzero_bit (sl f) si)
          (λ j t m. ground arith) v.levels;
  }

  -- A list loses a block; if it becomes empty, its bit is cleared, and that of its first level if the
  -- level has no other.
  pub Marked-unmark :
      (heads' : ℕ → ℕ)
      → ((i : ℕ) → idx f si ≢ i → heads' i ≡ heads i)
      → (heads' (idx f si) ≢ 0 → heads (idx f si) ≢ 0)
      → let new_sl = clear_bit 32 (sl f) si in
        (heads' (idx f si) ≡ 0
          → Marked (if new_sl == 0 then clear_bit 32 fl f else fl) (update sl f new_sl) heads')
        × (heads' (idx f si) ≢ 0 → Marked fl sl heads')
  Marked-unmark heads' out kept = (emptied, filled)
    where
      new_sl : ℕ
      new_sl = clear_bit 32 (sl f) si

      same_test :
          (g : ℕ)
          → f ≢ g
          → (j : ℕ) → j < 16
          → not (heads' (idx g j) == 0) ≡ not (heads (idx g j) == 0)
      same_test g m j t = ap (λ (x : ℕ). not (x == 0)) (out (idx g j) (other_level f si g j q t m))

      same_level :
          (j : ℕ) → j < 16 → si ≢ j → not (heads' (idx f j) == 0) ≡ not (heads (idx f j) == 0)
      same_level j t m = ap (λ (x : ℕ). not (x == 0)) (out (idx f j) (omega arith))

      filled : heads' (idx f si) ≢ 0 → Marked fl sl heads'
      filled n = record {
        classes = λ g r.
            Names-congr 16 (sl g) (λ j. not (heads (idx g j) == 0))
              (λ j. not (heads' (idx g j) == 0))
              (λ j t. elim (Bool-cases (f == g)) [
                | inr e ↦ same_test g (ne-of-== f g e) j t
                | inl e ↦ elim (Bool-cases (si == j)) [
                  | inr d ↦
                      subst (λ (k : ℕ). not (heads' (idx k j) == 0) ≡ not (heads (idx k j) == 0))
                        (eq-of-== f g e) (same_level j t (ne-of-== si j d))
                  | inl d ↦
                      subst (λ (k : ℕ). not (heads' (idx k j) == 0) ≡ not (heads (idx k j) == 0))
                        (eq-of-== f g e)
                        (subst (λ (k : ℕ). not (heads' (idx f k) == 0) ≡ not (heads (idx f k) == 0))
                          (eq-of-== si j d)
                          (rw (==_ne (heads' (idx f si)) 0 n, ==_ne (heads (idx f si)) 0 (kept n))
                            refl))
                ]
              ])
              (v.classes g r);
        levels = v.levels;
      }

      cleared : heads' (idx f si) ≡ 0 → Names 16 new_sl (λ j. not (heads' (idx f j) == 0))
      cleared z =
          Names-clear 16 (sl f) si (λ j. not (heads (idx f j) == 0))
            (λ j. not (heads' (idx f j) == 0)) q (omega arith) (rw z refl) same_level
            (v.classes f p)

      emptied :
          heads' (idx f si) ≡ 0
          → Marked (if new_sl == 0 then clear_bit 32 fl f else fl) (update sl f new_sl) heads'
      emptied z = record {
        classes = λ g r.
            update_cases (λ (w : ℕ). Names 16 w (λ j. not (heads' (idx g j) == 0))) sl f new_sl g
              (λ e.
                subst (λ (k : ℕ). Names 16 new_sl (λ j. not (heads' (idx k j) == 0))) e (cleared z))
              (λ m.
                Names-congr 16 (sl g) (λ j. not (heads (idx g j) == 0))
                  (λ j. not (heads' (idx g j) == 0)) (same_test g m) (v.classes g r));
        levels = elim (Bool-cases (new_sl == 0)) [
          | inl e ↦ rw e (
              Names-clear 26 fl f (λ g. not (sl g == 0)) (λ g. not (update sl f new_sl g == 0)) p
                (omega arith) (ap (λ (x : ℕ). not (x == 0)) (update_self sl f new_sl) ∙ ap not e)
                (λ g r m. ap (λ (x : ℕ). not (x == 0)) (update-ne sl f new_sl g m)) v.levels)
          | inr e ↦ rw e (
              Names-congr 26 fl (λ g. not (sl g == 0)) (λ g. not (update sl f new_sl g == 0))
                (λ g r.
                  update_cases (λ (w : ℕ). not (w == 0) ≡ not (sl g == 0)) sl f new_sl g
                    (λ m.
                      subst (λ (k : ℕ). not (new_sl == 0) ≡ not (sl k == 0)) m
                        (rw (e, some_left (sl f) si q e) refl))
                    (λ _. refl))
                v.levels)
        ];
      }
