-- ===== src/Tlsf/Search.antt =====
-- `find_free` of src/cache_list.hpp: what the search of the bitmaps finds, and that the head it takes
-- leaves its list as `fl_remove` would.
use abcmalloc.Base.{
  ℕ, zero, suc, ◌+◌, ◌-◌, ◌/◌, ◌^◌, ◌<◌, ◌≤◌, ◌≡◌, ◌≢◌, ◌⊎◌, refl, sym, ap, ◌∙◌, subst, Bool, true,
  false, not, ◌&&◌, ltb, leb, ◌==◌, arith, Option, none, some, inl, inr, Bool-cases, if_cases,
  eq-of-==, ne-of-==, ltb-of-le, le-of-leb, le-of-leb-false, leb-of-le, bit_and, lt-of-ltb,
  le-of-ltb-false,
}
use abcmalloc.Base.Bits.{bit, bit-zero, bit-and, bit-complement, bit_and-lt, bit-above}
use abcmalloc.Base.Bits.Count.{ctz, bit-ctz}
use native.Mathlib.Nat.{pow-suc, one-le-pow, pow-le-pow_right}
use abcmalloc.Tlsf.State.{Tlsf, Class, fi, idx}
use abcmalloc.Tlsf.FreeList.{from_bit, pick_list}
use abcmalloc.Tlsf.Bitmaps.{Names, Marked}

-- The bits below `i`, all ones.
bit-ones : (i j : ℕ) → bit (2 ^ i - 1) j ≡ ltb j i
unfolding bit
bit-ones zero j = bit-zero j ∙ sym (ltb-of-le j 0 (omega arith))
bit-ones (suc i) zero = ground (arith, pow-suc 2 i, one-le-pow i 2)
bit-ones (suc i) (suc j) =
    ap (λ (x : ℕ). bit x j) {x = (2 ^ suc i - 1) / 2} {y = 2 ^ i - 1}
      (omega (arith, pow-suc 2 i, one-le-pow i 2 (omega arith)))
    ∙ bit-ones i j
    ∙ ground arith

bit-from_bit : (i j : ℕ) → i < 32 → j < 32 → bit (from_bit i) j ≡ leb i j
bit-from_bit i j p q =
    bit-complement j 32 (2 ^ i - 1)
      (omega (
        arith,
        one-le-pow i 2 (omega arith),
        pow-le-pow_right {n = 2} (omega arith) {i = i} {j = 32} (omega arith),
      ))
      q
    ∙ ap not (bit-ones i j)
    ∙ ground arith

-- The lowest bit of a word that is not 0.
lowest_bit :
    (n w : ℕ) (test : ℕ → Bool)
    → n < 32
    → Names n w test
    → w ≢ 0
    → (ctz 32 w < n) × (test (ctz 32 w) ≡ true)
lowest_bit n w test small v ne = (below, sym (v.says (ctz 32 w) below) ∙ set)
  where
    set : bit w (ctz 32 w) ≡ true
    set = bit-ctz 32 w ne (
        omega
          (arith, v.fits, pow-le-pow_right {n = 2} (omega arith) {i = n} {j = 32} (omega arith)))

    below : ctz 32 w < n
    below = elim (Bool-cases (ltb (ctz 32 w) n)) [
      | inl e ↦ lt-of-ltb (ctz 32 w) n e
      | inr e ↦
          absurd
            (ground (arith, set, bit-above n (ctz 32 w) w v.fits (le-of-ltb-false (ctz 32 w) n e)))
    ]

-- The bits of a word from bit `i` on.
Names-from :
    (n w i : ℕ) (test : ℕ → Bool)
    → n < 32
    → i < 32
    → Names n w test
    → Names n (bit_and w (from_bit i)) (λ j. test j && leb i j)
Names-from n w i test small p v = record {
  fits = bit_and-lt n w (from_bit i) v.fits;
  says = λ j q. bit-and j w (from_bit i) ∙ rw (v.says j q, bit-from_bit i j p (omega arith)) refl;
}

-- The lowest bit of a word from bit `i` on, where there is one.
lowest_from :
    (n w i : ℕ) (test : ℕ → Bool)
    → n < 32
    → i < 32
    → Names n w test
    → bit_and w (from_bit i) ≢ 0
    → let j = ctz 32 (bit_and w (from_bit i)) in (j < n) × (i ≤ j) × (test j ≡ true)
lowest_from n w i test small p v ne =
    let j = ctz 32 (bit_and w (from_bit i)) in
    let (below, both) =
      lowest_bit n (bit_and w (from_bit i)) (λ j. test j && leb i j) small
        (Names-from n w i test small p v) ne in
    (below, le-of-leb i j (ground (arith, both)), ground (arith, both))

-- Where there is none, the test fails from bit `i` on.
none_from :
    (n w i : ℕ) (test : ℕ → Bool)
    → n < 32
    → i < 32
    → Names n w test
    → bit_and w (from_bit i) ≡ 0
    → (j : ℕ) → i ≤ j
    → j < n
    → test j ≡ false
none_from n w i test small p v e j q r =
    sym (v.says j r)
    ∙ ground (
      arith,
      sym (bit-and j w (from_bit i)) ∙ ap (λ (x : ℕ). bit x j) e ∙ bit-zero j,
      bit-from_bit i j p,
      leb-of-le i j q,
    )

-- A list of the index (`f`, `j`) is at or after the class `c`.
abbrev pub FromClass : Class → (f j : ℕ) → Type 0
FromClass c f j = (fi c < f) ⊎ ((fi c ≡ f) × (c.si ≤ j))

-- What a search from class `c` on has to answer.
abbrev pub Picks : Tlsf → Class → Option (ℕ × ℕ) → Type 0
Picks s c none =
    fi c < s.fl_count → (f j : ℕ) → f < 26 → j < 16 → FromClass c f j → s.heads (idx f j) ≡ 0
Picks s c (some (f, j)) = (f < 26) × (j < 16) × FromClass c f j × (s.heads (idx f j) ≢ 0)

head_ne : (h : ℕ) → not (h == 0) ≡ true → h ≢ 0
head_ne h e = ground arith

head_zero : (h : ℕ) → not (h == 0) ≡ false → h ≡ 0
head_zero h e = ground arith

-- The search of the bitmaps finds a list that is not empty, of the class or a later one, and finds
-- none only if all those are empty or the class is beyond the levels in use.
pub pick_list-Picks :
    (s : Tlsf) (c : Class)
    → s.fl_count ≤ 26
    → c.si < 16
    → Marked s.fl_bitmap s.sl_bitmap s.heads
    → Picks s c (pick_list s c)
unfolding pick_list
pick_list-Picks s c levels small v =
    if_cases (λ (o : Option (ℕ × ℕ)). Picks s c o) (leb s.fl_count (fi c))
      (λ e p. absurd (omega (arith, le-of-leb s.fl_count (fi c) e)))
      λ e.
        let valid = le-of-leb-false s.fl_count (fi c) e in
        let here = v.classes (fi c) (omega arith) in
        if_cases (λ (o : Option (ℕ × ℕ)). Picks s c o) (not (sl_map == 0))
          (λ n.
            let (a, b, t) =
              lowest_from 16 (s.sl_bitmap (fi c)) c.si (λ j. not (s.heads (idx (fi c) j) == 0))
                (omega arith) (omega arith) here (head_ne sl_map n) in
            (omega arith, a, inr (refl, b), head_ne _ t))
          λ n.
            if_cases (λ (o : Option (ℕ × ℕ)). Picks s c o) (fl_map == 0)
              (λ z p f j q r o.
                nothing (head_zero sl_map n) (eq-of-== fl_map 0 z) valid here f j q r o)
              (λ z.
                let (a, b, t) =
                  lowest_from 26 s.fl_bitmap (fi c + 1) (λ f. not (s.sl_bitmap f == 0))
                    (omega arith) (omega arith) v.levels (ne-of-== fl_map 0 z) in
                let (g, h) = lowest (ctz 32 fl_map) a (head_ne _ t) in
                (a, g, inl (omega (arith, b)), h))
  where
    sl_map : ℕ
    sl_map = bit_and (s.sl_bitmap (fi c)) (from_bit c.si)

    fl_map : ℕ
    fl_map = bit_and s.fl_bitmap (from_bit (fi c + 1))

    lowest :
        (f : ℕ)
        → f < 26
        → s.sl_bitmap f ≢ 0
        → (ctz 32 (s.sl_bitmap f) < 16) × (s.heads (idx f (ctz 32 (s.sl_bitmap f))) ≢ 0)
    lowest f p n =
        let (a, t) =
          lowest_bit 16 (s.sl_bitmap f) (λ j. not (s.heads (idx f j) == 0)) (omega arith)
            (v.classes f p) n in
        (a, head_ne _ t)

    nothing :
        sl_map ≡ 0
        → fl_map ≡ 0
        → fi c < s.fl_count
        → Names 16 (s.sl_bitmap (fi c)) (λ j. not (s.heads (idx (fi c) j) == 0))
        → (f j : ℕ) → f < 26
        → j < 16
        → FromClass c f j
        → s.heads (idx f j) ≡ 0
    nothing x y valid here f j q r (inr (e, l)) =
        subst (λ (g : ℕ). s.heads (idx g j) ≡ 0) e
          (head_zero _ (
            none_from 16 (s.sl_bitmap (fi c)) c.si (λ j. not (s.heads (idx (fi c) j) == 0))
              (omega arith) (omega arith) here x j l r))
    nothing x y valid here f j q r (inl l) = head_zero _ (
        sym ((v.classes f q).says j r)
        ∙ ap (λ (w : ℕ). bit w j)
            (head_zero _ (
              none_from 26 s.fl_bitmap (fi c + 1) (λ f. not (s.sl_bitmap f == 0)) (omega arith)
                (omega arith) v.levels y f (omega arith) q))
        ∙ bit-zero j)
