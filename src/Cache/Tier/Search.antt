-- ===== src/Cache/Tier/Search.antt =====
-- What the searches of `__tier_tcache` (src/tcache.hpp) find.
use abcmalloc.Base.{
  ℕ, zero, suc, ◌+◌, ◌<◌, ◌≤◌, ◌≡◌, Bool, true, false, leb, ◌==◌, Option, none, some, arith, inl,
  inr, Bool-cases, eq-of-==, ne-of-==,
}
use abcmalloc.Cache.Tier.{TierCache, scan_down, probe, probe_ge, contains_from, contains}

-- The last index below `n` that passes the test, if any does.
abbrev pub Finds : (ℕ → Bool) → ℕ → Option ℕ → Type 0
Finds test n none = (j : ℕ) → j < n → test j ≡ false
Finds test n (some i) = (i < n) × (test i ≡ true) × ((j : ℕ) → i < j → j < n → test j ≡ false)

Finds-skip :
    (test : ℕ → Bool) (n : ℕ) (o : Option ℕ)
    → test n ≡ false
    → Finds test n o
    → Finds test (suc n) o
Finds-skip test n none e v = λ j p. last-or-below j p
  where
    last-or-below : (j : ℕ) → j < suc n → test j ≡ false
    last-or-below j p = elim (Bool-cases (j == n)) [
      | inl same ↦ ground (arith, eq-of-== j n same)
      | inr other ↦ v j (omega (arith, ne-of-== j n other))
    ]
Finds-skip test n (some i) e (p, q, above) = (omega arith, q, λ j r s. last-or-below j r s)
  where
    last-or-below : (j : ℕ) → i < j → j < suc n → test j ≡ false
    last-or-below j r s = elim (Bool-cases (j == n)) [
      | inl same ↦ ground (arith, eq-of-== j n same)
      | inr other ↦ above j r (omega (arith, ne-of-== j n other))
    ]

scan_down-Finds : (test : ℕ → Bool) (n : ℕ) → Finds test n (scan_down test n)
unfolding scan_down
scan_down-Finds test zero = λ j p. absurd (omega arith)
scan_down-Finds test (suc n) = elim (Bool-cases (test n)) [
  | inl e ↦ rw e (omega arith, e, λ j p q. absurd (omega arith))
  | inr e ↦ rw e (Finds-skip test n (scan_down test n) e (scan_down-Finds test n))
]

-- `probe` finds the entry of exactly the size asked for that was pushed last, if there is one.
pub probe-Finds : (c : TierCache) (sz : ℕ) → Finds (λ i. c.size i == sz) c.count (probe c sz)
unfolding probe
probe-Finds c sz = elim (Bool-cases (c.count == 0)) [
  | inl e ↦ rw e (λ j p. absurd (omega (arith, eq-of-== c.count 0 e)))
  | inr e ↦ rw e (scan_down-Finds (λ i. c.size i == sz) c.count)
]

-- `probe_ge` finds the entry of at least the size asked for that was pushed last, if there is one.
pub probe_ge-Finds :
    (c : TierCache) (sz : ℕ) → Finds (λ i. leb sz (c.size i)) c.count (probe_ge c sz)
unfolding probe_ge
probe_ge-Finds c sz = elim (Bool-cases (c.count == 0)) [
  | inl e ↦ rw e (λ j p. absurd (omega (arith, eq-of-== c.count 0 e)))
  | inr e ↦ rw e (scan_down-Finds (λ i. leb sz (c.size i)) c.count)
]

contains_from_sound :
    (c : TierCache) (p left i : ℕ)
    → contains_from c p left i ≡ true
    → (j : ℕ) × (i ≤ j) × (j < i + left) × (c.ptr j ≡ p)
unfolding contains_from
contains_from_sound c p zero i e = cc
contains_from_sound c p (suc left) i e = elim (Bool-cases (c.ptr i == p)) [
  | inl h ↦ (i, omega arith, omega arith, eq-of-== (c.ptr i) p h)
  | inr h ↦ later (contains_from_sound c p left (i + 1) (rw h at e))
]
  where
    later :
        (j : ℕ) × (i + 1 ≤ j) × (j < i + 1 + left) × (c.ptr j ≡ p)
        → (j : ℕ) × (i ≤ j) × (j < i + suc left) × (c.ptr j ≡ p)
    later (j, a, b, q) = (j, omega arith, omega arith, q)

contains_from_complete :
    (c : TierCache) (left i j : ℕ) → i ≤ j → j < i + left → contains_from c (c.ptr j) left i ≡ true
unfolding contains_from
contains_from_complete c zero i j a b = absurd (omega arith)
contains_from_complete c (suc left) i j a b = elim (Bool-cases (i == j)) [
  | inl h ↦ ground (arith, eq-of-== i j h)
  | inr h ↦ ground (arith, ne-of-== i j h, contains_from_complete c left (i + 1) j)
]

-- `contains` holds exactly of the pointers among the entries of the cache.
pub contains_iff :
    (c : TierCache) (p : ℕ)
    → (contains c p ≡ true → (j : ℕ) × (j < c.count) × (c.ptr j ≡ p))
      × ((j : ℕ) → j < c.count → contains c (c.ptr j) ≡ true)
unfolding contains
contains_iff c p = (sound, λ j h. contains_from_complete c c.count 0 j (omega arith) (omega arith))
  where
    sound : contains_from c p c.count 0 ≡ true → (j : ℕ) × (j < c.count) × (c.ptr j ≡ p)
    sound e = let (j, a, b, q) = contains_from_sound c p c.count 0 e in (j, omega arith, q)
