-- ===== src/Reserve/Carve.antt =====
-- What `__va_carve`, `__va_carve_reserved` and `__va_release` of src/va_reserve.hpp keep: the free
-- runs stay disjoint, and what is carved lies below the cursor and in no free run.
use abcmalloc.Base.{
  update_cases, update, ℕ, ◌+◌, ◌-◌, ◌*◌, ◌^◌, ◌≤◌, ◌≡◌, refl, sym, subst, ltb, leb, ◌==◌, not,
  ◌||◌, Option, none, some, arith, ◌⊎◌, inl, inr, if_cases, le-of-ltb-false, eq-of-==, add64,
}
use abcmalloc.Reserve.{
  FreeRun, Reserve, reuse, bump, commit, round_up, granules_of, sheet_align, reservation_size,
  free_cap, carve, committed, carve_after, placed, reserved_after, carve_reserved, reserve_once,
  release, take_run, best_run,
}
use abcmalloc.Reserve.Reuse.{IsApart, Carved, Disjoint, Takes, reuse-Takes, replace-apart, span}

-- What an operation that carves `len` bytes leaves and gives: an address of which the bytes from
-- there on were carved, or `nullptr`.
abbrev pub Carves : (len : ℕ) → Reserve × ℕ → Type 0
Carves len (r, p) = IsApart r × ((p ≡ 0) ⊎ ((r.base ≤ p) × Carved r (p - r.base) len))

-- The same of an offset from `base`.
abbrev CarvesAt : (base len : ℕ) → Reserve × Option ℕ → Type 0
CarvesAt base len (r, none) = IsApart r × (r.base ≡ base)
CarvesAt base len (r, some off) = IsApart r × (r.base ≡ base) × Carved r off len

bump-CarvesAt :
    (r : Reserve) (base len : ℕ)
    → IsApart r
    → r.base ≡ base
    → len ≤ 2 ^ 39
    → CarvesAt base len (bump r len)
unfolding bump
bump-CarvesAt r base len v b p =
    if_cases (λ (o : Reserve × Option ℕ). CarvesAt base len o)
      (ltb reservation_size (add64 r.offset len)) (λ _. (v, b))
      (λ e. (
        record {
          bounded = le-of-ltb-false reservation_size (add64 r.offset len) e;
          below = λ i q. omega (arith, v.below i q, v.bounded);
          apart = v.apart;
        },
        b,
        record { below = omega (arith, v.bounded); outside = λ i q. inr (v.below i q) },
      ))

round_up-granules : (bytes : ℕ) → bytes ≤ 2 ^ 38 → granules_of bytes * sheet_align ≡ round_up bytes
unfolding granules_of round_up
round_up-granules bytes p = omega arith

round_up-le : (bytes : ℕ) → bytes ≤ 2 ^ 38 → round_up bytes ≤ 2 ^ 39
unfolding round_up
round_up-le bytes p = omega arith

take_run-base : (r : Reserve) (want : ℕ) (o : Option ℕ) → (take_run r want o).0.base ≡ r.base
unfolding take_run
take_run-base r want none = refl
take_run-base r want (some b) =
    if_cases (λ (o : Reserve × Option ℕ). o.0.base ≡ r.base) (ltb want (r.runs b).granules)
      (λ _. refl) (λ _. refl)

reuse-base : (r : Reserve) (want : ℕ) → (reuse r want).0.base ≡ r.base
unfolding reuse
reuse-base r want = take_run-base r want (best_run r.runs want r.free_count none)

reuse-CarvesAt :
    (r : Reserve) (bytes : ℕ)
    → IsApart r
    → bytes ≤ 2 ^ 38
    → CarvesAt r.base (round_up bytes) (reuse r (granules_of bytes))
reuse-CarvesAt r bytes v p =
    taken (reuse r (granules_of bytes)) (reuse-Takes r (granules_of bytes) v)
      (reuse-base r (granules_of bytes))
  where
    taken :
        (o : Reserve × Option ℕ)
        → Takes (granules_of bytes) o
        → o.0.base ≡ r.base
        → CarvesAt r.base (round_up bytes) o
    taken (s, none) t e = (t, e)
    taken (s, some off) (a, c) e = (a, e, subst (Carved s off) (round_up-granules bytes p) c)

-- An address in place of an offset.
address-Carves :
    (len : ℕ) (r : Reserve) (off got : ℕ)
    → IsApart r
    → Carved r off len
    → (got ≡ 0) ⊎ (got ≡ r.base + off)
    → Carves len (r, got)
address-Carves len r off got v c (inl e) = (v, inl e)
address-Carves len r off got v c (inr e) =
    (v, inr (omega arith, subst (λ (o : ℕ). Carved r o len) (omega arith) c))

commit-slot :
    (answer : Option ℕ) (slot : ℕ) → (commit answer slot ≡ 0) ⊎ (commit answer slot ≡ slot)
unfolding commit
commit-slot none slot = inl refl
commit-slot (some got) slot =
    if_cases (λ (c : ℕ). (c ≡ 0) ⊎ (c ≡ slot)) (got == slot) (λ _. inr refl) (λ _. inl refl)

-- The addresses that end an operation.
placed-Carves :
    (base len : ℕ) (o : Reserve × Option ℕ) → CarvesAt base len o → Carves len (placed base o)
unfolding placed
placed-Carves base len (r, none) (v, _) = (v, inl refl)
placed-Carves base len (r, some off) (v, e, c) =
    address-Carves len r off (base + off) v c (inr (omega arith))

module _ (fixed : (slot len : ℕ) → Option ℕ) where
  commit-Carves :
      (base len : ℕ) (r : Reserve) (off : ℕ)
      → CarvesAt base len (r, some off)
      → Carves len (r, commit (fixed (base + off) len) (base + off))
  commit-Carves base len r off (v, e, c) =
      address-Carves len r off (commit (fixed (base + off) len) (base + off)) v c (
        subst
          (λ (b : ℕ).
            (commit (fixed (base + off) len) (base + off) ≡ 0)
            ⊎ (commit (fixed (base + off) len) (base + off) ≡ b + off))
          (sym e) (commit-slot (fixed (base + off) len) (base + off)))

  committed-Carves :
      (base len : ℕ) (o : Reserve × Option ℕ)
      → CarvesAt base len o
      → Carves len (committed fixed base len o)
  unfolding committed
  committed-Carves base len (r, none) (v, _) = (v, inl refl)
  committed-Carves base len (r, some off) c = commit-Carves base len r off c

  carve_after-Carves :
      (base len : ℕ) (o : Reserve × Option ℕ)
      → len ≤ 2 ^ 39
      → CarvesAt base len o
      → Carves len (carve_after fixed base len o)
  unfolding carve_after
  carve_after-Carves base len (r, none) p (v, e) =
      committed-Carves base len (bump r len) (bump-CarvesAt r base len v e p)
  carve_after-Carves base len (r, some off) p (v, e, c) =
      if_cases (λ (o : Reserve × ℕ). Carves len o)
        (not (commit (fixed (base + off) len) (base + off) == 0))
        (λ _. commit-Carves base len r off (v, e, c))
        (λ _. committed-Carves base len (bump r len) (bump-CarvesAt r base len v e p))

reserved_after-Carves :
    (base len : ℕ) (o : Reserve × Option ℕ)
    → len ≤ 2 ^ 39
    → CarvesAt base len o
    → Carves len (reserved_after base len o)
unfolding reserved_after
reserved_after-Carves base len (r, none) p (v, e) =
    placed-Carves base len (bump r len) (bump-CarvesAt r base len v e p)
reserved_after-Carves base len (r, some off) p (v, e, c) =
    address-Carves len r off (base + off) v c (inr (omega arith))

-- `__va_reserve_once` keeps the runs, and answers the base it leaves.
reserve_once-Apart :
    (fresh : Option ℕ) (r : Reserve)
    → IsApart r
    → IsApart (reserve_once fresh r).0 × ((reserve_once fresh r).1 ≡ (reserve_once fresh r).0.base)
unfolding reserve_once
reserve_once-Apart none r v =
    if_cases (λ (o : Reserve × ℕ). IsApart o.0 × (o.1 ≡ o.0.base)) (r.base == 0)
      (λ e. (v, sym (eq-of-== r.base 0 e))) (λ _. (v, refl))
reserve_once-Apart (some p) r v =
    if_cases (λ (o : Reserve × ℕ). IsApart o.0 × (o.1 ≡ o.0.base)) (not (r.base == 0))
      (λ _. (v, refl))
      (λ e.
        if_cases (λ (o : Reserve × ℕ). IsApart o.0 × (o.1 ≡ o.0.base)) (p == 0)
          (λ _. (v, ground arith))
          (λ _. (record { bounded = v.bounded; below = v.below; apart = v.apart }, refl)))

module _ (fresh : Option ℕ) (r : Reserve) (bytes : ℕ) (v : IsApart r) (p : bytes ≤ 2 ^ 38) where
  abbrev ready : Reserve × ℕ
  ready = reserve_once fresh r

  reused-CarvesAt : CarvesAt ready.1 (round_up bytes) (reuse ready.0 (granules_of bytes))
  reused-CarvesAt =
      subst (λ (b : ℕ). CarvesAt b (round_up bytes) (reuse ready.0 (granules_of bytes)))
        (sym (reserve_once-Apart fresh r v).1)
        (reuse-CarvesAt ready.0 bytes (reserve_once-Apart fresh r v).0 p)

  -- Where the free runs lie below the cursor and do not overlap, and whatever `mmap` answers, a
  -- request of at most the size of the reservation gets `nullptr`, or an address such that the
  -- rounded size from there on lies below the cursor and outside all free runs; and the free runs
  -- still do not overlap.
  pub carve-Carves :
      (fixed : (slot len : ℕ) → Option ℕ) → Carves (round_up bytes) (carve fresh fixed r bytes)
  unfolding carve
  carve-Carves fixed =
      if_cases (λ (o : Reserve × ℕ). Carves (round_up bytes) o) (ready.1 == 0)
        (λ _. ((reserve_once-Apart fresh r v).0, inl refl))
        (λ _.
          carve_after-Carves fixed ready.1 (round_up bytes) (reuse ready.0 (granules_of bytes))
            (round_up-le bytes p) reused-CarvesAt)

  -- Where the free runs lie below the cursor and do not overlap, `__va_carve_reserved` too gives
  -- `nullptr`, or an address such that the rounded size from there on lies below the cursor and
  -- outside all free runs, and the free runs still do not overlap, for a request of at most the
  -- size of the reservation.
  pub carve_reserved-Carves : Carves (round_up bytes) (carve_reserved fresh r bytes)
  unfolding carve_reserved
  carve_reserved-Carves =
      if_cases (λ (o : Reserve × ℕ). Carves (round_up bytes) o) (ready.1 == 0)
        (λ _. ((reserve_once-Apart fresh r v).0, inl refl))
        (λ _.
          reserved_after-Carves ready.1 (round_up bytes) (reuse ready.0 (granules_of bytes))
            (round_up-le bytes p) reused-CarvesAt)

-- Where the free runs lie below the cursor and do not overlap, they still do not after a release
-- of bytes, no more than the reservation has, that lie below the cursor and outside them.
pub release-Apart :
    (r : Reserve) (slot bytes : ℕ)
    → IsApart r
    → bytes ≤ 2 ^ 38
    → Carved r (slot - r.base) (round_up bytes)
    → IsApart (release r slot bytes)
unfolding release
release-Apart r slot bytes v p c =
    if_cases (λ (s : Reserve). IsApart s) (slot == 0) (λ _. v)
      (λ _.
        if_cases (λ (s : Reserve). IsApart s) (r.base == 0) (λ _. v)
          (λ _.
            if_cases (λ (s : Reserve). IsApart s)
              (ltb slot r.base || leb (r.base + reservation_size) slot) (λ _. v)
              (λ _.
                if_cases (λ (s : Reserve). IsApart s) (ltb r.free_count free_cap) (λ _. added)
                  (λ _. v))))
  where
    given : FreeRun
    given = record { off = slot - r.base; granules = granules_of bytes }

    added :
        IsApart
          (record r { runs = update r.runs r.free_count given; free_count = r.free_count + 1 })
    added = record {
      bounded = v.bounded;
      below = λ i q.
          update_cases (λ (x : FreeRun). x.off + span x ≤ r.offset) r.runs r.free_count given i
            (λ _. omega (arith, c.below, round_up-granules bytes p)) (λ n. v.below i (omega arith));
      apart =
          replace-apart r (r.free_count + 1) r.free_count given v (λ i q n. omega arith)
            (λ i q n.
              subst (λ (len : ℕ). Disjoint given.off len (r.runs i).off (span (r.runs i)))
                (sym (round_up-granules bytes p)) (c.outside i (omega arith)));
    }
