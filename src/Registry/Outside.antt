-- ===== src/Registry/Outside.antt =====
-- The list of the sheets outside the reservation, in src/sheet_header.hpp: `__oor_live` counts the
-- nodes that have an owner.
use abcmalloc.Base.{
  ℕ, ◌+◌, ◌%◌, ◌^◌, ◌≡◌, ◌≢◌, Bool, true, not, ◌==◌, if◌then◌else◌, List, [], ◌∷◌, arith, if_cases,
  add64, add32,
}
use abcmalloc.Registry.{
  OorSheet, Registry, has_retired, revive, oor_insert, has_owned, disown, oor_retire,
}

-- How many nodes have an owner.
abbrev pub owned : List OorSheet → ℕ
owned [] = 0
owned (n ∷ ns) = (if n.owner == 0 then 0 else 1) + owned ns

-- `__oor_live` is that number, as a word of 32 bits.
abbrev pub IsCounted : Registry → Type 0
IsCounted g = g.live ≡ owned g.outside % 2 ^ 32

revive-owned :
    (ns : List OorSheet) (lo hi arena : ℕ)
    → arena ≢ 0
    → has_retired ns lo hi ≡ true
    → owned (revive ns lo hi arena) ≡ owned ns + 1
unfolding has_retired revive
revive-owned [] lo hi arena a h = ground arith
revive-owned (n ∷ ns) lo hi arena a h = ground (arith, revive-owned ns lo hi arena a)

disown-owned :
    (ns : List OorSheet) (lo hi : ℕ)
    → has_owned ns lo hi ≡ true
    → owned ns ≡ owned (disown ns lo hi) + 1
unfolding has_owned disown
disown-owned [] lo hi h = ground arith
disown-owned (n ∷ ns) lo hi h = ground (arith, disown-owned ns lo hi)

-- If `__oor_live` counts the nodes that have an owner, it still does after a sheet outside the
-- reservation is registered for an arena other than `nullptr`, also when no memory is left for a
-- node.
pub oor_insert-IsCounted :
    (memory : Bool) (g : Registry) (arena base len : ℕ)
    → arena ≢ 0
    → IsCounted g
    → IsCounted (oor_insert memory g arena base len)
unfolding oor_insert
oor_insert-IsCounted memory g arena base len a v =
    if_cases (λ (g : Registry). IsCounted g) (has_retired g.outside base (add64 base len))
      (λ e. omega (arith, revive-owned g.outside base (add64 base len) arena a e))
      (λ _. if_cases (λ (g : Registry). IsCounted g) (not memory) (λ _. v) (λ _. one_more))
  where
    node : OorSheet
    node = record { lo = base; hi = add64 base len; owner = arena }

    one_more : IsCounted (record g { outside = node ∷ g.outside; live = add32 g.live 1 })
    one_more = ground arith

-- If `__oor_live` counts the nodes that have an owner, it still does after a sheet outside the
-- reservation is retired, whether or not it was registered.
pub oor_retire-IsCounted :
    (g : Registry) (base len : ℕ) → IsCounted g → IsCounted (oor_retire g base len)
unfolding oor_retire
oor_retire-IsCounted g base len v =
    if_cases (λ (g : Registry). IsCounted g) (g.live == 0) (λ _. v)
      (λ _.
        if_cases (λ (g : Registry). IsCounted g) (has_owned g.outside base (add64 base len))
          (λ e. omega (arith, disown-owned g.outside base (add64 base len) e)) (λ _. v))
