-- ===== src/Registry/Blocks.antt =====
-- The owner table of src/sheet_header.hpp: what registering and unregistering a sheet inside the
-- reservation changes.
use abcmalloc.Base.{
  ℕ, zero, suc, ◌+◌, ◌-◌, ◌*◌, ◌/◌, ◌^◌, ◌<◌, ◌≤◌, ◌≡◌, refl, ap, ◌∙◌, Bool, true, ◌&&◌, ltb, leb,
  if◌then◌else◌, arith, update, inl, inr, Bool-cases, ltb-of-lt, ltb-of-le, leb-of-le, leb-of-lt,
  lt-of-ltb, le-of-leb, le-of-leb-false, le-of-ltb-false,
}
use abcmalloc.Reserve.{Reserve, contains, sheet_align, reservation_size}
use abcmalloc.Registry.{
  Registry, block_index, blocks_of, set_owners, sheet_register, sheet_unregister, owner_of,
}

-- The loop writes the cells from `first` to `first + left`, and no other.
set_owners-get :
    (f : ℕ → ℕ) (first left arena i : ℕ)
    → set_owners f first left arena i ≡ (if leb first i && ltb i (first + left) then arena else f i)
unfolding set_owners
set_owners-get f first zero arena i = ground arith
set_owners-get f first (suc left) arena i =
    set_owners-get (update f first arena) (first + 1) left arena i ∙ ground arith

module _ (r : Reserve) (k len : ℕ) where
  -- Where the blocks of a sheet of `len` bytes end that starts at granule `k`.
  abbrev pub sheet_end : ℕ
  sheet_end = r.base + (k + (len + (sheet_align - 1)) / sheet_align) * sheet_align

  -- A sheet that starts at granule `k` and lies in the reservation, all of it.
  pub record IsInside : Type 0 where
    pub reserved : 0 < r.base
    pub no_wrap : r.base + reservation_size < 2 ^ 64
    pub not_empty : 0 < len
    pub fits : k * sheet_align + len ≤ reservation_size

  abbrev pub sheet_base : ℕ
  sheet_base = r.base + k * sheet_align

  base-contained : IsInside → contains r sheet_base ≡ true
  unfolding contains
  base-contained v = ground (arith, v.reserved, v.fits, v.not_empty)

  base-index : IsInside → block_index r sheet_base ≡ k
  unfolding block_index
  base-index v = omega (arith, v.reserved, v.fits, v.not_empty, v.no_wrap)

  blocks_of-lem : IsInside → blocks_of len ≡ (len + (sheet_align - 1)) / sheet_align
  unfolding blocks_of
  blocks_of-lem v = omega (arith, v.fits)

  in_bounds : (p : ℕ) → contains r p ≡ true → (r.base ≤ p) × (p < r.base + reservation_size)
  unfolding contains
  in_bounds p c = (ground arith, ground arith)

  p-index : IsInside → (p : ℕ) → contains r p ≡ true → block_index r p ≡ (p - r.base) / sheet_align
  unfolding block_index
  p-index v p c = omega (arith, v.reserved, v.no_wrap, (in_bounds p c).0, (in_bounds p c).1)

  -- Whether an index is among the sheet's blocks is whether the address is in the sheet.
  among_blocks :
      IsInside
      → (p : ℕ) → contains r p ≡ true
      → (leb k ((p - r.base) / sheet_align)
          && ltb ((p - r.base) / sheet_align) (k + (len + (sheet_align - 1)) / sheet_align))
        ≡ (leb sheet_base p && ltb p sheet_end)
  among_blocks v p c = elim (Bool-cases (leb sheet_base p)) [
    | inr e ↦
        rw
          (
            e,
            leb-of-lt k ((p - r.base) / sheet_align)
                (omega (arith, le-of-leb-false sheet_base p e, (in_bounds p c).0)),
          )
          refl
    | inl e ↦
        rw (e, leb-of-le k ((p - r.base) / sheet_align) (omega (arith, le-of-leb sheet_base p e)))
          (elim (Bool-cases (ltb p sheet_end)) [
            | inl f ↦
                rw
                  (
                    f,
                    ltb-of-lt ((p - r.base) / sheet_align)
                        (k + (len + (sheet_align - 1)) / sheet_align)
                        (omega (arith, lt-of-ltb p sheet_end f)),
                  )
                  refl
            | inr f ↦
                rw
                  (
                    f,
                    ltb-of-le ((p - r.base) / sheet_align)
                        (k + (len + (sheet_align - 1)) / sheet_align)
                        (omega (arith, le-of-ltb-false p sheet_end f)),
                  )
                  refl
          ])
  ]

  same_test :
      IsInside
      → (p : ℕ) → contains r p ≡ true
      → (leb (block_index r sheet_base) (block_index r p)
          && ltb (block_index r p) (block_index r sheet_base + blocks_of len))
        ≡ (leb sheet_base p && ltb p sheet_end)
  same_test v p c = rw (base-index v, blocks_of-lem v, p-index v p c) (among_blocks v p c)

  -- What the loop leaves in the cell of an address.
  written :
      IsInside
      → (f : ℕ → ℕ) (arena p : ℕ) → contains r p ≡ true
      → set_owners f (block_index r sheet_base) (blocks_of len) arena (block_index r p)
        ≡ (if leb sheet_base p && ltb p sheet_end then arena else f (block_index r p))
  written v f arena p c =
      set_owners-get f (block_index r sheet_base) (blocks_of len) arena (block_index r p)
      ∙ ap (λ (b : Bool). if b then arena else f (block_index r p)) (same_test v p c)

  -- After a sheet was registered that starts at a granule of the reservation and lies inside it,
  -- the addresses from its start to the end of its last granule belong to its arena, and the
  -- other addresses of the reservation to the arena that they belonged to.
  pub owner_of-sheet_register :
      (memory : Bool) (g : Registry) (arena p : ℕ)
      → IsInside
      → contains r p ≡ true
      → owner_of r (sheet_register memory r g arena sheet_base len) p
        ≡ (if leb sheet_base p && ltb p sheet_end then arena else owner_of r g p)
  unfolding owner_of sheet_register
  owner_of-sheet_register memory g arena p v c =
      rw (base-contained v, c) (written v g.owners arena p c)

  -- After a sheet was unregistered that starts at a granule of the reservation and lies inside
  -- it, the addresses from its start to the end of its last granule belong to no arena, and the
  -- other addresses of the reservation to the arena that they belonged to.
  pub owner_of-sheet_unregister :
      (g : Registry) (p : ℕ)
      → IsInside
      → contains r p ≡ true
      → owner_of r (sheet_unregister r g sheet_base len) p
        ≡ (if leb sheet_base p && ltb p sheet_end then 0 else owner_of r g p)
  unfolding owner_of sheet_unregister
  owner_of-sheet_unregister g p v c = rw (base-contained v, c) (written v g.owners 0 p c)
