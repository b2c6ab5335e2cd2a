-- ===== src/Registry.antt =====
-- Which arena owns an address: src/sheet_header.hpp, with the constants of a 64-bit machine.
-- An arena is a number, and 0 is `nullptr`.
pub mod Blocks
pub mod Outside
mod Tests
use abcmalloc.Base.{
  ℕ, zero, suc, ◌+◌, ◌-◌, ◌*◌, ◌/◌, ◌%◌, ◌^◌, Bool, true, false, not, ◌&&◌, ◌||◌, ltb, leb, ◌==◌,
  if◌then◌else◌, List, [], ◌∷◌, update, add64, sub64, add32, sub32,
}
use abcmalloc.Reserve.{Reserve, contains, sheet_align}

-- `__oor_sheet`; its `next` is the rest of the list.
pub record OorSheet : Type 0 where
  pub lo : ℕ
  pub hi : ℕ
  pub owner : ℕ

-- `__block_owner_table`, the list at `__oor_head` and `__oor_live`
pub record Registry : Type 0 where
  pub owners : ℕ → ℕ
  pub outside : List OorSheet
  pub live : ℕ

abbrev pub empty_registry : Registry
empty_registry = record { owners = λ _. 0; outside = []; live = 0 }

unfoldable pub block_index : Reserve → (p : ℕ) → ℕ
block_index r p = sub64 p r.base / sheet_align

-- Whether the loop of `__oor_insert` finds a retired node of the same range.
unfoldable pub has_retired : List OorSheet → (lo hi : ℕ) → Bool
has_retired [] lo hi = false
has_retired (n ∷ ns) lo hi =
    ((n.lo == lo) && (n.hi == hi) && (n.owner == 0)) || has_retired ns lo hi

-- The first such node gets the owner.
unfoldable pub revive : List OorSheet → (lo hi arena : ℕ) → List OorSheet
revive [] lo hi arena = []
revive (n ∷ ns) lo hi arena =
    let rest = revive ns lo hi arena in
    if (n.lo == lo) && (n.hi == hi) && (n.owner == 0)
    then record n { owner = arena } ∷ ns
    else n ∷ rest

-- `memory` is whether the system allocator gives memory for a node.
unfoldable pub oor_insert : (memory : Bool) → Registry → (arena base len : ℕ) → Registry
oor_insert memory g arena base len =
    let hi = add64 base len in
    if has_retired g.outside base hi
    then record g { outside = revive g.outside base hi arena; live = add32 g.live 1 }
    else if not memory
    then g
    else record g {
      outside = record { lo = base; hi = hi; owner = arena } ∷ g.outside;
      live = add32 g.live 1;
    }

-- Whether the loop of `__oor_retire` finds a node.
unfoldable pub has_owned : List OorSheet → (lo hi : ℕ) → Bool
has_owned [] lo hi = false
has_owned (n ∷ ns) lo hi =
    ((n.lo == lo) && (n.hi == hi) && not (n.owner == 0)) || has_owned ns lo hi

-- The first such node loses its owner.
unfoldable pub disown : List OorSheet → (lo hi : ℕ) → List OorSheet
disown [] lo hi = []
disown (n ∷ ns) lo hi =
    let rest = disown ns lo hi in
    if (n.lo == lo) && (n.hi == hi) && not (n.owner == 0)
    then record n { owner = 0 } ∷ ns
    else n ∷ rest

unfoldable pub oor_retire : Registry → (base len : ℕ) → Registry
oor_retire g base len =
    if g.live == 0
    then g
    else if has_owned g.outside base (add64 base len)
    then record g { outside = disown g.outside base (add64 base len); live = sub32 g.live 1 }
    else g

-- The loop of `__oor_owner_of`: the owner in the first node whose range holds the address.
unfoldable pub owner_in : List OorSheet → (a : ℕ) → ℕ
owner_in [] a = 0
owner_in (n ∷ ns) a = let rest = owner_in ns a in if leb n.lo a && ltb a n.hi then n.owner else rest

unfoldable pub oor_owner_of : Registry → (p : ℕ) → ℕ
oor_owner_of g p = if g.live == 0 then 0 else owner_in g.outside p

-- `for ( i = 0; i < blocks; ++i ) __block_owner_table[first + i] = arena;` with `left` rounds to go.
unfoldable pub set_owners : (ℕ → ℕ) → (first left arena : ℕ) → ℕ → ℕ
set_owners f first zero arena = f
set_owners f first (suc left) arena = set_owners (update f first arena) (first + 1) left arena

-- `(len + __sheet_align_mask) >> __sheet_align_log2`
unfoldable pub blocks_of : (len : ℕ) → ℕ
blocks_of len = add64 len (sheet_align - 1) / sheet_align

unfoldable pub sheet_register :
    (memory : Bool) → Reserve → Registry → (arena base len : ℕ) → Registry
sheet_register memory r g arena base len =
    if not (contains r base)
    then oor_insert memory g arena base len
    else record g { owners = set_owners g.owners (block_index r base) (blocks_of len) arena }

unfoldable pub sheet_unregister : Reserve → Registry → (base len : ℕ) → Registry
sheet_unregister r g base len =
    if not (contains r base)
    then oor_retire g base len
    else record g { owners = set_owners g.owners (block_index r base) (blocks_of len) 0 }

unfoldable pub owner_of : Reserve → Registry → (p : ℕ) → ℕ
owner_of r g p = if not (contains r p) then oor_owner_of g p else g.owners (block_index r p)
