-- ===== src/Registry/Tests.antt =====
-- The registry on concrete sheets.
use abcmalloc.Base.{ℕ, ◌+◌, ◌*◌, ◌^◌, ◌≡◌, refl, true, ◌&&◌, ltb, leb, if◌then◌else◌, arith}
use abcmalloc.Reserve.{Reserve, contains, empty_reserve}
use abcmalloc.Registry.{
  Registry, empty_registry, has_retired, revive, oor_insert, has_owned, disown, oor_retire,
  owner_in, oor_owner_of, sheet_register, sheet_unregister, owner_of,
}
use abcmalloc.Registry.Blocks.{
  IsInside, sheet_base, sheet_end, owner_of-sheet_register, owner_of-sheet_unregister,
}
use abcmalloc.Registry.Outside.{IsCounted, oor_retire-IsCounted}

abbrev reserved_at : Reserve
reserved_at = record empty_reserve { base = 2 ^ 40 }

-- A sheet of three megabytes at granule 5.
inside_5 : IsInside reserved_at 5 (3 * 2 ^ 20)
inside_5 = record {
  reserved = omega arith;
  no_wrap = omega arith;
  not_empty = omega arith;
  fits = omega arith;
}

in_reserved : contains reserved_at (2 ^ 40 + 7 * 2 ^ 20 + 2 ^ 22) ≡ true
unfolding contains
in_reserved = refl

abbrev address : ℕ
address = 2 ^ 40 + 7 * 2 ^ 20 + 2 ^ 22

owner_of-sheet_register_example :
    owner_of reserved_at
      (sheet_register true reserved_at empty_registry 9
        (sheet_base reserved_at 5 (3 * 2 ^ 20))
        (3 * 2 ^ 20))
      address
    ≡ (if leb (sheet_base reserved_at 5 (3 * 2 ^ 20)) address
          && ltb address (sheet_end reserved_at 5 (3 * 2 ^ 20))
        then 9
        else owner_of reserved_at empty_registry address)
owner_of-sheet_register_example =
    owner_of-sheet_register reserved_at 5 (3 * 2 ^ 20) true empty_registry 9 address inside_5
      in_reserved

owner_of-sheet_unregister_example :
    owner_of reserved_at
      (sheet_unregister reserved_at empty_registry
        (sheet_base reserved_at 5 (3 * 2 ^ 20))
        (3 * 2 ^ 20))
      address
    ≡ (if leb (sheet_base reserved_at 5 (3 * 2 ^ 20)) address
          && ltb address (sheet_end reserved_at 5 (3 * 2 ^ 20))
        then 0
        else owner_of reserved_at empty_registry address)
owner_of-sheet_unregister_example =
    owner_of-sheet_unregister reserved_at 5 (3 * 2 ^ 20) empty_registry address inside_5 in_reserved

inserted-IsCounted : IsCounted (oor_insert true empty_registry 9 4096 8192)
unfolding oor_insert has_retired
inserted-IsCounted = refl

oor_retire-IsCounted_example :
    IsCounted (oor_retire (oor_insert true empty_registry 9 4096 8192) 4096 8192)
oor_retire-IsCounted_example =
    oor_retire-IsCounted (oor_insert true empty_registry 9 4096 8192) 4096 8192 inserted-IsCounted

-- A sheet, a longer one at the same address after it, and the first one again: the retired longer
-- node comes first, and hides the owner of the sheet that is there.
abbrev again : Registry
unfolding oor_insert oor_retire has_retired revive has_owned disown
again =
    let one = oor_retire (oor_insert true empty_registry 7 4096 4096) 4096 4096 in
    let two = oor_retire (oor_insert true one 8 4096 8192) 4096 8192 in
    oor_insert true two 9 4096 4096

hidden_owner : oor_owner_of again 5000 ≡ 0
unfolding oor_owner_of owner_in again
hidden_owner = refl

hidden_is_live : again.live ≡ 1
unfolding again
hidden_is_live = refl
