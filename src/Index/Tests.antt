-- ===== src/Index/Tests.antt =====
-- The index with two sheets, and a third between them.
use abcmalloc.Base.{ℕ, ◌+◌, ◌<◌, ◌≤◌, ◌≡◌, ◌⊎◌, refl, ◌==◌, if◌then◌else◌, some, arith}
use abcmalloc.Index.{
  Range, Index, find_loop, find_range, insert_position, mask_insert, shift_words_up, register_sheet,
  unregister,
}
use abcmalloc.Index.Search.{IsSorted, Finds, find_range-Finds}
use abcmalloc.Index.Register.{Inserted, register_sheet-IsSorted, unregister-IsSorted}

abbrev two_ranges : ℕ → Range
two_ranges i =
    if i == 0 then record { lo = 100; hi = 200; nd = 1 } else record { lo = 300; hi = 400; nd = 2 }

abbrev two_sheets : Index
two_sheets = record { idx = two_ranges; count = 2; last_hit = 1; space_mask = λ _. 3 }

two_sheets-IsSorted : IsSorted two_sheets
two_sheets-IsSorted = record { proper = λ i p. ground arith; apart = λ i j p q. ground arith }

found : find_range two_sheets 350 ≡ some 1
unfolding find_range find_loop
found = refl

find_range-Finds_example : Finds two_sheets 350 0 2 (find_range two_sheets 350)
find_range-Finds_example = find_range-Finds two_sheets 350 two_sheets-IsSorted

between_them : (i : ℕ) → i < 2 → (260 ≤ (two_sheets.idx i).lo) ⊎ ((two_sheets.idx i).hi ≤ 220)
between_them i p = ground arith

register_sheet-IsSorted_example :
    let (s', pos) = register_sheet 64 two_sheets 3 220 260 in
    IsSorted s' × Inserted two_sheets s' pos (record { lo = 220; hi = 260; nd = 3 })
register_sheet-IsSorted_example =
    register_sheet-IsSorted 64 two_sheets 3 220 260 two_sheets-IsSorted (omega arith) (omega arith)
      between_them

unregister-IsSorted_example :
    let s' = unregister 64 two_sheets 0 in
    IsSorted s'
    × (s'.count + 1 ≡ 2)
    × ((i : ℕ) → i < 0 → s'.idx i ≡ two_ranges i)
    × ((i : ℕ) → 0 ≤ i → i < s'.count → s'.idx i ≡ two_ranges (i + 1))
unregister-IsSorted_example = unregister-IsSorted 64 two_sheets 0 two_sheets-IsSorted (omega arith)

-- The bit of the sheet that is put between the two, and the bits moved by it.
bits_after : (register_sheet 64 two_sheets 3 220 260).0.space_mask 0 ≡ 7
unfolding register_sheet insert_position mask_insert shift_words_up
bits_after = refl
