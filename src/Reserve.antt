-- ===== src/Reserve.antt =====
-- The reservation of address space that sheets are carved from: src/va_reserve.hpp, with the
-- constants of a 64-bit machine. What `mmap` answers is an argument of the operations that call it.
-- An address is a number, and 0 is `nullptr`. A lock that is held for a whole operation makes the
-- operation one step.
pub mod Runs
pub mod Reuse
pub mod Carve
mod Tests
use abcmalloc.Base.{
  ℕ, zero, suc, ◌+◌, ◌-◌, ◌*◌, ◌/◌, ◌%◌, ◌^◌, Bool, true, false, not, ◌&&◌, ◌||◌, ltb, leb, ◌==◌,
  if◌then◌else◌, Option, none, some, update, add64,
}

-- `__sheet_align`, 2 MiB
abbrev pub sheet_align : ℕ
sheet_align = 2 ^ 21

-- `__va_reservation_size`, 256 GiB
abbrev pub reservation_size : ℕ
reservation_size = 2 ^ 38

-- `__va_free_cap`
abbrev pub free_cap : ℕ
free_cap = 2 ^ 17

-- `__va_free_run`
pub record FreeRun : Type 0 where
  pub off : ℕ
  pub granules : ℕ

-- `__va_base`, `__va_offset`, `__va_free_runs` and `__va_free_count`
pub record Reserve : Type 0 where
  pub base : ℕ
  pub offset : ℕ
  pub runs : ℕ → FreeRun
  pub free_count : ℕ

abbrev pub empty_reserve : Reserve
empty_reserve = record {
  base = 0;
  offset = 0;
  runs = λ _. record { off = 0; granules = 0 };
  free_count = 0;
}

-- `answer` is what `mmap` gives, `none` when it fails.
unfoldable pub reserve_once : (answer : Option ℕ) → Reserve → Reserve × ℕ
reserve_once none r = if r.base == 0 then (r, 0) else (r, r.base)
reserve_once (some p) r =
    if not (r.base == 0) then (r, r.base) else if p == 0 then (r, 0) else (record r { base = p }, p)

unfoldable pub commit : (answer : Option ℕ) → (slot : ℕ) → ℕ
commit none slot = 0
commit (some got) slot = if got == slot then slot else 0

-- `none` is `__va_bump_fail`.
unfoldable pub bump : Reserve → (rounded : ℕ) → Reserve × Option ℕ
bump r rounded =
    if ltb reservation_size (add64 r.offset rounded)
    then (r, none)
    else (record r { offset = add64 r.offset rounded }, some r.offset)

-- What `best` is after a run of `granules` that is large enough.
unfoldable pub better : (ℕ → FreeRun) → (best : Option ℕ) → (i : ℕ) → Option ℕ
better runs none i = some i
better runs (some b) i = if ltb (runs i).granules (runs b).granules then some i else some b

-- The loop of `__va_reuse`, from run `left - 1` down.
unfoldable pub best_run : (ℕ → FreeRun) → (want left : ℕ) → (best : Option ℕ) → Option ℕ
best_run runs want zero best = best
best_run runs want (suc i) best =
    let g = (runs i).granules in
    let next = if ltb g want then best else better runs best i in
    let rest = best_run runs want i next in
    if ltb g want then rest else if g == want then next else rest

-- The rest of `__va_reuse`, once the best run is known.
unfoldable pub take_run : Reserve → (want : ℕ) → Option ℕ → Reserve × Option ℕ
take_run r want none = (r, none)
take_run r want (some best) =
    let run = r.runs best in
    if ltb want run.granules
    then (
      record r {
        runs =
            update r.runs best
              (record { off = add64 run.off (want * sheet_align); granules = run.granules - want });
      },
      some run.off,
    )
    else (
      record r {
        runs = update r.runs best (r.runs (r.free_count - 1));
        free_count = r.free_count - 1;
      },
      some run.off,
    )

unfoldable pub reuse : Reserve → (want : ℕ) → Reserve × Option ℕ
reuse r want = take_run r want (best_run r.runs want r.free_count none)

-- `(bytes + __sheet_align_mask) & ~__sheet_align_mask`
unfoldable pub round_up : (bytes : ℕ) → ℕ
round_up bytes = add64 bytes (sheet_align - 1) / sheet_align * sheet_align

-- `static_cast<u32>(rounded >> __sheet_align_log2)`
unfoldable pub granules_of : (bytes : ℕ) → ℕ
granules_of bytes = (round_up bytes / sheet_align) % 2 ^ 32

-- The end of `__va_carve_reserved`: an offset that was bumped, as an address.
unfoldable pub placed : (base : ℕ) → Reserve × Option ℕ → Reserve × ℕ
placed base (r, none) = (r, 0)
placed base (r, some off) = (r, base + off)

-- `__va_carve_reserved` after the call of `__va_reuse`.
unfoldable pub reserved_after : (base rounded : ℕ) → Reserve × Option ℕ → Reserve × ℕ
reserved_after base rounded (r, none) = placed base (bump r rounded)
reserved_after base rounded (r, some off) = (r, base + off)

-- `fixed` answers the `mmap` at a fixed slot.
module _ (fixed : (slot len : ℕ) → Option ℕ) where
  -- The end of `__va_carve`: what was bumped is committed.
  unfoldable pub committed : (base rounded : ℕ) → Reserve × Option ℕ → Reserve × ℕ
  committed base rounded (r, none) = (r, 0)
  committed base rounded (r, some off) = (r, commit (fixed (base + off) rounded) (base + off))

  -- `__va_carve` after the call of `__va_reuse`.
  unfoldable pub carve_after : (base rounded : ℕ) → Reserve × Option ℕ → Reserve × ℕ
  carve_after base rounded (r, none) = committed base rounded (bump r rounded)
  carve_after base rounded (r, some off) =
      let got = commit (fixed (base + off) rounded) (base + off) in
      if not (got == 0) then (r, got) else committed base rounded (bump r rounded)

-- `fresh` is the answer of the `mmap` that reserves.
module _ (fresh : Option ℕ) where
  unfoldable pub carve : (fixed : (slot len : ℕ) → Option ℕ) → Reserve → (bytes : ℕ) → Reserve × ℕ
  carve fixed r bytes =
      let ready = reserve_once fresh r in
      if ready.1 == 0
      then (ready.0, 0)
      else carve_after fixed ready.1 (round_up bytes) (reuse ready.0 (granules_of bytes))

  unfoldable pub carve_reserved : Reserve → (bytes : ℕ) → Reserve × ℕ
  carve_reserved r bytes =
      let ready = reserve_once fresh r in
      if ready.1 == 0
      then (ready.0, 0)
      else reserved_after ready.1 (round_up bytes) (reuse ready.0 (granules_of bytes))

-- Whether an address lies in the reservation.
unfoldable pub contains : Reserve → (p : ℕ) → Bool
contains r p = not (r.base == 0) && (leb r.base p && ltb p (r.base + reservation_size))

unfoldable pub release : Reserve → (slot bytes : ℕ) → Reserve
release r slot bytes =
    if slot == 0
    then r
    else if r.base == 0
    then r
    else if ltb slot r.base || leb (r.base + reservation_size) slot
    then r
    else if ltb r.free_count free_cap
    then record r {
      runs =
          update r.runs r.free_count (record { off = slot - r.base; granules = granules_of bytes });
      free_count = r.free_count + 1;
    }
    else r
