-- ===== src/Mm/Resource.antt =====
-- `resoure_add_range` of myLoader/mm/memory.c: the table of address ranges that records which
-- memory is idle, used or reserved. A `resource_t` is the list of its `n_range` descriptors.
pub mod Sums
pub mod Carve
pub mod Outcome
use porcelix.Prelude.{
  ℕ, suc, zero, ◌+◌, ◌-◌, ◌%◌, ◌^◌, Bool, true, false, ◌&&◌, Option, none, some, List, [], ◌∷◌,
  ◌++◌, bit_and, ltb, leb, ◌==◌, if◌then◌else◌, length, set,
}
use porcelix.Prelude.Int.{ℤ, pos, negsuc}
use porcelix.Sorter.{Sorter}

pub record RangeDesc : Type 0 where
  pub begin : ℕ
  pub size : ℕ
  pub flag : ℕ

abbrev pub range_desc : ℕ → ℕ → ℕ → RangeDesc
range_desc b s f = record { begin = b; size = s; flag = f }

abbrev pub mm_rangeresource_maxnum : ℕ
mm_rangeresource_maxnum = 16

abbrev pub rangeresource_type_mask : ℕ
rangeresource_type_mask = 0x7

abbrev pub rangeresource_type_idle : ℕ
rangeresource_type_idle = 0

pub rr_cmp : RangeDesc → RangeDesc → ℤ
rr_cmp a b =
    if ltb a.begin b.begin then negsuc 0 else (if ltb b.begin a.begin then pos 1 else pos 0)

abbrev pub is_idle : RangeDesc → Bool
is_idle d = bit_and d.flag rangeresource_type_mask == rangeresource_type_idle

-- The two 32-bit comparisons of the search loop.
unfoldable pub has_room : ℕ → ℕ → RangeDesc → Bool
has_room begin size d =
    leb d.begin begin && leb ((begin + size) % 2 ^ 32) ((d.begin + d.size) % 2 ^ 32)

-- The search loop from index `i` on: the first idle range with room, and where it is.
unfoldable pub find_range : ℕ → ℕ → ℕ → List RangeDesc → Option (ℕ × RangeDesc)
find_range begin size i [] = none
find_range begin size i (d ∷ rd) =
    let rest = find_range begin size (i + 1) rd in
    if is_idle d && has_room begin size d then some (i, d) else rest

-- The table after the found range `cur` at `i` has been cut: the new range takes its place, and
-- what is left of it on either side is put behind the last range, as idle.
pub carve : List RangeDesc → ℕ → RangeDesc → ℕ → ℕ → ℕ → List RangeDesc
carve rd i cur begin size flag =
    let taken = set rd i (range_desc begin size flag) in
    let front =
      if ltb cur.begin begin
      then taken ++ range_desc cur.begin (begin - cur.begin) rangeresource_type_idle ∷ []
      else taken in
    if ltb ((begin + size) % 2 ^ 32) (cur.begin + cur.size)
    then front
      ++ range_desc ((begin + size) % 2 ^ 32)
          ((cur.begin + cur.size + 2 ^ 33 - begin - size) % 2 ^ 32) rangeresource_type_idle
        ∷ []
    else front

module _ (sorter : Sorter RangeDesc) where
  -- The return value and the table after the call.
  unfoldable pub resoure_add_range : List RangeDesc → ℕ → ℕ → ℕ → ℤ × List RangeDesc
  resoure_add_range sr begin size flag =
      if ltb mm_rangeresource_maxnum (length sr + 2)
      then (negsuc 1, sr)
      else elim (find_range begin size 0 sr) [
        | none ↦ (negsuc 0, sr)
        | some (i, cur) ↦ (pos 0, sorter.sort rr_cmp (carve sr i cur begin size flag))
      ]
