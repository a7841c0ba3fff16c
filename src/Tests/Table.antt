-- ===== src/Tests/Table.antt =====
-- The range table of myLoader/mm/memory.c, with insertion sort for `sort`.
use porcelix.Prelude.{
  ℕ, ◌+◌, ◌≤◌, ◌<◌, ◌≡◌, refl, ◌≢◌, ◌⊎◌, List, [], ◌∷◌, some, arith, length, get_elem?,
}
use porcelix.Prelude.Int.{pos, negsuc}
use porcelix.Sorter.{insertion}
use porcelix.Mm.Resource.{
  RangeDesc, range_desc, resoure_add_range, find_range, has_room, mm_rangeresource_maxnum,
}
use porcelix.Mm.Resource.Sums.{cover, held, sum}
use porcelix.Mm.Resource.Outcome.{
  IsResource, IsReserved, resoure_add_range-IsReserved, resoure_add_range_returns, IsRoom,
  resoure_add_range_exclusive,
}

-- 1 MB of idle memory below 1 MB of used memory.
abbrev table : List RangeDesc
table = range_desc 0 0x100000 0 ∷ range_desc 0x100000 0x100000 1 ∷ []

table-IsResource : IsResource table
unfolding sum
table-IsResource = record { bounded = omega arith; fits = ground arith }

resoure_add_range-IsReserved_example :
    IsReserved
      (insertion RangeDesc)
      table
      0x1000
      0x2000
      2
      (resoure_add_range (insertion RangeDesc) table 0x1000 0x2000 2).1
resoure_add_range-IsReserved_example =
    resoure_add_range-IsReserved (insertion RangeDesc) table 0x1000 0x2000 2 table-IsResource
      (omega arith) won
  where
    won : (resoure_add_range (insertion RangeDesc) table 0x1000 0x2000 2).0 ≡ pos 0
    won = unfold resoure_add_range find_range has_room in refl

resoure_add_range_returns_example :
    ((mm_rangeresource_maxnum < length table + 2)
      × (resoure_add_range (insertion RangeDesc) table 0xff000 0x1000 1 ≡ (negsuc 1, table)))
    ⊎ ((length table + 2 ≤ mm_rangeresource_maxnum)
        × (k : ℕ) × (d : RangeDesc) × (get_elem? table k ≡ some d)
        × IsRoom 0xff000 0x1000 d
        × ((resoure_add_range (insertion RangeDesc) table 0xff000 0x1000 1).0 ≡ pos 0))
    ⊎ ((length table + 2 ≤ mm_rangeresource_maxnum)
        × ((k : ℕ) (d : RangeDesc) → get_elem? table k ≡ some d → IsRoom 0xff000 0x1000 d → ⊥)
        × (resoure_add_range (insertion RangeDesc) table 0xff000 0x1000 1 ≡ (negsuc 0, table)))
resoure_add_range_returns_example =
    resoure_add_range_returns (insertion RangeDesc) table 0xff000 0x1000 1 table-IsResource
      (omega arith)

resoure_add_range_exclusive_example :
    (resoure_add_range (insertion RangeDesc) table 0x100000 0x1000 1).0 ≢ pos 0
resoure_add_range_exclusive_example =
    resoure_add_range_exclusive (insertion RangeDesc) table 0x100000 0x1000 1 0x100000
      table-IsResource (omega arith) (omega arith) (omega arith) refl single taken
  where
    single : cover 0x100000 table ≤ 1
    single = unfold sum in omega arith

    taken : 1 ≤ held 0x100000 table
    taken = unfold sum in omega arith
