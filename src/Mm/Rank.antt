-- ===== src/Mm/Rank.antt =====
-- `get_pagerank` of myLoader/mm/page.c: the rank of the block to ask the page allocator for.
pub mod Least
use porcelix.Prelude.{ℕ, ◌+◌, ◌-◌, ◌^◌, ltb, if◌then◌else◌}
use porcelix.Prelude.Int.{pos, negsuc}
use porcelix.Word.{log2}

abbrev pub pagesize_shift : ℕ
pagesize_shift = 12

pub get_pagerank : ℕ → ℕ
get_pagerank size = elim (log2 size) [
  | negsuc n ↦ 0
  | pos i ↦
      if ltb i pagesize_shift
      then 0
      else (if ltb (2 ^ i) size then i - pagesize_shift + 1 else i - pagesize_shift)
]
