-- ===== src/Mm/Buddy.antt =====
-- The buddy allocator of physical pages, myLoader/mm/page.c. A page is its index in `pagelist`; the
-- records behind the array's end read as unlinked. An index is below 2 ^ 20, and its address fits.
-- `linked` says that the page's `freepage` node has pointers, and the lists of free blocks hold
-- page indices. `none` is a failed `ASSERT`. Memory contents are not part of the state:
-- `page_alloc` says how many bytes it has cleared. The interrupt masking of the source leaves no
-- trace: a call runs alone.
pub mod Invariant
pub mod Insert
pub mod Remove
pub mod Pairs
pub mod Split
pub mod Rounds
pub mod Alloc
pub mod Merge
pub mod Free
pub mod Online
use porcelix.Prelude.{
  ℕ, zero, suc, ◌+◌, ◌-◌, ◌*◌, ◌/◌, ◌%◌, ◌^◌, Bool, true, false, not, ◌&&◌, Option, none, some,
  List, [], ◌∷◌, min, bit_and, bit_xor, ltb, leb, ◌==◌, if◌then◌else◌,
}
use porcelix.Prelude.Mem.{◌>>=◌, ◌>>◌, assert}

abbrev pub buddy_ranknum : ℕ
buddy_ranknum = 15

abbrev pub mmarea_num : ℕ
mmarea_num = 3

abbrev pub paf_areamask : ℕ
paf_areamask = 0x3

abbrev pub paf_zero : ℕ
paf_zero = 0x10

-- `struct page`
pub record Page : Type 0 where
  pub linked : Bool
  pub buddy_rank : ℕ
  pub refcount : ℕ

-- `memarea_t`, its lists left to `Mem`
pub record MemArea : Type 0 where
  pub begin : ℕ
  pub size : ℕ

-- `pagelist`, `g_mmarea`, and `g_mmarea[a].fpage_list[r]`
pub record Mem : Type 0 where
  pub pages : ℕ → Page
  pub areas : List MemArea
  pub fpage_list : ℕ → ℕ → List ℕ

abbrev pub update {ℓ} : {A : Type ℓ} → (ℕ → A) → ℕ → A → ℕ → A
update f i v j = if j == i then v else f j

unfoldable pub erase : ℕ → List ℕ → List ℕ
erase i [] = []
erase i (j ∷ xs) = if j == i then xs else j ∷ erase i xs

-- `get_pagearea`: the index of the area that holds the page's address.
unfoldable pub find_area : ℕ → ℕ → List MemArea → Option ℕ
find_area pa a [] = none
find_area pa a (area ∷ areas) =
    let rest = find_area pa (a + 1) areas in
    if not (area.size == 0) && (leb area.begin pa && ltb pa ((area.begin + area.size) % 2 ^ 32))
    then some a
    else rest

unfoldable pub get_pagearea : List MemArea → ℕ → Option ℕ
get_pagearea g_mmarea i = find_area (i * 4096 % 2 ^ 32) 0 g_mmarea

-- `GET_BUDDY_PAGE` of a page with this rank
abbrev pub buddy_of : ℕ → ℕ → ℕ
buddy_of i rank = bit_xor i (2 ^ rank)

unfoldable pub set_rank : Mem → ℕ → ℕ → Mem
set_rank m i rank = record m { pages = update m.pages i (record (m.pages i) { buddy_rank = rank }) }

abbrev pub set_linked : (ℕ → Page) → ℕ → Bool → ℕ → Page
set_linked pages i b = update pages i (record (pages i) { linked = b })

-- `list_add_head(&page->freepage, &area->fpage_list[rank])`
unfoldable pub list_add_head : Mem → ℕ → ℕ → ℕ → Mem
list_add_head m i a rank = record m {
  pages = set_linked m.pages i true;
  fpage_list = λ a' r. if a' == a && r == rank then i ∷ m.fpage_list a' r else m.fpage_list a' r;
}

-- `list_remove(&page->freepage)`: the node leaves whichever list it stands in.
pub list_remove : Mem → ℕ → Mem
list_remove m i = record m {
  pages = set_linked m.pages i false;
  fpage_list = λ a r. erase i (m.fpage_list a r);
}

abbrev pub tail : List ℕ → List ℕ
tail [] = []
tail (i ∷ xs) = xs

-- `list_remove_head(&area->fpage_list[rank])`, of a list whose first page is `i`
unfoldable pub list_remove_head : Mem → ℕ → ℕ → ℕ → Mem
list_remove_head m i a rank = record m {
  pages = set_linked m.pages i false;
  fpage_list = λ a' r. if a' == a && r == rank then tail (m.fpage_list a' r) else m.fpage_list a' r;
}

-- The search loop of `page_alloc`: the first rank from `i` on with a free block, among the `k`
-- ranks that are left, and that block.
unfoldable pub find_free : (ℕ → List ℕ) → ℕ → ℕ → Option (ℕ × ℕ)
find_free lists i zero = none
find_free lists i (suc k) = elim (lists i) [
  | [] ↦ find_free lists (i + 1) k
  | p ∷ rest ↦ some (i, p)
]

-- The split loop of `page_alloc`; `k` bounds its rounds.
unfoldable pub split : ℕ → Mem → ℕ → ℕ → ℕ → Mem
split zero m newpage a rank = m
split (suc k) m newpage a rank = elim (ltb rank (m.pages newpage).buddy_rank) [
  | false ↦ m
  | true ↦
      let r = (m.pages newpage).buddy_rank - 1 in
      let m' = set_rank m newpage r in
      let buddypage = buddy_of newpage r in
      split k (list_add_head (set_rank m' buddypage r) buddypage a r) newpage a rank
]

abbrev pub area_size : List MemArea → ℕ → ℕ
area_size [] a = 0
area_size (x ∷ xs) zero = x.size
area_size (x ∷ xs) (suc a) = area_size xs a

-- The address that is returned, or `none` for NULL, with the number of bytes cleared in the block.
-- A rank above `buddy_ranknum` reads behind the lists, which is `none` for the call.
unfoldable pub page_alloc : Mem → ℕ → ℕ → Option (Option (ℕ × ℕ) × Mem)
page_alloc m rank paf =
    let a = bit_and paf paf_areamask in
    let zeroed = if bit_and paf paf_zero == 0 then 0 else 2 ^ (rank + 12) in
    if not (ltb a mmarea_num)
    then none
    else (if area_size m.areas a == 0
        then some (none, m)
        else elim (find_free (m.fpage_list a) rank (buddy_ranknum - rank)) [
          | none ↦ if leb rank buddy_ranknum then some (none, m) else none
          | some (i, newpage) ↦ some (
            some (newpage * 4096, zeroed),
            split buddy_ranknum (list_remove_head m newpage a i) newpage a rank,
          )
        ])

-- The merge loop of `page_free`: the page that heads the block when the loop stops.
pub merge : ℕ → Mem → ℕ → ℕ → Option (ℕ × Mem)
merge zero m freepage area = some (freepage, m)
merge (suc k) m freepage area = elim (ltb (m.pages freepage).buddy_rank (buddy_ranknum - 1)) [
  | false ↦ some (freepage, m)
  | true ↦
      let rank = (m.pages freepage).buddy_rank in
      let buddypage = buddy_of freepage rank in
      elim ((m.pages buddypage).linked && (m.pages buddypage).buddy_rank == rank) [
        | false ↦ some (freepage, m)
        | true ↦ elim (get_pagearea m.areas buddypage) [
          | none ↦ none
          | some b ↦ elim (b == area) [
            | false ↦ some (freepage, m)
            | true ↦
                let head = min freepage buddypage in
                let m' = list_remove m buddypage in
                merge k (set_rank m' head ((m'.pages head).buddy_rank + 1)) head area
          ]
        ]
      ]
]

pub page_free : Mem → ℕ → Option Mem
page_free m addr = do
  let freepage = addr / 4096
  assert ((m.pages freepage).refcount == 0)
  assert (ltb (m.pages freepage).buddy_rank buddy_ranknum)
  assert (not (m.pages freepage).linked)
  area ← get_pagearea m.areas freepage
  (head, m') ← merge buddy_ranknum m freepage area
  some (list_add_head m' head area (m'.pages head).buddy_rank)

-- The loop of `sysram_online` from the address `pa` on; `k` bounds its rounds.
online_from : ℕ → Mem → ℕ → ℕ → Option Mem
online_from zero m pa end = some m
online_from (suc k) m pa end = elim (ltb pa end) [
  | false ↦ some m
  | true ↦
      let i = pa / 4096 in
      let page = record (m.pages i) { buddy_rank = 0; refcount = 0 } in
      page_free (record m { pages = update m.pages i page }) pa >>= λ m'.
      online_from k m' ((pa + 4096) % 2 ^ 32) end
]

pub sysram_online : Mem → ℕ → ℕ → Option Mem
unfolding online_from
sysram_online m begin size = do
  assert (bit_and begin 4095 == 0)
  assert (bit_and size 4095 == 0)
  online_from (size / 4096) m begin ((begin + size) % 2 ^ 32)
