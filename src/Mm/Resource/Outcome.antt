-- ===== src/Mm/Resource/Outcome.antt =====
-- What a call of `resoure_add_range` of myLoader/mm/memory.c does to the table, on every branch.
use porcelix.Prelude.{
  ℕ, ◌+◌, ◌^◌, ◌≤◌, ◌<◌, ◌≡◌, refl, ◌≢◌, ◌⊎◌, inl, inr, List, some, arith, ◌&&◌, length, get_elem?,
  false, ltb, Bool-cases, Option-cases, ◌∙◌, ltb→lt, ltb→le, true, ◌%◌, ◌↔◌, bit_and,
}
use porcelix.Prelude.Bits.{bit_and_mask}
use porcelix.Prelude.Int.{pos, negsuc}
use porcelix.Sorter.{Sorter, IsOrder, IsSorted}
use porcelix.Mm.Resource.{
  RangeDesc, range_desc, rr_cmp, is_idle, has_room, find_range, carve, resoure_add_range,
  mm_rangeresource_maxnum, rangeresource_type_mask,
}
use porcelix.Mm.Resource.Sums.{
  sum, sum-perm, length-perm, le-sum, cover, held, holds, covers, overflows, find_range-some,
  find_range-none, held-le-cover,
}
use porcelix.Mm.Resource.Carve.{length-carve, cover-carve, held-carve, overflows-carve}

-- The table fits its array, and no range runs over the end of the 32-bit address space.
pub record IsResource (sr : List RangeDesc) : Type 0 where
  pub bounded : length sr ≤ mm_rangeresource_maxnum
  pub fits : sum overflows sr ≡ 0

-- `rr_cmp` orders the ranges by their first address.
pub rr_cmp-IsOrder : IsOrder rr_cmp
unfolding rr_cmp
rr_cmp-IsOrder = record { total = λ a b. ground arith; trans = λ a b c p q. ground arith }

module _ (begin size : ℕ) where
  -- The range lies in the range `d`, which is idle: its type, the low three bits, is 0.
  abbrev pub IsRoom : RangeDesc → Type 0
  IsRoom d = (d.flag % 8 ≡ 0) × (d.begin ≤ begin) × (begin + size ≤ d.begin + d.size)

  -- On a table without ranges over the end of the address space the two tests of the loop find
  -- such a range.
  IsRoom-iff :
      (d : RangeDesc)
      → d.begin + d.size < 2 ^ 32
      → begin + size < 2 ^ 32
      → ((is_idle d && has_room begin size d) ≡ true) ↔ IsRoom d
  unfolding has_room
  IsRoom-iff d fits small =
      let low : bit_and d.flag rangeresource_type_mask ≡ d.flag % 8 = bit_and_mask 3 d.flag in
      let end : (begin + size) % 2 ^ 32 ≡ begin + size = omega arith in
      let end' : (d.begin + d.size) % 2 ^ 32 ≡ d.begin + d.size = omega arith in
      rw (low, end, end') (λ h. ground arith, λ (idle, from, until). ground arith)

module _ (sorter : Sorter RangeDesc) (sr : List RangeDesc) (begin size flag : ℕ) where
  -- The table after a call that succeeds: it is well formed and sorted by address, every address
  -- is in as many ranges as before, and the ranges that are not idle have gained exactly the
  -- addresses of the new range (none, if `flag` says idle).
  pub record IsReserved (sr' : List RangeDesc) : Type 0 where
    pub kept : IsResource sr'
    pub ordered : IsSorted rr_cmp sr'
    pub same_cover : (x : ℕ) → cover x sr' ≡ cover x sr
    pub gained : (x : ℕ) → held x sr' ≡ held x sr + holds x (range_desc begin size flag)

  carved :
      (i : ℕ) (cur : RangeDesc)
      → length sr + 2 ≤ mm_rangeresource_maxnum
      → IsResource sr
      → begin + size < 2 ^ 32
      → find_range begin size 0 sr ≡ some (i, cur)
      → IsReserved (sorter.sort rr_cmp (carve sr i cur begin size flag))
  carved i cur short r small hit =
      let (k, at, got, idle, room) = find_range-some begin size 0 sr i cur hit in
      let here : get_elem? sr i ≡ some cur = ground arith in
      let fits : cur.begin + cur.size < 2 ^ 32 =
        ground (arith, le-sum overflows sr i cur here, r.fits) in
      let p = sorter.perm rr_cmp (carve sr i cur begin size flag) in
      record {
        kept = record {
          bounded = omega (arith, length-perm p, length-carve sr i cur begin size flag here);
          fits =
              sum-perm overflows p
              ∙ overflows-carve sr i cur begin size flag here idle room fits small r.fits;
        };
        ordered = sorter.sorted rr_cmp (carve sr i cur begin size flag) rr_cmp-IsOrder;
        same_cover = λ x.
            sum-perm (covers x) p
            ∙ cover-carve sr i cur begin size flag here idle room fits small x;
        gained = λ x.
            sum-perm (holds x) p ∙ held-carve sr i cur begin size flag here idle room fits small x;
      }

  -- A call of `resoure_add_range` that returns 0 on a well-formed table, for a range below 2 ^ 32,
  -- leaves the table `IsReserved` describes.
  pub resoure_add_range-IsReserved :
      IsResource sr
      → begin + size < 2 ^ 32
      → (resoure_add_range sorter sr begin size flag).0 ≡ pos 0
      → IsReserved (resoure_add_range sorter sr begin size flag).1
  unfolding resoure_add_range
  resoure_add_range-IsReserved r small won =
      elim (Bool-cases (ltb mm_rangeresource_maxnum (length sr + 2))) [
        | inl full ↦ ground arith
        | inr free ↦ elim (Option-cases (find_range begin size 0 sr)) [
          | inl miss ↦ ground arith
          | inr ((i, cur), hit) ↦ rw (free, hit) (carved i cur (ground arith) r small hit)
        ]
      ]

  in_table :
      (k : ℕ) (d : RangeDesc) → IsResource sr → get_elem? sr k ≡ some d → d.begin + d.size < 2 ^ 32
  in_table k d r here = ground (arith, le-sum overflows sr k d here, r.fits)

  -- On a well-formed table, for a range below 2 ^ 32, `resoure_add_range` returns -2 where the table
  -- has no room for two more ranges, and leaves it as it was; otherwise it returns 0 where some
  -- idle range of the table holds the whole new range, and where none does, it returns -1 and
  -- leaves the table as it was.
  pub resoure_add_range_returns :
      IsResource sr
      → begin + size < 2 ^ 32
      → ((mm_rangeresource_maxnum < length sr + 2)
          × (resoure_add_range sorter sr begin size flag ≡ (negsuc 1, sr)))
        ⊎ ((length sr + 2 ≤ mm_rangeresource_maxnum)
            × (k : ℕ) × (d : RangeDesc) × (get_elem? sr k ≡ some d)
            × IsRoom begin size d
            × ((resoure_add_range sorter sr begin size flag).0 ≡ pos 0))
        ⊎ ((length sr + 2 ≤ mm_rangeresource_maxnum)
            × ((k : ℕ) (d : RangeDesc) → get_elem? sr k ≡ some d → IsRoom begin size d → ⊥)
            × (resoure_add_range sorter sr begin size flag ≡ (negsuc 0, sr)))
  unfolding resoure_add_range
  resoure_add_range_returns r small =
      elim (Bool-cases (ltb mm_rangeresource_maxnum (length sr + 2))) [
        | inl full ↦ inl (ltb→lt _ _ full, rw full refl)
        | inr free ↦ elim (Option-cases (find_range begin size 0 sr)) [
          | inl miss ↦ inr (
              inr (
                ltb→le _ _ free,
                λ k d here room.
                    let found = (IsRoom-iff begin size d (in_table k d r here) small).1 room in
                    let lost = find_range-none begin size 0 sr miss k d here in
                    ground (arith, found, lost),
                rw (free, miss) refl,
              ))
          | inr ((i, cur), hit) ↦
              let (k, at, here, idle, room) = find_range-some begin size 0 sr i cur hit in
              let both : (is_idle cur && has_room begin size cur) ≡ true = rw (idle, room) refl in
              inr (
                inl (
                  ltb→le _ _ free,
                  k,
                  cur,
                  here,
                  (IsRoom-iff begin size cur (in_table k cur r here) small).0 both,
                  rw (free, hit) refl,
                ))
        ]
      ]

  -- On a well-formed table whose ranges do not overlap at `x`, a range that is already used or
  -- reserved at `x` cannot be reserved again: a call for a range around `x` whose flag is not idle
  -- does not return 0.
  pub resoure_add_range_exclusive :
      (x : ℕ)
      → IsResource sr
      → begin + size < 2 ^ 32
      → begin ≤ x
      → x < begin + size
      → is_idle (range_desc begin size flag) ≡ false
      → cover x sr ≤ 1
      → 1 ≤ held x sr
      → (resoure_add_range sorter sr begin size flag).0 ≢ pos 0
  resoure_add_range_exclusive x r small low high busy single taken won =
      let after = resoure_add_range-IsReserved r small won in
      let sr' = (resoure_add_range sorter sr begin size flag).1 in
      ground (arith, after.same_cover x, after.gained x, held-le-cover x sr')
