-- ===== src/Mm/Resource/Carve.antt =====
-- Cutting a range out of an idle one (`resoure_add_range` of myLoader/mm/memory.c) keeps every
-- address in as many ranges as before, and reserves exactly the new range.
use porcelix.Prelude.{
  ℕ, ◌+◌, ◌-◌, ◌%◌, ◌^◌, ◌≤◌, ◌<◌, ◌≡◌, List, [], ◌∷◌, ◌++◌, some, arith, ltb, if◌then◌else◌,
  length, get_elem?, set, true, length-append, length-set,
}
use porcelix.Mm.Resource.{RangeDesc, range_desc, is_idle, has_room, carve, rangeresource_type_idle}
use porcelix.Mm.Resource.Sums.{
  sum, sum-append, sum-set, sum-single, covers, holds, overflows, cover, held,
}

module _ (rd : List RangeDesc) (i : ℕ) (cur : RangeDesc) (begin size flag : ℕ)
    (at : get_elem? rd i ≡ some cur) where
  abbrev fresh : RangeDesc
  fresh = range_desc begin size flag

  abbrev before : RangeDesc
  before = range_desc cur.begin (begin - cur.begin) rangeresource_type_idle

  abbrev behind : RangeDesc
  behind =
      range_desc ((begin + size) % 2 ^ 32) ((cur.begin + cur.size + 2 ^ 33 - begin - size) % 2 ^ 32)
        rangeresource_type_idle

  sum-carve :
      (f : RangeDesc → ℕ)
      → sum f (carve rd i cur begin size flag) + f cur
        ≡ sum f rd
          + f fresh
          + (if ltb cur.begin begin then f before else 0)
          + (if ltb ((begin + size) % 2 ^ 32) (cur.begin + cur.size) then f behind else 0)
  unfolding carve
  sum-carve f = ground (
    arith,
    sum-set f rd i cur fresh at,
    sum-append f (set rd i fresh) (before ∷ []),
    sum-append f (set rd i fresh ++ before ∷ []) (behind ∷ []),
    sum-append f (set rd i fresh) (behind ∷ []),
    sum-single f before,
    sum-single f behind,
  )

  pub length-carve : length (carve rd i cur begin size flag) ≤ length rd + 2
  unfolding carve
  length-carve = ground (
    arith,
    length-set rd i fresh,
    length-append (set rd i fresh) (before ∷ []),
    length-append (set rd i fresh ++ before ∷ []) (behind ∷ []),
    length-append (set rd i fresh) (behind ∷ []),
  )

  module _ (idle : is_idle cur ≡ true) (room : has_room begin size cur ≡ true)
      (fits : cur.begin + cur.size < 2 ^ 32) (small : begin + size < 2 ^ 32) where
    bounds : (cur.begin ≤ begin) × (begin + size ≤ cur.begin + cur.size)
    unfolding has_room
    bounds = ground arith

    pub cover-carve : (x : ℕ) → cover x (carve rd i cur begin size flag) ≡ cover x rd
    cover-carve x = ground (arith, sum-carve (covers x), bounds)

    pub held-carve : (x : ℕ) → held x (carve rd i cur begin size flag) ≡ held x rd + holds x fresh
    held-carve x = ground (arith, sum-carve (holds x), bounds)

    pub overflows-carve : sum overflows rd ≡ 0 → sum overflows (carve rd i cur begin size flag) ≡ 0
    overflows-carve h = ground (arith, sum-carve overflows, bounds)
