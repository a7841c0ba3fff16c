-- ===== src/Search/Floor.antt =====
-- `alg_bsch` of myLoader/core/func.c ends, stays in the array, and finds the entry that covers
-- `dst`.
use porcelix.Prelude.{
  ℕ, zero, suc, ◌+◌, ◌/◌, ◌%◌, ◌^◌, ◌≤◌, ◌<◌, ◌≡◌, inl, inr, false, some, List, arith, ltb, ◌==◌,
  ==_iff, ltb→lt, Bool-cases, length, get_elem?, dec_lt, ap,
}
use porcelix.Prelude.Mem.{get_elem?_in}
use porcelix.Search.{bsch_loop, alg_bsch}

-- The entries grow strictly.
abbrev pub IsAscending : List ℕ → Type 0
IsAscending array =
    (i j a b : ℕ) → i < j → get_elem? array i ≡ some a → get_elem? array j ≡ some b → a < b

-- `idx` is the last entry that is not above `dst`, or 0 where every entry is above.
pub record IsFloor (dst : ℕ) (array : List ℕ) (size idx : ℕ) : Type 0 where
  pub in_range : idx < size
  pub covers : (a : ℕ) → 0 < idx → get_elem? array idx ≡ some a → a ≤ dst
  pub last : (j b : ℕ) → idx < j → j < size → get_elem? array j ≡ some b → dst < b

module _ (dst : ℕ) (array : List ℕ) (size : ℕ) (sorted : IsAscending array) where
  -- everything at or behind `idx_r` is above `dst`, and `idx_l` is not, or is 0
  record IsRange (idx_l idx_r : ℕ) : Type 0 where
    ordered : idx_l < idx_r
    inside : idx_r ≤ size
    low : (a : ℕ) → 0 < idx_l → get_elem? array idx_l ≡ some a → a ≤ dst
    high : (j b : ℕ) → idx_r ≤ j → j < size → get_elem? array j ≡ some b → dst < b

  closed :
      (idx_l idx_r : ℕ) → IsRange idx_l idx_r → idx_l + 1 ≡ idx_r → IsFloor dst array size idx_l
  closed idx_l idx_r r e = record {
    in_range = omega (arith, r.ordered, r.inside);
    covers = r.low;
    last = λ j b h k. r.high j b (omega arith) k;
  }

  step_room :
      {idx_l idx_r : ℕ}
      → ((idx_l + 1) % 2 ^ 32 == idx_r) ≡ false
      → idx_l < idx_r
      → idx_r ≤ size
      → size < 2 ^ 31
      → idx_l + 1 < idx_r
  step_room more h k small = ground arith

  found : (m v : ℕ) → get_elem? array m ≡ some v → m < size → dst ≡ v → IsFloor dst array size m
  found m v read h e = record {
    in_range = h;
    covers = λ a p q. ground arith;
    last = λ j b p k q. omega (arith, sorted m j v b p read q);
  }

  lower :
      {idx_l idx_r : ℕ} (m v : ℕ)
      → get_elem? array m ≡ some v
      → idx_l < m
      → m < idx_r
      → dst < v
      → IsRange idx_l idx_r
      → IsRange idx_l m
  lower m v read h k under r = record {
    ordered = h;
    inside = omega (arith, r.inside);
    low = r.low;
    high = λ j b p q e. elim (dec_lt m j) [
      | yes l ↦ omega (arith, sorted m j v b l read e)
      | no n ↦ let same : j ≡ m = omega arith in ground (arith, ap (get_elem? array) same)
    ];
  }

  upper :
      {idx_l idx_r : ℕ} (m v : ℕ)
      → get_elem? array m ≡ some v
      → m < idx_r
      → v ≤ dst
      → IsRange idx_l idx_r
      → IsRange m idx_r
  upper m v read k over r = record {
    ordered = k;
    inside = r.inside;
    low = λ a p e. ground arith;
    high = r.high;
  }

  bsch_loop-IsFloor :
      (fuel idx_l idx_r : ℕ)
      → size ≤ length array
      → size < 2 ^ 31
      → idx_r ≤ idx_l + fuel
      → IsRange idx_l idx_r
      → (idx : ℕ) × (bsch_loop fuel dst array idx_l idx_r ≡ some idx) × IsFloor dst array size idx
  unfolding bsch_loop
  bsch_loop-IsFloor zero idx_l idx_r whole small enough r = absurd (omega (arith, r.ordered))
  bsch_loop-IsFloor (suc fuel) idx_l idx_r whole small enough r =
      let m = (idx_l + idx_r) % 2 ^ 32 / 2 in
      let ordered = r.ordered in
      let inside = r.inside in
      let (v, read) = get_elem?_in array m (omega arith) in
      elim (Bool-cases ((idx_l + 1) % 2 ^ 32 == idx_r)) [
        | inl done ↦ (
          idx_l,
          rw (done, bsch_loop),
          closed idx_l idx_r r (omega (arith, (==_iff _ idx_r).0 done)),
        )
        | inr more ↦
            let apart : idx_l + 1 < idx_r = step_room more ordered inside small in
            elim (Bool-cases (dst == v)) [
              | inl hit ↦ (
                m,
                rw (more, read, hit, bsch_loop),
                found m v read (omega arith) ((==_iff dst v).0 hit),
              )
              | inr miss ↦ elim (Bool-cases (ltb dst v)) [
                | inl under ↦
                    rw (more, read, miss, under, bsch_loop)
                      (bsch_loop-IsFloor fuel idx_l m whole small (omega arith)
                        (lower m v read (omega arith) (omega arith) (ltb→lt dst v under) r))
                | inr over ↦
                    rw (more, read, miss, over, bsch_loop)
                      (bsch_loop-IsFloor fuel m idx_r whole small (omega arith)
                        (upper m v read (omega arith) (ground arith) r))
              ]
            ]
      ]

  -- `alg_bsch` on a strictly ascending array of `size` entries, `size` not 0 and below 2 ^ 31,
  -- ends without a read past the array. It returns an index in range; every later entry is above
  -- `dst`, and the entry there is at most `dst` unless the index is 0.
  pub alg_bsch-IsFloor :
      0 < size
      → size ≤ length array
      → size < 2 ^ 31
      → (idx : ℕ) × (alg_bsch dst array size ≡ some idx) × IsFloor dst array size idx
  unfolding alg_bsch
  alg_bsch-IsFloor some_size whole small =
      bsch_loop-IsFloor size 0 size whole small (omega arith) (record {
        ordered = some_size;
        inside = omega arith;
        low = λ a h e. absurd (omega arith);
        high = λ j b h k e. absurd (omega arith);
      })
