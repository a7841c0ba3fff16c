-- ===== src/Search.antt =====
-- `alg_bsch` of myLoader/core/func.c: binary search for the last entry that is not above a value,
-- as `allsym_resolvaddr` of myLoader/core/module.c uses it. A read past the array and a loop that
-- outlives its fuel give `none`. `bsearch` and `sort`, beside it, are copies from the Linux kernel.
pub mod Floor
use porcelix.Prelude.{
  ℕ, zero, suc, ◌+◌, ◌/◌, ◌%◌, ◌^◌, true, false, Option, none, some, List, ltb, ◌==◌, length,
  get_elem?,
}

bsch_loop : ℕ → ℕ → List ℕ → ℕ → ℕ → Option ℕ
bsch_loop zero dst array idx_l idx_r = none
bsch_loop (suc fuel) dst array idx_l idx_r = elim ((idx_l + 1) % 2 ^ 32 == idx_r) [
  | true ↦ some idx_l
  | false ↦
      let idx_m = (idx_l + idx_r) % 2 ^ 32 / 2 in
      elim (get_elem? array idx_m) [
        | none ↦ none
        | some v ↦ elim (dst == v) [
          | true ↦ some idx_m
          | false ↦ elim (ltb dst v) [
            | true ↦ bsch_loop fuel dst array idx_l idx_m
            | false ↦ bsch_loop fuel dst array idx_m idx_r
          ]
        ]
      ]
]

-- Every round shortens the range, so its length is fuel enough.
pub alg_bsch : ℕ → List ℕ → ℕ → Option ℕ
unfolding bsch_loop
alg_bsch dst array size = bsch_loop size dst array 0 size
