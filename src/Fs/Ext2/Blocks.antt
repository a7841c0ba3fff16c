-- ===== src/Fs/Ext2/Blocks.antt =====
-- The blocks of a file (myLoader/fs/ext2.c): which block of the disk holds its block `k`, and where
-- it belongs in memory.
use native.Mathlib.Nat.{add-mul, mul-add-div, mul-add-mod_self_left, div-eq_of_lt, mod-eq_of_lt}
use porcelix.Prelude.{
  ℕ, zero, suc, ◌+◌, ◌-◌, ◌*◌, ◌/◌, ◌%◌, ◌^◌, ◌<◌, ◌≡◌, refl, false, List, [], ◌∷◌, ◌++◌, arith,
  ltb, if◌then◌else◌, get_or, ap, ◌∙◌, lt→ltb, le→ltb,
}
use porcelix.Fs.Ext2.{
  Ext2Info, DevRead, Inode, ext2_load_block, per_block, index_of, ext2_ind_block, ext2_dind_block,
}

-- `f k`, `f (k + 1)` and so on, `n` of them.
abbrev pub from : {A : Type 0} → (ℕ → A) → ℕ → ℕ → List A
from f k zero = []
from f k (suc n) = f k ∷ from f (k + 1) n

pub from-append :
    {A : Type 0} (f : ℕ → A) (k n m : ℕ) → from f k n ++ from f (k + n) m ≡ from f k (n + m)
from-append f k zero m =
    ap (λ j. from f j m) {x = k + 0} {y = k} (omega arith)
    ∙ ap (λ j. from f k j) {x = m} {y = 0 + m} (omega arith)
from-append f k (suc n) m =
    ap (λ t. f k ∷ t)
      (ap (λ j. from f (k + 1) n ++ from f j m) {x = k + suc n} {y = k + 1 + n} (omega arith)
        ∙ from-append f (k + 1) n m)
    ∙ ap (λ j. from f k j) {x = suc (n + m)} {y = suc n + m} (omega arith)

module _ (info : Ext2Info) (word : ℕ → ℕ → ℕ) (inode : Inode) where
  -- The block map of ext2: direct, through one block of numbers, and through two.
  unfoldable pub block_of : ℕ → ℕ
  block_of k =
      let per = per_block info in
      let behind = k - ext2_ind_block - per in
      let direct = λ (i : ℕ). get_or inode.i_block i 0 in
      if ltb k ext2_ind_block
      then direct k
      else (if ltb (k - ext2_ind_block) per
          then index_of info word (direct ext2_ind_block) (k - ext2_ind_block)
          else index_of info word (index_of info word (direct ext2_dind_block) (behind / per))
              (behind % per))

  -- The read that brings the block `k` to its place in a file that starts at `mem`.
  unfoldable pub read_block : ℕ → ℕ → DevRead
  read_block mem k = ext2_load_block info (block_of k) ((mem + k * info.blk_size) % 2 ^ 32)

  pub block_of-direct : (k : ℕ) → k < 12 → block_of k ≡ get_or inode.i_block k 0
  unfolding block_of
  block_of-direct k h = rw (lt→ltb k 12 h) refl

  pub block_of-ind :
      (c : ℕ)
      → c < per_block info
      → block_of (12 + c) ≡ index_of info word (get_or inode.i_block 12 0) c
  unfolding block_of
  block_of-ind c h =
      let far : ltb (12 + c) 12 ≡ false = le→ltb _ _ (omega arith) in
      let same : 12 + c - 12 ≡ c = omega arith in rw (far, same, lt→ltb c (per_block info) h) refl

  pub block_of-dind :
      (idx c : ℕ)
      → c < per_block info
      → block_of (12 + per_block info + (per_block info * idx + c))
        ≡ index_of info word (index_of info word (get_or inode.i_block 13 0) idx) c
  unfolding block_of
  block_of-dind idx c h =
      let per = per_block info in
      let k = 12 + per + (per * idx + c) in
      let far : ltb k 12 ≡ false = le→ltb _ _ (omega arith) in
      let farther : ltb (k - 12) per ≡ false = le→ltb _ _ (omega arith) in
      let rest : k - 12 - per ≡ per * idx + c = omega arith in
      let q : (per * idx + c) / per ≡ idx =
        mul-add-div (omega arith) idx c ∙ ap (λ t. idx + t) (div-eq_of_lt h) ∙ omega arith in
      let r : (per * idx + c) % per ≡ c = mul-add-mod_self_left per idx c ∙ mod-eq_of_lt h in
      rw (far, farther, rest, q, r) refl

  -- The place of a block that is `c` blocks behind the block `k`.
  pub place_behind :
      (mem k c : ℕ)
      → ((mem + k * info.blk_size) % 2 ^ 32 + c * info.blk_size) % 2 ^ 32
        ≡ (mem + (k + c) * info.blk_size) % 2 ^ 32
  place_behind mem k c = omega (arith, add-mul k c info.blk_size)
