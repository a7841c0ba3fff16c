-- ===== src/Fs/Ext2.antt =====
-- Reading files and finding inodes in myLoader/fs/ext2.c. The disk is a parameter: `word s i` is the
-- word `i` of what a read from the logic block `s` on brings in. A read into the memory of the
-- caller is an entry of a list, in the order of the calls; the pages for the arrays of block
-- numbers, which are freed again, are taken to be there; a block that is larger than the page runs
-- over its end, which is `none`, as a failed ASSERT is.
pub mod Blocks
pub mod Indirect
pub mod ReadFile
pub mod Exact
pub mod Locate
use porcelix.Prelude.{
  ℕ, zero, suc, ◌+◌, ◌-◌, ◌*◌, ◌/◌, ◌%◌, ◌^◌, Bool, true, false, Option, none, some, List, [], ◌∷◌,
  ◌++◌, ltb, leb, ◌==◌, if◌then◌else◌, get_elem?,
}
use porcelix.Prelude.Mem.{◌>>=◌, ◌>>◌, assert}

abbrev pub logic_block_size : ℕ
logic_block_size = 1024

-- The page for an array of block numbers, `page_alloc(BUDDY_RANK_4K, ...)`.
abbrev pub page_size : ℕ
page_size = 4096

abbrev pub ext2_ind_block : ℕ
ext2_ind_block = 12

abbrev pub ext2_dind_block : ℕ
ext2_dind_block = 13

abbrev pub ext2_n_blocks : ℕ
ext2_n_blocks = 15

-- The part of `struct ext2_info`, with the superblock it points to, that reading files takes.
pub record Ext2Info : Type 0 where
  pub blk_size : ℕ
  pub inode_per_block : ℕ
  pub s_inodes_per_group : ℕ
  pub bg_inode_table : ℕ → ℕ

-- A call `dev->driver->read(dev, sector, buff, count)`.
pub record DevRead : Type 0 where
  pub sector : ℕ
  pub buff : ℕ
  pub count : ℕ

pub record Inode : Type 0 where
  pub i_size : ℕ
  pub i_block : List ℕ

module _ (info : Ext2Info) where
  unfoldable pub ext2_load_block : ℕ → ℕ → DevRead
  ext2_load_block blockidx buff = record {
    sector = blockidx * info.blk_size % 2 ^ 32 / logic_block_size;
    buff = buff;
    count = info.blk_size / logic_block_size;
  }

  -- `blk_size / sizeof(u32)`
  abbrev pub per_block : ℕ
  per_block = info.blk_size / 4

  -- The place of an inode: the block that holds it, and its index in this block.
  unfoldable pub locate_inode : ℕ → ℕ × ℕ
  locate_inode inode_idx =
      let inode_idxingrp = (inode_idx + (2 ^ 32 - 1)) % 2 ^ 32 % info.s_inodes_per_group in
      let curgrp = (inode_idx + (2 ^ 32 - 1)) % 2 ^ 32 / info.s_inodes_per_group in
      (
        (info.bg_inode_table curgrp + inode_idxingrp / info.inode_per_block) % 2 ^ 32,
        inode_idxingrp % info.inode_per_block,
      )

  module _ (word : ℕ → ℕ → ℕ) where
    -- `blkidxarray[i]`, once the block `blkidx` has been loaded.
    abbrev pub index_of : ℕ → ℕ → ℕ
    index_of blkidx i = word (ext2_load_block blkidx 0).sector i

    -- The loop of `ext2_readfile_ind`, with the rounds left as the last argument.
    unfoldable pub ind_loop : ℕ → ℕ → ℕ → ℕ → List DevRead
    ind_loop blkidx mem count zero = []
    ind_loop blkidx mem count (suc n) =
        ext2_load_block (index_of blkidx count) ((mem + count * info.blk_size) % 2 ^ 32)
        ∷ ind_loop blkidx mem (count + 1) n

    -- What it returns, and the reads.
    unfoldable pub ext2_readfile_ind : ℕ → ℕ → ℕ → Option (ℕ × List DevRead)
    ext2_readfile_ind blkidx count mem = do
      assert (leb info.blk_size page_size)
      let ret = if ltb per_block count then per_block else count
      some (ret, ind_loop blkidx mem 0 ret)

    -- The loop of `ext2_readfile_dind`: `idx` afterwards, and the reads.
    unfoldable pub dind_loop : ℕ → ℕ → ℕ → ℕ → ℕ → Option (ℕ × List DevRead)
    dind_loop zero blkidx idx count mem = if count == 0 then some (idx, []) else none
    dind_loop (suc k) blkidx idx count mem =
        let rest = λ (read : ℕ).
          dind_loop k blkidx (idx + 1) (count - read)
            ((mem + per_block * info.blk_size) % 2 ^ 32) in
        if count == 0 then some (idx, []) else do
          (read, loads) ← ext2_readfile_ind (index_of blkidx idx) count mem
          (idx', loads') ← rest read
          some (idx', loads ++ loads')

    -- `per_block` rounds are enough.
    unfoldable pub ext2_readfile_dind : ℕ → ℕ → ℕ → Option (ℕ × List DevRead)
    ext2_readfile_dind blkidx count mem = do
      assert (leb info.blk_size page_size)
      let ret = if ltb (per_block * per_block) count then per_block * per_block else count
      (idx, loads) ← dind_loop per_block blkidx 0 ret mem
      assert (leb idx per_block)
      some (ret, loads)

    -- One round of the loop of `ext2_readfile`: `tmp` afterwards, and the reads.
    unfoldable pub read_at : Inode → ℕ → ℕ → ℕ → ℕ → Option (ℕ × List DevRead)
    read_at inode i n_block tmp addr = do
      b ← get_elem? inode.i_block i
      if ltb i ext2_ind_block
          then some (1, ext2_load_block b addr ∷ [])
          else (if i == ext2_ind_block
              then ext2_readfile_ind b n_block addr
              else (if i == ext2_dind_block
                  then ext2_readfile_dind b n_block addr
                  else some (tmp, [])))

    -- The loop of `ext2_readfile`, with the rounds left as the first argument.
    unfoldable pub readfile_loop : Inode → ℕ → ℕ → ℕ → ℕ → ℕ → Option (List DevRead)
    readfile_loop inode zero i n_block tmp addr = none
    readfile_loop inode (suc k) i n_block tmp addr =
        read_at inode i n_block tmp addr >>= λ (tmp', loads).
        (let n_block' = (n_block + (2 ^ 32 - tmp' % 2 ^ 32)) % 2 ^ 32 in
          let rest =
            readfile_loop inode k (i + 1) n_block' tmp' ((addr + tmp' * info.blk_size) % 2 ^ 32) in
          if n_block' == 0 then some loads else (rest >>= λ loads'. some (loads ++ loads')))

    -- The number of blocks that a file occupies.
    unfoldable pub n_block_of : ℕ → ℕ
    n_block_of i_size = (i_size + info.blk_size + (2 ^ 32 - 1)) % 2 ^ 32 / info.blk_size

    unfoldable pub ext2_readfile : Inode → ℕ → Option (List DevRead)
    ext2_readfile inode mem = readfile_loop inode ext2_n_blocks 0 (n_block_of inode.i_size) 0 mem
