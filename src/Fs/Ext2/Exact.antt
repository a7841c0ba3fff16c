-- ===== src/Fs/Ext2/Exact.antt =====
-- Where the blocks of a file stand on the disk, in exact numbers, and that `ext2_readfile`
-- (myLoader/fs/ext2.c) reads them from there.
use porcelix.Prelude.{
  ℕ, ◌+◌, ◌-◌, ◌*◌, ◌/◌, ◌%◌, ◌^◌, ◌<◌, List, [], ◌∷◌, ltb, if◌then◌else◌, get_or,
}
use porcelix.Prelude.Mem.{All}
use porcelix.Fs.Ext2.{Ext2Info, DevRead, Inode}

module _ (info : Ext2Info) (word : ℕ → ℕ → ℕ) where
  -- The word `i` of the block `b` of the disk, which starts at the byte `b * blk_size`.
  abbrev number : ℕ → ℕ → ℕ
  number b i = word (b * info.blk_size / 1024) i

  module _ (inode : Inode) where
    -- The block of the disk that holds the block `k` of the file, and behind it the blocks of
    -- numbers through which it is found.
    unfoldable pub path_of : ℕ → List ℕ
    path_of k =
        let per = info.blk_size / 4 in
        let direct = λ (i : ℕ). get_or inode.i_block i 0 in
        let mid = number (direct 13) ((k - 12 - per) / per) in
        if ltb k 12
        then direct k ∷ []
        else (if ltb (k - 12) per
            then number (direct 12) (k - 12) ∷ direct 12 ∷ []
            else number mid ((k - 12 - per) % per) ∷ mid ∷ direct 13 ∷ [])

    abbrev pub data_block : ℕ → ℕ
    data_block k = get_or (path_of k) 0 0

    -- The block and those that lead to it start below 4 GB.
    abbrev pub IsNear : ℕ → Type 0
    IsNear k = All (λ b. b * info.blk_size < 2 ^ 32) (path_of k)

    -- The read of the block `k` from its bytes on the disk to its place in a file at `start`.
    abbrev pub read_of : ℕ → ℕ → DevRead
    read_of start k = record {
      sector = data_block k * info.blk_size / 1024;
      buff = start + k * info.blk_size;
      count = info.blk_size / 1024;
    }
