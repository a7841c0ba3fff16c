-- ===== src/Tests/Files.antt =====
-- Reading files in myLoader/fs/ext2.c.
use porcelix.Prelude.{ℕ, ◌+◌, ◌*◌, ◌<◌, ◌≡◌, refl, arith, replicate}
use porcelix.Fs.Ext2.{Ext2Info, Inode, locate_inode}
use porcelix.Fs.Ext2.Locate.{locate_inode_lem}

-- Blocks of 1 KB.
abbrev disk : Ext2Info
disk = record {
  blk_size = 1024;
  inode_per_block = 8;
  s_inodes_per_group = 100;
  bg_inode_table = λ group. group * 8192 + 5;
}

-- The word `i` of a block says `i` blocks behind.
abbrev words : ℕ → ℕ → ℕ
words sector i = sector + i

-- A file of 20 blocks, the last of them with one byte.
abbrev file : Inode
file = record { i_size = 1024 * 19 + 1; i_block = replicate 15 300 }

-- The last inode of the group 1.
locate_inode_lem_example :
    (k : ℕ) × ((locate_inode disk 200).0 ≡ 1 * 8192 + 5 + k)
    × ((locate_inode disk 200).1 < 8)
    × (100 * 1 + (8 * k + (locate_inode disk 200).1) + 1 ≡ 200)
locate_inode_lem_example =
    locate_inode_lem disk 200 1 (omega arith) (omega arith) (omega arith) (omega arith) refl
      (omega arith)
