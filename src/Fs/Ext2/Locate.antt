-- ===== src/Fs/Ext2/Locate.antt =====
-- The place of an inode on the disk (`ext2_get_inode` of myLoader/fs/ext2.c).
use native.Mathlib.Nat.{div-add-mod, mod-lt, mod-le, div-le_self}
use porcelix.Prelude.{ℕ, ◌+◌, ◌-◌, ◌*◌, ◌/◌, ◌%◌, ◌^◌, ◌<◌, ◌≡◌, arith, ap, sym, ◌∙◌}
use porcelix.Fs.Ext2.{Ext2Info, locate_inode}

-- The inodes are numbered from 1, group by group, and within a group from the first block of its
-- table on, `inode_per_block` to a block. For an inode number from 1 on, below 2 ^ 32, where
-- groups and blocks hold at least one inode and the block number fits into 32 bits: the block and
-- the index that `ext2_get_inode` takes are those at which this numbering arrives at the inode.
pub locate_inode_lem :
    (info : Ext2Info) (inode_idx group : ℕ)
    → 0 < inode_idx
    → inode_idx < 2 ^ 32
    → 0 < info.inode_per_block
    → 0 < info.s_inodes_per_group
    → group ≡ (inode_idx - 1) / info.s_inodes_per_group
    → info.bg_inode_table group + inode_idx < 2 ^ 32
    → (k : ℕ) × ((locate_inode info inode_idx).0 ≡ info.bg_inode_table group + k)
      × ((locate_inode info inode_idx).1 < info.inode_per_block)
      × (info.s_inodes_per_group * group
            + (info.inode_per_block * k + (locate_inode info inode_idx).1)
            + 1
          ≡ inode_idx)
unfolding locate_inode
locate_inode_lem info idx group pos small per some_inodes eg room =
    let i = (idx + (2 ^ 32 - 1)) % 2 ^ 32 in
    let ei : i ≡ idx - 1 = omega arith in
    let g : i / info.s_inodes_per_group ≡ group =
      ap (λ j. j / info.s_inodes_per_group) ei ∙ sym eg in
    let m = i % info.s_inodes_per_group in
    let k = m / info.inode_per_block in
    let split = div-add-mod i info.s_inodes_per_group in
    let split' = div-add-mod m info.inode_per_block in
    let fewer = div-le_self m info.inode_per_block in
    let few = mod-le i info.s_inodes_per_group in
    let shown = ap (λ t. info.s_inodes_per_group * t + m) g in
    (
      k,
      ap (λ t. (info.bg_inode_table t + k) % 2 ^ 32) g ∙ omega (arith, few, fewer, ei),
      mod-lt m per,
      omega (arith, split, split', shown, ei),
    )
