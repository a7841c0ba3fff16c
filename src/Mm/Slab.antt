-- ===== src/Mm/Slab.antt =====
-- The slab allocator of myLoader/mm/slab.c: the sizes of a cache, how it divides a slab into blocks,
-- and how slabs are compared. The chain of free blocks is the list of their addresses. The children
-- have the calls memcache_alloc and memcache_free.
pub mod Layout
pub mod Counts
pub mod Find
pub mod Cache
pub mod Tree
pub mod Invariant
pub mod Moves
pub mod Steps
pub mod Take
pub mod Give
pub mod Use
pub mod Pages
pub mod Fresh
pub mod Alloc
pub mod Runs
pub mod OverBuddy
use porcelix.Prelude.{
  ℕ, zero, suc, ◌+◌, ◌-◌, ◌*◌, ◌/◌, ◌%◌, ◌^◌, Bool, true, false, ◌&&◌, Option, none, some, List, [],
  ◌∷◌, leb, ◌==◌, if◌then◌else◌, bit_and,
}
use porcelix.Prelude.Mem.{◌>>=◌}
use porcelix.Avl.{
  AvlCmp, avlcmp_1lt2, avlcmp_1eq2, avlcmp_1bt2, avlcmp_1in2, avlcmp_2in1, avlcmp_ovlp,
}

-- `sizeof(slab_t)` and `sizeof(nfblock_t)` of the 32-bit machine.
abbrev pub sizeof_slab : ℕ
sizeof_slab = 40

abbrev pub sizeof_nfblock : ℕ
sizeof_nfblock = 4

-- `rg_t`
pub record Rg : Type 0 where
  pub rg_left : ℕ
  pub rg_right : ℕ

-- `slab_t`, without its places in the list and in the tree.
pub record Slab : Type 0 where
  pub rg : Rg
  pub freepos : List ℕ
  pub n_fblk : ℕ

-- The sizes of `memcache_t`.
pub record Memcache : Type 0 where
  pub s_blk : ℕ
  pub r_slb : ℕ
  pub bps : ℕ

-- `0x1 << (r_slb + PAGESIZE_SHIFT)`
abbrev pub slab_size : ℕ → ℕ
slab_size r_slb = 2 ^ (r_slb + 12) % 2 ^ 32

-- The sizes that `init_onecache` sets.
unfoldable pub init_onecache : ℕ → ℕ → Memcache
init_onecache s_blk r_slb =
    let rounded = bit_and ((s_blk + (sizeof_nfblock - 1)) % 2 ^ 32) (2 ^ 32 - sizeof_nfblock) in
    record {
      s_blk = rounded;
      r_slb = r_slb;
      bps = (slab_size r_slb + (2 ^ 32 - sizeof_slab)) % 2 ^ 32 / rounded;
    }

-- The loop of `initslab`, with a bound on its rounds as the first argument.
unfoldable pub init_loop : ℕ → ℕ → ℕ → ℕ → List ℕ → Option (List ℕ)
init_loop zero s_blk right fp freepos =
    if leb ((fp + s_blk) % 2 ^ 32) right then none else some freepos
init_loop (suc k) s_blk right fp freepos =
    let rest = init_loop k s_blk right ((fp + s_blk) % 2 ^ 32) (fp ∷ freepos) in
    if leb ((fp + s_blk) % 2 ^ 32) right then rest else some freepos

-- The slab at the address `slab`.
unfoldable pub initslab : Memcache → ℕ → Option Slab
initslab cache slab = do
  let fp = (slab + sizeof_slab) % 2 ^ 32
  let right = (slab + slab_size cache.r_slb) % 2 ^ 32
  freepos ← init_loop cache.bps cache.s_blk right fp []
  some (record {
    rg = record { rg_left = fp; rg_right = right };
    freepos = freepos;
    n_fblk = cache.bps;
  })

-- `slabcmp`, on the ranges of the two slabs; the key comes first.
unfoldable pub slabcmp : Rg → Rg → AvlCmp
slabcmp slab2 slab1 =
    if leb slab1.rg_right slab2.rg_left
    then avlcmp_1lt2
    else if leb slab2.rg_right slab1.rg_left
    then avlcmp_1bt2
    else if slab1.rg_left == slab2.rg_left && slab1.rg_right == slab2.rg_right
    then avlcmp_1eq2
    else if leb slab2.rg_left slab1.rg_left && leb slab1.rg_right slab2.rg_right
    then avlcmp_1in2
    else if leb slab1.rg_left slab2.rg_left && leb slab2.rg_right slab1.rg_right
    then avlcmp_2in1
    else avlcmp_ovlp

-- The lookup of `memcache_free` for the block at `blk`, in the tree of the slabs' ranges.
unfoldable pub block_rg : Memcache → ℕ → Rg
block_rg cache blk = record { rg_left = blk; rg_right = (blk + cache.s_blk) % 2 ^ 32 }
