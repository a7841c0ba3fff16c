-- ===== src/Mm/Slab/Give.antt =====
-- A block that is in use goes back to its slab (memcache_free, myLoader/mm/slab.c).
use porcelix.Prelude.{
  ℕ, ◌+◌, ◌-◌, ◌%◌, ◌^◌, ◌≤◌, ◌<◌, ◌≡◌, refl, inl, inr, some, List, ◌∷◌, arith, ap, ◌∙◌, Bool-cases,
  ◌==◌, if◌then◌else◌, ==→eq, ==→ne, ℕ_discrete,
}
use porcelix.Avl.{avl_lkup}
use porcelix.Avl.Rotate.{elements}
use porcelix.Mm.Buddy.Invariant.{count}
use porcelix.Mm.Slab.{Slab, sizeof_slab, block_rg}
use porcelix.Mm.Slab.Layout.{length-blocks}
use porcelix.Mm.Slab.Counts.{length_mono, split_at, block_within}
use porcelix.Mm.Slab.Find.{avl_lkup-slabcmp}
use porcelix.Mm.Slab.Cache.{
  Cache, put_slab, to_hfh, cmp_with, give_block, free_found, memcache_free,
}
use porcelix.Mm.Slab.Invariant.{rg_of, n_of, Owned, IsSlab, IsCache, blocks_of}
use porcelix.Mm.Slab.Moves.{StandsIn, IsHalf, put_slab_self}
use porcelix.Mm.Slab.Steps.{IsHalf-from_nfh, IsHalf-from_hfh, settle_free-IsCache}
use porcelix.Mm.Slab.Take.{IsStep}

module _ (c : Cache) (i : IsCache c) (a blk : ℕ) (owned : Owned c a)
    (block : 0 < count blk (blocks_of c a)) (taken : count blk (c.slabs a).freepos ≡ 0) where
  abbrev freed : List ℕ
  freed = blk ∷ (c.slabs a).freepos

  abbrev more : ℕ
  more = (n_of c a + 1) % 2 ^ 32

  abbrev longer : Slab
  longer = record (c.slabs a) { freepos = freed; n_fblk = more }

  freed_chain : (x : ℕ) → count x freed ≤ count x (blocks_of c a)
  unfolding count
  freed_chain x = elim (ℕ_discrete blk x) [
    | yes e ↦ ground (arith, (i.whole a owned).chain x, block, taken, e)
    | no ne ↦ ground (arith, (i.whole a owned).chain x, ne)
  ]

  -- The chain of the slab was not full.
  room : n_of c a < c.sizes.bps
  room =
      let s = i.whole a owned in
      omega (
        arith,
        s.counted,
        length_mono freed (blocks_of c a) freed_chain,
        length-blocks (a + sizeof_slab) c.sizes.s_blk c.sizes.bps,
      )

  longer-IsSlab : IsSlab c.sizes a longer
  longer-IsSlab =
      let s = i.whole a owned in
      record {
        left = s.left;
        right = s.right;
        counted = omega (arith, s.counted, room, i.few_blocks);
        chain = freed_chain;
        fits = s.fits;
        low = s.low;
      }

  abbrev listed : Cache
  listed = if n_of c a == 0 then to_hfh c a else c

  abbrev raised : Cache
  raised = put_slab listed a longer

  half : IsHalf c raised a
  half = elim (Bool-cases (n_of c a == 0)) [
    | inl full ↦
        let n = ==→eq (n_of c a) 0 full in
        let at : StandsIn c a 0 0 1 = omega (arith, i.places a, owned, n, i.some_blocks) in
        rw full (IsHalf-from_nfh c i a longer owned longer-IsSlab refl at)
    | inr some_free ↦
        let n = ==→ne (n_of c a) 0 some_free in
        let at : StandsIn c a 0 1 0 = omega (arith, i.places a, owned, n, room) in
        rw some_free (IsHalf-from_hfh c i a longer owned longer-IsSlab refl at)
  ]

  give_block-IsStep : (d : Cache) × (give_block c a blk ≡ some d) × IsStep c d a freed
  unfolding give_block
  give_block-IsStep =
      let here : raised.slabs a ≡ longer = put_slab_self listed a longer in
      let (d, run, cache, changed, same, listed) =
        settle_free-IsCache c raised a i owned half more ((c.n_blk + (2 ^ 32 - 1)) % 2 ^ 32)
          (ap (λ (s : Slab). s.n_fblk) here) (omega (arith, room, i.few_blocks))
          (omega (arith, room, i.few_blocks)) in
      (
        record d { n_blk = (c.n_blk + (2 ^ 32 - 1)) % 2 ^ 32 },
        rw run refl,
        record {
          cache = cache;
          changed = changed;
          listed = listed;
          chain = ap (λ (f : ℕ → Slab). (f a).freepos) same ∙ ap (λ (s : Slab). s.freepos) here;
        },
      )

  -- The lookup finds the slab of the block.
  finds : avl_lkup (cmp_with c (block_rg c.sizes blk)) c.slbtroot ≡ some a
  unfolding block_rg
  finds =
      let s = i.whole a owned in
      let (low, high) = block_within (a + sizeof_slab) c.sizes.s_blk c.sizes.bps blk block in
      let there : 0 < count a (elements c.slbtroot) =
        omega (arith, i.in_tree a, i.places a, owned, room) in
      let (front, back, split) = split_at a (elements c.slbtroot) there in
      let end : (blk + c.sizes.s_blk) % 2 ^ 32 ≡ blk + c.sizes.s_blk =
        omega (arith, high, s.fits, s.low) in
      avl_lkup-slabcmp (rg_of c) c.slbtroot c.sizes blk a front back i.tree.1 split (
        omega (arith, end, i.some_bytes),
        omega (arith, low, s.left),
        omega (arith, end, high, s.fits, s.right),
      )

  pub memcache_free-IsStep : (d : Cache) × (memcache_free c blk ≡ some d) × IsStep c d a freed
  unfolding memcache_free free_found
  memcache_free-IsStep =
      let (d, run, step) = give_block-IsStep in (d, ap (free_found c blk) finds ∙ run, step)
