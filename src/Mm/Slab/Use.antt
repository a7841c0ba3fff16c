-- ===== src/Mm/Slab/Use.antt =====
-- Which blocks of a cache are in use, before and after memcache_free (myLoader/mm/slab.c).
use porcelix.Prelude.{
  ℕ, ◌+◌, ◌≤◌, ◌<◌, ◌≡◌, ◌≢◌, ◌⊎◌, ◌↔◌, some, ◌∷◌, arith, ap, ◌∙◌, sym, ℕ_discrete,
}
use porcelix.Mm.Buddy.Invariant.{count}
use porcelix.Mm.Slab.{Slab, sizeof_slab}
use porcelix.Mm.Slab.Counts.{block_within, blocks_apart}
use porcelix.Mm.Slab.Cache.{Cache, memcache_free}
use porcelix.Mm.Slab.Invariant.{Owned, IsCache, IsUsed, IsChanged, blocks_of}
use porcelix.Mm.Slab.Moves.{cons_other, cons_self}
use porcelix.Mm.Slab.Give.{memcache_free-IsStep}

-- A block lies in one slab only.
pub one_owner :
    (c : Cache)
    → IsCache c
    → (a b x : ℕ) → Owned c a
    → Owned c b
    → 0 < count x (blocks_of c a)
    → 0 < count x (blocks_of c b)
    → a ≡ b
one_owner c i a b x o k in_a in_b = elim (ℕ_discrete a b) [
  | yes e ↦ e
  | no ne ↦
      let (low, high) = block_within (a + sizeof_slab) c.sizes.s_blk c.sizes.bps x in_a in
      let (low', high') = block_within (b + sizeof_slab) c.sizes.s_blk c.sizes.bps x in_b in
      let s = i.whole a o in
      let t = i.whole b k in
      absurd
        (omega (arith, i.apart a b o k ne, s.fits, t.fits, low, high, low', high', i.some_bytes))
]

-- Two blocks that are in use do not overlap.
pub IsUsed-apart :
    (c : Cache) (x y : ℕ)
    → IsCache c
    → IsUsed c x
    → IsUsed c y
    → x ≢ y
    → (x + c.sizes.s_blk ≤ y) ⊎ (y + c.sizes.s_blk ≤ x)
IsUsed-apart c x y i u v ne =
    let a = u.slab in
    let b = v.slab in
    elim (ℕ_discrete a b) [
      | yes e ↦
          blocks_apart (a + sizeof_slab) c.sizes.s_blk c.sizes.bps x y u.block (rw e v.block) ne
      | no other ↦
          let (low, high) = block_within (a + sizeof_slab) c.sizes.s_blk c.sizes.bps x u.block in
          let (low', high') = block_within (b + sizeof_slab) c.sizes.s_blk c.sizes.bps y v.block in
          let s = i.whole a u.owned in
          let t = i.whole b v.owned in
          omega (arith, i.apart a b u.owned v.owned other, s.fits, t.fits, low, high, low', high')
    ]

module _ (c d : Cache) (a : ℕ) (owned : Owned c a) (ch : IsChanged c d a) (listed : Owned d a) where
  owned_after : (b : ℕ) → Owned c b → Owned d b
  owned_after b o = elim (ℕ_discrete b a) [
    | yes e ↦ rw e listed
    | no ne ↦ let (x, y, z) = ch.others b ne in omega (arith, o, x, y, z)
  ]

  pub owned_before : (b : ℕ) → Owned d b → Owned c b
  owned_before b o = elim (ℕ_discrete b a) [
    | yes e ↦ rw e owned
    | no ne ↦ let (x, y, z) = ch.others b ne in omega (arith, o, x, y, z)
  ]

  -- A block that stands on the chain of the slab as often as before is in use as before.
  pub IsUsed-step :
      (y : ℕ) → count y (d.slabs a).freepos ≡ count y (c.slabs a).freepos → IsUsed c y ↔ IsUsed d y
  IsUsed-step y same = (
    λ u. record {
      slab = u.slab;
      owned = owned_after u.slab u.owned;
      block = rw ch.sizes u.block;
      taken = free_as_before u.slab ∙ u.taken;
    },
    λ u. record {
      slab = u.slab;
      owned = owned_before u.slab u.owned;
      block = rw ch.sizes at u.block;
      taken = sym (free_as_before u.slab) ∙ u.taken;
    },
  )
    where
      free_as_before : (b : ℕ) → count y (d.slabs b).freepos ≡ count y (c.slabs b).freepos
      free_as_before b = elim (ℕ_discrete b a) [
        | yes e ↦ rw e same
        | no ne ↦ ap (λ (s : Slab). count y s.freepos) (ch.untouched b ne)
      ]

-- On a cache that satisfies `IsCache`, `memcache_free` of a block that is in use succeeds; the cache
-- satisfies `IsCache` afterwards, the block is not in use any more, and every other block is in use
-- exactly if it was before.
pub memcache_free-IsUsed :
    (c : Cache) (x : ℕ)
    → IsCache c
    → IsUsed c x
    → (d : Cache) × (memcache_free c x ≡ some d)
      × IsCache d
      × (IsUsed d x → ⊥)
      × ((y : ℕ) → y ≢ x → IsUsed c y ↔ IsUsed d y)
memcache_free-IsUsed c x i u =
    let a = u.slab in
    let (d, run, step) = memcache_free-IsStep c i a x u.owned u.block u.taken in
    let ch = step.changed in
    (
      d,
      run,
      step.cache,
      λ v.
          let b = v.slab in
          let o = owned_before c d a u.owned ch step.listed b v.owned in
          let same : a ≡ b = one_owner c i a b x u.owned o u.block (rw ch.sizes at v.block) in
          let chain : (d.slabs b).freepos ≡ x ∷ (c.slabs a).freepos =
            ap (λ n. (d.slabs n).freepos) (sym same) ∙ step.chain in
          absurd (omega (arith, v.taken, ap (count x) chain, cons_self x (c.slabs a).freepos)),
      λ y ne.
          IsUsed-step c d a u.owned ch step.listed y
            (ap (count y) step.chain ∙ cons_other x y (c.slabs a).freepos ne),
    )
