-- ===== src/Mm/Slab/Invariant.antt =====
-- The invariant of a cache of myLoader/mm/slab.c, and the blocks that are in use.
use mathlib.Core.Path.{fun_ext}
use porcelix.Prelude.{
  ℕ, ◌+◌, ◌*◌, ◌^◌, ◌≤◌, ◌<◌, ◌≡◌, ◌≢◌, ◌⊎◌, List, arith, ap, ◌∙◌, sym, ℕ_discrete, length,
}
use porcelix.Avl.Rotate.{elements}
use porcelix.Mm.Buddy.Invariant.{count}
use porcelix.Mm.Slab.{Rg, Slab, Memcache, sizeof_slab, slab_size}
use porcelix.Mm.Slab.Cache.{Cache}
use porcelix.Mm.Slab.Layout.{blocks}
use porcelix.Mm.Slab.Tree.{IsTree}

abbrev pub rg_of : Cache → ℕ → Rg
rg_of c a = (c.slabs a).rg

abbrev pub n_of : Cache → ℕ → ℕ
n_of c a = (c.slabs a).n_fblk

abbrev pub size_of : Cache → ℕ
size_of c = slab_size c.sizes.r_slb

-- The addresses of a slab's blocks.
abbrev pub blocks_of : Cache → ℕ → List ℕ
blocks_of c a = blocks (a + sizeof_slab) c.sizes.s_blk c.sizes.bps

-- How often a slab with `n` free blocks of `bps` may stand in the three lists.
abbrev pub Place : ℕ → ℕ → ℕ → ℕ → ℕ → Type 0
Place bps n in_afh in_hfh in_nfh =
    ((in_afh ≡ 0) × (in_hfh ≡ 0) × (in_nfh ≡ 0))
    ⊎ ((in_afh ≡ 1) × (in_hfh ≡ 0) × (in_nfh ≡ 0) × (n ≡ bps))
    ⊎ ((in_afh ≡ 0) × (in_hfh ≡ 1) × (in_nfh ≡ 0) × (0 < n) × (n < bps))
    ⊎ ((in_afh ≡ 0) × (in_hfh ≡ 0) × (in_nfh ≡ 1) × (n ≡ 0))

-- The slab stands in a list of the cache.
abbrev pub Owned : Cache → ℕ → Type 0
Owned c a = 0 < count a c.afh + count a c.hfh + count a c.nfh

-- The slab at `a`: its range, and a chain of some of its blocks, each once at most.
pub record IsSlab (sizes : Memcache) (a : ℕ) (s : Slab) : Type 0 where
  pub left : s.rg.rg_left ≡ a + sizeof_slab
  pub right : s.rg.rg_right ≡ a + slab_size sizes.r_slb
  pub counted : s.n_fblk ≡ length s.freepos
  pub chain : (x : ℕ) → count x s.freepos ≤ count x (blocks (a + sizeof_slab) sizes.s_blk sizes.bps)
  pub fits : sizeof_slab + sizes.s_blk * sizes.bps ≤ slab_size sizes.r_slb
  pub low : a + slab_size sizes.r_slb + 2 ^ 17 < 2 ^ 32

-- Each slab stands in the list that its free blocks say, no two of them overlap, and the tree holds
-- those of which a block is in use.
pub record IsCache (c : Cache) : Type 0 where
  pub some_blocks : 0 < c.sizes.bps
  pub few_blocks : c.sizes.bps < 2 ^ 32
  pub some_bytes : 0 < c.sizes.s_blk
  pub few_bytes : c.sizes.s_blk ≤ 2 ^ 16
  pub places :
      (a : ℕ) → Place c.sizes.bps (n_of c a) (count a c.afh) (count a c.hfh) (count a c.nfh)
  pub whole : (a : ℕ) → Owned c a → IsSlab c.sizes a (c.slabs a)
  pub apart : (a b : ℕ) → Owned c a → Owned c b → a ≢ b → (a + size_of c ≤ b) ⊎ (b + size_of c ≤ a)
  pub tree : IsTree (rg_of c) c.slbtroot
  pub in_tree : (a : ℕ) → count a (elements c.slbtroot) ≡ count a c.hfh + count a c.nfh

-- A block of a slab of the cache that is not on the slab's chain.
pub record IsUsed (c : Cache) (x : ℕ) : Type 0 where
  pub slab : ℕ
  pub owned : Owned c slab
  pub block : 0 < count x (blocks_of c slab)
  pub taken : count x (c.slabs slab).freepos ≡ 0

-- The slab `b` stands in the same lists in both caches.
abbrev pub SamePlace : Cache → Cache → ℕ → Type 0
SamePlace c d b =
    (count b d.afh ≡ count b c.afh)
    × (count b d.hfh ≡ count b c.hfh)
    × (count b d.nfh ≡ count b c.nfh)

-- From `c` to `d` the slab `a` has changed, but for its range, and no other slab.
pub record IsChanged (c d : Cache) (a : ℕ) : Type 0 where
  pub sizes : d.sizes ≡ c.sizes
  pub others : (b : ℕ) → b ≢ a → SamePlace c d b
  pub untouched : (b : ℕ) → b ≢ a → d.slabs b ≡ c.slabs b
  pub range : rg_of d a ≡ rg_of c a
  pub slab : IsSlab c.sizes a (d.slabs a)
  pub tree : IsTree (rg_of c) d.slbtroot
  pub other_nodes : (b : ℕ) → b ≢ a → count b (elements d.slbtroot) ≡ count b (elements c.slbtroot)

rg_of-same : (c d : Cache) (a : ℕ) → IsChanged c d a → rg_of d ≡ rg_of c
rg_of-same c d a ch = fun_ext λ b. elim (ℕ_discrete b a) [
  | yes e ↦ ap (rg_of d) e ∙ ch.range ∙ ap (rg_of c) (sym e)
  | no other ↦ ap (λ (s : Slab). s.rg) (ch.untouched b other)
]

-- The slab was in a list, and afterwards it is in the list that its free blocks say, and in the tree
-- unless they are all free: the invariant still holds.
pub IsChanged-IsCache :
    (c d : Cache) (a : ℕ)
    → IsCache c
    → IsChanged c d a
    → Owned c a
    → Place c.sizes.bps (n_of d a) (count a d.afh) (count a d.hfh) (count a d.nfh)
    → count a (elements d.slbtroot) ≡ count a d.hfh + count a d.nfh
    → IsCache d
IsChanged-IsCache c d a i ch owned place node = record {
  some_blocks = rw ch.sizes i.some_blocks;
  few_blocks = rw ch.sizes i.few_blocks;
  some_bytes = rw ch.sizes i.some_bytes;
  few_bytes = rw ch.sizes i.few_bytes;
  places = λ b. elim (ℕ_discrete b a) [
    | yes e ↦ rw (e, ch.sizes) place
    | no other ↦
        let (x, y, z) = ch.others b other in
        rw (ch.sizes, x, y, z, ch.untouched b other) (i.places b)
  ];
  whole = λ b o. elim (ℕ_discrete b a) [
    | yes e ↦ rw (e, ch.sizes) ch.slab
    | no other ↦ rw (ch.sizes, ch.untouched b other) (i.whole b (before b o))
  ];
  apart = λ b b' o o' ne. rw ch.sizes (i.apart b b' (before b o) (before b' o') ne);
  tree = rw (rg_of-same c d a ch) ch.tree;
  in_tree = λ b. elim (ℕ_discrete b a) [
    | yes e ↦ rw e node
    | no other ↦
        let (x, y, z) = ch.others b other in
        ch.other_nodes b other ∙ i.in_tree b ∙ omega (arith, y, z)
  ];
}
  where
    before : (b : ℕ) → Owned d b → Owned c b
    before b o = elim (ℕ_discrete b a) [
      | yes e ↦ rw e owned
      | no other ↦ let (x, y, z) = ch.others b other in omega (arith, o, x, y, z)
    ]
