-- ===== src/Tests/Slabs.antt =====
-- The slabs of myLoader/mm/slab.c.
use porcelix.Prelude.{
  ℕ, ◌+◌, ◌*◌, ◌^◌, ◌<◌, ◌≤◌, ◌≡◌, ◌≢◌, ◌⊎◌, ◌↔◌, refl, Option, none, some, inl, inr, [], ◌∷◌,
  arith, length, leb, if◌then◌else◌, Bool-cases, leb→le, sym, ◌∙◌,
}
use porcelix.Avl.{nil, node, avl_insert, find_place}
use porcelix.Avl.Rotate.{elements}
use porcelix.Mm.Slab.{Slab, Memcache, sizeof_slab, slab_size, init_onecache, initslab, init_loop}
use porcelix.Mm.Slab.Layout.{blocks, IsWithin, initslab-blocks}
use porcelix.Mm.Buddy.Invariant.{count}
use porcelix.Mm.Slab.Cache.{
  Cache, memcache_alloc, memcache_free, choose_slab, new_or_none, new_slab, alloc_from, take_block,
  take_first, enter_tree, assert_inserted,
}
use porcelix.Mm.Slab.Invariant.{IsSlab, IsCache, IsUsed}
use porcelix.Mm.Slab.Use.{memcache_free-IsUsed}
use porcelix.Mm.Slab.Runs.{Run, run-apart}
use porcelix.Mm.Buddy.{erase}
use porcelix.Mm.Slab.Pages.{PageAlloc, Given}
use porcelix.Mm.Slab.Alloc.{IsSafe, Outcome, memcache_alloc-Outcome}

-- Blocks of 100 bytes in slabs of one page.
initslab-blocks_example :
    (s : Slab) × (initslab (init_onecache 98 0) 0x100000 ≡ some s)
    × (s.freepos
        ≡ blocks (0x100000 + sizeof_slab) (init_onecache 98 0).s_blk (init_onecache 98 0).bps)
    × (s.n_fblk ≡ length s.freepos)
    × IsWithin
        (0x100000 + sizeof_slab)
        (0x100000 + slab_size 0)
        (init_onecache 98 0).s_blk
        s.freepos
    × (s.rg.rg_left ≡ 0x100000 + sizeof_slab)
    × (s.rg.rg_right ≡ 0x100000 + slab_size 0)
    × (0x100000 + sizeof_slab + (init_onecache 98 0).s_blk * s.n_fblk ≤ 0x100000 + slab_size 0)
    × (0x100000 + slab_size 0
        < 0x100000
          + sizeof_slab
          + (init_onecache 98 0).s_blk * s.n_fblk
          + (init_onecache 98 0).s_blk)
initslab-blocks_example =
    initslab-blocks 98 0 0x100000 (omega arith) (omega arith) (omega arith) (omega arith)

-- Two blocks of 2000 bytes in each slab.
abbrev pub halves : Memcache
halves = record { s_blk = 2000; r_slb = 0; bps = 2 }

-- A slab of which the second block is in use.
abbrev pub half_used : Cache
half_used = record {
  sizes = halves;
  afh = [];
  hfh = 0x100000 ∷ [];
  nfh = [];
  slbtroot = node 1 nil 0x100000 nil;
  n_blk = 1;
  slabs = λ a. record {
    rg = record { rg_left = a + sizeof_slab; rg_right = a + 4096 };
    freepos = (a + 40) ∷ [];
    n_fblk = 1;
  };
}

only : (a : ℕ) → 0 < count a [] + count a (0x100000 ∷ []) + count a [] → a ≡ 0x100000
unfolding count
only a h = ground arith

half_used-IsSlab : IsSlab halves 0x100000 (half_used.slabs 0x100000)
unfolding count blocks
half_used-IsSlab = record {
  left = refl;
  right = refl;
  counted = refl;
  chain = λ x. ground arith;
  fits = omega arith;
  low = omega arith;
}

half_used-IsCache : IsCache half_used
unfolding count elements
half_used-IsCache = record {
  some_blocks = omega arith;
  few_blocks = omega arith;
  some_bytes = omega arith;
  few_bytes = omega arith;
  places = λ a. ground arith;
  whole = λ a o. rw (only a o) half_used-IsSlab;
  apart = λ a b o o' ne. absurd (ne (only a o ∙ sym (only b o')));
  tree = ((refl, (omega arith, omega arith), tt, tt), (omega arith, tt, tt));
  in_tree = λ a. ground arith;
}

second-IsUsed : IsUsed half_used 0x1007f8
unfolding count blocks
second-IsUsed = record { slab = 0x100000; owned = omega arith; block = omega arith; taken = refl }

memcache_free-IsUsed_example :
    (d : Cache) × (memcache_free half_used 0x1007f8 ≡ some d)
    × IsCache d
    × (IsUsed d 0x1007f8 → ⊥)
    × ((y : ℕ) → y ≢ 0x1007f8 → IsUsed half_used y ↔ IsUsed d y)
memcache_free-IsUsed_example =
    memcache_free-IsUsed half_used 0x1007f8 half_used-IsCache second-IsUsed

-- An allocator that gives one region behind the other, from its state on.
abbrev regions : ℕ → ℕ → Option (Option ℕ × ℕ)
regions p rank =
    if leb (p + slab_size rank) (2 ^ 31) then some (some p, p + slab_size rank) else some (none, p)

regions_lem :
    (p rank : ℕ)
    → (found : Option ℕ) × (p' : ℕ) × (regions p rank ≡ some (found, p'))
      × Unit {0}
      × ((x : ℕ) → p' ≤ x → p ≤ x)
      × Given (λ x. p ≤ x) (λ x. p' ≤ x) found (slab_size rank)
regions_lem p rank = elim (Bool-cases (leb (p + slab_size rank) (2 ^ 31))) [
  | inl room ↦
      let low = leb→le (p + slab_size rank) (2 ^ 31) room in
      (
        some p,
        p + slab_size rank,
        rw room refl,
        tt,
        λ x h. omega (arith, h),
        record {
          free_before = λ x h k. h;
          taken_after = λ x h k j. absurd (omega (arith, k, j));
          low = omega (arith, low);
        },
      )
  | inr full ↦ (none, p, rw full refl, tt, λ x h. h, tt)
]

abbrev pages : PageAlloc ℕ
pages = record {
  page_alloc = regions;
  IsPages = λ p. Unit;
  IsFree = λ p x. p ≤ x;
  page_alloc_lem = λ p rank good low. regions_lem p rank;
}

abbrev pub no_slabs : Cache
no_slabs = record {
  sizes = init_onecache 1998 0;
  afh = [];
  hfh = [];
  nfh = [];
  slbtroot = nil;
  n_blk = 0;
  slabs = half_used.slabs;
}

pub no_slabs-IsCache : IsCache no_slabs
unfolding count elements init_onecache
no_slabs-IsCache = record {
  some_blocks = omega arith;
  few_blocks = omega arith;
  some_bytes = omega arith;
  few_bytes = omega arith;
  places = λ a. inl (refl, refl, refl);
  whole = λ a o. absurd (omega (arith, o));
  apart = λ a b o o' ne. absurd (omega (arith, o));
  tree = (tt, tt);
  in_tree = λ a. refl;
}

no_slabs-IsSafe : IsSafe pages no_slabs 0x100000
unfolding count
no_slabs-IsSafe = record {
  cache = no_slabs-IsCache;
  made = record {
    s_blk = 1998;
    r_slb = 0;
    some_bytes = omega arith;
    few_bytes = omega arith;
    low_rank = omega arith;
    made = refl;
  };
  good = tt;
  outside = λ a o. absurd (omega (arith, o));
}

memcache_alloc-Outcome_example :
    (block : Option ℕ) × (d : Cache) × (p' : ℕ) × (memcache_alloc regions no_slabs 0x100000
      ≡ some (block, d, p'))
    × IsSafe pages d p'
    × Outcome no_slabs d block
memcache_alloc-Outcome_example = memcache_alloc-Outcome pages no_slabs 0x100000 no_slabs-IsSafe

-- Both blocks of a fresh slab are taken.
abbrev cache_of : Option (Option ℕ × Cache × ℕ) → Cache
cache_of none = no_slabs
cache_of (some (block, c, p)) = c

abbrev one_taken : Cache
one_taken = cache_of (memcache_alloc regions no_slabs 0x100000)

abbrev both_taken : Cache
both_taken = cache_of (memcache_alloc regions one_taken 0x101000)

first_taken : memcache_alloc regions no_slabs 0x100000 ≡ some (some 0x1007f8, one_taken, 0x101000)
unfolding memcache_alloc choose_slab new_or_none new_slab initslab init_loop init_onecache
    alloc_from take_block take_first enter_tree assert_inserted avl_insert find_place
first_taken = refl

second_taken :
    memcache_alloc regions one_taken 0x101000 ≡ some (some 0x100028, both_taken, 0x101000)
unfolding memcache_alloc choose_slab new_or_none new_slab initslab init_loop init_onecache
    alloc_from take_block take_first enter_tree assert_inserted avl_insert find_place erase
second_taken = refl

both_held : Run pages no_slabs 0x100000 (0x100028 ∷ 0x1007f8 ∷ []) both_taken 0x101000
both_held =
    Run.allocated (0x1007f8 ∷ []) one_taken both_taken 0x101000 0x101000 0x100028
      (Run.allocated [] no_slabs one_taken 0x100000 0x101000 0x1007f8 Run.start first_taken)
      second_taken

run-apart_example :
    ((x : ℕ) → count x (0x100028 ∷ 0x1007f8 ∷ []) ≤ 1)
    × ((x y : ℕ)
        → 0 < count x (0x100028 ∷ 0x1007f8 ∷ [])
        → 0 < count y (0x100028 ∷ 0x1007f8 ∷ [])
        → x ≢ y
        → (x + no_slabs.sizes.s_blk ≤ y) ⊎ (y + no_slabs.sizes.s_blk ≤ x))
    × ((block : Option ℕ) × (d' : Cache) × (q' : ℕ) × (memcache_alloc regions both_taken 0x101000
          ≡ some (block, d', q')))
    × ((x : ℕ)
        → 0 < count x (0x100028 ∷ 0x1007f8 ∷ [])
        → (d' : Cache) × (memcache_free both_taken x ≡ some d'))
run-apart_example =
    run-apart pages no_slabs 0x100000 (0x100028 ∷ 0x1007f8 ∷ []) both_taken 0x101000 no_slabs-IsSafe
      both_held
