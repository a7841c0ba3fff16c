-- ===== src/Mm/Slab/Alloc.antt =====
-- What memcache_alloc of myLoader/mm/slab.c returns, over any page allocator.
use porcelix.Prelude.{
  ℕ, suc, ◌+◌, ◌≤◌, ◌<◌, ◌≡◌, ◌≢◌, ◌⊎◌, ◌↔◌, refl, inl, inr, some, none, List, [], ◌∷◌, arith, ap,
  ◌∙◌, sym, ℕ_discrete, Option, dec_lt,
}
use porcelix.Prelude.Mem.{◌>>=◌}
use porcelix.Mm.Buddy.Invariant.{count}
use porcelix.Mm.Slab.{sizeof_slab}
use porcelix.Mm.Slab.Counts.{blocks_once}
use porcelix.Mm.Slab.Cache.{Cache, new_or_none, choose_slab, alloc_from, memcache_alloc}
use porcelix.Mm.Slab.Invariant.{n_of, size_of, Owned, IsCache, IsUsed, blocks_of}
use porcelix.Mm.Slab.Moves.{cons_other, cons_self}
use porcelix.Mm.Slab.Take.{take_block-IsStep}
use porcelix.Mm.Slab.Use.{one_owner, owned_before, IsUsed-step}
use porcelix.Mm.Slab.Pages.{PageAlloc, IsGiven, Given, IsMade, IsMade-rank}
use porcelix.Mm.Slab.Fresh.{new_slab-IsCache}

-- A cache and its page allocator: no byte of a slab of the cache is free in the allocator.
pub record IsSafe {P : Type 0} (pages : PageAlloc P) (c : Cache) (p : P) : Type 0 where
  pub cache : IsCache c
  pub made : IsMade c.sizes
  pub good : pages.IsPages p
  pub outside : (a : ℕ) → Owned c a → (x : ℕ) → a ≤ x → x < a + size_of c → pages.IsFree p x → ⊥

-- From `c` to `d` the block `x` has come into use, and no other has or has gone. The sizes stay.
pub record IsTaken (c d : Cache) (x : ℕ) : Type 0 where
  pub sizes : d.sizes ≡ c.sizes
  pub not_before : IsUsed c x → ⊥
  pub now : IsUsed d x
  pub others : (y : ℕ) → y ≢ x → IsUsed c y ↔ IsUsed d y

abbrev pub Outcome : Cache → Cache → Option ℕ → Type 0
Outcome c d none = d ≡ c
Outcome c d (some x) = IsTaken c d x

abbrev Chosen : Cache → Cache → Option ℕ → Type 0
Chosen c d none = d ≡ c
Chosen c d (some a) =
    Owned d a × (0 < n_of d a) × ((y : ℕ) → IsUsed c y ↔ IsUsed d y) × (d.sizes ≡ c.sizes)

same_use : (c : Cache) (y : ℕ) → IsUsed c y ↔ IsUsed c y
same_use c y = (λ u. u, λ u. u)

module _ {P : Type 0} (pages : PageAlloc P) where
  -- A region that the allocator gives lies apart from the slabs of the cache.
  given_outside :
      (c : Cache) (p p' : P) (a : ℕ)
      → IsSafe pages c p
      → IsGiven (pages.IsFree p) (pages.IsFree p') a (size_of c)
      → (b : ℕ) → Owned c b
      → (a + size_of c ≤ b) ⊎ (b + size_of c ≤ a)
  given_outside c p p' a s g b o = elim (dec_lt b (a + size_of c)) [
    | no after ↦ inl (omega (arith, after))
    | yes low ↦ elim (dec_lt a (b + size_of c)) [
      | no before ↦ inr (omega (arith, before))
      | yes high ↦ elim (dec_lt a b) [
        | yes lt ↦ absurd (
            s.outside b o b (omega arith) (omega (arith, low, high, lt))
              (g.free_before b (omega (arith, lt)) low))
        | no ge ↦ absurd (
            s.outside b o a (omega (arith, ge)) high
              (g.free_before a (omega arith) (omega (arith, low, high, ge))))
      ]
    ]
  ]

  fresh-IsSafe :
      (c d : Cache) (p p' : P) (a : ℕ)
      → IsSafe pages c p
      → IsCache d
      → d.sizes ≡ c.sizes
      → pages.IsPages p'
      → ((x : ℕ) → pages.IsFree p' x → pages.IsFree p x)
      → IsGiven (pages.IsFree p) (pages.IsFree p') a (size_of c)
      → ((b : ℕ) → b ≢ a → Owned d b → Owned c b)
      → IsSafe pages d p'
  fresh-IsSafe c d p p' a s cache sizes good fewer g before = record {
    cache = cache;
    made = rw sizes s.made;
    good = good;
    outside = λ b o x low high free. elim (ℕ_discrete b a) [
      | yes e ↦ g.taken_after x (omega (arith, low, e)) (omega (arith, rw sizes at high, e)) free
      | no ne ↦ s.outside b (before b ne o) x low (rw sizes at high) (fewer x free)
    ];
  }

  new_or_none-Chosen :
      (c : Cache) (p p' : P) (given : Option ℕ)
      → IsSafe pages c p
      → pages.IsPages p'
      → ((x : ℕ) → pages.IsFree p' x → pages.IsFree p x)
      → Given (pages.IsFree p) (pages.IsFree p') given (size_of c)
      → (found : Option ℕ) × (d : Cache) × (q : P) × (new_or_none pages.page_alloc c (given, p')
          ≡ some (found, d, q))
        × IsSafe pages d q
        × Chosen c d found
  unfolding new_or_none
  new_or_none-Chosen c p p' none s good fewer g = (
    none,
    c,
    p',
    refl,
    record {
      cache = s.cache;
      made = s.made;
      good = good;
      outside = λ b o x low high free. s.outside b o x low high (fewer x free);
    },
    refl,
  )
  new_or_none-Chosen c p p' (some a) s good fewer g =
      let apart = given_outside c p p' a s g in
      let (d, run, cache, sizes, owned, n, before, usage) =
        new_slab-IsCache c a s.cache s.made g.low apart in
      (
        some a,
        d,
        p',
        rw run refl,
        fresh-IsSafe c d p p' a s cache sizes good fewer g before,
        (owned, omega (arith, n, s.cache.some_blocks), usage, sizes),
      )

  choose-Chosen :
      (hfh afh : List ℕ) (c : Cache) (p : P)
      → IsSafe pages c p
      → c.hfh ≡ hfh
      → c.afh ≡ afh
      → (found : Option ℕ) × (d : Cache) × (p' : P) × (choose_slab pages.page_alloc hfh afh c p
          ≡ some (found, d, p'))
        × IsSafe pages d p'
        × Chosen c d found
  unfolding choose_slab new_or_none
  choose-Chosen (a ∷ hfh) afh c p s eh ea =
      let there : 0 < count a c.hfh = omega (arith, ap (count a) eh, cons_self a hfh) in
      (
        some a,
        c,
        p,
        refl,
        s,
        (omega (arith, there), omega (arith, s.cache.places a, there), λ y. same_use c y, refl),
      )
  choose-Chosen [] (a ∷ afh) c p s eh ea =
      let there : 0 < count a c.afh = omega (arith, ap (count a) ea, cons_self a afh) in
      (
        some a,
        c,
        p,
        refl,
        s,
        (
          omega (arith, there),
          omega (arith, s.cache.places a, there, s.cache.some_blocks),
          λ y. same_use c y,
          refl,
        ),
      )
  choose-Chosen [] [] c p s eh ea =
      let rank = IsMade-rank c.sizes s.made in
      let (given, p', run, good, fewer, g) = pages.page_alloc_lem p c.sizes.r_slb s.good rank in
      let (found, d, q, next, safe, chosen) = new_or_none-Chosen c p p' given s good fewer g in
      (found, d, q, ap (λ o. o >>= new_or_none pages.page_alloc c) run ∙ next, safe, chosen)

  alloc_from-Outcome :
      (c c' : Cache) (p' : P) (found : Option ℕ)
      → IsSafe pages c' p'
      → Chosen c c' found
      → (block : Option ℕ) × (d : Cache) × (p'' : P) × (alloc_from pages.page_alloc (found, c', p')
          ≡ some (block, d, p''))
        × IsSafe pages d p''
        × Outcome c d block
  unfolding alloc_from
  alloc_from-Outcome c c' p' none s same = (none, c', p', refl, s, same)
  alloc_from-Outcome c c' p' (some a) s (owned, some_left, usage, sizes) =
      let i = s.cache in
      let (fp, next, d, chained, run, step) = take_block-IsStep c' i a owned some_left in
      let ch = step.changed in
      let chain = (i.whole a owned).chain in
      let free : suc (count fp next) ≡ count fp (c'.slabs a).freepos =
        sym (ap (count fp) chained ∙ cons_self fp next) in
      let once = blocks_once (a + sizeof_slab) c'.sizes.s_blk c'.sizes.bps fp i.some_bytes in
      let block : 0 < count fp (blocks_of c' a) = omega (arith, chain fp, free) in
      let back : (b : ℕ) → Owned d b → Owned c' b =
        λ b o. owned_before c' d a owned ch step.listed b o in
      (
        some fp,
        d,
        p',
        rw run refl,
        record {
          cache = step.cache;
          made = rw ch.sizes s.made;
          good = s.good;
          outside = λ b o x low high. s.outside b (back b o) x low (rw ch.sizes at high);
        },
        record {
          sizes = ch.sizes ∙ sizes;
          not_before = λ u.
              let v = (usage fp).0 u in
              let same = one_owner c' i a v.slab fp owned v.owned block v.block in
              let there = ap (λ n. count fp (c'.slabs n).freepos) same in
              absurd (omega (arith, v.taken, there, free));
          now = record {
            slab = a;
            owned = step.listed;
            block = rw ch.sizes block;
            taken = ap (count fp) step.chain ∙ omega (arith, chain fp, free, once);
          };
          others = λ y ne.
              let same =
                IsUsed-step c' d a owned ch step.listed y (
                  ap (count y) step.chain ∙ sym (ap (count y) chained ∙ cons_other fp y next ne)) in
              (λ u. same.0 ((usage y).0 u), λ u. (usage y).1 (same.1 u));
        },
      )

  -- On a cache that satisfies `IsSafe` over a page allocator that keeps to `PageAlloc`,
  -- `memcache_alloc` succeeds, and cache and allocator satisfy `IsSafe` afterwards. Either it returns
  -- NULL and the cache is as before, or a block that was not in use and now is, while every other
  -- block is in use exactly if it was before.
  pub memcache_alloc-Outcome :
      (c : Cache) (p : P)
      → IsSafe pages c p
      → (block : Option ℕ) × (d : Cache) × (p' : P) × (memcache_alloc pages.page_alloc c p
          ≡ some (block, d, p'))
        × IsSafe pages d p'
        × Outcome c d block
  unfolding memcache_alloc
  memcache_alloc-Outcome c p s =
      let (found, c', q, chosen, safe, usage) = choose-Chosen c.hfh c.afh c p s refl refl in
      let (block, d, p', run, safe', outcome) = alloc_from-Outcome c c' q found safe usage in
      (block, d, p', ap (λ o. o >>= alloc_from pages.page_alloc) chosen ∙ run, safe', outcome)
