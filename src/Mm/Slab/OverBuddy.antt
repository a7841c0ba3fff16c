-- ===== src/Mm/Slab/OverBuddy.antt =====
-- The buddy allocator of myLoader/mm/page.c is a page allocator for the caches of
-- myLoader/mm/slab.c.
use native.Mathlib.Nat.{pow-le-pow_right, one-le-pow}
use porcelix.Prelude.{
  ℕ, ◌+◌, ◌-◌, ◌*◌, ◌/◌, ◌^◌, ◌≤◌, ◌<◌, ◌≡◌, ◌⊎◌, ◌↔◌, ℕ_discrete, refl, inl, inr, Option, none,
  some, arith, ap, ◌∙◌,
}
use porcelix.Prelude.Bits.{pow-add}
use porcelix.Mm.Buddy.{Mem, page_alloc}
use porcelix.Mm.Buddy.Invariant.{IsBuddy, IsFree}
use porcelix.Mm.Buddy.Alloc.{IsAllocated, page_alloc-IsAllocated}
use porcelix.Mm.Slab.{slab_size}
use porcelix.Mm.Slab.Cache.{Cache, memcache_alloc, memcache_free}
use porcelix.Mm.Slab.Invariant.{IsCache, IsUsed}
use porcelix.Mm.Slab.Use.{memcache_free-IsUsed}
use porcelix.Mm.Slab.Alloc.{IsSafe, Outcome, memcache_alloc-Outcome}
use porcelix.Mm.Slab.Pages.{PageAlloc, IsGiven, Given}

-- `MMAREA_NORMAL`, as the flags of `page_alloc`
abbrev pub mmarea_normal : ℕ
mmarea_normal = 1

-- The address that a call returns, without the number of bytes that it clears.
unfoldable pub address_of : Option (Option (ℕ × ℕ) × Mem) → Option (Option ℕ × Mem)
address_of none = none
address_of (some (none, m)) = some (none, m)
address_of (some (some (pa, cleared), m)) = some (some pa, m)

-- `page_alloc(rank, MMAREA_NORMAL)`
unfoldable pub normal_alloc : Mem → ℕ → Option (Option ℕ × Mem)
normal_alloc m rank = address_of (page_alloc m rank mmarea_normal)

-- The invariant of the allocator, with free pages that end more than 2 ^ 17 bytes before the end of
-- the address space.
pub record IsNormal (m : Mem) : Type 0 where
  pub buddy : IsBuddy m
  pub low : (x : ℕ) → IsFree m x → (x + 1) * 4096 + 2 ^ 17 < 2 ^ 32

-- A byte of a free page.
abbrev pub IsFreeByte : Mem → ℕ → Type 0
IsFreeByte m x = IsFree m (x / 4096)

size_pages : (rank : ℕ) → rank ≤ 10 → slab_size rank ≡ 4096 * 2 ^ rank
size_pages rank h =
    let high = pow-le-pow_right {n = 2} (omega arith) {i = rank + 12} {j = 22} (omega arith) in
    let parts = pow-add rank 12 in omega (arith, high, parts)

allocated-IsGiven :
    (m m' : Mem) (i rank : ℕ)
    → rank ≤ 10
    → IsNormal m
    → IsAllocated m m' mmarea_normal i rank
    → IsGiven (IsFreeByte m) (IsFreeByte m') (i * 4096) (slab_size rank)
allocated-IsGiven m m' i rank h n al =
    let size = size_pages rank h in
    let last = i + (2 ^ rank - 1) in
    let one : 1 ≤ 2 ^ rank = one-le-pow rank 2 (omega arith) in
    let free : IsFree m last = (al.free last).1 (inr (omega arith, omega (arith, one))) in
    record {
      free_before = λ x low high.
          (al.free (x / 4096)).1 (inr (omega (arith, low), omega (arith, high, size)));
      taken_after = λ x low high f.
          let apart = al.block.alone f.head f.free in
          absurd (omega (arith, apart, f.from, f.until, low, high, size));
      low = omega (arith, n.low last free, size, one);
    }

pub normal_alloc_lem :
    (m : Mem) (rank : ℕ)
    → IsNormal m
    → rank ≤ 10
    → (found : Option ℕ) × (m' : Mem) × (normal_alloc m rank ≡ some (found, m'))
      × IsNormal m'
      × ((x : ℕ) → IsFreeByte m' x → IsFreeByte m x)
      × Given (IsFreeByte m) (IsFreeByte m') found (slab_size rank)
unfolding normal_alloc address_of
normal_alloc_lem m rank n h = elim (page_alloc-IsAllocated m rank mmarea_normal n.buddy) [
  | inl (bad, dies) ↦ absurd (omega (arith, bad))
  | inr (inl (area, empty, run)) ↦ (none, m, rw run refl, n, λ x f. f, tt)
  | inr (inr (inl (area, there, high, dies))) ↦ absurd (omega (arith, high))
  | inr (inr (inr (inl (area, there, low, full, run)))) ↦ (none, m, rw run refl, n, λ x f. f, tt)
  | inr (inr (inr (inr (area, there, i, m', run, al)))) ↦ (
    some (i * 4096),
    m',
    rw run refl,
    record { buddy = al.buddy; low = λ x f. n.low x ((al.free x).1 (inl f)) },
    λ x f. (al.free (x / 4096)).1 (inl f),
    allocated-IsGiven m m' i rank h n al,
  )
]

-- `page_alloc` on the normal area, as the caches use it.
abbrev pub normal_pages : PageAlloc Mem
normal_pages = record {
  page_alloc = normal_alloc;
  IsPages = IsNormal;
  IsFree = IsFreeByte;
  page_alloc_lem = normal_alloc_lem;
}

-- Over the buddy allocator, on a cache and a state of it that satisfy `IsSafe`: `memcache_alloc`
-- either returns NULL and leaves the cache as it was, or it returns a block for which
-- `memcache_free` then succeeds, and after both calls the cache satisfies `IsCache` and the same
-- blocks are in use as before them.
pub memcache_free-memcache_alloc :
    (c : Cache) (m : Mem)
    → IsSafe normal_pages c m
    → ((m' : Mem) × (memcache_alloc normal_alloc c m ≡ some (none, c, m')))
      ⊎ ((x : ℕ) × (d : Cache) × (m' : Mem) × (e : Cache) × (memcache_alloc normal_alloc c m
            ≡ some (some x, d, m'))
          × (memcache_free d x ≡ some e)
          × IsCache e
          × ((y : ℕ) → IsUsed c y ↔ IsUsed e y))
memcache_free-memcache_alloc c m s =
    let (block, d, m', run, safe, outcome) = memcache_alloc-Outcome normal_pages c m s in
    both block d m' run safe outcome
  where
    both :
        (block : Option ℕ) (d : Cache) (m' : Mem)
        → memcache_alloc normal_alloc c m ≡ some (block, d, m')
        → IsSafe normal_pages d m'
        → Outcome c d block
        → ((m' : Mem) × (memcache_alloc normal_alloc c m ≡ some (none, c, m')))
          ⊎ ((x : ℕ) × (d : Cache) × (m' : Mem) × (e : Cache) × (memcache_alloc normal_alloc c m
                ≡ some (some x, d, m'))
              × (memcache_free d x ≡ some e)
              × IsCache e
              × ((y : ℕ) → IsUsed c y ↔ IsUsed e y))
    both none d m' run safe same = inl (m', run ∙ ap (λ (t : Cache). some (none, t, m')) same)
    both (some x) d m' run safe t =
        let (e, freed, cache, gone, others) = memcache_free-IsUsed d x safe.cache t.now in
        inr (
          x,
          d,
          m',
          e,
          run,
          freed,
          cache,
          λ y. elim (ℕ_discrete y x) [
            | yes here ↦
                (λ u. absurd (t.not_before (rw here at u)), λ u. absurd (gone (rw here at u)))
            | no ne ↦ (
              λ u. (others y ne).0 ((t.others y ne).0 u),
              λ u. (t.others y ne).1 ((others y ne).1 u),
            )
          ],
        )
