-- ===== src/Tests/Caches.antt =====
-- A cache of myLoader/mm/slab.c over the buddy allocator of myLoader/mm/page.c.
use porcelix.Prelude.{ℕ, ◌+◌, ◌*◌, ◌^◌, ◌<◌, ◌≡◌, ◌⊎◌, ◌↔◌, refl, none, some, arith}
use porcelix.Mm.Buddy.{Mem}
use porcelix.Mm.Buddy.Invariant.{IsFree, count}
use porcelix.Mm.Slab.Cache.{Cache, memcache_alloc, memcache_free}
use porcelix.Mm.Slab.Invariant.{IsCache, IsUsed}
use porcelix.Mm.Slab.Alloc.{IsSafe}
use porcelix.Mm.Slab.OverBuddy.{IsNormal, normal_alloc, normal_pages, memcache_free-memcache_alloc}
use porcelix.Tests.Pages.{four_free, four_free-IsBuddy}
use porcelix.Tests.Slabs.{no_slabs, no_slabs-IsCache}

low_pages : (x : ℕ) → IsFree four_free x → (x + 1) * 4096 + 2 ^ 17 < 2 ^ 32
low_pages x f = let e : f.head ≡ 256 = ground (arith, f.free) in omega (arith, f.until, e)

four_free-IsNormal : IsNormal four_free
four_free-IsNormal = record { buddy = four_free-IsBuddy; low = low_pages }

no_slabs-IsSafe : IsSafe normal_pages no_slabs four_free
unfolding count
no_slabs-IsSafe = record {
  cache = no_slabs-IsCache;
  made = record {
    s_blk = 1998;
    r_slb = 0;
    some_bytes = omega arith;
    few_bytes = omega arith;
    low_rank = omega arith;
    made = refl;
  };
  good = four_free-IsNormal;
  outside = λ a o. absurd (omega (arith, o));
}

memcache_free-memcache_alloc_example :
    ((m' : Mem) × (memcache_alloc normal_alloc no_slabs four_free ≡ some (none, no_slabs, m')))
    ⊎ ((x : ℕ) × (d : Cache) × (m' : Mem) × (e : Cache) × (memcache_alloc normal_alloc no_slabs
            four_free
          ≡ some (some x, d, m'))
        × (memcache_free d x ≡ some e)
        × IsCache e
        × ((y : ℕ) → IsUsed no_slabs y ↔ IsUsed e y))
memcache_free-memcache_alloc_example =
    memcache_free-memcache_alloc no_slabs four_free no_slabs-IsSafe
