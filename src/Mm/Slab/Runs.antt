-- ===== src/Mm/Slab/Runs.antt =====
-- Sequences of calls of memcache_alloc and memcache_free (myLoader/mm/slab.c) by callers that free
-- only what they hold.
use porcelix.Prelude.{
  ℕ, ◌+◌, ◌≤◌, ◌<◌, ◌≡◌, ◌≢◌, ◌⊎◌, refl, some, none, Option, List, [], ◌∷◌, arith, ap, ◌∙◌, sym,
  ℕ_discrete, dec_lt,
}
use porcelix.Mm.Buddy.{erase}
use porcelix.Mm.Buddy.Invariant.{count, count-erase}
use porcelix.Mm.Slab.Cache.{Cache, memcache_alloc, memcache_free}
use porcelix.Mm.Slab.Invariant.{Owned, IsCache, IsUsed}
use porcelix.Mm.Slab.Moves.{cons_other, cons_self}
use porcelix.Mm.Slab.Give.{memcache_free-IsStep}
use porcelix.Mm.Slab.Use.{IsUsed-apart, memcache_free-IsUsed, owned_before}
use porcelix.Mm.Slab.Pages.{PageAlloc}
use porcelix.Mm.Slab.Alloc.{IsSafe, IsTaken, Outcome, memcache_alloc-Outcome}

module _ {P : Type 0} (pages : PageAlloc P) (c : Cache) (p : P) where
  -- What the calls have led to, with the list of the blocks that the callers hold.
  pub data Run : List ℕ → Cache → P → Type 0 where
    start : Run [] c p
    allocated :
        (held : List ℕ) (d d' : Cache) (q q' : P) (x : ℕ)
        → Run held d q
        → memcache_alloc pages.page_alloc d q ≡ some (some x, d', q')
        → Run (x ∷ held) d' q'
    refused :
        (held : List ℕ) (d d' : Cache) (q q' : P)
        → Run held d q
        → memcache_alloc pages.page_alloc d q ≡ some (none, d', q')
        → Run held d' q'
    freed :
        (held : List ℕ) (d d' : Cache) (q : P) (x : ℕ)
        → Run held d q
        → 0 < count x held
        → memcache_free d x ≡ some d'
        → Run (erase x held) d' q

module _ {P : Type 0} (pages : PageAlloc P) where
  -- A free keeps the cache apart from the free pages.
  memcache_free-IsSafe :
      (c d : Cache) (p : P) (x : ℕ)
      → IsSafe pages c p
      → IsUsed c x
      → memcache_free c x ≡ some d
      → IsSafe pages d p × (d.sizes ≡ c.sizes)
  memcache_free-IsSafe c d p x s u run =
      let (d', run', step) = memcache_free-IsStep c s.cache u.slab x u.owned u.block u.taken in
      let ch = step.changed in
      let same : d' ≡ d = cc in
      let back = owned_before c d' u.slab u.owned ch step.listed in
      (
        rw same at (safe d' step.cache ch.sizes back),
        ap (λ (t : Cache). t.sizes) (sym same) ∙ ch.sizes,
      )
    where
      safe :
          (d : Cache)
          → IsCache d
          → d.sizes ≡ c.sizes
          → ((b : ℕ) → Owned d b → Owned c b)
          → IsSafe pages d p
      safe d cache sizes back = record {
        cache = cache;
        made = rw sizes s.made;
        good = s.good;
        outside = λ b o x low high. s.outside b (back b o) x low (rw sizes at high);
      }

  -- The blocks that the callers hold are in use, each held once.
  record IsHeld (origin : Cache) (held : List ℕ) (c : Cache) (p : P) : Type 0 where
    safe : IsSafe pages c p
    sizes : c.sizes ≡ origin.sizes
    used : (x : ℕ) → 0 < count x held → IsUsed c x
    once : (x : ℕ) → count x held ≤ 1

  module _ (origin : Cache) where
    taken-IsHeld :
        (held : List ℕ) (c d : Cache) (p q : P) (x : ℕ)
        → IsHeld origin held c p
        → IsSafe pages d q
        → IsTaken c d x
        → IsHeld origin (x ∷ held) d q
    taken-IsHeld held c d p q x h s t = record {
      safe = s;
      sizes = t.sizes ∙ h.sizes;
      used = λ z there. elim (ℕ_discrete z x) [
        | yes e ↦ rw e t.now
        | no ne ↦ (t.others z ne).0 (h.used z (omega (arith, there, cons_other x z held ne)))
      ];
      once = λ z. elim (ℕ_discrete z x) [
        | yes e ↦ rw e (elim (dec_lt 0 (count x held)) [
          | yes before ↦ absurd (t.not_before (h.used x before))
          | no never ↦ omega (arith, never, cons_self x held)
        ])
        | no ne ↦ omega (arith, h.once z, cons_other x z held ne)
      ];
    }

    allocated-IsHeld :
        (held : List ℕ) (c d : Cache) (p q : P) (x : ℕ) (block : Option ℕ) (d' : Cache) (q' : P)
        → IsHeld origin held c p
        → ◌≡◌ {A = Option (Option ℕ × Cache × P)} (some (block, d', q')) (some (some x, d, q))
        → IsSafe pages d' q'
        → Outcome c d' block
        → IsHeld origin (x ∷ held) d q
    allocated-IsHeld held c d p q x none d' q' h e s o = cc
    allocated-IsHeld held c d p q x (some y) d' q' h e s o =
        let block : y ≡ x = cc in
        let cache : d' ≡ d = cc in
        let pages_after : q' ≡ q = cc in
        rw (block, cache, pages_after) at (taken-IsHeld held c d' p q' y h s o)

    refused-IsHeld :
        (held : List ℕ) (c d : Cache) (p q : P) (block : Option ℕ) (d' : Cache) (q' : P)
        → IsHeld origin held c p
        → ◌≡◌ {A = Option (Option ℕ × Cache × P)} (some (block, d', q')) (some (none, d, q))
        → IsSafe pages d' q'
        → Outcome c d' block
        → IsHeld origin held d q
    refused-IsHeld held c d p q (some y) d' q' h e s o = cc
    refused-IsHeld held c d p q none d' q' h e s o =
        let cache : d' ≡ d = cc in
        let pages_after : q' ≡ q = cc in
        let same : c ≡ d = cc in
        let safe = rw (cache, pages_after) at s in
        record {
          safe = safe;
          sizes = ap (λ (t : Cache). t.sizes) (sym same) ∙ h.sizes;
          used = λ x there. rw same at (h.used x there);
          once = h.once;
        }

    freed-IsHeld :
        (held : List ℕ) (c d : Cache) (p : P) (x : ℕ)
        → IsHeld origin held c p
        → 0 < count x held
        → memcache_free c x ≡ some d
        → IsHeld origin (erase x held) d p
    freed-IsHeld held c d p x h there run =
        let u = h.used x there in
        let (d', run', cache, gone, others) = memcache_free-IsUsed c x h.safe.cache u in
        let same : d' ≡ d = cc in
        let (safe, sizes) = memcache_free-IsSafe c d p x h.safe u run in
        record {
          safe = safe;
          sizes = sizes ∙ h.sizes;
          used = λ z left. elim (ℕ_discrete z x) [
            | yes e ↦
                absurd
                  (ground (arith, left, count-erase z x held, h.once x, ap (λ n. count n held) e))
            | no ne ↦
                rw same at ((others z ne).0 (h.used z (ground (arith, left, count-erase z x held))))
          ];
          once = λ z. ground (arith, count-erase z x held, h.once z);
        }

    run-IsHeld :
        (p : P) (held : List ℕ) (d : Cache) (q : P)
        → IsSafe pages origin p
        → Run pages origin p held d q
        → IsHeld origin held d q
    unfolding count
    run-IsHeld p _ _ _ s Run.start = record {
      safe = s;
      sizes = refl;
      used = λ x there. absurd (omega (arith, there));
      once = λ x. omega arith;
    }
    run-IsHeld p _ _ _ s (Run.allocated held d d' q q' x r e) =
        let h = run-IsHeld p held d q s r in
        let (block, c', p', run, safe, outcome) = memcache_alloc-Outcome pages d q h.safe in
        allocated-IsHeld held d d' q q' x block c' p' h (sym run ∙ e) safe outcome
    run-IsHeld p _ _ _ s (Run.refused held d d' q q' r e) =
        let h = run-IsHeld p held d q s r in
        let (block, c', p', run, safe, outcome) = memcache_alloc-Outcome pages d q h.safe in
        refused-IsHeld held d d' q q' block c' p' h (sym run ∙ e) safe outcome
    run-IsHeld p _ _ _ s (Run.freed held d d' q x r there e) =
        freed-IsHeld held d d' q x (run-IsHeld p held d q s r) there e

  -- On a cache that satisfies `IsSafe` over a page allocator that keeps to `PageAlloc`, after any
  -- sequence of calls of `memcache_alloc`, and of `memcache_free` with blocks that are held, which
  -- `memcache_alloc` has returned and which have not been freed since: no block is held twice, two
  -- blocks that are held do not overlap, with the block size of the cache at the beginning, the
  -- next `memcache_alloc` succeeds, and so does `memcache_free` of each block that is held.
  pub run-apart :
      (c : Cache) (p : P) (held : List ℕ) (d : Cache) (q : P)
      → IsSafe pages c p
      → Run pages c p held d q
      → ((x : ℕ) → count x held ≤ 1)
        × ((x y : ℕ)
            → 0 < count x held
            → 0 < count y held
            → x ≢ y
            → (x + c.sizes.s_blk ≤ y) ⊎ (y + c.sizes.s_blk ≤ x))
        × ((block : Option ℕ) × (d' : Cache) × (q' : P) × (memcache_alloc pages.page_alloc d q
              ≡ some (block, d', q')))
        × ((x : ℕ) → 0 < count x held → (d' : Cache) × (memcache_free d x ≡ some d'))
  run-apart c p held d q s r =
      let h = run-IsHeld c p held d q s r in
      let (block, d', q', run, _, _) = memcache_alloc-Outcome pages d q h.safe in
      (
        h.once,
        λ x y in_x in_y ne.
            rw h.sizes at (IsUsed-apart d x y h.safe.cache (h.used x in_x) (h.used y in_y) ne),
        (block, d', q', run),
        λ x there.
            let (d', run, _, _, _) = memcache_free-IsUsed d x h.safe.cache (h.used x there) in
            (d', run),
      )
