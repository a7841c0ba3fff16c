-- ===== src/Mm/Slab/Take.antt =====
-- A block is taken from a slab with free blocks (the second part of memcache_alloc, myLoader/mm/slab.c).
use porcelix.Prelude.{
  ℕ, ◌+◌, ◌-◌, ◌%◌, ◌^◌, ◌≤◌, ◌<◌, ◌≡◌, refl, inl, inr, some, List, [], ◌∷◌, arith, ap, ◌∙◌,
  Bool-cases, ◌==◌, if◌then◌else◌, ==→eq, ==→ne, length,
}
use porcelix.Mm.Buddy.Invariant.{count}
use porcelix.Mm.Slab.{Slab}
use porcelix.Mm.Slab.Cache.{Cache, put_slab, to_hfh, enter_tree, take_first, take_block}
use porcelix.Mm.Slab.Invariant.{n_of, Owned, IsSlab, IsCache, IsChanged}
use porcelix.Mm.Slab.Moves.{StandsIn, IsHalf, put_slab_self}
use porcelix.Mm.Slab.Steps.{IsHalf-from_afh, IsHalf-from_hfh, settle_alloc, settle_alloc-IsCache}

nonempty : (xs : List ℕ) → 0 < length xs → (x : ℕ) × (ys : List ℕ) × (xs ≡ x ∷ ys)
nonempty [] h = absurd (omega arith)
nonempty (x ∷ xs) h = (x, xs, refl)

count-tail : (x y : ℕ) (xs : List ℕ) → count x xs ≤ count x (y ∷ xs)
unfolding count
count-tail x y xs = ground arith

-- What a step of `memcache_alloc` or `memcache_free` on the slab `a` leaves.
pub record IsStep (c d : Cache) (a : ℕ) (freepos : List ℕ) : Type 0 where
  pub cache : IsCache d
  pub changed : IsChanged c d a
  pub listed : Owned d a
  pub chain : (d.slabs a).freepos ≡ freepos

module _ (c : Cache) (i : IsCache c) (a : ℕ) (owned : Owned c a) (some_left : 0 < n_of c a) (fp : ℕ)
    (next : List ℕ) (chained : (c.slabs a).freepos ≡ fp ∷ next) where
  abbrev fewer : ℕ
  fewer = (n_of c a + (2 ^ 32 - 1)) % 2 ^ 32

  abbrev shorter : Slab
  shorter = record (c.slabs a) { freepos = next; n_fblk = fewer }

  in_bounds : n_of c a ≤ c.sizes.bps
  in_bounds = omega (arith, i.places a, owned)

  shorter-IsSlab : IsSlab c.sizes a shorter
  shorter-IsSlab =
      let s = i.whole a owned in
      record {
        left = s.left;
        right = s.right;
        counted = omega (arith, s.counted, ap length chained, in_bounds, i.few_blocks, some_left);
        chain = λ x. omega (arith, s.chain x, ap (count x) chained, count-tail x fp next);
        fits = s.fits;
        low = s.low;
      }

  half :
      (c' : Cache) × ((if n_of c a == c.sizes.bps then enter_tree (to_hfh c a) a else some c)
        ≡ some c')
      × IsHalf c (put_slab c' a shorter) a
  half = elim (Bool-cases (n_of c a == c.sizes.bps)) [
    | inl all_free ↦
        let n = ==→eq (n_of c a) c.sizes.bps all_free in
        let at : StandsIn c a 1 0 0 = omega (arith, i.places a, owned, n, some_left) in
        let (c', run, sizes, h) = IsHalf-from_afh c i a shorter owned shorter-IsSlab refl at in
        (c', rw all_free run, h)
    | inr some_used ↦
        let n = ==→ne (n_of c a) c.sizes.bps some_used in
        let at : StandsIn c a 0 1 0 = omega (arith, i.places a, owned, n, some_left) in
        (c, rw some_used refl, IsHalf-from_hfh c i a shorter owned shorter-IsSlab refl at)
  ]

  take_first-IsStep : (d : Cache) × (take_first c a (fp ∷ next) ≡ some (fp, d)) × IsStep c d a next
  unfolding take_first
  take_first-IsStep =
      let (c', run, h) = half in
      let e = put_slab c' a shorter in
      let here : e.slabs a ≡ shorter = put_slab_self c' a shorter in
      let (cache, changed, same, listed) =
        settle_alloc-IsCache c e a i owned h fewer ((c.n_blk + 1) % 2 ^ 32)
          (ap (λ (s : Slab). s.n_fblk) here) (omega (arith, in_bounds, some_left, i.few_blocks)) in
      (
        settle_alloc e a fewer ((c.n_blk + 1) % 2 ^ 32),
        rw run refl,
        record {
          cache = cache;
          changed = changed;
          listed = listed;
          chain = ap (λ (f : ℕ → Slab). (f a).freepos) same ∙ ap (λ (s : Slab). s.freepos) here;
        },
      )

-- A slab of the cache with free blocks gives the first of its chain.
pub take_block-IsStep :
    (c : Cache) (i : IsCache c) (a : ℕ)
    → Owned c a
    → 0 < n_of c a
    → (fp : ℕ) × (next : List ℕ) × (d : Cache) × ((c.slabs a).freepos ≡ fp ∷ next)
      × (take_block c a ≡ some (fp, d))
      × IsStep c d a next
unfolding take_block
take_block-IsStep c i a owned some_left =
    let s = i.whole a owned in
    let (fp, next, chained) = nonempty (c.slabs a).freepos (omega (arith, s.counted)) in
    let (d, run, step) = take_first-IsStep c i a owned some_left fp next chained in
    (fp, next, d, chained, ap (take_first c a) chained ∙ run, step)
