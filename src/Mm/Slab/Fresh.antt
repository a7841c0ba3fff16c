-- ===== src/Mm/Slab/Fresh.antt =====
-- A new slab comes to a cache of myLoader/mm/slab.c.
use porcelix.Prelude.{
  ℕ, suc, ◌+◌, ◌^◌, ◌≤◌, ◌<◌, ◌≡◌, ◌≢◌, ◌⊎◌, ◌↔◌, refl, inl, inr, some, List, [], ◌∷◌, arith, ap,
  ◌∙◌, sym, ℕ_discrete,
}
use porcelix.Avl.Rotate.{elements}
use porcelix.Mm.Buddy.Invariant.{count}
use porcelix.Mm.Slab.{Rg, Slab}
use porcelix.Mm.Slab.Find.{IsDisjoint, Behind}
use porcelix.Mm.Slab.Cache.{Cache, put_slab, new_slab}
use porcelix.Mm.Slab.Invariant.{
  rg_of, n_of, size_of, Owned, IsSlab, IsCache, IsUsed, Place, blocks_of,
}
use porcelix.Mm.Slab.Moves.{cons_other, cons_self, put_slab_other, put_slab_self}
use porcelix.Mm.Slab.Pages.{IsMade, initslab-IsSlab}

-- The trees of a cache do not see a slab that is not in them.
IsDisjoint-other :
    (rg rg' : ℕ → Rg) (xs : List ℕ)
    → ((b : ℕ) → 0 < count b xs → rg' b ≡ rg b)
    → IsDisjoint rg xs
    → IsDisjoint rg' xs
unfolding count
IsDisjoint-other rg rg' [] h d = tt
IsDisjoint-other rg rg' (x ∷ xs) h (full, after, d) =
    let here = h x (ground arith) in
    let rest : (b : ℕ) → 0 < count b xs → rg' b ≡ rg b = λ b k. h b (ground arith) in
    (rw here full, rw here (behind (rg x) xs rest after), IsDisjoint-other rg rg' xs rest d)
  where
    behind :
        (at : Rg) (ys : List ℕ)
        → ((b : ℕ) → 0 < count b ys → rg' b ≡ rg b)
        → Behind rg at ys
        → Behind rg' at ys
    behind at [] k p = tt
    behind at (y ∷ ys) k p =
        (rw (k y (ground arith)) p.0, behind at ys (λ b q. k b (ground arith)) p.1)

-- From `c` to `d` a slab has come to the list of all free slabs.
record IsFresh (c d : Cache) (a : ℕ) : Type 0 where
  sizes : d.sizes ≡ c.sizes
  first : count a d.afh ≡ suc (count a c.afh)
  others : (b : ℕ) → b ≢ a → count b d.afh ≡ count b c.afh
  in_hfh : d.hfh ≡ c.hfh
  in_nfh : d.nfh ≡ c.nfh
  root : d.slbtroot ≡ c.slbtroot
  untouched : (b : ℕ) → b ≢ a → d.slabs b ≡ c.slabs b
  slab : IsSlab c.sizes a (d.slabs a)
  all_free : n_of d a ≡ c.sizes.bps
  chain : (d.slabs a).freepos ≡ blocks_of c a

-- The region of the slab is not part of the cache.
module _ (c d : Cache) (i : IsCache c) (a : ℕ) (f : IsFresh c d a)
    (outside : (b : ℕ) → Owned c b → (a + size_of c ≤ b) ⊎ (b + size_of c ≤ a)) where
  nowhere : count a c.afh + count a c.hfh + count a c.nfh ≡ 0
  nowhere = elim (ℕ_discrete (count a c.afh + count a c.hfh + count a c.nfh) 0) [
    | yes e ↦ e
    | no some_where ↦ absurd (omega (arith, outside a (omega (arith, some_where)), f.slab.fits))
  ]

  absent : (b : ℕ) → Owned c b → b ≢ a
  absent b o e = absurd (omega (arith, rw e at o, nowhere))

  owned_before : (b : ℕ) → b ≢ a → Owned d b → Owned c b
  owned_before b ne o =
      omega (arith, o, f.others b ne, ap (count b) f.in_hfh, ap (count b) f.in_nfh)

  space : (b : ℕ) → b ≢ a → Owned d b → (a + size_of c ≤ b) ⊎ (b + size_of c ≤ a)
  space b ne o = outside b (owned_before b ne o)

  in_afh : Place c.sizes.bps (n_of d a) (count a d.afh) (count a d.hfh) (count a d.nfh)
  in_afh =
      let h = ap (count a) f.in_hfh in
      let n = ap (count a) f.in_nfh in
      inr (
        inl (
          omega (arith, f.first, nowhere),
          omega (arith, h, nowhere),
          omega (arith, n, nowhere),
          f.all_free,
        ))

  ranges : (b : ℕ) → 0 < count b (elements c.slbtroot) → rg_of d b ≡ rg_of c b
  ranges b h = ap (λ (t : Slab). t.rg) (f.untouched b (absent b (omega (arith, h, i.in_tree b))))

  IsFresh-IsCache : IsCache d
  IsFresh-IsCache = record {
    some_blocks = rw f.sizes i.some_blocks;
    few_blocks = rw f.sizes i.few_blocks;
    some_bytes = rw f.sizes i.some_bytes;
    few_bytes = rw f.sizes i.few_bytes;
    places = λ b. elim (ℕ_discrete b a) [
      | yes e ↦ rw (e, f.sizes) in_afh
      | no ne ↦ rw (f.sizes, f.others b ne, f.in_hfh, f.in_nfh, f.untouched b ne) (i.places b)
    ];
    whole = λ b o. elim (ℕ_discrete b a) [
      | yes e ↦ rw (e, f.sizes) f.slab
      | no ne ↦ rw (f.sizes, f.untouched b ne) (i.whole b (owned_before b ne o))
    ];
    apart = λ b b' o o' ne. elim (ℕ_discrete b a) [
      | yes e ↦ let k = space b' (λ g. ne (e ∙ sym g)) o' in rw f.sizes (omega (arith, k, e))
      | no other ↦ elim (ℕ_discrete b' a) [
        | yes e ↦ let k = space b other o in rw f.sizes (omega (arith, k, e))
        | no other' ↦
            rw f.sizes (i.apart b b' (owned_before b other o) (owned_before b' other' o') ne)
      ]
    ];
    tree =
        rw f.root
          (i.tree.0, IsDisjoint-other (rg_of c) (rg_of d) (elements c.slbtroot) ranges i.tree.1);
    in_tree = λ b. rw (f.root, f.in_hfh, f.in_nfh) (i.in_tree b);
  }

  -- No block of the new slab is in use.
  IsFresh-IsUsed : (y : ℕ) → IsUsed c y ↔ IsUsed d y
  IsFresh-IsUsed y = (
    λ u.
        let b = u.slab in
        let ne = absent b u.owned in
        let h = ap (count b) f.in_hfh in
        let n = ap (count b) f.in_nfh in
        record {
          slab = b;
          owned = omega (arith, u.owned, f.others b ne, h, n);
          block = rw f.sizes u.block;
          taken = rw (f.untouched b ne) u.taken;
        },
    λ u. elim (ℕ_discrete u.slab a) [
      | yes e ↦ absurd (clash u.slab e (rw f.sizes at u.block) u.taken)
      | no ne ↦ record {
        slab = u.slab;
        owned = owned_before u.slab ne u.owned;
        block = rw f.sizes at u.block;
        taken = rw (f.untouched u.slab ne) at u.taken;
      }
    ],
  )
    where
      clash : (b : ℕ) → b ≡ a → 0 < count y (blocks_of c b) → count y (d.slabs b).freepos ≡ 0 → ⊥
      clash b e block taken =
          absurd (omega (arith, rw e at block, rw e at taken, ap (count y) f.chain))

-- A new slab in a region that is not part of the cache.
pub new_slab-IsCache :
    (c : Cache) (a : ℕ)
    → IsCache c
    → IsMade c.sizes
    → a + size_of c + 2 ^ 17 < 2 ^ 32
    → ((b : ℕ) → Owned c b → (a + size_of c ≤ b) ⊎ (b + size_of c ≤ a))
    → (d : Cache) × (new_slab c a ≡ some d)
      × IsCache d
      × (d.sizes ≡ c.sizes)
      × Owned d a
      × (n_of d a ≡ c.sizes.bps)
      × ((b : ℕ) → b ≢ a → Owned d b → Owned c b)
      × ((y : ℕ) → IsUsed c y ↔ IsUsed d y)
unfolding new_slab
new_slab-IsCache c a i m low outside =
    let (s, run, slab, n, chain) = initslab-IsSlab c.sizes a m low in
    let listed : Cache = record c { afh = a ∷ c.afh } in
    let d : Cache = put_slab listed a s in
    let here : d.slabs a ≡ s = put_slab_self listed a s in
    let f : IsFresh c d a = record {
      sizes = refl;
      first = cons_self a c.afh;
      others = λ b ne. cons_other a b c.afh ne;
      in_hfh = refl;
      in_nfh = refl;
      root = refl;
      untouched = λ b ne. put_slab_other listed a b s ne;
      slab = rw here slab;
      all_free = ap (λ (t : Slab). t.n_fblk) here ∙ n;
      chain = ap (λ (t : Slab). t.freepos) here ∙ chain;
    } in
    (
      d,
      rw run refl,
      IsFresh-IsCache c d i a f outside,
      refl,
      omega (arith, cons_self a c.afh),
      f.all_free,
      owned_before c d i a f outside,
      IsFresh-IsUsed c d i a f outside,
    )
