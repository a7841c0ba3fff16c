-- ===== src/Mm/Slab/Find.antt =====
-- A block finds its slab (`slabcmp` and the lookup of `memcache_free`, myLoader/mm/slab.c), and a
-- slab its place among the others.
use porcelix.Prelude.{ℕ, ◌≤◌, ◌<◌, ◌≡◌, ◌⊎◌, inl, inr, some, List, [], ◌∷◌, ◌++◌, arith, ap, ◌∙◌}
use porcelix.Prelude.Mem.{All, All-parts}
use porcelix.Avl.{Avln, avlcmp_1lt2, avlcmp_1bt2, avl_lkup}
use porcelix.Avl.Rotate.{elements}
use porcelix.Avl.Lookup.{IsHit, IsAround, first_hit, first_hit-past, hit_here, avl_lkup-first_hit}
use porcelix.Avl.Insert.{IsCut}
use porcelix.Mm.Slab.{Rg, Memcache, slabcmp, block_rg}

-- The range `b` is not empty and lies in `s`.
abbrev pub IsInside : Rg → Rg → Type 0
IsInside b s = (b.rg_left < b.rg_right) × (s.rg_left ≤ b.rg_left) × (b.rg_right ≤ s.rg_right)

pub slabcmp_below : (b t : Rg) → t.rg_right ≤ b.rg_left → slabcmp b t ≡ avlcmp_1lt2
unfolding slabcmp
slabcmp_below b t h = ground arith

pub slabcmp_above :
    (b t : Rg)
    → b.rg_left < b.rg_right
    → b.rg_right ≤ t.rg_left
    → t.rg_left < t.rg_right
    → slabcmp b t ≡ avlcmp_1bt2
unfolding slabcmp
slabcmp_above b t h k j = ground arith

slabcmp_inside : (b s : Rg) → IsInside b s → IsHit (slabcmp b) s
unfolding slabcmp
slabcmp_inside b s (h, low, high) = ground arith

module _ {A : Type 0} (rg : A → Rg) where
  abbrev pub Behind : Rg → List A → Type 0
  Behind s = All (λ t. s.rg_right ≤ (rg t).rg_left)

  -- Slabs whose ranges are not empty, each behind the one before.
  abbrev pub IsDisjoint : List A → Type 0
  IsDisjoint [] = Unit
  IsDisjoint (s ∷ ss) = ((rg s).rg_left < (rg s).rg_right) × Behind (rg s) ss × IsDisjoint ss

  -- The range has nothing in common with those of the slabs.
  abbrev pub IsApart : Rg → List A → Type 0
  IsApart b = All (λ t. (b.rg_right ≤ (rg t).rg_left) ⊎ ((rg t).rg_right ≤ b.rg_left))

  module _ (b : Rg) (full : b.rg_left < b.rg_right) where
    above-All :
        (at : Rg) (ys : List A)
        → b.rg_right ≤ at.rg_right
        → Behind at ys
        → IsDisjoint ys
        → All (λ t. slabcmp b (rg t) ≡ avlcmp_1bt2) ys
    above-All at [] low h d = tt
    above-All at (y ∷ ys) low (h, hs) (some_bytes, _, d) =
        (slabcmp_above b (rg y) full (omega arith) some_bytes, above-All at ys low hs d)

    IsAround-slab :
        (s : A) (xs ys : List A)
        → IsInside b (rg s)
        → IsDisjoint (xs ++ s ∷ ys)
        → IsAround (λ t. slabcmp b (rg t)) (xs ++ s ∷ ys)
          × (first_hit (λ t. slabcmp b (rg t)) (xs ++ s ∷ ys) ≡ some s)
    IsAround-slab s [] ys i (some_bytes, after, d) =
        let hit = slabcmp_inside b (rg s) i in
        let past : b.rg_right ≤ (rg s).rg_right = i.2 in
        (inr (inl hit, above-All (rg s) ys past after d), hit_here (λ t. slabcmp b (rg t)) s ys hit)
    IsAround-slab s (x ∷ xs) ys i (some_bytes, after, d) =
        let (_, next) = All-parts (λ t. (rg x).rg_right ≤ (rg t).rg_left) xs (s ∷ ys) after in
        let below = slabcmp_below b (rg x) (omega (arith, next.0, i)) in
        let (around, hit) = IsAround-slab s xs ys i d in
        (inl (below, around), first_hit-past (λ t. slabcmp b (rg t)) x (xs ++ s ∷ ys) below ∙ hit)

    -- A range that is apart from those of the slabs has its place among them.
    pub IsCut-apart :
        (xs : List A) → IsDisjoint xs → IsApart b xs → IsCut (λ t. slabcmp b (rg t)) xs
    IsCut-apart [] d apart = tt
    IsCut-apart (x ∷ xs) (some_bytes, after, d) (inl before, apart) =
        inr
          (slabcmp_above b (rg x) full before some_bytes, above-All (rg x) xs (omega arith) after d)
    IsCut-apart (x ∷ xs) (some_bytes, after, d) (inr behind, apart) =
        inl (slabcmp_below b (rg x) behind, IsCut-apart xs d apart)

  -- In a tree of slabs whose ranges are disjoint and in order, the lookup of `memcache_free` for a
  -- block that lies in the range of one of the slabs finds this slab.
  pub avl_lkup-slabcmp :
      (root : Avln A) (cache : Memcache) (blk : ℕ) (s : A) (xs ys : List A)
      → IsDisjoint (elements root)
      → elements root ≡ xs ++ s ∷ ys
      → IsInside (block_rg cache blk) (rg s)
      → avl_lkup (λ t. slabcmp (block_rg cache blk) (rg t)) root ≡ some s
  avl_lkup-slabcmp root cache blk s xs ys d e i =
      let b = block_rg cache blk in
      let (around, hit) = IsAround-slab b i.0 s xs ys i (rw e at d) in
      avl_lkup-first_hit (λ t. slabcmp b (rg t)) root (rw e around)
      ∙ ap (first_hit (λ t. slabcmp b (rg t))) e
      ∙ hit
