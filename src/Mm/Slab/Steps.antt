-- ===== src/Mm/Slab/Steps.antt =====
-- The two halves of a call of memcache_alloc or memcache_free (myLoader/mm/slab.c): the slab comes
-- into the list of the half free ones and into the tree, and then it goes where it belongs.
use native.Mathlib.Nat.{mul-pos}
use porcelix.Prelude.{
  ℕ, suc, ◌-◌, ◌≤◌, ◌<◌, ◌≡◌, ◌≢◌, refl, inl, inr, some, List, [], ◌∷◌, arith, ap, ◌∙◌, Bool-cases,
  sym, ◌==◌, if◌then◌else◌, ==→eq, ==→ne,
}
use porcelix.Prelude.Mem.{All}
use porcelix.Avl.{avl_remove}
use porcelix.Avl.Rotate.{elements}
use porcelix.Mm.Buddy.{erase}
use porcelix.Mm.Buddy.Invariant.{count}
use porcelix.Mm.Slab.{Slab}
use porcelix.Mm.Slab.Cache.{
  Cache, put_slab, to_afh, to_hfh, to_nfh, assert_inserted, enter_tree, leave_tree,
}
use porcelix.Mm.Slab.Find.{IsApart}
use porcelix.Mm.Slab.Tree.{avl_insert-IsTree, avl_remove-IsTree}
use porcelix.Mm.Slab.Invariant.{rg_of, n_of, Owned, IsSlab, IsCache, IsChanged, IsChanged-IsCache}
use porcelix.Mm.Slab.Moves.{
  StandsIn, IsHalf, IsChanged-next, put_slab-IsChanged, to_afh-SamePlace, to_hfh-SamePlace,
  to_nfh-SamePlace, erase_self, cons_self, cons_other,
}

-- A property of all that a list counts.
All-counted : (P : ℕ → Type 0) (xs : List ℕ) → ((b : ℕ) → 0 < count b xs → P b) → All P xs
unfolding count
All-counted P [] h = tt
All-counted P (x ∷ xs) h = (h x (ground arith), All-counted P xs λ b k. h b (ground arith))

moved_self : (a : ℕ) (xs : List ℕ) → count a (a ∷ erase a xs) ≡ suc (count a xs - 1)
moved_self a xs = cons_self a (erase a xs) ∙ ap suc (erase_self a xs)

module _ (c : Cache) (i : IsCache c) (a : ℕ) where
  -- The slabs of the tree lie apart from one that is not in it.
  IsApart-tree :
      Owned c a
      → count a (elements c.slbtroot) ≡ 0
      → IsApart (rg_of c) (rg_of c a) (elements c.slbtroot)
  IsApart-tree owned out = All-counted _ (elements c.slbtroot) λ b h.
      let o : Owned c b = omega (arith, h, i.in_tree b) in
      let ne : a ≢ b = λ e. zero_pos (count b (elements c.slbtroot)) h (rw e at out) in
      let s = i.whole a owned in
      let t = i.whole b o in omega (arith, i.apart a b owned o ne, s.left, s.right, t.left, t.right)
    where
      zero_pos : (n : ℕ) → 0 < n → n ≡ 0 → ⊥
      zero_pos n h e = absurd (omega arith)

  module _ (s : Slab) (owned : Owned c a) (whole : IsSlab c.sizes a s)
      (range : s.rg ≡ rg_of c a) where
    pub IsHalf-from_afh :
        StandsIn c a 1 0 0
        → (c' : Cache) × (enter_tree (to_hfh c a) a ≡ some c')
          × (c'.sizes ≡ c.sizes)
          × IsHalf c (put_slab c' a s) a
    unfolding enter_tree assert_inserted
    IsHalf-from_afh (x, y, z) =
        let out : count a (elements c.slbtroot) ≡ 0 = omega (arith, i.in_tree a, y, z) in
        let w = i.whole a owned in
        let full : (rg_of c a).rg_left < (rg_of c a).rg_right = omega (
          arith,
          w.left,
          w.right,
          w.fits,
          mul-pos {m = c.sizes.s_blk} {n = c.sizes.bps} i.some_bytes i.some_blocks,
        ) in
        let (root, run, tree, nodes) =
          avl_insert-IsTree (rg_of c) c.slbtroot a full i.tree (IsApart-tree owned out) in
        let moved = to_hfh c a in
        let c' : Cache = record moved { slbtroot = root } in
        (
          c',
          ap (assert_inserted moved) run,
          refl,
          record {
            changed =
                put_slab-IsChanged c c' a s refl refl (to_hfh-SamePlace c a) whole range tree
                  λ b ne. nodes b ∙ cons_other a b (elements c.slbtroot) ne;
            place = (
              erase_self a c.afh ∙ omega (arith, x),
              moved_self a c.hfh ∙ omega (arith, y),
              erase_self a c.nfh ∙ omega (arith, z),
            );
            node = nodes a ∙ cons_self a (elements c.slbtroot) ∙ ap suc out;
          },
        )

    pub IsHalf-from_nfh : StandsIn c a 0 0 1 → IsHalf c (put_slab (to_hfh c a) a s) a
    IsHalf-from_nfh (x, y, z) = record {
      changed =
          put_slab-IsChanged c (to_hfh c a) a s refl refl (to_hfh-SamePlace c a) whole range i.tree
            λ b ne. refl;
      place = (
        erase_self a c.afh ∙ omega (arith, x),
        moved_self a c.hfh ∙ omega (arith, y),
        erase_self a c.nfh ∙ omega (arith, z),
      );
      node = i.in_tree a ∙ omega (arith, y, z);
    }

    pub IsHalf-from_hfh : StandsIn c a 0 1 0 → IsHalf c (put_slab c a s) a
    IsHalf-from_hfh (x, y, z) = record {
      changed =
          put_slab-IsChanged c c a s refl refl (λ b ne. (refl, refl, refl)) whole range i.tree
            λ b ne. refl;
      place = (x, y, z);
      node = i.in_tree a ∙ omega (arith, y, z);
    }

-- The end of memcache_alloc.
abbrev pub settle_alloc : Cache → ℕ → ℕ → ℕ → Cache
settle_alloc e a n k = let d = if n == 0 then to_nfh e a else e in record d { n_blk = k }

module _ (c e : Cache) (a : ℕ) (i : IsCache c) (owned : Owned c a) (half : IsHalf c e a) where
  full_place : StandsIn (to_nfh e a) a 0 0 1
  full_place =
      let (x, y, z) = half.place in
      (
        erase_self a e.afh ∙ omega (arith, x),
        erase_self a e.hfh ∙ omega (arith, y),
        moved_self a e.nfh ∙ omega (arith, z),
      )

  pub settle_alloc-IsCache :
      (n k : ℕ)
      → n_of e a ≡ n
      → n < c.sizes.bps
      → IsCache (settle_alloc e a n k)
        × IsChanged c (settle_alloc e a n k) a
        × ((settle_alloc e a n k).slabs ≡ e.slabs)
        × Owned (settle_alloc e a n k) a
  settle_alloc-IsCache n k counted less = elim (Bool-cases (n == 0)) [
    | inl none_left ↦
        let d : Cache = record (to_nfh e a) { n_blk = k } in
        let ch : IsChanged c d a =
          IsChanged-next c e d a half.changed refl refl (to_nfh-SamePlace e a) half.changed.tree
            λ b ne. refl in
        let (x, y, z) = full_place in
        let zero_left : n ≡ 0 = ==→eq n 0 none_left in
        rw none_left (
          IsChanged-IsCache c d a i ch owned (inr (inr (inr (x, y, z, counted ∙ zero_left))))
              (half.node ∙ omega (arith, y, z)),
          ch,
          refl,
          omega (arith, x, y, z),
        )
    | inr some_left ↦
        let d : Cache = record e { n_blk = k } in
        let ch : IsChanged c d a =
          IsChanged-next c e d a half.changed refl refl (λ b ne. (refl, refl, refl))
            half.changed.tree λ b ne. refl in
        let (x, y, z) = half.place in
        let live = ==→ne n 0 some_left in
        rw some_left (
          IsChanged-IsCache c d a i ch owned
              (inr (inr (inl (x, y, z, omega (arith, counted, live), omega (arith, counted)))))
              (half.node ∙ omega (arith, y, z)),
          ch,
          refl,
          omega (arith, x, y, z),
        )
  ]

  free_place : StandsIn (to_afh e a) a 1 0 0
  free_place =
      let (x, y, z) = half.place in
      (
        moved_self a e.afh ∙ omega (arith, x),
        erase_self a e.hfh ∙ omega (arith, y),
        erase_self a e.nfh ∙ omega (arith, z),
      )

  -- The end of memcache_free.
  pub settle_free-IsCache :
      (n k : ℕ)
      → n_of e a ≡ n
      → 0 < n
      → n ≤ c.sizes.bps
      → (d : Cache) × ((if n == c.sizes.bps then leave_tree (to_afh e a) a else some e) ≡ some d)
        × IsCache (record d { n_blk = k })
        × IsChanged c (record d { n_blk = k }) a
        × (d.slabs ≡ e.slabs)
        × Owned d a
  unfolding leave_tree
  settle_free-IsCache n k counted live low = elim (Bool-cases (n == c.sizes.bps)) [
    | inl all_free ↦
        let (rmnode, path, run, tree, nodes) =
          avl_remove-IsTree (rg_of c) e.slbtroot a half.changed.tree (omega (arith, half.node)) in
        let root = avl_remove rmnode path in
        let left : Cache = record (to_afh e a) { slbtroot = root } in
        let d : Cache = record left { n_blk = k } in
        let ch : IsChanged c d a =
          IsChanged-next c e d a half.changed refl refl (to_afh-SamePlace e a) tree
            λ b ne. sym (cons_other a b (elements root) ne) ∙ nodes b in
        let (x, y, z) = free_place in
        let gone : count a (elements root) ≡ 0 =
          omega (arith, cons_self a (elements root), nodes a, half.node) in
        (
          left,
          rw (all_free, run) refl,
          IsChanged-IsCache c d a i ch owned
              (inr (inl (x, y, z, counted ∙ ==→eq n c.sizes.bps all_free)))
              (gone ∙ omega (arith, y, z)),
          ch,
          refl,
          omega (arith, x, y, z),
        )
    | inr some_used ↦
        let d : Cache = record e { n_blk = k } in
        let ch : IsChanged c d a =
          IsChanged-next c e d a half.changed refl refl (λ b ne. (refl, refl, refl))
            half.changed.tree λ b ne. refl in
        let (x, y, z) = half.place in
        let ne = ==→ne n c.sizes.bps some_used in
        (
          e,
          rw some_used refl,
          IsChanged-IsCache c d a i ch owned
              (inr (inr (inl (x, y, z, omega (arith, counted), omega (arith, counted, ne)))))
              (half.node ∙ omega (arith, y, z)),
          ch,
          refl,
          omega (arith, x, y, z),
        )
  ]
