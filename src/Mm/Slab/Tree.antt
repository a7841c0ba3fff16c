-- ===== src/Mm/Slab/Tree.antt =====
-- A slab enters the tree of a cache and leaves it (the calls of avl_insert and avl_remove of
-- myLoader/mm/slab.c).
use porcelix.Prelude.{
  ℕ, ◌+◌, ◌≤◌, ◌<◌, ◌≡◌, refl, inl, inr, false, some, none, List, [], ◌∷◌, ◌++◌, arith, ap, ◌∙◌,
  Bool-cases, sym, ◌==◌, ==→eq, ℕ_discrete,
}
use porcelix.Prelude.Int.{pos}
use porcelix.Prelude.Mem.{All-parts, All-append}
use porcelix.Avl.{
  Avln, nil, node, Father, AvlCmp, from_left, from_right, zip, avl_insert, avl_remove,
}
use porcelix.Avl.Rotate.{IsAvl, elements}
use porcelix.Avl.Insert.{insert_at, insert_past, insert_here, avl_insert-insert_at}
use porcelix.Avl.Remove.{avl_remove-elements}
use porcelix.Mm.Buddy.Invariant.{count}
use porcelix.Mm.Slab.{Rg, slabcmp}
use porcelix.Mm.Slab.Cache.{node_of}
use porcelix.Mm.Slab.Find.{Behind, IsDisjoint, IsApart, IsCut-apart, slabcmp_below, slabcmp_above}

pub count-append : (x : ℕ) (xs ys : List ℕ) → count x (xs ++ ys) ≡ count x xs + count x ys
unfolding count
count-append x [] ys = omega arith
count-append x (y ∷ xs) ys = ground (arith, count-append x xs ys)

count-swap : (x y z : ℕ) (xs : List ℕ) → count x (y ∷ z ∷ xs) ≡ count x (z ∷ y ∷ xs)
unfolding count
count-swap x y z xs = ground arith

count-cons :
    (x y : ℕ) (xs ys : List ℕ) → count x xs ≡ count x ys → count x (y ∷ xs) ≡ count x (y ∷ ys)
unfolding count
count-cons x y xs ys e = ground arith

pub count-other : (x y : ℕ) (xs : List ℕ) → (y == x) ≡ false → count x (y ∷ xs) ≡ count x xs
unfolding count
count-other x y xs h = rw h refl

count-zero : (x y : ℕ) (xs : List ℕ) → count x (y ∷ xs) ≡ 0 → ((y == x) ≡ false) × (count x xs ≡ 0)
unfolding count
count-zero x y xs h = ground arith

module _ (rg : ℕ → Rg) where
  -- Where a slab enters a sequence of slabs.
  module _ (a : ℕ) (full : (rg a).rg_left < (rg a).rg_right) where
    abbrev placed : List ℕ → List ℕ
    placed xs = insert_at (λ t. slabcmp (rg a) (rg t)) a xs

    Behind-placed :
        (at : Rg) (xs : List ℕ)
        → at.rg_right ≤ (rg a).rg_left
        → Behind rg at xs
        → IsDisjoint rg xs
        → IsApart rg (rg a) xs
        → Behind rg at (placed xs)
    Behind-placed at [] low b d apart = unfold insert_at in (low, tt)
    Behind-placed at (x ∷ xs) low b (some_bytes, after, d) (inl before, apart) =
        rw
          (insert_here (λ t. slabcmp (rg a) (rg t)) a x xs
            (slabcmp_above (rg a) (rg x) full before some_bytes))
          (low, b)
    Behind-placed at (x ∷ xs) low b (some_bytes, after, d) (inr behind, apart) =
        rw (insert_past (λ t. slabcmp (rg a) (rg t)) a x xs (slabcmp_below (rg a) (rg x) behind))
          (b.0, Behind-placed at xs low b.1 d apart)

    IsDisjoint-placed :
        (xs : List ℕ) → IsDisjoint rg xs → IsApart rg (rg a) xs → IsDisjoint rg (placed xs)
    IsDisjoint-placed [] d apart = unfold insert_at in (full, tt, tt)
    IsDisjoint-placed (x ∷ xs) (some_bytes, after, d) (inl before, apart) =
        rw
          (insert_here (λ t. slabcmp (rg a) (rg t)) a x xs
            (slabcmp_above (rg a) (rg x) full before some_bytes))
          (full, (before, further xs after), (some_bytes, after, d))
      where
        further : (ys : List ℕ) → Behind rg (rg x) ys → Behind rg (rg a) ys
        further [] h = tt
        further (y ∷ ys) h = (omega (arith, h.0), further ys h.1)
    IsDisjoint-placed (x ∷ xs) (some_bytes, after, d) (inr behind, apart) =
        rw (insert_past (λ t. slabcmp (rg a) (rg t)) a x xs (slabcmp_below (rg a) (rg x) behind))
          (some_bytes, Behind-placed (rg x) xs behind after d apart, IsDisjoint-placed xs d apart)

    count-placed :
        (y : ℕ) (xs : List ℕ)
        → IsDisjoint rg xs
        → IsApart rg (rg a) xs
        → count y (placed xs) ≡ count y (a ∷ xs)
    count-placed y [] d apart = unfold insert_at in refl
    count-placed y (x ∷ xs) (some_bytes, after, d) (inl before, apart) = ap (count y) (
        insert_here (λ t. slabcmp (rg a) (rg t)) a x xs
          (slabcmp_above (rg a) (rg x) full before some_bytes))
    count-placed y (x ∷ xs) (some_bytes, after, d) (inr behind, apart) =
        ap (count y)
          (insert_past (λ t. slabcmp (rg a) (rg t)) a x xs (slabcmp_below (rg a) (rg x) behind))
        ∙ count-cons y x (placed xs) (a ∷ xs) (count-placed y xs d apart)
        ∙ count-swap y x a xs

  -- The tree of a cache: balanced, of slabs with disjoint ranges in order.
  abbrev pub IsTree : Avln ℕ → Type 0
  IsTree root = IsAvl root × IsDisjoint rg (elements root)

  pub avl_insert-IsTree :
      (root : Avln ℕ) (a : ℕ)
      → (rg a).rg_left < (rg a).rg_right
      → IsTree root
      → IsApart rg (rg a) (elements root)
      → (root' : Avln ℕ) × (avl_insert (λ t. slabcmp (rg a) (rg t)) root a ≡ (pos 0, root'))
        × IsTree root'
        × ((y : ℕ) → count y (elements root') ≡ count y (a ∷ elements root))
  avl_insert-IsTree root a full (avl, d) apart =
      let cut = IsCut-apart rg (rg a) full (elements root) d apart in
      let cmp : ℕ → AvlCmp = λ t. slabcmp (rg a) (rg t) in
      let (r, avl', e) = avl_insert-insert_at cmp root a avl cut in
      (
        (avl_insert cmp root a).1,
        ap (λ z. (z, (avl_insert cmp root a).1)) r,
        (avl', rw e (IsDisjoint-placed a full (elements root) d apart)),
        λ y. ap (count y) e ∙ count-placed a full y (elements root) d apart,
      )

  IsDisjoint-without :
      (front : List ℕ) (a : ℕ) (back : List ℕ)
      → IsDisjoint rg (front ++ a ∷ back)
      → IsDisjoint rg (front ++ back)
  IsDisjoint-without [] a back (some_bytes, after, d) = d
  IsDisjoint-without (x ∷ front) a back (some_bytes, after, d) =
      let P : ℕ → Type 0 = λ t. (rg x).rg_right ≤ (rg t).rg_left in
      let (left, right) = All-parts P front (a ∷ back) after in
      (some_bytes, All-append P front back left right.1, IsDisjoint-without front a back d)

-- The search for a node through the whole tree.
node_of-none :
    (a : ℕ) (t : Avln ℕ) (path : List (Father ℕ))
    → count a (elements t) ≡ 0
    → node_of a t path ≡ none
unfolding node_of elements
node_of-none a nil path h = refl
node_of-none a (node h l b r) path out =
    let parts = count-append a (elements l) (b ∷ elements r) in
    let (other, rest) = count-zero a b (elements r) (omega (arith, out, parts)) in
    let left = node_of-none a l (from_left h b r ∷ path) (omega (arith, out, parts)) in
    let right = node_of-none a r (from_right h l b ∷ path) rest in rw (other, left, right) refl

node_of-some :
    (a : ℕ) (t : Avln ℕ) (path : List (Father ℕ))
    → 0 < count a (elements t)
    → (h : ℕ) × (l : Avln ℕ) × (r : Avln ℕ) × (path' : List (Father ℕ)) × (node_of a t path
        ≡ some (node h l a r, path'))
      × (zip (node h l a r) path' ≡ zip t path)
unfolding node_of elements zip
node_of-some a nil path h = absurd (unfold count in omega arith)
node_of-some a (node h l b r) path found = elim (Bool-cases (b == a)) [
  | inl here ↦
      let e = ==→eq b a here in
      (
        h,
        l,
        r,
        path,
        rw here (ap (λ (c : ℕ). some (node h l c r, path)) e),
        ap (λ (c : ℕ). zip (node h l c r) path) (sym e),
      )
  | inr other ↦ elim (ℕ_discrete (count a (elements l)) 0) [
    | yes none_left ↦
        let parts = count-append a (elements l) (b ∷ elements r) in
        let skip = count-other a b (elements r) other in
        let left = node_of-none a l (from_left h b r ∷ path) none_left in
        let (h', l', r', path', run, same) =
          node_of-some a r (from_right h l b ∷ path)
            (omega (arith, found, parts, skip, none_left)) in
        (h', l', r', path', rw (other, left, run) refl, same)
    | no some_left ↦
        let (h', l', r', path', run, same) =
          node_of-some a l (from_left h b r ∷ path) (omega (arith, some_left)) in
        (h', l', r', path', rw (other, run) refl, same)
  ]
]

count-without :
    (y a : ℕ) (front back : List ℕ) → count y (a ∷ (front ++ back)) ≡ count y (front ++ a ∷ back)
unfolding count
count-without y a front back =
    ground (arith, count-append y front back, count-append y front (a ∷ back))

pub avl_remove-IsTree :
    (rg : ℕ → Rg) (root : Avln ℕ) (a : ℕ)
    → IsTree rg root
    → 0 < count a (elements root)
    → (rmnode : Avln ℕ) × (path : List (Father ℕ)) × (node_of a root [] ≡ some (rmnode, path))
      × IsTree rg (avl_remove rmnode path)
      × ((y : ℕ) → count y (a ∷ elements (avl_remove rmnode path)) ≡ count y (elements root))
avl_remove-IsTree rg root a (avl, d) found =
    let (h, l, r, path, run, same) = node_of-some a root [] found in
    let whole : zip (node h l a r) path ≡ root = same ∙ unfold zip in refl in
    let (avl', (front, back, before, after)) = avl_remove-elements h l a r path (rw whole avl) in
    let split : elements root ≡ front ++ a ∷ back = ap elements (sym whole) ∙ before in
    (
      node h l a r,
      path,
      run,
      (avl', rw after (IsDisjoint-without rg front a back (rw split at d))),
      λ y.
          ap (λ (t : List ℕ). count y (a ∷ t)) after
          ∙ count-without y a front back
          ∙ ap (count y) (sym split),
    )
