-- ===== src/Avl/Insert.antt =====
-- `avl_insert` of myLoader/lib/avl/avl.c is insertion into a sorted sequence, on a balanced tree.
use porcelix.Prelude.{◌≡◌, refl, ◌⊎◌, inl, inr, some, List, [], ◌∷◌, ◌++◌, arith, ap, sym, ◌∙◌}
use porcelix.Prelude.Int.{pos}
use porcelix.Prelude.Mem.{All, All-parts}
use porcelix.Avl.{
  Avln, nil, node, Father, from_left, from_right, subth, AvlCmp, avlcmp_1lt2, avlcmp_1bt2,
  find_place, avl_insert,
}
use porcelix.Avl.Rotate.{IsAvl, elements}
use porcelix.Avl.Balance.{IsPath, rebalance-IsAvl, around, elements-rebalance}

module _ {A : Type 0} (cmpf : A → AvlCmp) where
  -- A sequence that lies below the key up to a point, and above it from there on.
  abbrev pub IsCut : List A → Type 0
  IsCut [] = Unit
  IsCut (a ∷ xs) =
      ((cmpf a ≡ avlcmp_1lt2) × IsCut xs)
      ⊎ ((cmpf a ≡ avlcmp_1bt2) × All (λ b. cmpf b ≡ avlcmp_1bt2) xs)

  -- The new element behind all that lies below the key.
  unfoldable pub insert_at : A → List A → List A
  insert_at new [] = new ∷ []
  insert_at new (a ∷ xs) = elim (cmpf a) [ avlcmp_1lt2 ↦ a ∷ insert_at new xs | _ ↦ new ∷ a ∷ xs ]

  pub insert_past :
      (new x : A) (xs : List A)
      → cmpf x ≡ avlcmp_1lt2
      → insert_at new (x ∷ xs) ≡ x ∷ insert_at new xs
  unfolding insert_at
  insert_past new x xs lt = rw (lt, insert_at) refl

  pub insert_here :
      (new x : A) (xs : List A) → cmpf x ≡ avlcmp_1bt2 → insert_at new (x ∷ xs) ≡ new ∷ x ∷ xs
  unfolding insert_at
  insert_here new x xs bt = rw (bt, insert_at) refl

  -- Where a cut sequence has the element `a`, the cut is behind it or before it.
  pub IsCut-around :
      (xs : List A) (a : A) (ys : List A)
      → IsCut (xs ++ a ∷ ys)
      → ((cmpf a ≡ avlcmp_1lt2)
          × IsCut ys
          × ((new : A) → insert_at new (xs ++ a ∷ ys) ≡ xs ++ a ∷ insert_at new ys))
        ⊎ ((cmpf a ≡ avlcmp_1bt2)
            × IsCut xs
            × ((new : A) → insert_at new (xs ++ a ∷ ys) ≡ insert_at new xs ++ a ∷ ys))
  unfolding insert_at
  IsCut-around [] a ys (inl (lt, c)) = inl (lt, c, λ new. insert_past new a ys lt)
  IsCut-around [] a ys (inr (bt, all)) = inr (bt, tt, λ new. insert_here new a ys bt)
  IsCut-around (x ∷ xs) a ys (inl (lt, c)) = elim (IsCut-around xs a ys c) [
    | inl (lt', c', e) ↦
        inl
          (lt', c', λ new. insert_past new x (xs ++ a ∷ ys) lt ∙ ap (λ (t : List A). x ∷ t) (e new))
    | inr (bt', c', e) ↦ inr (
      bt',
      inl (lt, c'),
      λ new.
          insert_past new x (xs ++ a ∷ ys) lt
          ∙ ap (λ (t : List A). x ∷ t) (e new)
          ∙ ap (λ (t : List A). t ++ a ∷ ys) (sym (insert_past new x xs lt)),
    )
  ]
  IsCut-around (x ∷ xs) a ys (inr (bt, all)) =
      let (front, back) = All-parts (λ b. cmpf b ≡ avlcmp_1bt2) xs (a ∷ ys) all in
      inr (
        back.0,
        inr (bt, front),
        λ new.
            insert_here new x (xs ++ a ∷ ys) bt
            ∙ ap (λ (t : List A). t ++ a ∷ ys) (sym (insert_here new x xs bt)),
      )

  -- The place for the new node, and what lies around it.
  find_place-around :
      (t : Avln A) (path : List (Father A)) (new : A)
      → IsAvl t
      → IsPath (subth t) path
      → IsCut (elements t)
      → (path' : List (Father A)) × (find_place cmpf t path ≡ some path')
        × IsPath 0 path'
        × (around path' (new ∷ []) ≡ around path (insert_at new (elements t)))
  unfolding find_place elements around insert_at
  find_place-around nil path new i p c = (path, refl, p, refl)
  find_place-around (node h l a r) path new (e, close, il, ir) p c =
      elim (IsCut-around (elements l) a (elements r) c) [
        | inl (lt, c', split) ↦
            let (path', run, p', around') =
              find_place-around r (from_right h l a ∷ path) new ir (e, close, il, p) c' in
            (path', rw (lt, find_place) run, p', around' ∙ ap (around path) (sym (split new)))
        | inr (bt, c', split) ↦
            let (path', run, p', around') =
              find_place-around l (from_left h a r ∷ path) new il (e, close, ir, p) c' in
            (path', rw (bt, find_place) run, p', around' ∙ ap (around path) (sym (split new)))
      ]

  -- `avl_insert` into a balanced tree that lies below the key on the left of a point and above it on
  -- the right returns 0. The tree is balanced afterwards, and holds what it held, in the same order,
  -- with the new node at that point.
  pub avl_insert-insert_at :
      (root : Avln A) (new : A)
      → IsAvl root
      → IsCut (elements root)
      → ((avl_insert cmpf root new).0 ≡ pos 0)
        × IsAvl (avl_insert cmpf root new).1
        × (elements (avl_insert cmpf root new).1 ≡ insert_at new (elements root))
  unfolding avl_insert elements around
  avl_insert-insert_at root new i c =
      let (path, run, p, at) = find_place-around root [] new i tt c in
      let leaf = node 1 nil new nil in
      rw (run, avl_insert)
        (
          refl,
          rebalance-IsAvl leaf path 0 (refl, (omega arith, omega arith), tt, tt) p
              (omega arith, omega arith),
          elements-rebalance leaf path ∙ at,
        )
