-- ===== src/Avl/Remove.antt =====
-- `avl_remove` of myLoader/lib/avl/avl.c takes one node out of a balanced tree.
use mathlib.Core.List.{append_assoc, append-nil}
use porcelix.Prelude.{
  ℕ, ◌≡◌, refl, inl, inr, List, [], ◌∷◌, ◌++◌, arith, ltb, ap, sym, ◌∙◌, Bool-cases,
}
use porcelix.Avl.{
  Avln, nil, node, Father, from_left, from_right, subth, zip, most_right, most_left, avl_remove,
}
use porcelix.Avl.Rotate.{Close, higher, IsAvl, elements}
use porcelix.Avl.Balance.{IsPath, rebalance-IsAvl, around, elements-zip, elements-rebalance}

module _ {A : Type 0} where
  -- The parts of a balanced tree.
  unzip-IsAvl :
      (t : Avln A) (path : List (Father A)) → IsAvl (zip t path) → IsAvl t × IsPath (subth t) path
  unfolding zip
  unzip-IsAvl t [] i = (i, tt)
  unzip-IsAvl t (from_left h a r ∷ path) i =
      let ((e, close, it, ir), p) = unzip-IsAvl (node h t a r) path i in (it, (e, close, ir, p))
  unzip-IsAvl t (from_right h l a ∷ path) i =
      let ((e, close, il, it), p) = unzip-IsAvl (node h l a t) path i in (it, (e, close, il, p))

  around-append :
      (path base : List (Father A)) (xs : List A)
      → around (path ++ base) xs ≡ around base (around path xs)
  unfolding around
  around-append [] base xs = refl
  around-append (from_left h a r ∷ path) base xs = around-append path base (xs ++ a ∷ elements r)
  around-append (from_right h l a ∷ path) base xs = around-append path base (elements l ++ a ∷ xs)

  -- What the fathers hold is a part in front of the place and a part behind it.
  around_sides :
      (path : List (Father A))
      → (front back : List A) × ((xs : List A) → around path xs ≡ front ++ (xs ++ back))
  unfolding around
  around_sides [] = ([], [], λ xs. sym (append-nil xs))
  around_sides (from_left h a r ∷ path) =
      let (front, back, e) = around_sides path in
      (
        front,
        a ∷ (elements r ++ back),
        λ xs.
            e (xs ++ a ∷ elements r)
            ∙ ap (λ (t : List A). front ++ t) (append_assoc xs (a ∷ elements r) back),
      )
  around_sides (from_right h l a ∷ path) =
      let (front, back, e) = around_sides path in
      (
        front ++ (elements l ++ a ∷ []),
        back,
        λ xs.
            e (elements l ++ a ∷ xs)
            ∙ ap (λ (t : List A). front ++ t) (append_assoc (elements l) (a ∷ xs) back)
            ∙ sym (
                append_assoc front (elements l ++ a ∷ []) (xs ++ back)
                ∙ ap (λ (t : List A). front ++ t)
                    (append_assoc (elements l) (a ∷ []) (xs ++ back))),
      )

  -- What the loops to the most right and to the most left node reach.
  abbrev IsReached : A × Avln A × List (Father A) → List (Father A) → Type 0
  IsReached (rmpos, nc, fathers) base =
      (n : ℕ) × IsPath n (fathers ++ base) × Close n (subth nc) × IsAvl nc

  most_right-IsReached :
      (h : ℕ) (l : Avln A) (a : A) (r : Avln A) (path base : List (Father A))
      → IsAvl (node h l a r)
      → IsPath h (path ++ base)
      → IsReached (most_right h l a r path) base
  unfolding most_right
  most_right-IsReached h l a nil path base (e, close, il, ir) p =
      let top = higher (subth l) 0 in (h, p, (omega (arith, top), omega (arith, top)), il)
  most_right-IsReached h l a (node h' l' a' r') path base (e, close, il, ir) p =
      most_right-IsReached h' l' a' r' (from_right h l a ∷ path) base ir (e, close, il, p)

  most_left-IsReached :
      (h : ℕ) (l : Avln A) (a : A) (r : Avln A) (path base : List (Father A))
      → IsAvl (node h l a r)
      → IsPath h (path ++ base)
      → IsReached (most_left h l a r path) base
  unfolding most_left
  most_left-IsReached h nil a r path base (e, close, il, ir) p =
      let top = higher 0 (subth r) in (h, p, (omega (arith, top), omega (arith, top)), ir)
  most_left-IsReached h (node h' l' a' r') a r path base (e, close, il, ir) p =
      most_left-IsReached h' l' a' r' (from_left h a r ∷ path) base il (e, close, ir, p)

  most_right-elements :
      (h : ℕ) (l : Avln A) (a : A) (r : Avln A) (path : List (Father A))
      → ((xs ys : List A) → around path (xs ++ ys) ≡ around path xs ++ ys)
      → around (most_right h l a r path).2 (elements (most_right h l a r path).1)
          ++ (most_right h l a r path).0 ∷ []
        ≡ around path (elements (node h l a r))
  unfolding most_right elements around
  most_right-elements h l a nil path last = sym (last (elements l) (a ∷ []))
  most_right-elements h l a (node h' l' a' r') path last =
      most_right-elements h' l' a' r' (from_right h l a ∷ path) (λ xs ys.
        ap (around path) (sym (append_assoc (elements l) (a ∷ xs) ys))
        ∙ last (elements l ++ a ∷ xs) ys)

  most_left-elements :
      (h : ℕ) (l : Avln A) (a : A) (r : Avln A) (path : List (Father A))
      → ((xs ys : List A) → around path (xs ++ ys) ≡ xs ++ around path ys)
      → (most_left h l a r path).0
          ∷ around (most_left h l a r path).2 (elements (most_left h l a r path).1)
        ≡ around path (elements (node h l a r))
  unfolding most_left elements around
  most_left-elements h nil a r path first = sym (first (a ∷ []) (elements r))
  most_left-elements h (node h' l' a' r') a r path first =
      most_left-elements h' l' a' r' (from_left h a r ∷ path) (λ xs ys.
        ap (around path) (append_assoc xs ys (a ∷ elements r)) ∙ first xs (ys ++ a ∷ elements r))

  -- What a removal leaves.
  abbrev pub IsRemoved : Avln A → Avln A → Avln A → List (Father A) → Type 0
  IsRemoved t l r path = IsAvl t × (elements t ≡ around path (elements l ++ elements r))

  remove_both :
      (h hl : ℕ) (ll : Avln A) (al : A) (rl : Avln A) (a : A) (hr : ℕ) (lr : Avln A) (ar : A)
      (rr : Avln A) (path : List (Father A))
      → IsAvl (node h (node hl ll al rl) a (node hr lr ar rr))
      → IsPath h path
      → IsRemoved
          (avl_remove (node h (node hl ll al rl) a (node hr lr ar rr)) path)
          (node hl ll al rl)
          (node hr lr ar rr)
          path
  unfolding avl_remove around
  remove_both h hl ll al rl a hr lr ar rr path (e, close, il, ir) p =
      let left = node hl ll al rl in
      let right = node hr lr ar rr in
      elim (Bool-cases (ltb hr hl)) [
        | inl big ↦
            let (rmpos, nc, fathers) = most_right hl ll al rl [] in
            let base = from_left h rmpos right ∷ path in
            let (n, p', near, inc) =
              most_right-IsReached hl ll al rl [] base il (e, close, ir, p) in
            let whole = most_right-elements hl ll al rl [] (λ xs ys. refl) in
            rw big (
              rebalance-IsAvl nc (fathers ++ base) n inc p' near,
              elements-rebalance nc (fathers ++ base)
                  ∙ around-append fathers base (elements nc)
                  ∙ ap (around path) (
                      sym
                        (append_assoc (around fathers (elements nc)) (rmpos ∷ []) (elements right))
                      ∙ ap (λ (t : List A). t ++ elements right) whole),
            )
        | inr small ↦
            let (rmpos, nc, fathers) = most_left hr lr ar rr [] in
            let base = from_right h left rmpos ∷ path in
            let (n, p', near, inc) = most_left-IsReached hr lr ar rr [] base ir (e, close, il, p) in
            let whole = most_left-elements hr lr ar rr [] (λ xs ys. refl) in
            rw small (
              rebalance-IsAvl nc (fathers ++ base) n inc p' near,
              elements-rebalance nc (fathers ++ base)
                  ∙ around-append fathers base (elements nc)
                  ∙ ap (λ (t : List A). around path (elements left ++ t)) whole,
            )
      ]

  remove_at :
      (h : ℕ) (l : Avln A) (a : A) (r : Avln A) (path : List (Father A))
      → IsAvl (node h l a r)
      → IsPath h path
      → IsRemoved (avl_remove (node h l a r) path) l r path
  unfolding avl_remove elements
  remove_at h nil a r path (e, close, il, ir) p =
      let top = higher 0 (subth r) in
      (
        rebalance-IsAvl r path h ir p (omega (arith, top), omega (arith, top)),
        elements-rebalance r path,
      )
  remove_at h (node hl ll al rl) a nil path (e, close, il, ir) p =
      let top = higher hl 0 in
      (
        rebalance-IsAvl (node hl ll al rl) path h il p (omega (arith, top), omega (arith, top)),
        elements-rebalance (node hl ll al rl) path
            ∙ ap (around path) (sym (append-nil (elements (node hl ll al rl)))),
      )
  remove_at h (node hl ll al rl) a (node hr lr ar rr) path i p =
      remove_both h hl ll al rl a hr lr ar rr path i p

  -- `avl_remove` of a node of a balanced tree leaves a balanced tree, which holds what lay on the
  -- left of the node and then what lay on its right, in the same order as before.
  pub avl_remove-elements :
      (h : ℕ) (l : Avln A) (a : A) (r : Avln A) (path : List (Father A))
      → IsAvl (zip (node h l a r) path)
      → IsAvl (avl_remove (node h l a r) path)
        × ((front back : List A) × (elements (zip (node h l a r) path) ≡ front ++ a ∷ back)
            × (elements (avl_remove (node h l a r) path) ≡ front ++ back))
  unfolding elements
  avl_remove-elements h l a r path i =
      let (it, p) = unzip-IsAvl (node h l a r) path i in
      let (avl, left) = remove_at h l a r path it p in
      let (front, back, sides) = around_sides path in
      (
        avl,
        (
          front ++ elements l,
          elements r ++ back,
          elements-zip (node h l a r) path
              ∙ sides (elements l ++ a ∷ elements r)
              ∙ ap (λ (t : List A). front ++ t) (append_assoc (elements l) (a ∷ elements r) back)
              ∙ sym (append_assoc front (elements l) (a ∷ (elements r ++ back))),
          left
              ∙ sides (elements l ++ elements r)
              ∙ ap (λ (t : List A). front ++ t) (append_assoc (elements l) (elements r) back)
              ∙ sym (append_assoc front (elements l) (elements r ++ back)),
        ),
      )
