-- ===== src/Avl/Balance.antt =====
-- `avl_ab` of myLoader/lib/avl/avl.c restores the balance of a tree whose one subtree has changed.
use mathlib.Core.List.{append_assoc}
use porcelix.Prelude.{
  ℕ, ◌+◌, ◌≤◌, ◌≡◌, refl, inl, inr, Bool, true, false, List, [], ◌∷◌, ◌++◌, arith, ltb,
  if◌then◌else◌, ap, sym, ◌∙◌, Bool-cases,
}
use porcelix.Avl.{
  Avln, nil, node, Father, from_left, from_right, subth, avl_rfh, rfh_changed, rotate, right_heavy,
  left_heavy, zip, avl_ab, rebalance, avl_lr, avl_rr, fix_left, fix_right,
}
use porcelix.Avl.Rotate.{Close, higher, IsAvl, elements, IsRound, rotate-IsRound}

module _ {A : Type 0} where
  -- A tree of the height `n` under these fathers makes a balanced tree.
  abbrev pub IsPath : ℕ → List (Father A) → Type 0
  IsPath n [] = Unit
  IsPath n (from_left h a r ∷ path) =
      (h ≡ (if ltb (subth r) n then n + 1 else subth r + 1))
      × Close n (subth r)
      × IsAvl r
      × IsPath h path
  IsPath n (from_right h l a ∷ path) =
      (h ≡ (if ltb n (subth l) then subth l + 1 else n + 1))
      × Close (subth l) n
      × IsAvl l
      × IsPath h path

  zip-IsAvl :
      (t : Avln A) (path : List (Father A)) → IsAvl t → IsPath (subth t) path → IsAvl (zip t path)
  unfolding zip
  zip-IsAvl t [] i p = i
  zip-IsAvl t (from_left h a r ∷ path) i (e, close, ir, p) =
      zip-IsAvl (node h t a r) path (e, close, i, ir) p
  zip-IsAvl t (from_right h l a ∷ path) i (e, close, il, p) =
      zip-IsAvl (node h l a t) path (e, close, il, i) p

  -- A round, and whether the loop goes on.
  avl_ab_step :
      (t : Avln A) (path : List (Father A))
      → avl_ab t path
        ≡ (if rfh_changed t then rebalance (rotate (avl_rfh t)) path else zip (avl_rfh t) path)
  unfolding avl_ab zip
  avl_ab_step t [] = refl
  avl_ab_step t (f ∷ path) = refl

  -- The loop stops where nothing has changed.
  unchanged :
      (h : ℕ) (l : Avln A) (a : A) (r : Avln A)
      → rfh_changed (node h l a r) ≡ false
      → Close (subth l) (subth r) × (subth (avl_rfh (node h l a r)) ≡ h)
  unfolding rfh_changed avl_rfh
  unchanged h l a r e = ground arith

  -- A round at a node whose stored height `h` is off by the change of one subtree, and what follows.
  round-IsAvl :
      (h : ℕ) (l : Avln A) (a : A) (r : Avln A) (path : List (Father A))
      → IsAvl l
      → IsAvl r
      → subth l ≤ subth r + 2
      → subth r ≤ subth l + 2
      → IsPath h path
      → ((t : Avln A) → IsRound l r t → Close h (subth t))
      → ((t : Avln A) → IsAvl t → Close h (subth t) → IsAvl (rebalance t path))
      → IsAvl (avl_ab (node h l a r) path)
  unfolding avl_rfh
  round-IsAvl h l a r path il ir low high p close next =
      let round = rotate-IsRound l a r il ir low high in
      rw (avl_ab_step (node h l a r) path) (elim (Bool-cases (rfh_changed (node h l a r))) [
        | inl changed ↦
            rw changed (next (rotate (avl_rfh (node h l a r))) round.avl (close _ round))
        | inr still ↦
            let (even, kept) = unchanged h l a r still in
            rw still (zip-IsAvl (avl_rfh (node h l a r)) path (refl, even, il, ir) (rw kept p))
      ])

  -- A balanced tree in the place of one whose height differs by one at most: the whole tree is
  -- balanced after `avl_ab`.
  pub rebalance-IsAvl :
      (t : Avln A) (path : List (Father A)) (n : ℕ)
      → IsAvl t
      → IsPath n path
      → Close n (subth t)
      → IsAvl (rebalance t path)
  rebalance-IsAvl t [] n i p close = i
  rebalance-IsAvl t (from_left h a r ∷ path) n i (e, c, ir, p) close =
      let old = higher n (subth r) in
      let new = higher (subth t) (subth r) in
      round-IsAvl h t a r path i ir (omega arith) (omega arith) p
        (λ t' d. (omega (arith, d.height, old, new), omega (arith, d.height, old, new)))
        (λ t' j d. rebalance-IsAvl t' path h j p d)
  rebalance-IsAvl t (from_right h l a ∷ path) n i (e, c, il, p) close =
      let old = higher (subth l) n in
      let new = higher (subth l) (subth t) in
      round-IsAvl h l a t path il i (omega arith) (omega arith) p
        (λ t' d. (omega (arith, d.height, old, new), omega (arith, d.height, old, new)))
        (λ t' j d. rebalance-IsAvl t' path h j p d)

  -- What a whole tree holds, around the place under the fathers.
  unfoldable pub around : List (Father A) → List A → List A
  around [] xs = xs
  around (from_left h a r ∷ path) xs = around path (xs ++ a ∷ elements r)
  around (from_right h l a ∷ path) xs = around path (elements l ++ a ∷ xs)

  elements-avl_lr : (t : Avln A) → elements (avl_lr t) ≡ elements t
  unfolding avl_lr avl_rfh elements
  elements-avl_lr nil = refl
  elements-avl_lr (node h l a nil) = refl
  elements-avl_lr (node h l a (node hr m b r)) =
      append_assoc (elements l) (a ∷ elements m) (b ∷ elements r)

  elements-avl_rr : (t : Avln A) → elements (avl_rr t) ≡ elements t
  unfolding avl_rr avl_rfh elements
  elements-avl_rr nil = refl
  elements-avl_rr (node h nil a r) = refl
  elements-avl_rr (node h (node hl l b m) a r) =
      sym (append_assoc (elements l) (b ∷ elements m) (a ∷ elements r))

  elements-if :
      (b : Bool) (t u : Avln A) (xs : List A)
      → elements t ≡ xs
      → elements u ≡ xs
      → elements (if b then t else u) ≡ xs
  elements-if true t u xs p q = p
  elements-if false t u xs p q = q

  elements-rotate : (t : Avln A) → elements (rotate t) ≡ elements t
  unfolding rotate elements
  elements-rotate nil = refl
  elements-rotate (node h l a r) =
      elements-if (ltb (subth l + 1) (subth r)) _ _ (elements l ++ a ∷ elements r)
        (elements-avl_lr (fix_right (node h l a r))
          ∙ ap (λ (xs : List A). elements l ++ a ∷ xs)
              (elements-if (left_heavy 0 r) (avl_rr r) r (elements r) (elements-avl_rr r) refl))
        (elements-if (ltb (subth r + 1) (subth l)) _ _ (elements l ++ a ∷ elements r)
          (elements-avl_rr (fix_left (node h l a r))
            ∙ ap (λ (xs : List A). xs ++ a ∷ elements r)
                (elements-if (right_heavy 0 l) (avl_lr l) l (elements l) (elements-avl_lr l) refl))
          refl)

  pub elements-zip :
      (t : Avln A) (path : List (Father A)) → elements (zip t path) ≡ around path (elements t)
  unfolding zip around elements
  elements-zip t [] = refl
  elements-zip t (from_left h a r ∷ path) = elements-zip (node h t a r) path
  elements-zip t (from_right h l a ∷ path) = elements-zip (node h l a t) path

  elements-avl_rfh : (t : Avln A) → elements (avl_rfh t) ≡ elements t
  unfolding avl_rfh elements
  elements-avl_rfh nil = refl
  elements-avl_rfh (node h l a r) = refl

  elements-avl_ab :
      (t : Avln A) (path : List (Father A)) → elements (avl_ab t path) ≡ around path (elements t)
  unfolding avl_ab around elements
  elements-avl_ab t [] =
      elements-if (rfh_changed t) _ _ (elements t)
        (elements-rotate (avl_rfh t) ∙ elements-avl_rfh t) (elements-avl_rfh t)
  elements-avl_ab t (from_left h a r ∷ path) =
      let same = elements-rotate (avl_rfh t) ∙ elements-avl_rfh t in
      elements-if (rfh_changed t) _ _ (around path (elements t ++ a ∷ elements r))
        (elements-avl_ab (node h (rotate (avl_rfh t)) a r) path
          ∙ ap (λ (xs : List A). around path (xs ++ a ∷ elements r)) same)
        (elements-zip (avl_rfh t) (from_left h a r ∷ path)
          ∙ ap (λ (xs : List A). around path (xs ++ a ∷ elements r)) (elements-avl_rfh t))
  elements-avl_ab t (from_right h l a ∷ path) =
      let same = elements-rotate (avl_rfh t) ∙ elements-avl_rfh t in
      elements-if (rfh_changed t) _ _ (around path (elements l ++ a ∷ elements t))
        (elements-avl_ab (node h l a (rotate (avl_rfh t))) path
          ∙ ap (λ (xs : List A). around path (elements l ++ a ∷ xs)) same)
        (elements-zip (avl_rfh t) (from_right h l a ∷ path)
          ∙ ap (λ (xs : List A). around path (elements l ++ a ∷ xs)) (elements-avl_rfh t))

  -- `avl_ab` moves nothing.
  pub elements-rebalance :
      (t : Avln A) (path : List (Father A)) → elements (rebalance t path) ≡ around path (elements t)
  unfolding around elements
  elements-rebalance t [] = refl
  elements-rebalance t (from_left h a r ∷ path) = elements-avl_ab (node h t a r) path
  elements-rebalance t (from_right h l a ∷ path) = elements-avl_ab (node h l a t) path
