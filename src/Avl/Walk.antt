-- ===== src/Avl/Walk.antt =====
-- `avl_walk` of myLoader/lib/avl/avl.c visits the nodes in one of six orders, until `op` returns -1.
use porcelix.Prelude.{
  ℕ, zero, suc, ◌≡◌, refl, ◌⊎◌, inl, inr, true, false, List, [], ◌∷◌, ◌++◌, arith, ◌==◌, ==_iff, ap,
  sym, ◌∙◌, Bool-cases,
}
use porcelix.Prelude.Int.{ℤ, pos, negsuc}
use porcelix.Avl.{
  Avln, nil, node, subth, AvlWt, avlwt_lmr, avlwt_lrm, avlwt_mlr, avlwt_mrl, avlwt_rlm, avlwt_rml,
  unless_stopped, in_turn, avl_walk,
}
use porcelix.Avl.Rotate.{higher, IsAvl}

module _ {A : Type 0} where
  -- The nodes in the order of the walk.
  unfoldable pub order : Avln A → AvlWt → List A
  order nil wt = []
  order (node h l a r) wt =
      let left = order l wt in
      let right = order r wt in
      elim wt [
        | avlwt_lmr ↦ left ++ a ∷ right
        | avlwt_lrm ↦ left ++ (right ++ a ∷ [])
        | avlwt_mlr ↦ a ∷ (left ++ right)
        | avlwt_mrl ↦ a ∷ (right ++ left)
        | avlwt_rlm ↦ right ++ (left ++ a ∷ [])
        | avlwt_rml ↦ right ++ a ∷ left
      ]

  module _ {S : Type 0} (op : A → S → ℤ × S) where
    -- `op` on one after the other, until it returns -1.
    unfoldable pub each : List A → S → ℤ × S
    each [] s = (pos 0, s)
    each (a ∷ xs) s = unless_stopped op (op a s) (each xs)

    -- `op` returns 0 or -1.
    abbrev pub IsWalkOp : Type 0
    IsWalkOp = (a : A) (s : S) → ((op a s).0 ≡ pos 0) ⊎ ((op a s).0 ≡ negsuc 0)

    unless_stopped_assoc :
        (r : ℤ × S) (f g : S → ℤ × S)
        → unless_stopped op (unless_stopped op r f) g
          ≡ unless_stopped op r (λ s. unless_stopped op (f s) g)
    unless_stopped_assoc (negsuc zero, s) f g = refl
    unless_stopped_assoc (negsuc (suc n), s) f g = refl
    unless_stopped_assoc (pos n, s) f g = refl

    unless_stopped_ap :
        (r : ℤ × S) {f g : S → ℤ × S}
        → ((s : S) → f s ≡ g s)
        → unless_stopped op r f ≡ unless_stopped op r g
    unless_stopped_ap (negsuc zero, s) e = refl
    unless_stopped_ap (negsuc (suc n), s) e = e s
    unless_stopped_ap (pos n, s) e = e s

    each-append :
        (xs ys : List A) (s : S) → each (xs ++ ys) s ≡ unless_stopped op (each xs s) (each ys)
    unfolding each
    each-append [] ys s = refl
    each-append (a ∷ xs) ys s =
        unless_stopped_ap (op a s) (each-append xs ys)
        ∙ sym (unless_stopped_assoc (op a s) (each xs) (each ys))

    -- A success is a 0.
    each_settled :
        (xs : List A) (s : S) → unless_stopped op (each xs s) (λ s'. (pos 0, s')) ≡ each xs s
    unfolding each
    each_settled [] s = refl
    each_settled (a ∷ xs) s =
        unless_stopped_assoc (op a s) (each xs) (λ s'. (pos 0, s'))
        ∙ unless_stopped_ap (op a s) (each_settled xs)

    in_turn-each :
        (f g k : S → ℤ × S) (xs ys zs : List A)
        → ((s : S) → f s ≡ each xs s)
        → ((s : S) → g s ≡ each ys s)
        → ((s : S) → k s ≡ each zs s)
        → (s : S) → in_turn op f g k s ≡ each (xs ++ (ys ++ zs)) s
    in_turn-each f g k xs ys zs ef eg ek s =
        ap
          (λ r.
            unless_stopped op r
              (λ s1. unless_stopped op (g s1) (λ s2. unless_stopped op (k s2) (λ s3. (pos 0, s3)))))
          (ef s)
        ∙ unless_stopped_ap (each xs s) (λ s1.
          ap (λ r. unless_stopped op r (λ s2. unless_stopped op (k s2) (λ s3. (pos 0, s3)))) (eg s1)
          ∙ unless_stopped_ap (each ys s1)
              (λ s2. ap (λ r. unless_stopped op r (λ s3. (pos 0, s3))) (ek s2) ∙ each_settled zs s2)
          ∙ sym (each-append ys zs s1))
        ∙ sym (each-append xs (ys ++ zs) s)

    each_one :
        (r : ℤ × S) → (r.0 ≡ pos 0) ⊎ (r.0 ≡ negsuc 0) → r ≡ unless_stopped op r (λ s. (pos 0, s))
    each_one (negsuc zero, s) d = refl
    each_one (negsuc (suc n), s) (inl e) = cc
    each_one (negsuc (suc n), s) (inr e) = cc
    each_one (pos n, s) (inl e) = ap (λ z. (z, s)) e
    each_one (pos n, s) (inr e) = cc

    -- A node of the height 1 of a balanced tree has no children.
    lone :
        (h : ℕ) (l : Avln A) (a : A) (r : Avln A)
        → IsAvl (node h l a r)
        → h ≡ 1
        → (l ≡ nil) × (r ≡ nil)
    lone h nil a nil i e = (refl, refl)
    lone h (node hl ll al rl) a r (eh, close, (el, cl, _, _), ir) e =
        absurd (omega (arith, higher hl (subth r), higher (subth ll) (subth rl)))
    lone h nil a (node hr lr ar rr) (eh, close, il, (er, cr, _, _)) e =
        absurd (omega (arith, higher 0 hr, higher (subth lr) (subth rr)))

    order_lone : (h : ℕ) (a : A) (wt : AvlWt) → order (node h nil a nil) wt ≡ a ∷ []
    unfolding order
    order_lone h a avlwt_lmr = refl
    order_lone h a avlwt_lrm = refl
    order_lone h a avlwt_mlr = refl
    order_lone h a avlwt_mrl = refl
    order_lone h a avlwt_rlm = refl
    order_lone h a avlwt_rml = refl

    module _ (h : ℕ) (l : Avln A) (a : A) (r : Avln A) where
      walk_lone : (wt : AvlWt) (p : S) → (h == 1) ≡ true → avl_walk op (node h l a r) wt p ≡ op a p
      unfolding avl_walk
      walk_lone wt p e = rw e refl

      walk_inner :
          (wt : AvlWt) (p : S)
          → (h == 1) ≡ false
          → ((s : S) → avl_walk op l wt s ≡ each (order l wt) s)
          → ((s : S) → avl_walk op r wt s ≡ each (order r wt) s)
          → ((s : S) → op a s ≡ each (a ∷ []) s)
          → avl_walk op (node h l a r) wt p ≡ each (order (node h l a r) wt) p
      unfolding avl_walk order
      walk_inner avlwt_lmr p e left right this = rw e (in_turn-each _ _ _ _ _ _ left this right p)
      walk_inner avlwt_lrm p e left right this = rw e (in_turn-each _ _ _ _ _ _ left right this p)
      walk_inner avlwt_mlr p e left right this = rw e (in_turn-each _ _ _ _ _ _ this left right p)
      walk_inner avlwt_mrl p e left right this = rw e (in_turn-each _ _ _ _ _ _ this right left p)
      walk_inner avlwt_rlm p e left right this = rw e (in_turn-each _ _ _ _ _ _ right left this p)
      walk_inner avlwt_rml p e left right this = rw e (in_turn-each _ _ _ _ _ _ right this left p)

    -- On a balanced tree, with an `op` that returns 0 or -1, `avl_walk` calls `op` on the nodes one
    -- after the other in the order that is asked for, and stops with -1 where `op` returns -1.
    pub avl_walk-each :
        (t : Avln A) (wt : AvlWt) (p : S)
        → IsWalkOp
        → IsAvl t
        → avl_walk op t wt p ≡ each (order t wt) p
    unfolding avl_walk order each
    avl_walk-each nil wt p ok i = refl
    avl_walk-each (node h l a r) wt p ok i =
        let this : (s : S) → op a s ≡ each (a ∷ []) s = λ s. each_one (op a s) (ok a s) in
        elim (Bool-cases (h == 1)) [
          | inl one ↦
              let (el, er) = lone h l a r i ((==_iff h 1).0 one) in
              walk_lone h l a r wt p one
              ∙ this p
              ∙ sym (
                  ap (λ t. each t p)
                    (ap (λ t. order (node h t a r) wt) el
                      ∙ ap (λ t. order (node h nil a t) wt) er
                      ∙ order_lone h a wt))
          | inr more ↦
              let (_, _, il, ir) = i in
              walk_inner h l a r wt p more (λ s. avl_walk-each l wt s ok il)
                (λ s. avl_walk-each r wt s ok ir) this
        ]
