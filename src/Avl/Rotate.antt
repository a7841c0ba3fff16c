-- ===== src/Avl/Rotate.antt =====
-- One round of `avl_ab` (myLoader/lib/avl/avl.c) restores the balance of a node.
use porcelix.Prelude.{
  ℕ, ◌+◌, ◌≤◌, ◌<◌, ◌≡◌, refl, ◌⊎◌, inl, inr, true, false, List, [], ◌∷◌, ◌++◌, arith, ltb,
  if◌then◌else◌, Bool-cases, ltb→lt, ltb→le, lt→ltb, le→ltb,
}
use porcelix.Avl.{Avln, nil, node, subth, avl_rfh, avl_lr, avl_rr, rotate}

-- Two numbers that differ by at most one.
abbrev pub Close : ℕ → ℕ → Type 0
Close m n = (m ≤ n + 1) × (n ≤ m + 1)

pub higher :
    (m n : ℕ)
    → (m < (if ltb n m then m + 1 else n + 1))
      × (n < (if ltb n m then m + 1 else n + 1))
      × (((if ltb n m then m + 1 else n + 1) ≡ m + 1)
          ⊎ ((if ltb n m then m + 1 else n + 1) ≡ n + 1))
higher m n = ground arith

module _ {A : Type 0} where
  abbrev pub taller : Avln A → Avln A → ℕ
  taller l r = if ltb (subth r) (subth l) then subth l + 1 else subth r + 1

  -- Every stored height is right, and the heights of two siblings differ by at most one.
  abbrev pub IsAvl : Avln A → Type 0
  IsAvl nil = Unit
  IsAvl (node h l a r) = (h ≡ taller l r) × Close (subth l) (subth r) × IsAvl l × IsAvl r

  -- What the tree holds, from left to right.
  unfoldable pub elements : Avln A → List A
  elements nil = []
  elements (node h l a r) = elements l ++ a ∷ elements r

  -- The right child is two higher than the left one: the single rotation, where the right child
  -- does not lean to the left, and the double one.
  module _ (h : ℕ) (l : Avln A) (a : A) (il : IsAvl l) where
    single_left :
        (hr : ℕ) (m : Avln A) (b : A) (r : Avln A)
        → IsAvl (node hr m b r)
        → hr ≡ subth l + 2
        → subth m ≤ subth r
        → IsAvl (avl_lr (node h l a (node hr m b r)))
          × (subth l + 2 ≤ subth (avl_lr (node h l a (node hr m b r))))
          × (subth (avl_lr (node h l a (node hr m b r))) ≤ subth l + 3)
    unfolding avl_lr avl_rfh
    single_left hr m b r (eh, close, im, ir) e lean =
        let inner = higher (subth l) (subth m) in
        let outer = higher (taller l m) (subth r) in
        let whole = higher (subth m) (subth r) in
        (
          (
            refl,
            (omega (arith, inner, whole), omega (arith, inner, whole)),
            (refl, (omega (arith, whole), omega (arith, whole)), il, im),
            ir,
          ),
          omega (arith, inner, outer, whole),
          omega (arith, inner, outer, whole),
        )

    double_left :
        (hr hm : ℕ) (ml : Avln A) (c : A) (mr : Avln A) (b : A) (r : Avln A)
        → IsAvl (node hr (node hm ml c mr) b r)
        → hr ≡ subth l + 2
        → subth r < hm
        → IsAvl (avl_lr (node h l a (avl_rr (node hr (node hm ml c mr) b r))))
          × (subth l + 2 ≤ subth (avl_lr (node h l a (avl_rr (node hr (node hm ml c mr) b r)))))
          × (subth (avl_lr (node h l a (avl_rr (node hr (node hm ml c mr) b r)))) ≤ subth l + 3)
    unfolding avl_lr avl_rr avl_rfh
    double_left hr hm ml c mr b r (eh, close, (em, close', iml, imr), ir) e lean =
        let whole = higher hm (subth r) in
        let middle = higher (subth ml) (subth mr) in
        let left = higher (subth l) (subth ml) in
        let right = higher (subth mr) (subth r) in
        let top = higher (taller l ml) (taller mr r) in
        (
          (
            refl,
            (omega (arith, whole, middle, left, right), omega (arith, whole, middle, left, right)),
            (refl, (omega (arith, whole, middle), omega (arith, whole, middle)), il, iml),
            (refl, (omega (arith, whole, middle), omega (arith, whole, middle)), imr, ir),
          ),
          omega (arith, whole, middle, left, right, top),
          omega (arith, whole, middle, left, right, top),
        )

  -- The left child is two higher.
  module _ (h : ℕ) (a : A) (r : Avln A) (ir : IsAvl r) where
    single_right :
        (hl : ℕ) (l : Avln A) (b : A) (m : Avln A)
        → IsAvl (node hl l b m)
        → hl ≡ subth r + 2
        → subth m ≤ subth l
        → IsAvl (avl_rr (node h (node hl l b m) a r))
          × (subth r + 2 ≤ subth (avl_rr (node h (node hl l b m) a r)))
          × (subth (avl_rr (node h (node hl l b m) a r)) ≤ subth r + 3)
    unfolding avl_rr avl_rfh
    single_right hl l b m (eh, close, il, im) e lean =
        let inner = higher (subth m) (subth r) in
        let outer = higher (subth l) (taller m r) in
        let whole = higher (subth l) (subth m) in
        (
          (
            refl,
            (omega (arith, inner, whole), omega (arith, inner, whole)),
            il,
            (refl, (omega (arith, whole), omega (arith, whole)), im, ir),
          ),
          omega (arith, inner, outer, whole),
          omega (arith, inner, outer, whole),
        )

    double_right :
        (hl : ℕ) (l : Avln A) (b : A) (hm : ℕ) (ml : Avln A) (c : A) (mr : Avln A)
        → IsAvl (node hl l b (node hm ml c mr))
        → hl ≡ subth r + 2
        → subth l < hm
        → IsAvl (avl_rr (node h (avl_lr (node hl l b (node hm ml c mr))) a r))
          × (subth r + 2 ≤ subth (avl_rr (node h (avl_lr (node hl l b (node hm ml c mr))) a r)))
          × (subth (avl_rr (node h (avl_lr (node hl l b (node hm ml c mr))) a r)) ≤ subth r + 3)
    unfolding avl_lr avl_rr avl_rfh
    double_right hl l b hm ml c mr (eh, close, il, (em, close', iml, imr)) e lean =
        let whole = higher (subth l) hm in
        let middle = higher (subth ml) (subth mr) in
        let left = higher (subth l) (subth ml) in
        let right = higher (subth mr) (subth r) in
        let top = higher (taller l ml) (taller mr r) in
        (
          (
            refl,
            (omega (arith, whole, middle, left, right), omega (arith, whole, middle, left, right)),
            (refl, (omega (arith, whole, middle), omega (arith, whole, middle)), il, iml),
            (refl, (omega (arith, whole, middle), omega (arith, whole, middle)), imr, ir),
          ),
          omega (arith, whole, middle, left, right, top),
          omega (arith, whole, middle, left, right, top),
        )

  -- What a round leaves of a node whose children are balanced and differ by two at most.
  pub record IsRound (l r t : Avln A) : Type 0 where
    pub avl : IsAvl t
    pub height :
        (Close (subth l) (subth r) × (subth t ≡ taller l r))
        ⊎ ((subth r ≡ subth l + 2) × (subth l + 2 ≤ subth t) × (subth t ≤ subth l + 3))
        ⊎ ((subth l ≡ subth r + 2) × (subth r + 2 ≤ subth t) × (subth t ≤ subth r + 3))

  IsRound-right :
      (l : Avln A) (a : A) (r : Avln A)
      → IsAvl l
      → IsAvl r
      → subth r ≡ subth l + 2
      → IsRound l r (rotate (avl_rfh (node 0 l a r)))
  unfolding rotate avl_rfh
  IsRound-right l a nil il ir e = absurd (omega arith)
  IsRound-right l a (node hr m b r) il ir e =
      let heavy : ltb (subth l + 1) hr ≡ true = lt→ltb _ _ (omega arith) in
      elim (Bool-cases (ltb (subth r + 0) (subth m))) [
        | inr lean ↦
            let (avl, low, high) =
              single_left _ l a il hr m b r ir e (omega (arith, ltb→le _ _ lean)) in
            rw (heavy, lean) (record { avl = avl; height = inr (inl (e, low, high)) })
        | inl lean ↦ lean_left m lean ir
      ]
    where
      lean_left :
          (n : Avln A)
          → ltb (subth r + 0) (subth n) ≡ true
          → IsAvl (node hr n b r)
          → IsRound l (node hr n b r) (rotate (avl_rfh (node 0 l a (node hr n b r))))
      lean_left nil lean ir = absurd (omega (arith, ltb→lt _ _ lean))
      lean_left (node hm ml c mr) lean ir =
          let heavy : ltb (subth l + 1) hr ≡ true = lt→ltb _ _ (omega arith) in
          let (avl, low, high) =
            double_left _ l a il hr hm ml c mr b r ir e (omega (arith, ltb→lt _ _ lean)) in
          rw (heavy, lean) (record { avl = avl; height = inr (inl (e, low, high)) })

  IsRound-left :
      (l : Avln A) (a : A) (r : Avln A)
      → IsAvl l
      → IsAvl r
      → subth l ≡ subth r + 2
      → IsRound l r (rotate (avl_rfh (node 0 l a r)))
  unfolding rotate avl_rfh
  IsRound-left nil a r il ir e = absurd (omega arith)
  IsRound-left (node hl l b m) a r il ir e =
      let light : ltb (hl + 1) (subth r) ≡ false = le→ltb _ _ (omega arith) in
      let heavy : ltb (subth r + 1) hl ≡ true = lt→ltb _ _ (omega arith) in
      elim (Bool-cases (ltb (subth l + 0) (subth m))) [
        | inr lean ↦
            let (avl, low, high) =
              single_right _ a r ir hl l b m il e (omega (arith, ltb→le _ _ lean)) in
            rw (light, heavy, lean) (record { avl = avl; height = inr (inr (e, low, high)) })
        | inl lean ↦ lean_right m lean il
      ]
    where
      lean_right :
          (n : Avln A)
          → ltb (subth l + 0) (subth n) ≡ true
          → IsAvl (node hl l b n)
          → IsRound (node hl l b n) r (rotate (avl_rfh (node 0 (node hl l b n) a r)))
      lean_right nil lean il = absurd (omega (arith, ltb→lt _ _ lean))
      lean_right (node hm ml c mr) lean il =
          let light : ltb (hl + 1) (subth r) ≡ false = le→ltb _ _ (omega arith) in
          let heavy : ltb (subth r + 1) hl ≡ true = lt→ltb _ _ (omega arith) in
          let (avl, low, high) =
            double_right _ a r ir hl l b hm ml c mr il e (omega (arith, ltb→lt _ _ lean)) in
          rw (light, heavy, lean) (record { avl = avl; height = inr (inr (e, low, high)) })

  -- A round on a node whose children differ by two at most.
  pub rotate-IsRound :
      (l : Avln A) (a : A) (r : Avln A)
      → IsAvl l
      → IsAvl r
      → subth l ≤ subth r + 2
      → subth r ≤ subth l + 2
      → IsRound l r (rotate (avl_rfh (node 0 l a r)))
  unfolding rotate avl_rfh
  rotate-IsRound l a r il ir low high = elim (Bool-cases (ltb (subth l + 1) (subth r))) [
    | inl right ↦ IsRound-right l a r il ir (omega (arith, ltb→lt _ _ right))
    | inr even ↦ elim (Bool-cases (ltb (subth r + 1) (subth l))) [
      | inl left ↦ IsRound-left l a r il ir (omega (arith, ltb→lt _ _ left))
      | inr flat ↦
          let close : Close (subth l) (subth r) =
            (omega (arith, ltb→le _ _ flat), omega (arith, ltb→le _ _ even)) in
          rw (even, flat) (record { avl = (refl, close, il, ir); height = inl (close, refl) })
    ]
  ]
