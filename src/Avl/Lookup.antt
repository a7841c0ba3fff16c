-- ===== src/Avl/Lookup.antt =====
-- `avl_lkup` of myLoader/lib/avl/avl.c finds what a search through the whole sequence finds.
use porcelix.Prelude.{◌≡◌, refl, ◌⊎◌, inl, inr, Option, none, some, List, [], ◌∷◌, ◌++◌, sym, ◌∙◌}
use porcelix.Prelude.Mem.{All, All-parts}
use porcelix.Avl.{
  Avln, nil, node, AvlCmp, avlcmp_1lt2, avlcmp_1bt2, avlcmp_1eq2, avlcmp_2in1, avl_lkup,
}
use porcelix.Avl.Rotate.{elements}

module _ {A : Type 0} (cmpf : A → AvlCmp) where
  -- The element is a hit: it equals the key or holds it.
  abbrev pub IsHit : A → Type 0
  IsHit a = (cmpf a ≡ avlcmp_1eq2) ⊎ (cmpf a ≡ avlcmp_2in1)

  -- A sequence that lies below the key up to a point, has a hit there or none, and lies above the
  -- key from there on.
  abbrev pub IsAround : List A → Type 0
  IsAround [] = Unit
  IsAround (a ∷ xs) =
      ((cmpf a ≡ avlcmp_1lt2) × IsAround xs)
      ⊎ ((IsHit a ⊎ (cmpf a ≡ avlcmp_1bt2)) × All (λ b. cmpf b ≡ avlcmp_1bt2) xs)

  -- The first hit.
  unfoldable pub first_hit : List A → Option A
  first_hit [] = none
  first_hit (a ∷ xs) = elim (cmpf a) [
    | avlcmp_1eq2 ↦ some a
    | avlcmp_2in1 ↦ some a
    | _ ↦ first_hit xs
  ]

  pub first_hit-past :
      (a : A) (xs : List A) → cmpf a ≡ avlcmp_1lt2 → first_hit (a ∷ xs) ≡ first_hit xs
  unfolding first_hit
  first_hit-past a xs lt = rw (lt, first_hit) refl

  first_hit-above : (xs : List A) → All (λ b. cmpf b ≡ avlcmp_1bt2) xs → first_hit xs ≡ none
  unfolding first_hit
  first_hit-above [] all = refl
  first_hit-above (a ∷ xs) (bt, all) = rw (bt, first_hit) (first_hit-above xs all)

  pub hit_here : (a : A) (xs : List A) → IsHit a → first_hit (a ∷ xs) ≡ some a
  unfolding first_hit
  hit_here a xs (inl eq) = rw (eq, first_hit) refl
  hit_here a xs (inr in1) = rw (in1, first_hit) refl

  no_hit : (a : A) (xs : List A) → cmpf a ≡ avlcmp_1bt2 → first_hit (a ∷ xs) ≡ first_hit xs
  unfolding first_hit
  no_hit a xs bt = rw (bt, first_hit) refl

  search-IsAround :
      (xs : List A) (a : A) (ys : List A)
      → IsAround (xs ++ a ∷ ys)
      → ((cmpf a ≡ avlcmp_1lt2) × IsAround ys × (first_hit (xs ++ a ∷ ys) ≡ first_hit ys))
        ⊎ ((cmpf a ≡ avlcmp_1bt2) × IsAround xs × (first_hit (xs ++ a ∷ ys) ≡ first_hit xs))
        ⊎ (IsHit a × (first_hit (xs ++ a ∷ ys) ≡ some a))
  unfolding first_hit
  search-IsAround [] a ys (inl (lt, c)) = inl (lt, c, first_hit-past a ys lt)
  search-IsAround [] a ys (inr (inl hit, all)) = inr (inr (hit, hit_here a ys hit))
  search-IsAround [] a ys (inr (inr bt, all)) =
      inr (inl (bt, tt, no_hit a ys bt ∙ first_hit-above ys all))
  search-IsAround (x ∷ xs) a ys (inl (lt, c)) =
      let past = first_hit-past x (xs ++ a ∷ ys) lt in
      elim (search-IsAround xs a ys c) [
        | inl (lt', c', e) ↦ inl (lt', c', past ∙ e)
        | inr (inl (bt, c', e)) ↦
            inr (inl (bt, inl (lt, c'), past ∙ e ∙ sym (first_hit-past x xs lt)))
        | inr (inr (hit, e)) ↦ inr (inr (hit, past ∙ e))
      ]
  search-IsAround (x ∷ xs) a ys (inr (inl hit, all)) =
      let (front, back) = All-parts (λ b. cmpf b ≡ avlcmp_1bt2) xs (a ∷ ys) all in
      inr (
        inl (back.0, inr (inl hit, front), hit_here x (xs ++ a ∷ ys) hit ∙ sym (hit_here x xs hit)))
  search-IsAround (x ∷ xs) a ys (inr (inr bt, all)) =
      let (front, back) = All-parts (λ b. cmpf b ≡ avlcmp_1bt2) xs (a ∷ ys) all in
      inr (
        inl (
          back.0,
          inr (inr bt, front),
          no_hit x (xs ++ a ∷ ys) bt
              ∙ first_hit-above (xs ++ a ∷ ys) all
              ∙ sym (no_hit x xs bt ∙ first_hit-above xs front),
        ))

  -- On a tree that lies below the key on the left of a point, above it on the right, and may have a
  -- hit between them, `avl_lkup` finds the hit if there is one, and nothing otherwise.
  pub avl_lkup-first_hit :
      (root : Avln A) → IsAround (elements root) → avl_lkup cmpf root ≡ first_hit (elements root)
  unfolding avl_lkup elements
  avl_lkup-first_hit nil c = unfold first_hit in refl
  avl_lkup-first_hit (node h l a r) c = elim (search-IsAround (elements l) a (elements r) c) [
    | inl (lt, c', e) ↦ rw (lt, avl_lkup) (avl_lkup-first_hit r c' ∙ sym e)
    | inr (inl (bt, c', e)) ↦ rw (bt, avl_lkup) (avl_lkup-first_hit l c' ∙ sym e)
    | inr (inr (inl eq, e)) ↦ rw (eq, avl_lkup) (sym e)
    | inr (inr (inr in1, e)) ↦ rw (in1, avl_lkup) (sym e)
  ]
