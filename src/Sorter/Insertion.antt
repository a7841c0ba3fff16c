-- ===== src/Sorter/Insertion.antt =====
-- A sort that meets the interface, so that the interface is known to be met.
use mathlib.Core.List.{Permᴰ}
use mathlib.Core.List.Permᴰ
use mathlib.Core.Bool.{false≢true}
use porcelix.Prelude.{
  ◌≡◌, refl, ◌⊎◌, inl, inr, Bool, true, false, List, [], ◌∷◌, arith, sym, ◌∙◌, leb, if◌then◌else◌,
  Bool-cases,
}
use porcelix.Prelude.Int.{ℤ, pos, negsuc, ◌≤ℤ◌}
use porcelix.Sorter.Interface.{Le, IsOrder, IsSorted, Sorter}

nonpos : ℤ → Bool
nonpos (pos n) = leb n 0
nonpos (negsuc n) = true

nonpos_sound : (z : ℤ) → nonpos z ≡ true → z ≤ℤ pos 0
unfolding nonpos
nonpos_sound (pos n) h = ground arith
nonpos_sound (negsuc n) h = omega arith

nonpos_complete : (z : ℤ) → z ≤ℤ pos 0 → nonpos z ≡ true
unfolding nonpos
nonpos_complete (pos n) h = ground arith
nonpos_complete (negsuc n) h = refl

module _ {A : Type 0} (cmp : A → A → ℤ) where
  insert : A → List A → List A
  insert a [] = a ∷ []
  insert a (b ∷ xs) = if nonpos (cmp a b) then a ∷ b ∷ xs else b ∷ insert a xs

  pub sort : List A → List A
  unfolding insert nonpos
  sort [] = []
  sort (a ∷ xs) = insert a (sort xs)

  insert-perm : (a : A) (xs : List A) → Permᴰ (insert a xs) (a ∷ xs)
  unfolding insert
  insert-perm a [] = Permᴰ.refl (a ∷ [])
  insert-perm a (b ∷ xs) = elim (Bool-cases (nonpos (cmp a b))) [
    | inl le ↦ rw le (Permᴰ.refl (a ∷ b ∷ xs))
    | inr gt ↦ rw gt (Permᴰ.trans (Permᴰ.cons refl (insert-perm a xs)) (Permᴰ.swap refl refl))
  ]

  pub sort-perm : (xs : List A) → Permᴰ (sort xs) xs
  unfolding sort
  sort-perm [] = Permᴰ.nil
  sort-perm (a ∷ xs) = Permᴰ.trans (insert-perm a (sort xs)) (Permᴰ.cons refl (sort-perm xs))

  above : (a b : A) → nonpos (cmp a b) ≡ false → Le cmp a b ⊎ Le cmp b a → Le cmp b a
  above a b gt (inl l) = absurd (false≢true (sym gt ∙ nonpos_complete (cmp a b) l))
  above a b gt (inr l) = l

  tail_sorted : (b : A) (xs : List A) → IsSorted cmp (b ∷ xs) → IsSorted cmp xs
  tail_sorted b [] s = tt
  tail_sorted b (c ∷ xs) s = s.1

  behind :
      (b a : A) (xs : List A)
      → Le cmp b a
      → IsSorted cmp (b ∷ xs)
      → IsSorted cmp (insert a xs)
      → IsSorted cmp (b ∷ insert a xs)
  unfolding insert
  behind b a [] l s t = (l, tt)
  behind b a (c ∷ xs) l s t = elim (Bool-cases (nonpos (cmp a c))) [
    | inl le ↦ rw le (l, rw le at t)
    | inr gt ↦ rw gt (s.0, rw gt at t)
  ]

  module _ (o : IsOrder cmp) where
    insert-IsSorted : (a : A) (xs : List A) → IsSorted cmp xs → IsSorted cmp (insert a xs)
    unfolding insert
    insert-IsSorted a [] s = tt
    insert-IsSorted a (b ∷ xs) s = elim (Bool-cases (nonpos (cmp a b))) [
      | inl le ↦ rw le (nonpos_sound (cmp a b) le, s)
      | inr gt ↦
          rw gt (
            behind b a xs (above a b gt (o.total a b)) s
              (insert-IsSorted a xs (tail_sorted b xs s)))
    ]

    pub sort-IsSorted : (xs : List A) → IsSorted cmp (sort xs)
    unfolding sort
    sort-IsSorted [] = tt
    sort-IsSorted (a ∷ xs) = insert-IsSorted a (sort xs) (sort-IsSorted xs)

unfoldable pub insertion : (A : Type 0) → Sorter A
unfolding sort
insertion A = record { sort = sort; perm = sort-perm; sorted = λ cmp xs o. sort-IsSorted cmp o xs }
