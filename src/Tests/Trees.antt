-- ===== src/Tests/Trees.antt =====
-- The AVL trees of myLoader/lib/avl/avl.c, on numbers.
use porcelix.Prelude.{ℕ, ◌+◌, ◌≡◌, refl, inl, inr, List, [], ◌∷◌, ◌++◌, arith, ltb, if◌then◌else◌}
use porcelix.Prelude.Int.{ℤ, pos, negsuc}
use porcelix.Avl.{
  Avln, nil, node, zip, AvlCmp, avlcmp_1lt2, avlcmp_1eq2, avlcmp_1bt2, avlwt_rml, avl_insert,
  find_place, avl_ab, rfh_changed, rotate, avl_rr, avl_lr, avl_lkup, avl_remove, avl_walk,
}
use porcelix.Avl.Rotate.{IsAvl, elements}
use porcelix.Avl.Insert.{IsCut, insert_at, avl_insert-insert_at}
use porcelix.Avl.Lookup.{IsAround, first_hit, avl_lkup-first_hit}
use porcelix.Avl.Remove.{avl_remove-elements}
use porcelix.Avl.Walk.{order, each, IsWalkOp, avl_walk-each}

abbrev by_number : ℕ → ℕ → AvlCmp
by_number key a = if ltb a key then avlcmp_1lt2 else if ltb key a then avlcmp_1bt2 else avlcmp_1eq2

-- 9 and 5: a new 7 wants the double rotation.
abbrev two : Avln ℕ
two = node 2 (node 1 nil 5 nil) 9 nil

two-IsAvl : IsAvl two
two-IsAvl = (refl, (omega arith, omega arith), (refl, (omega arith, omega arith), tt, tt), tt)

two-IsCut : IsCut (by_number 7) (elements two)
two-IsCut = unfold elements in inl (refl, inr (refl, tt))

avl_insert-insert_at_example :
    ((avl_insert (by_number 7) two 7).0 ≡ pos 0)
    × IsAvl (avl_insert (by_number 7) two 7).1
    × (elements (avl_insert (by_number 7) two 7).1 ≡ insert_at (by_number 7) 7 (elements two))
avl_insert-insert_at_example = avl_insert-insert_at (by_number 7) two 7 two-IsAvl two-IsCut

-- The tree after the rotations.
abbrev three : Avln ℕ
three = node 2 (node 1 nil 5 nil) 7 (node 1 nil 9 nil)

inserted : (avl_insert (by_number 7) two 7).1 ≡ three
unfolding avl_insert find_place avl_ab rfh_changed rotate avl_rr avl_lr
inserted = refl

three-IsAvl : IsAvl three
three-IsAvl = (
  refl,
  (omega arith, omega arith),
  (refl, (omega arith, omega arith), tt, tt),
  (refl, (omega arith, omega arith), tt, tt),
)

three-IsAround : IsAround (by_number 9) (elements three)
three-IsAround = unfold elements in inl (refl, inl (refl, inr (inl (inl refl), tt)))

avl_lkup-first_hit_example : avl_lkup (by_number 9) three ≡ first_hit (by_number 9) (elements three)
avl_lkup-first_hit_example = avl_lkup-first_hit (by_number 9) three three-IsAround

-- The root of `three` goes.
avl_remove-elements_example :
    IsAvl (avl_remove three [])
    × ((front back : List ℕ) × (elements (zip three []) ≡ front ++ 7 ∷ back)
        × (elements (avl_remove three []) ≡ front ++ back))
avl_remove-elements_example =
    avl_remove-elements 2 (node 1 nil 5 nil) 7 (node 1 nil 9 nil) [] three-IsRoot
  where
    three-IsRoot : IsAvl (zip three [])
    three-IsRoot = unfold zip in three-IsAvl

-- The sum of the numbers down to 7, from the right.
abbrev add_from_7 : ℕ → ℕ → ℤ × ℕ
add_from_7 a s = if ltb a 7 then (negsuc 0, s) else (pos 0, s + a)

add_from_7-IsWalkOp : IsWalkOp add_from_7
add_from_7-IsWalkOp a s = ground arith

avl_walk-each_example :
    avl_walk add_from_7 three avlwt_rml 0 ≡ each add_from_7 (order three avlwt_rml) 0
avl_walk-each_example = avl_walk-each add_from_7 three avlwt_rml 0 add_from_7-IsWalkOp three-IsAvl

walked : avl_walk add_from_7 three avlwt_rml 0 ≡ (negsuc 0, 16)
walked = unfold avl_walk in refl
