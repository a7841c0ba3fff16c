-- ===== src/Cmd/Begins.antt =====
-- How the tab key of `cmd_loop` (myLoader/core/cmdlist.c) compares the line with a name.
use porcelix.Prelude.{
  ℕ, ◌≤◌, ◌≡◌, refl, inl, inr, true, false, some, List, [], ◌∷◌, ◌++◌, arith, ltb, ◌==◌, length,
  drop, ap, ◌∙◌, Bool-cases, ==→eq, ltb→lt, ltb→le,
}
use porcelix.Prelude.Int.{ℤ, pos, negsuc}
use porcelix.Str.{memcmp}
use porcelix.Cmd.{is_zero}
use porcelix.Cmd.Edit.{begins}

pub memcmp-begins :
    (line rest name q : List ℕ)
    → length line ≤ length name
    → (z : ℤ) × (memcmp (line ++ rest) (name ++ q) (length line) ≡ some z)
      × (is_zero z ≡ begins line name)
unfolding memcmp begins
memcmp-begins [] rest name q h = (pos 0, refl, refl)
memcmp-begins (c ∷ line) rest [] q h = absurd (omega arith)
memcmp-begins (c ∷ line) rest (d ∷ name) q h =
    let (z, run, same) = memcmp-begins line rest name q (omega arith) in
    elim (Bool-cases (ltb d c)) [
      | inl above ↦ (pos 1, rw above refl, ground (arith, ltb→lt d c above))
      | inr reach ↦ elim (Bool-cases (ltb c d)) [
        | inl below ↦ (negsuc 0, rw (reach, below) refl, ground (arith, ltb→lt c d below))
        | inr meet ↦
            let eq : (c == d) ≡ true = ground (arith, ltb→le d c reach, ltb→le c d meet) in
            (z, rw (reach, meet) run, rw eq same)
      ]
    ]

pub begins→le : (line name : List ℕ) → begins line name ≡ true → length line ≤ length name
unfolding begins
begins→le [] name h = omega arith
begins→le (c ∷ line) [] h = absurd (ground arith)
begins→le (c ∷ line) (d ∷ name) h = elim (Bool-cases (c == d)) [
  | inl eq ↦ omega (arith, begins→le line name (rw eq at h))
  | inr ne ↦ absurd (false_true (rw ne at h))
]
  where
    false_true : false ≡ true → ⊥
    false_true e = absurd (ground arith)

pub begins→rest :
    (line name : List ℕ) → begins line name ≡ true → line ++ drop (length line) name ≡ name
unfolding begins
begins→rest [] name h = refl
begins→rest (c ∷ line) [] h = absurd (ground arith)
begins→rest (c ∷ line) (d ∷ name) h = elim (Bool-cases (c == d)) [
  | inl eq ↦
      ap (λ (t : List ℕ). c ∷ t) (begins→rest line name (rw eq at h))
      ∙ ap (λ (a : ℕ). a ∷ name) (==→eq c d eq)
  | inr ne ↦ absurd (false_true (rw ne at h))
]
  where
    false_true : false ≡ true → ⊥
    false_true e = absurd (ground arith)
