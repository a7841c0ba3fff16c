-- ===== src/Sorter/Interface.antt =====
-- What a caller of `sort` of myLoader/core/func.c may rely on.
use mathlib.Core.List.{Permᴰ}
use porcelix.Prelude.{◌⊎◌, List, [], ◌∷◌}
use porcelix.Prelude.Int.{ℤ, pos, ◌≤ℤ◌}

module _ {A : Type 0} (cmp : A → A → ℤ) where
  -- `cmp_func(a, b) <= 0`
  abbrev pub Le : A → A → Type 0
  Le a b = cmp a b ≤ℤ pos 0

  -- What `sort` asks of its comparison: a total order, up to ties.
  pub record IsOrder : Type 0 where
    pub total : (a b : A) → Le a b ⊎ Le b a
    pub trans : (a b c : A) → Le a b → Le b c → Le a c

  -- Every element is at most the one behind it.
  abbrev pub IsSorted : List A → Type 0
  IsSorted [] = Unit
  IsSorted (a ∷ []) = Unit
  IsSorted (a ∷ b ∷ xs) = Le a b × IsSorted (b ∷ xs)

pub record Sorter (A : Type 0) : Type 0 where
  pub sort : (A → A → ℤ) → List A → List A
  pub perm : (cmp : A → A → ℤ) (xs : List A) → Permᴰ (sort cmp xs) xs
  pub sorted : (cmp : A → A → ℤ) (xs : List A) → IsOrder cmp → IsSorted cmp (sort cmp xs)
