-- ===== src/Mm/Resource/Sums.antt =====
-- Sums over the descriptors of a resource table, and what `set`, `++` and a permutation do to them.
use mathlib.Core.List.{Permᴰ}
use porcelix.Prelude.{
  ℕ, zero, suc, ◌+◌, ◌≤◌, ◌^◌, Bool-cases, inl, inr, ◌≡◌, refl, List, [], ◌∷◌, ◌++◌, none, some,
  arith, ap, ◌∙◌, ltb, leb, ◌&&◌, if◌then◌else◌, length, get_elem?, set, true, false,
}
use porcelix.Mm.Resource.{RangeDesc, is_idle, find_range, has_room}

module _ {A : Type 0} (f : A → ℕ) where
  unfoldable pub sum : List A → ℕ
  sum [] = 0
  sum (x ∷ xs) = f x + sum xs

  pub sum-append : (xs ys : List A) → sum (xs ++ ys) ≡ sum xs + sum ys
  unfolding sum
  sum-append [] ys = omega arith
  sum-append (x ∷ xs) ys = omega (arith, sum-append xs ys)

  pub sum-perm : {xs ys : List A} → Permᴰ xs ys → sum xs ≡ sum ys
  unfolding sum
  sum-perm Permᴰ.nil = refl
  sum-perm (Permᴰ.cons e p) = ground (arith, sum-perm p, ap f e)
  sum-perm (Permᴰ.swap e d) = ground (arith, ap f e, ap f d)
  sum-perm (Permᴰ.trans p q) = sum-perm p ∙ sum-perm q

  pub sum-set :
      (xs : List A) (i : ℕ) (old v : A)
      → get_elem? xs i ≡ some old
      → sum (set xs i v) + f old ≡ sum xs + f v
  unfolding sum
  sum-set [] i old v h = cc
  sum-set (x ∷ xs) zero old v h = ground arith
  sum-set (x ∷ xs) (suc i) old v h = omega (arith, sum-set xs i old v h)

  pub sum-single : (x : A) → sum (x ∷ []) ≡ f x
  unfolding sum
  sum-single x = omega arith

  pub le-sum : (xs : List A) (i : ℕ) (x : A) → get_elem? xs i ≡ some x → f x ≤ sum xs
  unfolding sum
  le-sum [] i x h = cc
  le-sum (y ∷ xs) zero x h = ground arith
  le-sum (y ∷ xs) (suc i) x h = omega (arith, le-sum xs i x h)

pub length-perm {ℓ} : {A : Type ℓ} {xs ys : List A} → Permᴰ xs ys → length xs ≡ length ys
length-perm Permᴰ.nil = refl
length-perm (Permᴰ.cons e p) = ap suc (length-perm p)
length-perm (Permᴰ.swap e d) = refl
length-perm (Permᴰ.trans p q) = length-perm p ∙ length-perm q

-- 1 for an address inside the range, 0 outside.
abbrev pub covers : ℕ → RangeDesc → ℕ
covers x d = if leb d.begin x && ltb x (d.begin + d.size) then 1 else 0

-- How many ranges of the table hold the address.
abbrev pub cover : ℕ → List RangeDesc → ℕ
cover x rd = sum (covers x) rd

-- How many ranges that are not idle hold it.
abbrev pub holds : ℕ → RangeDesc → ℕ
holds x d = if is_idle d then 0 else covers x d

abbrev pub held : ℕ → List RangeDesc → ℕ
held x rd = sum (holds x) rd

-- How many ranges end above the 32-bit address space.
abbrev pub overflows : RangeDesc → ℕ
overflows d = if ltb (d.begin + d.size) (2 ^ 32) then 0 else 1

-- The range that the search loop returns is idle, has room, and stands at the index returned.
pub find_range-some :
    (begin size i : ℕ) (rd : List RangeDesc) (j : ℕ) (d : RangeDesc)
    → find_range begin size i rd ≡ some (j, d)
    → (k : ℕ) × (i + k ≡ j)
      × (get_elem? rd k ≡ some d)
      × (is_idle d ≡ true)
      × (has_room begin size d ≡ true)
unfolding find_range
find_range-some begin size i [] j d h = cc
find_range-some begin size i (c ∷ rd) j d h =
    elim (Bool-cases (is_idle c && has_room begin size c)) [
      | inl hit ↦ (0, ground arith, ground arith, ground arith, ground arith)
      | inr miss ↦
          let (k, at, got, idle, room) = find_range-some begin size (i + 1) rd j d (rw miss at h) in
          (suc k, omega arith, got, idle, room)
    ]

-- It returns none exactly where no idle range has room.
pub find_range-none :
    (begin size i : ℕ) (rd : List RangeDesc)
    → find_range begin size i rd ≡ none
    → (k : ℕ) (d : RangeDesc) → get_elem? rd k ≡ some d
    → (is_idle d && has_room begin size d) ≡ false
unfolding find_range
find_range-none begin size i [] h k d e = cc
find_range-none begin size i (c ∷ rd) h zero d e =
    elim (Bool-cases (is_idle c && has_room begin size c)) [
      | inl hit ↦ ground arith
      | inr miss ↦ let same : c ≡ d = ground arith in rw same at miss
    ]
find_range-none begin size i (c ∷ rd) h (suc k) d e =
    elim (Bool-cases (is_idle c && has_room begin size c)) [
      | inl hit ↦ ground arith
      | inr miss ↦ find_range-none begin size (i + 1) rd (rw miss at h) k d e
    ]

-- Ranges that are not idle are ranges.
pub held-le-cover : (x : ℕ) (sr : List RangeDesc) → held x sr ≤ cover x sr
unfolding sum
held-le-cover x [] = omega arith
held-le-cover x (d ∷ sr) = ground (arith, held-le-cover x sr)
