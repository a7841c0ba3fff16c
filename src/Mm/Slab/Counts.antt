-- ===== src/Mm/Slab/Counts.antt =====
-- What counting says of lists, and of the blocks of a slab (myLoader/mm/slab.c).
use porcelix.Prelude.{
  ℕ, zero, suc, ◌+◌, ◌*◌, ◌≤◌, ◌<◌, ◌≡◌, ◌≢◌, ◌⊎◌, refl, inl, inr, List, [], ◌∷◌, ◌++◌, arith, ap,
  ◌∙◌, Bool-cases, ◌==◌, ==→eq, ℕ_discrete, length, sym,
}
use porcelix.Prelude.Mem.{All}
use porcelix.Mm.Buddy.{erase}
use porcelix.Mm.Buddy.Invariant.{count, count-erase}
use porcelix.Mm.Slab.Layout.{blocks, blocks-IsWithin}

length-erase : (a : ℕ) (xs : List ℕ) → 0 < count a xs → suc (length (erase a xs)) ≡ length xs
unfolding count erase
length-erase a [] h = absurd (omega arith)
length-erase a (x ∷ xs) h = elim (Bool-cases (x == a)) [
  | inl here ↦ rw here refl
  | inr other ↦ rw other (ap suc (length-erase a xs (rw other at h)))
]

-- A list that holds nothing more often than another is not longer.
pub length_mono : (xs ys : List ℕ) → ((x : ℕ) → count x xs ≤ count x ys) → length xs ≤ length ys
unfolding count
length_mono [] ys h = omega arith
length_mono (x ∷ xs) ys h =
    let found : 0 < count x ys = ground (arith, h x) in
    let rest = length_mono xs (erase x ys) λ z. ground (arith, h z, count-erase z x ys) in
    omega (arith, rest, length-erase x ys found)

pub split_at :
    (a : ℕ) (xs : List ℕ) → 0 < count a xs → (front back : List ℕ) × (xs ≡ front ++ a ∷ back)
unfolding count
split_at a [] h = absurd (omega arith)
split_at a (x ∷ xs) h = elim (Bool-cases (x == a)) [
  | inl here ↦ ([], xs, ap (λ (b : ℕ). b ∷ xs) (==→eq x a here))
  | inr other ↦
      let (front, back, e) = split_at a xs (rw other at h) in
      (x ∷ front, back, ap (λ (t : List ℕ). x ∷ t) e)
]

pub All-at : (P : ℕ → Type 0) (b : ℕ) (xs : List ℕ) → All P xs → 0 < count b xs → P b
unfolding count
All-at P b [] all h = absurd (omega arith)
All-at P b (x ∷ xs) all h = elim (Bool-cases (x == b)) [
  | inl here ↦ rw (==→eq x b here) at all.0
  | inr other ↦ All-at P b xs all.1 (rw other at h)
]

-- A block of a slab lies behind the slab's head and before its end.
pub block_within :
    (left s_blk n b : ℕ)
    → 0 < count b (blocks left s_blk n)
    → (left ≤ b) × (b + s_blk ≤ left + s_blk * n)
block_within left s_blk n b h =
    All-at (λ x. (left ≤ x) × (x + s_blk ≤ left + s_blk * n)) b (blocks left s_blk n)
      (blocks-IsWithin left (left + s_blk * n) s_blk n (omega arith)) h

beyond : (left s_blk n b : ℕ) → left + s_blk * n < b + s_blk → count b (blocks left s_blk n) ≡ 0
beyond left s_blk n b h = elim (ℕ_discrete (count b (blocks left s_blk n)) 0) [
  | yes none_there ↦ none_there
  | no there ↦
      let (low, high) = block_within left s_blk n b (omega (arith, there)) in
      absurd (omega (arith, h, high))
]

-- The blocks are different addresses.
pub blocks_once : (left s_blk n b : ℕ) → 0 < s_blk → count b (blocks left s_blk n) ≤ 1
unfolding blocks count
blocks_once left s_blk zero b h = omega arith
blocks_once left s_blk (suc n) b h = elim (Bool-cases (left + s_blk * n == b)) [
  | inl here ↦
      let e = ==→eq (left + s_blk * n) b here in
      let none_below = beyond left s_blk n b (omega (arith, e)) in
      rw (here, none_below) (omega arith)
  | inr other ↦ rw other (blocks_once left s_blk n b h)
]

-- Two blocks of a slab do not overlap.
pub blocks_apart :
    (left s_blk n b d : ℕ)
    → 0 < count b (blocks left s_blk n)
    → 0 < count d (blocks left s_blk n)
    → b ≢ d
    → (b + s_blk ≤ d) ⊎ (d + s_blk ≤ b)
unfolding blocks count
blocks_apart left s_blk zero b d h k ne = absurd (omega arith)
blocks_apart left s_blk (suc n) b d h k ne = elim (Bool-cases (left + s_blk * n == b)) [
  | inl here ↦ elim (Bool-cases (left + s_blk * n == d)) [
    | inl too ↦ absurd (ne (sym (==→eq (left + s_blk * n) b here) ∙ ==→eq (left + s_blk * n) d too))
    | inr other ↦
        let (low, high) = block_within left s_blk n d (rw other at k) in
        inr (omega (arith, high, ==→eq (left + s_blk * n) b here))
  ]
  | inr first ↦ elim (Bool-cases (left + s_blk * n == d)) [
    | inl here ↦
        let (low, high) = block_within left s_blk n b (rw first at h) in
        inl (omega (arith, high, ==→eq (left + s_blk * n) d here))
    | inr second ↦ blocks_apart left s_blk n b d (rw first at h) (rw second at k) ne
  ]
]
