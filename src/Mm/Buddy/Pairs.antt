-- ===== src/Mm/Buddy/Pairs.antt =====
-- `GET_BUDDY_PAGE` of myLoader/mm/page.c: two aligned blocks of a rank make one of the next.
use native.Mathlib.Nat.{one-le-pow, div-add-mod', mod-eq-sub-mul-div, mul-div_cancel}
use porcelix.Prelude.{
  ℕ, suc, ◌+◌, ◌*◌, ◌/◌, ◌%◌, ◌^◌, ◌≡◌, refl, ◌⊎◌, inl, inr, arith, ◌==◌, bit_xor, ap, ◌∙◌, sym,
  Bool-cases, ==_iff,
}
use porcelix.Prelude.Bits.{bit_xor_shift, bit_xor-one, twice}
use porcelix.Mm.Buddy.{buddy_of}

-- A multiple of a power of two, by its quotient.
quotient : (i r : ℕ) → i % 2 ^ r ≡ 0 → i / 2 ^ r * 2 ^ r ≡ i
quotient i r h = omega (arith, div-add-mod' i (2 ^ r))

pub multiple : (q r : ℕ) → q * 2 ^ r % 2 ^ r ≡ 0
multiple q r =
    let one = one-le-pow r 2 (omega arith) in
    omega (
      arith,
      mod-eq-sub-mul-div (q * 2 ^ r) (2 ^ r),
      mul-div_cancel q one,
      ap (λ (t : ℕ). 2 ^ r * t) (mul-div_cancel q one),
    )

buddy_of_multiple : (q r : ℕ) → buddy_of (q * 2 ^ r) r ≡ bit_xor q 1 * 2 ^ r
buddy_of_multiple q r = ap (λ (t : ℕ). bit_xor (q * 2 ^ r) t) (omega arith) ∙ bit_xor_shift r q 1

module _ (q r : ℕ) where
  buddy_even : buddy_of (2 * q * 2 ^ r) r ≡ 2 * q * 2 ^ r + 2 ^ r
  buddy_even =
      let one : bit_xor (2 * q) 1 ≡ 2 * q + 1 = ground (arith, bit_xor-one (2 * q)) in
      buddy_of_multiple (2 * q) r ∙ rw one (omega arith)

  buddy_odd : buddy_of ((2 * q + 1) * 2 ^ r) r ≡ 2 * q * 2 ^ r
  buddy_odd =
      let one : bit_xor (2 * q + 1) 1 ≡ 2 * q = ground (arith, bit_xor-one (2 * q + 1)) in
      buddy_of_multiple (2 * q + 1) r ∙ rw one refl

  even_multiple : 2 * q * 2 ^ r % 2 ^ suc r ≡ 0
  even_multiple =
      let e : 2 * q * 2 ^ r ≡ q * 2 ^ suc r = omega (arith, twice q r) in rw e (multiple q (suc r))

-- The buddy of a block that is aligned for the next rank is its upper half.
pub buddy_of_upper :
    (i r : ℕ) → i % 2 ^ suc r ≡ 0 → (buddy_of i r ≡ i + 2 ^ r) × ((i + 2 ^ r) % 2 ^ r ≡ 0)
buddy_of_upper i r h =
    let q = i / 2 ^ suc r in
    let e : i ≡ 2 * q * 2 ^ r = omega (arith, twice q r, quotient i (suc r) h) in
    let f : i + 2 ^ r ≡ (2 * q + 1) * 2 ^ r = omega arith in
    (
      ap (λ (t : ℕ). buddy_of t r) e ∙ buddy_even q r ∙ ap (λ (t : ℕ). t + 2 ^ r) (sym e),
      ap (λ (t : ℕ). t % 2 ^ r) f ∙ multiple (2 * q + 1) r,
    )

-- The buddy of an aligned block is the next block or the one before, and together they are an
-- aligned block of the next rank.
pub buddy_of_cases :
    (i r : ℕ)
    → i % 2 ^ r ≡ 0
    → ((buddy_of i r ≡ i + 2 ^ r) × (i % 2 ^ suc r ≡ 0))
      ⊎ ((buddy_of i r + 2 ^ r ≡ i) × (buddy_of i r % 2 ^ suc r ≡ 0))
buddy_of_cases i r h =
    let q = i / 2 ^ r / 2 in
    let e = quotient i r h in
    elim (Bool-cases (i / 2 ^ r % 2 == 0)) [
      | inl even ↦
          let n : i / 2 ^ r ≡ 2 * q = omega (arith, (==_iff _ 0).0 even) in
          let f : i ≡ 2 * q * 2 ^ r = sym e ∙ ap (λ (t : ℕ). t * 2 ^ r) n in
          inl (
            ap (λ (t : ℕ). buddy_of t r) f ∙ buddy_even q r ∙ ap (λ (t : ℕ). t + 2 ^ r) (sym f),
            ap (λ (t : ℕ). t % 2 ^ suc r) f ∙ even_multiple q r,
          )
      | inr odd ↦
          let n : i / 2 ^ r ≡ 2 * q + 1 = ground arith in
          let f : i ≡ (2 * q + 1) * 2 ^ r = sym e ∙ ap (λ (t : ℕ). t * 2 ^ r) n in
          let g : buddy_of i r ≡ 2 * q * 2 ^ r = ap (λ (t : ℕ). buddy_of t r) f ∙ buddy_odd q r in
          inr (omega arith, ap (λ (t : ℕ). t % 2 ^ suc r) g ∙ even_multiple q r)
    ]

-- A block that is aligned for the next rank is aligned.
pub aligned_down : (i r : ℕ) → i % 2 ^ suc r ≡ 0 → i % 2 ^ r ≡ 0
aligned_down i r h =
    let q = i / 2 ^ suc r in
    let e : i ≡ 2 * q * 2 ^ r = omega (arith, twice q r, quotient i (suc r) h) in
    ap (λ (t : ℕ). t % 2 ^ r) e ∙ multiple (2 * q) r
