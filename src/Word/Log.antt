-- ===== src/Word/Log.antt =====
-- `log2` of myLoader/include/public.h is the position of the highest one bit.
use native.Mathlib.Nat.{
  one-le-pow, lt-div-mul-add, div-eq_of_lt, mul-lt-mul_of_pos_right, mul-le-mul_right, mul_assoc,
  le_of_mul-le-mul_right, lt_of_mul-lt-mul_right,
}
use porcelix.Prelude.{
  ℕ, ◌+◌, ◌-◌, ◌*◌, ◌/◌, ◌%◌, ◌^◌, ◌≤◌, ◌<◌, ◌≡◌, refl, arith, bit_and, ap, ◌==◌, Bool-cases, inl,
  inr, ==_iff, true, false, ◌↔◌, ◌∙◌, sym, dec_lt, suc,
}
use porcelix.Prelude.Int.{pos}
use porcelix.Prelude.Bits.{bit_and_high_mask, pow-add}
use porcelix.Word.{narrow, highest, log2}

-- After the steps so far `y` is `x` shifted left by `31 - r`, with nothing lost, and not below
-- `low`.
record IsShifted (x low gap : ℕ) (s : ℕ × ℕ) : Type 0 where
  le : s.1 ≤ 31
  room : gap ≤ s.1 + 1
  shifted : s.0 ≡ x * 2 ^ (31 - s.1)
  fits : s.0 < 2 ^ 32
  above : low ≤ s.0

-- The test of a step: no bit at or above `32 - shift` is set.
test_lem :
    (y shift : ℕ)
    → shift ≤ 31
    → y < 2 ^ 32
    → ((bit_and y (2 ^ 32 - 2 ^ (32 - shift)) == 0) ≡ true) ↔ (y < 2 ^ (32 - shift))
test_lem y shift h fits =
    let p = 2 ^ (32 - shift) in
    let mask = bit_and_high_mask (32 - shift) y (omega arith) fits in
    let one : 1 ≤ p = one-le-pow (32 - shift) 2 (omega arith) in
    let over : y < y / p * p + p = lt-div-mul-add one in
    (
      λ e. omega (arith, mask, over, (==_iff (bit_and y (2 ^ 32 - p)) 0).0 e),
      λ l. (==_iff (bit_and y (2 ^ 32 - p)) 0).1 (mask ∙ rw (div-eq_of_lt l) (omega arith)),
    )

module _ (x low gap shift : ℕ) (s : ℕ × ℕ) (i : IsShifted x low (gap + shift) s) where
  IsShifted-on :
      0 < gap
      → shift ≤ 31
      → 2 ^ (32 - shift) ≤ low * 2 ^ shift
      → s.0 < 2 ^ (32 - shift)
      → IsShifted x (2 ^ (32 - shift)) gap (s.0 * 2 ^ shift % 2 ^ 32, s.1 - shift)
  IsShifted-on some_gap h enough l =
      let one : 1 ≤ 2 ^ shift = one-le-pow shift 2 (omega arith) in
      let split : 32 - shift + shift ≡ 32 = omega arith in
      let whole : 2 ^ (32 - shift) * 2 ^ shift ≡ 2 ^ 32 =
        sym (pow-add (32 - shift) shift) ∙ ap (λ (t : ℕ). 2 ^ t) split in
      let small : s.0 * 2 ^ shift < 2 ^ (32 - shift) * 2 ^ shift = mul-lt-mul_of_pos_right l one in
      let same : s.0 * 2 ^ shift % 2 ^ 32 ≡ s.0 * 2 ^ shift = omega arith in
      let part : 31 - (s.1 - shift) ≡ 31 - s.1 + shift = omega (arith, i.le, i.room) in
      let big : low * 2 ^ shift ≤ s.0 * 2 ^ shift = mul-le-mul_right (2 ^ shift) i.above in
      rw same (record {
        le = omega (arith, i.le);
        room = omega (arith, i.room);
        shifted =
            rw (part, pow-add (31 - s.1) shift, i.shifted)
              (mul_assoc x (2 ^ (31 - s.1)) (2 ^ shift));
        fits = omega arith;
        above = omega arith;
      })

  narrow-IsShifted :
      0 < gap
      → shift ≤ 31
      → 2 ^ (32 - shift) ≤ low * 2 ^ shift
      → IsShifted x (2 ^ (32 - shift)) gap (narrow (2 ^ 32 - 2 ^ (32 - shift)) shift s)
  unfolding narrow
  narrow-IsShifted some_gap h enough =
      elim (Bool-cases (bit_and s.0 (2 ^ 32 - 2 ^ (32 - shift)) == 0)) [
        | inl zeros ↦
            rw zeros (IsShifted-on some_gap h enough ((test_lem s.0 shift h i.fits).0 zeros))
        | inr ones ↦ rw ones (record {
          le = i.le;
          room = omega (arith, i.room);
          shifted = i.shifted;
          fits = i.fits;
          above = reached ones;
        })
      ]
    where
      reached : (bit_and s.0 (2 ^ 32 - 2 ^ (32 - shift)) == 0) ≡ false → 2 ^ (32 - shift) ≤ s.0
      reached ones = elim (dec_lt s.0 (2 ^ (32 - shift))) [
        | yes l ↦ cc ((test_lem s.0 shift h i.fits).1 l, ones)
        | no n ↦ omega arith
      ]

-- The five steps in a row.
steps-IsShifted : (x : ℕ) → 0 < x → x < 2 ^ 32 → IsShifted x 0x80000000 1 (highest x)
unfolding highest
steps-IsShifted x p h =
    let start : IsShifted x 1 32 (x, 31) = record {
      le = omega arith;
      room = omega arith;
      shifted = omega arith;
      fits = h;
      above = p;
    } in
    let a = narrow-IsShifted x 1 16 16 _ start (omega arith) (omega arith) (omega arith) in
    let b = narrow-IsShifted x 0x10000 8 8 _ a (omega arith) (omega arith) (omega arith) in
    let c = narrow-IsShifted x 0x1000000 4 4 _ b (omega arith) (omega arith) (omega arith) in
    let d = narrow-IsShifted x 0x10000000 2 2 _ c (omega arith) (omega arith) (omega arith) in
    narrow-IsShifted x 0x40000000 1 1 _ d (omega arith) (omega arith) (omega arith)

-- The position from a word whose highest bit has been shifted to the top.
position :
    (x y r : ℕ)
    → r ≤ 31
    → y ≡ x * 2 ^ (31 - r)
    → 2 ^ 31 ≤ y
    → y < 2 ^ 32
    → (2 ^ r ≤ x) × (x < 2 ^ suc r)
position x y r le e low high =
    let one : 1 ≤ 2 ^ (31 - r) = one-le-pow (31 - r) 2 (omega arith) in
    let split : r + (31 - r) ≡ 31 = omega arith in
    let next : suc r + (31 - r) ≡ 32 = omega arith in
    let low' : 2 ^ 31 ≡ 2 ^ r * 2 ^ (31 - r) = rw (← pow-add r (31 - r), split) refl in
    let high' : 2 ^ 32 ≡ 2 ^ suc r * 2 ^ (31 - r) = rw (← pow-add (suc r) (31 - r), next) refl in
    (le_of_mul-le-mul_right (omega arith) one, lt_of_mul-lt-mul_right (2 ^ (31 - r)) (omega arith))

-- `log2` of a nonzero 32-bit word is the position of its highest one bit: the result is `pos r`
-- for the `r` below 32 with `2 ^ r ≤ x < 2 ^ (r + 1)`.
pub log2_lem :
    (x : ℕ)
    → 0 < x
    → x < 2 ^ 32
    → (r : ℕ) × (log2 x ≡ pos r) × (r ≤ 31) × (2 ^ r ≤ x) × (x < 2 ^ suc r)
unfolding log2
log2_lem x p h =
    let s = steps-IsShifted x p h in
    let (low, high) = position x (highest x).0 (highest x).1 s.le s.shifted s.above s.fits in
    ((highest x).1, ground arith, s.le, low, high)
