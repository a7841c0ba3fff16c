-- ===== src/Crc/Sum.antt =====
-- `crc32` of myLoader/lib/crc32/crc32.c is the remainder of the message with 32 zero bits behind it.
use native.Mathlib.Nat.{one-le-pow}
use porcelix.Prelude.{
  ℕ, zero, suc, ◌+◌, ◌*◌, ◌/◌, ◌%◌, ◌^◌, ◌≤◌, ◌<◌, ◌≡◌, refl, inl, inr, false, Bool-cases, some,
  List, [], ◌∷◌, ◌++◌, arith, length, length-append, length-take, ◌==◌, if◌then◌else◌, take,
  bit_and, bit_or, min, ap, sym, ◌∙◌,
}
use porcelix.Prelude.Bits.{bit_and_mask, bit_and_shift, bit_or_fields_left, bit_xor_lt}
use porcelix.Crc.{poly, shift_in, crc32_raw, crc32}
use porcelix.Crc.Bytes.{bit_of, bits, crc_bytes, crc32_raw-crc_bytes}

-- The test of a bit reads the bit.
bit_of_lem : (cur n : ℕ) → bit_of cur (2 ^ n) ≡ cur / 2 ^ n % 2
bit_of_lem cur n =
    let one : 1 * 2 ^ n ≡ 2 ^ n = omega arith in
    let field : bit_and cur (2 ^ n) ≡ cur / 2 ^ n % 2 * 2 ^ n =
      ap (bit_and cur) (sym one)
      ∙ bit_and_shift n cur 1
      ∙ ap (λ b. b * 2 ^ n) (bit_and_mask 1 (cur / 2 ^ n)) in
    rw field (scaled (cur / 2 ^ n % 2) (2 ^ n) (omega arith) (one-le-pow n 2 (omega arith)))
  where
    scaled : (b p : ℕ) → b < 2 → 1 ≤ p → (if b * p == 0 then 0 else 1) ≡ b
    scaled zero p hb hp = let none_set : 0 * p ≡ 0 = omega arith in rw none_set refl
    scaled (suc zero) p hb hp = let set : (1 * p == 0) ≡ false = ground arith in rw set refl
    scaled (suc (suc b)) p hb hp = absurd (omega arith)

-- The top bit is free: the register moves up by the bit.
shift_bit :
    (n cur reg : ℕ) → reg < 2 ^ 31 → shift_in reg (bit_of cur (2 ^ n)) ≡ reg * 2 + cur / 2 ^ n % 2
unfolding shift_in
shift_bit n cur reg h =
    let b = cur / 2 ^ n % 2 in
    let free : reg / 2 ^ 31 ≡ 0 = omega arith in
    let kept : reg * 2 % 2 ^ 32 ≡ reg * 2 ^ 1 = omega arith in
    rw (bit_of_lem cur n, free, kept) (bit_or_fields_left 1 reg b (omega arith) ∙ omega arith)

-- A byte goes into a register whose upper byte is free.
load_byte : (cur reg : ℕ) → reg < 2 ^ 24 → cur < 2 ^ 8 → bits 8 cur reg ≡ reg * 2 ^ 8 + cur
unfolding bits
load_byte cur reg h small =
    let r1 = reg * 2 + cur / 2 ^ 7 % 2 in
    let r2 = r1 * 2 + cur / 2 ^ 6 % 2 in
    let r3 = r2 * 2 + cur / 2 ^ 5 % 2 in
    let r4 = r3 * 2 + cur / 2 ^ 4 % 2 in
    let r5 = r4 * 2 + cur / 2 ^ 3 % 2 in
    let r6 = r5 * 2 + cur / 2 ^ 2 % 2 in
    let r7 = r6 * 2 + cur / 2 ^ 1 % 2 in
    rw
      (
        shift_bit 7 cur reg (omega arith),
        shift_bit 6 cur r1 (omega arith),
        shift_bit 5 cur r2 (omega arith),
        shift_bit 4 cur r3 (omega arith),
        shift_bit 3 cur r4 (omega arith),
        shift_bit 2 cur r5 (omega arith),
        shift_bit 1 cur r6 (omega arith),
        shift_bit 0 cur r7 (omega arith),
      )
      (omega arith)

crc_bytes-append :
    (xs ys : List ℕ) (reg : ℕ) → crc_bytes (xs ++ ys) reg ≡ crc_bytes ys (crc_bytes xs reg)
unfolding crc_bytes
crc_bytes-append [] ys reg = refl
crc_bytes-append (x ∷ xs) ys reg = crc_bytes-append xs ys (bits 8 x reg)

shift_in_lt : (reg b : ℕ) → b < 2 → shift_in reg b < 2 ^ 32
unfolding shift_in
shift_in_lt reg b h =
    let q = reg % 2 ^ 31 in
    let even : reg * 2 % 2 ^ 32 ≡ q * 2 ^ 1 = omega arith in
    let moved : bit_or (reg * 2 % 2 ^ 32) b ≡ b + q * 2 ^ 1 =
      ap (λ m. bit_or m b) even ∙ bit_or_fields_left 1 q b (omega arith) in
    let fits : b + q * 2 ^ 1 < 2 ^ 32 = omega arith in
    rw moved (elim (Bool-cases (reg / 2 ^ 31 == 0)) [
      | inl free ↦ rw free fits
      | inr carry ↦ rw carry (bit_xor_lt 32 (b + q * 2 ^ 1) poly fits (omega arith))
    ])

bits_lt : (n cur reg : ℕ) → reg < 2 ^ 32 → bits n cur reg < 2 ^ 32
unfolding bits
bits_lt zero cur reg h = h
bits_lt (suc n) cur reg h = bits_lt n cur _ (shift_in_lt reg (bit_of cur (2 ^ n)) (ground arith))

crc_bytes_lt : (xs : List ℕ) (reg : ℕ) → reg < 2 ^ 32 → crc_bytes xs reg < 2 ^ 32
unfolding crc_bytes
crc_bytes_lt [] reg h = h
crc_bytes_lt (x ∷ xs) reg h = crc_bytes_lt xs (bits 8 x reg) (bits_lt 8 x reg h)

-- The four bytes of a number set the register to it.
load_number :
    (r : ℕ) (ys : List ℕ)
    → r < 2 ^ 32
    → crc_bytes (r / 2 ^ 24 % 2 ^ 8 ∷ r / 2 ^ 16 % 2 ^ 8 ∷ r / 2 ^ 8 % 2 ^ 8 ∷ r % 2 ^ 8 ∷ ys) 0
      ≡ crc_bytes ys r
unfolding crc_bytes
load_number r ys h =
    let b3 = r / 2 ^ 24 % 2 ^ 8 in
    let b2 = r / 2 ^ 16 % 2 ^ 8 in
    let b1 = r / 2 ^ 8 % 2 ^ 8 in
    let b0 = r % 2 ^ 8 in
    let e3 : bits 8 b3 0 ≡ b3 = load_byte b3 0 (omega arith) (omega arith) ∙ omega arith in
    let e2 = load_byte b2 b3 (omega arith) (omega arith) in
    let e1 = load_byte b1 (b3 * 2 ^ 8 + b2) (omega arith) (omega arith) in
    let e0 = load_byte b0 ((b3 * 2 ^ 8 + b2) * 2 ^ 8 + b1) (omega arith) (omega arith) in
    rw (e3, e2, e1, e0) (ap (crc_bytes ys) (omega arith))

abbrev pub zeros : List ℕ
zeros = 0 ∷ 0 ∷ 0 ∷ 0 ∷ []

-- `crc32` of the first `len` bytes of a buffer that has them, where `len` is below 2 ^ 29 - 4, is
-- what `crc32_raw` returns for these bytes with four zero bytes behind them, and it is a 32-bit
-- number.
pub crc32-crc32_raw :
    (buf : List ℕ) (len : ℕ)
    → len ≤ length buf
    → len + 4 < 2 ^ 29
    → (crc : ℕ) × (crc32 buf len ≡ some crc)
      × (crc32_raw (take len buf ++ zeros) (len + 4) ≡ some crc)
      × (crc < 2 ^ 32)
unfolding crc32
crc32-crc32_raw buf len h small =
    let msg = take len buf in
    let r = crc_bytes msg 0 in
    let low = crc_bytes_lt msg 0 (omega arith) in
    let whole : length (msg ++ zeros) ≡ len + 4 =
      omega (arith, length-append msg zeros, length-take len buf, shorter len (length buf) h) in
    let first = crc32_raw-crc_bytes buf len h (omega arith) in
    (
      crc_bytes zeros r,
      rw first (
          crc32_raw-crc_bytes
            (r / 2 ^ 24 % 2 ^ 8 ∷ r / 2 ^ 16 % 2 ^ 8 ∷ r / 2 ^ 8 % 2 ^ 8 ∷ r % 2 ^ 8 ∷ zeros) 8
            (omega arith) (omega arith)
          ∙ ap some (load_number r zeros low)),
      crc32_raw-crc_bytes (msg ++ zeros) (len + 4) (omega (arith, whole)) small
          ∙ ap (λ l. some (crc_bytes l 0)) (take_all (msg ++ zeros) (len + 4) whole)
          ∙ ap some (crc_bytes-append msg zeros 0),
      crc_bytes_lt zeros r low,
    )
  where
    shorter : (m n : ℕ) → m ≤ n → min m n ≡ m
    shorter m n e = ground arith

    take_all : (xs : List ℕ) (n : ℕ) → length xs ≡ n → take n xs ≡ xs
    take_all [] zero e = refl
    take_all [] (suc n) e = refl
    take_all (x ∷ xs) zero e = absurd (omega arith)
    take_all (x ∷ xs) (suc n) e = ap (λ t. x ∷ t) (take_all xs n (omega arith))
