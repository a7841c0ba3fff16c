-- ===== src/Word/Swap.antt =====
-- The byte swaps of myLoader/include/public.h, which the network code uses for big-endian fields.
use porcelix.Prelude.{ℕ, ◌+◌, ◌*◌, ◌/◌, ◌%◌, ◌^◌, ◌<◌, ◌≡◌, arith, ap, ◌∙◌, bit_and}
use porcelix.Prelude.Bits.{bit_and_mask, bit_and_shift, bit_or_fields}
use porcelix.Word.{swap_2b, swap_4b}

-- The byte of `num` at bit 8 `i`, as the masks of the macros cut it out.
low_byte : (num : ℕ) → bit_and num 0xff ≡ num % 256
low_byte num = bit_and_mask 8 num

byte_at : (k num : ℕ) → bit_and num (0xff * 2 ^ k) ≡ num / 2 ^ k % 256 * 2 ^ k
byte_at k num = bit_and_shift k num 0xff ∙ ap (λ (t : ℕ). t * 2 ^ k) (low_byte (num / 2 ^ k))

-- `SWAP_2B` exchanges the two bytes of a 16-bit word.
pub swap_2b_lem : (hi lo : ℕ) → hi < 256 → lo < 256 → swap_2b (hi * 256 + lo) ≡ lo * 256 + hi
unfolding swap_2b
swap_2b_lem hi lo h l =
    let n = hi * 256 + lo in
    let upper : bit_and n 0xff00 / 2 ^ 8 ≡ hi = omega (arith, byte_at 8 n) in
    let lower : bit_and n 0xff ≡ lo = omega (arith, low_byte n) in
    rw (upper, lower) (bit_or_fields 8 lo hi h ∙ omega arith)

-- `SWAP_4B` reverses the four bytes of a 32-bit word.
pub swap_4b_lem :
    (a b c d : ℕ)
    → a < 256
    → b < 256
    → c < 256
    → d < 256
    → swap_4b (a * 2 ^ 24 + b * 2 ^ 16 + c * 2 ^ 8 + d) ≡ d * 2 ^ 24 + c * 2 ^ 16 + b * 2 ^ 8 + a
unfolding swap_4b
swap_4b_lem a b c d ha hb hc hd =
    let n = a * 2 ^ 24 + b * 2 ^ 16 + c * 2 ^ 8 + d in
    let e3 : bit_and n 0xff000000 / 2 ^ 24 ≡ a = omega (arith, byte_at 24 n) in
    let e2 : bit_and n 0xff0000 / 2 ^ 8 ≡ b * 2 ^ 8 = omega (arith, byte_at 16 n) in
    let e1 : bit_and n 0xff00 * 2 ^ 8 ≡ c * 2 ^ 16 = omega (arith, byte_at 8 n) in
    let e0 : bit_and n 0xff ≡ d = omega (arith, low_byte n) in
    rw
      (
        e3,
        e2,
        e1,
        e0,
        bit_or_fields 8 b a ha,
        bit_or_fields 16 c (a + b * 2 ^ 8) (omega arith),
        bit_or_fields 24 d (a + b * 2 ^ 8 + c * 2 ^ 16) (omega arith),
      )
      (omega arith)

-- `SWAP_2B` is its own inverse on 16-bit words.
pub swap_2b-swap_2b : (num : ℕ) → num < 2 ^ 16 → swap_2b (swap_2b num) ≡ num
swap_2b-swap_2b num h =
    let e : num / 256 * 256 + num % 256 ≡ num = omega arith in
    rw (← e) (
      ap swap_2b (swap_2b_lem (num / 256) (num % 256) (omega arith) (omega arith))
      ∙ swap_2b_lem (num % 256) (num / 256) (omega arith) (omega arith))
