-- ===== src/Word.antt =====
-- The word arithmetic of myLoader/include/public.h: rounding to a power of two, the byte swaps of
-- the network code, and `log2`. A `u32` is a number below 2 ^ 32; `~x` is `2 ^ 32 - 1 - x`.
pub mod Rounding
pub mod Log
pub mod Swap
use porcelix.Prelude.{ℕ, ◌+◌, ◌-◌, ◌*◌, ◌/◌, ◌%◌, ◌^◌, bit_and, bit_or, ◌==◌, if◌then◌else◌}
use porcelix.Prelude.Int.{ℤ, pos, negsuc}

pub get_upper_range : ℕ → ℕ → ℕ
get_upper_range val pow2 = bit_and ((val + pow2 + 2 ^ 32 - 1) % 2 ^ 32) (2 ^ 32 - 1 - (pow2 - 1))

pub get_lower_range : ℕ → ℕ → ℕ
get_lower_range val pow2 = bit_and val (2 ^ 32 - 1 - (pow2 - 1))

pub swap_2b : ℕ → ℕ
swap_2b num = bit_or (bit_and num 0xff00 / 2 ^ 8) (bit_and num 0xff * 2 ^ 8)

pub swap_4b : ℕ → ℕ
swap_4b num =
    bit_or
      (bit_or (bit_or (bit_and num 0xff000000 / 2 ^ 24) (bit_and num 0xff0000 / 2 ^ 8))
        (bit_and num 0xff00 * 2 ^ 8))
      (bit_and num 0xff * 2 ^ 24)

-- One `if (!(x & mask)) { x <<= shift; r -= shift; }` of `log2`, on `x` and `r`.
narrow : ℕ → ℕ → ℕ × ℕ → ℕ × ℕ
narrow mask shift (x, r) =
    if bit_and x mask == 0 then (x * 2 ^ shift % 2 ^ 32, r - shift) else (x, r)

-- The five steps, on `x` and `r = 31`.
highest : ℕ → ℕ × ℕ
highest x =
    narrow 0x80000000 1 (
      narrow 0xc0000000 2
        (narrow 0xf0000000 4 (narrow 0xff000000 8 (narrow 0xffff0000 16 (x, 31)))))

-- `x` is the bit pattern of the `int`. `r` loses at most 31 of its 31.
pub log2 : ℕ → ℤ
log2 x = if x == 0 then negsuc 0 else pos (highest x).1
