-- ===== src/Net/Checksum.antt =====
-- `checksum_calc` of myLoader/core/net.c, the Internet checksum of a buffer. The buffer is the list
-- of the bytes from the pointer to the end of its region, and a read past that end is `none`. The
-- index is a `u8` and wraps at 256. A null pointer is not a buffer of the model.
pub mod Sum
pub mod Verify
use porcelix.Prelude.{
  ℕ, zero, suc, ◌+◌, ◌-◌, ◌*◌, ◌/◌, ◌%◌, ◌^◌, true, false, Option, none, some, List, ◌==◌,
  if◌then◌else◌, get_elem?,
}
use porcelix.Prelude.Mem.{◌>>=◌}

-- The two loops over the buffer, `num` and `cksum` in the state and `len` bytes left.
pub add_words : List ℕ → ℕ → ℕ → ℕ → Option ℕ
add_words p num zero cksum = some cksum
add_words p num (suc zero) cksum = do hi ← get_elem? p num; some ((cksum + hi * 2 ^ 8) % 2 ^ 32)
add_words p num (suc (suc len)) cksum = do
  hi ← get_elem? p num
  lo ← get_elem? p (num + 1)
  add_words p ((num + 2) % 2 ^ 8) len ((cksum + (hi * 2 ^ 8 + lo)) % 2 ^ 32)

-- `while (cksum >> 16)`; `k` bounds its rounds.
pub fold_carry : ℕ → ℕ → Option ℕ
fold_carry zero cksum = if cksum / 2 ^ 16 == 0 then some cksum else none
fold_carry (suc k) cksum =
    let rest = fold_carry k (cksum % 2 ^ 16 + cksum / 2 ^ 16) in
    if cksum / 2 ^ 16 == 0 then some cksum else rest

-- Two rounds are enough for a 32-bit sum.
pub checksum_calc : ℕ → List ℕ → ℕ → Option ℕ
checksum_calc cksum p len =
    if len == 0
    then some (cksum % 2 ^ 16)
    else do s ← add_words p 0 len cksum; r ← fold_carry 2 s; some (2 ^ 16 - 1 - r)
