-- ===== src/Crc.antt =====
-- `crc32_raw` and `crc32` of myLoader/lib/crc32/crc32.c. A buffer is the list of the bytes from the
-- pointer on, and a read past its end is `none`.
pub mod Bytes
pub mod Sum
use porcelix.Prelude.{
  ℕ, zero, suc, ◌+◌, ◌-◌, ◌*◌, ◌/◌, ◌%◌, ◌^◌, Option, none, some, List, [], ◌∷◌, ltb, ◌==◌,
  if◌then◌else◌, get_elem?, bit_and, bit_or, bit_xor,
}
use porcelix.Prelude.Mem.{◌>>=◌}

abbrev pub poly : ℕ
poly = 0x04C11DB7

-- One bit into the register.
unfoldable pub shift_in : ℕ → ℕ → ℕ
shift_in reg bit =
    let carry = reg / 2 ^ 31 in
    let reg' = bit_or (reg * 2 % 2 ^ 32) bit in if carry == 0 then reg' else bit_xor reg' poly

-- The loop of `crc32_raw`, with a bound on its rounds as the first argument.
unfoldable pub crc32_loop : ℕ → List ℕ → ℕ → ℕ → ℕ → ℕ → ℕ → Option ℕ
crc32_loop zero buf len reg bitoff bitflag curbyte =
    if ltb (bitoff / 2 ^ 3) len then none else some reg
crc32_loop (suc k) buf len reg bitoff bitflag curbyte =
    let rest = crc32_loop k buf len in
    if ltb (bitoff / 2 ^ 3) len
    then ((if bit_and bitoff 7 == 0
          then (get_elem? buf (bitoff / 2 ^ 3) >>= λ b. some (0x80, b))
          else some (bitflag / 2, curbyte))
        >>= λ (flag, byte).
            rest (shift_in reg (if bit_and byte flag == 0 then 0 else 1)) ((bitoff + 1) % 2 ^ 32)
              flag byte)
    else some reg

-- A round for each bit is enough for a buffer of less than 2 ^ 29 bytes.
unfoldable pub crc32_raw : List ℕ → ℕ → Option ℕ
crc32_raw buf len = crc32_loop (len * 8) buf len 0 0 0x80 0

unfoldable pub crc32 : List ℕ → ℕ → Option ℕ
crc32 buf len = do
  r ← crc32_raw buf len
  crc32_raw
      (r / 2 ^ 24 % 2 ^ 8 ∷ r / 2 ^ 16 % 2 ^ 8 ∷ r / 2 ^ 8 % 2 ^ 8 ∷ r % 2 ^ 8 ∷ 0 ∷ 0 ∷ 0 ∷ 0 ∷ [])
      8
