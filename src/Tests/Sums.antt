-- ===== src/Tests/Sums.antt =====
-- The checksum of myLoader/lib/crc32/crc32.c.
use porcelix.Prelude.{ℕ, ◌+◌, ◌^◌, ◌<◌, ◌≡◌, refl, some, List, [], ◌∷◌, ◌++◌, arith, take}
use porcelix.Crc.{crc32_raw, crc32, crc32_loop, shift_in}
use porcelix.Crc.Sum.{zeros, crc32-crc32_raw}

abbrev message : List ℕ
message = b'1' ∷ b'2' ∷ b'3' ∷ []

crc32-crc32_raw_example :
    (crc : ℕ) × (crc32 message 2 ≡ some crc)
    × (crc32_raw (take 2 message ++ zeros) (2 + 4) ≡ some crc)
    × (crc < 2 ^ 32)
crc32-crc32_raw_example = crc32-crc32_raw message 2 (omega arith) (omega arith)

-- One bit at the place 32 leaves the polynomial.
one_bit : crc32 (1 ∷ []) 1 ≡ some 0x04C11DB7
unfolding crc32 crc32_raw crc32_loop shift_in
one_bit = refl
