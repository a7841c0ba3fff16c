-- ===== src/Crc/Bytes.antt =====
-- What the loop of `crc32_raw` (myLoader/lib/crc32/crc32.c) does with a byte and with a buffer.
use native.Mathlib.Nat.{pow-suc}
use porcelix.Prelude.{
  ℕ, zero, suc, ◌+◌, ◌-◌, ◌*◌, ◌/◌, ◌%◌, ◌^◌, ◌≤◌, ◌<◌, ◌≡◌, refl, false, some, List, [], ◌∷◌,
  arith, length, ◌==◌, if◌then◌else◌, get_elem?, take, drop, bit_and, ap, sym, ◌∙◌, lt→ltb, le→ltb,
}
use porcelix.Prelude.Mem.{get_elem?_in}
use porcelix.Prelude.Bits.{bit_and_mask}
use porcelix.Crc.{shift_in, crc32_loop, crc32_raw}

abbrev pub bit_of : ℕ → ℕ → ℕ
bit_of cur flag = if bit_and cur flag == 0 then 0 else 1

-- The low `n` bits of a byte into the register, the highest first.
unfoldable pub bits : ℕ → ℕ → ℕ → ℕ
bits zero cur reg = reg
bits (suc n) cur reg = bits n cur (shift_in reg (bit_of cur (2 ^ n)))

-- The register after the bytes.
unfoldable pub crc_bytes : List ℕ → ℕ → ℕ
crc_bytes [] reg = reg
crc_bytes (b ∷ bs) reg = crc_bytes bs (bits 8 b reg)

module _ (buf : List ℕ) (len i : ℕ) (inside : i < len) (small : len < 2 ^ 29) where
  low_bits : (j : ℕ) → j < 8 → (bit_and (i * 8 + j) 7 ≡ j) × ((i * 8 + j) / 2 ^ 3 ≡ i)
  low_bits j h = (bit_and_mask 3 (i * 8 + j) ∙ omega arith, omega arith)

  round_next :
      (k m reg cur : ℕ)
      → m < 7
      → crc32_loop (suc k) buf len reg (i * 8 + (7 - m)) (2 ^ suc m) cur
        ≡ crc32_loop k buf len (shift_in reg (bit_of cur (2 ^ m))) (i * 8 + (8 - m)) (2 ^ m) cur
  unfolding crc32_loop
  round_next k m reg cur h =
      let (low, byte) = low_bits (7 - m) (omega arith) in
      let later : (7 - m == 0) ≡ false = ground arith in
      let half : 2 ^ suc m / 2 ≡ 2 ^ m = omega (arith, pow-suc 2 m) in
      let next : (i * 8 + (7 - m) + 1) % 2 ^ 32 ≡ i * 8 + (8 - m) = omega arith in
      rw (byte, low, later, lt→ltb i len inside, half, next) refl

  rounds_next :
      (m k reg cur : ℕ)
      → m ≤ 7
      → crc32_loop (m + k) buf len reg (i * 8 + (8 - m)) (2 ^ m) cur
        ≡ crc32_loop k buf len (bits m cur reg) ((i + 1) * 8) 1 cur
  unfolding bits
  rounds_next zero k reg cur h =
      ap (λ f. crc32_loop f buf len reg (i * 8 + 8) 1 cur) {x = 0 + k} {y = k} (omega arith)
      ∙ ap (λ o. crc32_loop k buf len reg o 1 cur) {x = i * 8 + 8} {y = (i + 1) * 8} (omega arith)
  rounds_next (suc m) k reg cur h =
      ap (λ o. crc32_loop (suc m + k) buf len reg (i * 8 + o) (2 ^ suc m) cur) {x = 8 - suc m}
        {y = 7 - m} (omega arith)
      ∙ ap (λ f. crc32_loop f buf len reg (i * 8 + (7 - m)) (2 ^ suc m) cur) {x = suc m + k}
          {y = suc (m + k)} (omega arith)
      ∙ round_next (m + k) m reg cur (omega arith)
      ∙ rounds_next m k (shift_in reg (bit_of cur (2 ^ m))) cur (omega arith)

  round_first :
      (k reg flag cur b : ℕ)
      → get_elem? buf i ≡ some b
      → crc32_loop (suc k) buf len reg (i * 8) flag cur
        ≡ crc32_loop k buf len (shift_in reg (bit_of b (2 ^ 7))) (i * 8 + (8 - 7)) (2 ^ 7) b
  unfolding crc32_loop
  round_first k reg flag cur b e =
      let low : bit_and (i * 8) 7 ≡ 0 = bit_and_mask 3 (i * 8) ∙ omega arith in
      let byte : i * 8 / 2 ^ 3 ≡ i = omega arith in
      let next : (i * 8 + 1) % 2 ^ 32 ≡ i * 8 + 1 = omega arith in
      rw (low, byte, lt→ltb i len inside, e, next) refl

  -- The eight rounds of a byte.
  pub byte_rounds :
      (k reg flag cur b : ℕ)
      → get_elem? buf i ≡ some b
      → crc32_loop (suc (7 + k)) buf len reg (i * 8) flag cur
        ≡ crc32_loop k buf len (bits 8 b reg) ((i + 1) * 8) 1 b
  unfolding bits
  byte_rounds k reg flag cur b e =
      round_first (7 + k) reg flag cur b e
      ∙ rounds_next 7 k (shift_in reg (bit_of b (2 ^ 7))) b (omega arith)

drop_at : (buf : List ℕ) (i b : ℕ) → get_elem? buf i ≡ some b → drop i buf ≡ b ∷ drop (suc i) buf
drop_at [] i b e = cc
drop_at (x ∷ xs) zero b e = cc
drop_at (x ∷ xs) (suc i) b e = drop_at xs i b e

loop_bytes :
    (buf : List ℕ) (len n i reg flag cur : ℕ)
    → i + n ≡ len
    → len ≤ length buf
    → len < 2 ^ 29
    → crc32_loop (n * 8) buf len reg (i * 8) flag cur ≡ some (crc_bytes (take n (drop i buf)) reg)
unfolding crc_bytes
loop_bytes buf len zero i reg flag cur e h small = ended
  where
    ended : crc32_loop 0 buf len reg (i * 8) flag cur ≡ some reg
    ended = unfold crc32_loop in rw (le→ltb (i * 8 / 2 ^ 3) len (omega arith)) refl
loop_bytes buf len (suc n) i reg flag cur e h small =
    let (b, here) = get_elem?_in buf i (omega arith) in
    ap (λ k. crc32_loop k buf len reg (i * 8) flag cur) {x = suc n * 8} {y = suc (7 + n * 8)}
      (omega arith)
    ∙ byte_rounds buf len i (omega arith) small (n * 8) reg flag cur b here
    ∙ loop_bytes buf len n (i + 1) (bits 8 b reg) 1 b (omega arith) h small
    ∙ ap (λ j. some (crc_bytes (b ∷ take n (drop j buf)) reg)) {x = i + 1} {y = suc i} (omega arith)
    ∙ ap (λ t. some (crc_bytes (take (suc n) t) reg)) (sym (drop_at buf i b here))

-- `crc32_raw` returns the register after the first `len` bytes of a buffer that has them, where they
-- are less than 2 ^ 29.
pub crc32_raw-crc_bytes :
    (buf : List ℕ) (len : ℕ)
    → len ≤ length buf
    → len < 2 ^ 29
    → crc32_raw buf len ≡ some (crc_bytes (take len buf) 0)
unfolding crc32_raw
crc32_raw-crc_bytes buf len h small =
    ap (λ o. crc32_loop (len * 8) buf len 0 o 0x80 0) {x = 0} {y = 0 * 8} (omega arith)
    ∙ loop_bytes buf len len 0 0 0x80 0 (omega arith) h small
