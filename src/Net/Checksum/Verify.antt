-- ===== src/Net/Checksum/Verify.antt =====
-- A message that carries the checksum of myLoader/core/net.c passes its own test.
use porcelix.Prelude.{
  ℕ, ◌+◌, ◌-◌, ◌*◌, ◌/◌, ◌%◌, ◌^◌, ◌≤◌, ◌<◌, ◌≡◌, some, List, [], ◌∷◌, ◌++◌, arith, length,
  length-append, ap, ◌∙◌,
}
use porcelix.Prelude.Mem.{All, All-append}
use porcelix.Net.Checksum.{checksum_calc}
use porcelix.Net.Checksum.Sum.{word_sum, ones, checksum_calc-ones}

word_sum-append : (f s : List ℕ) → length f % 2 ≡ 0 → word_sum (f ++ s) ≡ word_sum f + word_sum s
unfolding word_sum
word_sum-append [] s h = omega arith
word_sum-append (x ∷ []) s h = absurd (omega arith)
word_sum-append (x ∷ y ∷ f) s h = omega (arith, word_sum-append f s (omega arith))

-- A message with a zero checksum field at an even offset.
module _ (f b r : List ℕ) (even : length f % 2 ≡ 0) (short : length f + 2 + length b ≤ 256)
    (front : All (λ c. c < 256) f) (back : All (λ c. c < 256) b) where
  -- The message with these two bytes in its checksum field.
  abbrev pub message : ℕ → ℕ → List ℕ
  message hi lo = f ++ hi ∷ lo ∷ b

  length-message : (hi lo : ℕ) → length (message hi lo) ≡ length f + 2 + length b
  length-message hi lo = omega (arith, length-append f (hi ∷ lo ∷ b))

  word_sum-message :
      (hi lo : ℕ) → word_sum (message hi lo) ≡ word_sum (message 0 0) + (hi * 256 + lo)
  unfolding word_sum
  word_sum-message hi lo =
      omega (arith, word_sum-append f (hi ∷ lo ∷ b) even, word_sum-append f (0 ∷ 0 ∷ b) even)

  checksum-message :
      (hi lo : ℕ)
      → hi < 256
      → lo < 256
      → checksum_calc 0 (message hi lo ++ r) (length f + 2 + length b)
        ≡ some (65535 - ones (word_sum (message hi lo)))
  checksum-message hi lo h l = rw (← length-message hi lo) (
      checksum_calc-ones (message hi lo) r (omega (arith, length-message hi lo))
        (omega (arith, length-message hi lo))
        (All-append (λ c. c < 256) f (hi ∷ lo ∷ b) front (h, (l, back))))

  -- `checksum_calc` over a message of at most 256 bytes with a zero checksum field at an even
  -- offset gives a 16-bit value which, stored into the field with the high byte first, makes
  -- `checksum_calc` over the message 0: the receiver accepts it.
  pub checksum_calc-checksum_calc :
      (c : ℕ) × (c < 2 ^ 16)
      × (checksum_calc 0 ((f ++ 0 ∷ 0 ∷ b) ++ r) (length f + 2 + length b) ≡ some c)
      × (checksum_calc 0 ((f ++ c / 2 ^ 8 ∷ c % 2 ^ 8 ∷ b) ++ r) (length f + 2 + length b) ≡ some 0)
  checksum_calc-checksum_calc =
      let s = word_sum (message 0 0) in
      let c = 65535 - ones s in
      let small : c < 2 ^ 16 = omega arith in
      let total : word_sum (message (c / 2 ^ 8) (c % 2 ^ 8)) ≡ s + c =
        word_sum-message (c / 2 ^ 8) (c % 2 ^ 8) ∙ omega arith in
      let full : ones (s + c) ≡ 65535 = ground arith in
      (
        c,
        small,
        checksum-message 0 0 (omega arith) (omega arith),
        checksum-message (c / 2 ^ 8) (c % 2 ^ 8) (omega arith) (omega arith)
            ∙ ap (λ (t : ℕ). some (65535 - ones t)) total
            ∙ ap (λ (t : ℕ). some (65535 - t)) full,
      )
