-- ===== src/Console/Format/Numeral.antt =====
-- `num_fmt` of myLoader/io/disp.c writes the positional notation of a number in base 10 or 16.
use mathlib.Core.List.{append_assoc, append-nil, map-append}
use native.Mathlib.Nat.{pow-suc}
use porcelix.Prelude.{
  ℕ, zero, suc, ◌+◌, ◌-◌, ◌/◌, ◌%◌, ◌^◌, ◌≤◌, ◌<◌, ◌≡◌, refl, ◌⊎◌, false, Bool-cases, ==→eq, ==→ne,
  inl, inr, some, List, [], ◌∷◌, ◌++◌, map, arith, length, length-append, length-map, leb, leb→le,
  ◌==◌, if◌then◌else◌, ap, sym, ◌∙◌, lt→ltb, le→ltb, dec_lt,
}
use porcelix.Console.Format.{n2c, push, num_loop, align, num_fmt}
use porcelix.Console.Format.Number.{push_in}
use porcelix.Console.Format.Meaning.{numeral, glyph, notation, pad}

abbrev pub IsRadix : ℕ → Type 0
IsRadix base = (base ≡ 10) ⊎ (base ≡ 16)

n2c-glyph : (d : ℕ) → d < 16 → n2c (d % 2 ^ 8) ≡ glyph d
unfolding n2c
n2c-glyph d h = ground arith

-- What a division by the base does to the bounds.
module _ (base : ℕ) (b : IsRadix base) where
  mod_small : (n : ℕ) → (n % base < base) × (n % base < 16)
  mod_small n = elim b [ inl e ↦ rw e (omega arith) | inr e ↦ rw e (omega arith) ]

  div_pos : (n : ℕ) → base ≤ n → 0 < n / base
  div_pos n h = elim b [
    | inl e ↦ let k = rw e at h in rw e (omega (arith, k))
    | inr e ↦ let k = rw e at h in rw e (omega (arith, k))
  ]

  div_zero : (n : ℕ) → n < base → (n / base ≡ 0) × (n % base ≡ n)
  div_zero n h = elim b [
    | inl e ↦ let k = rw e at h in rw e (omega (arith, k))
    | inr e ↦ let k = rw e at h in rw e (omega (arith, k))
  ]

  div_bound : (n f : ℕ) → n < base ^ suc (suc f) → n / base < base ^ suc f
  div_bound n f h = elim b [
    | inl e ↦ let k = rw e at h in rw e (omega (arith, k, pow-suc 10 (suc f)))
    | inr e ↦ let k = rw e at h in rw e (omega (arith, k, pow-suc 16 (suc f)))
  ]

  pow_one : base ^ 1 ≡ base
  pow_one = elim b [ inl e ↦ rw e (omega arith) | inr e ↦ rw e (omega arith) ]

  num_loop_round :
      (k n : ℕ) (t : List ℕ)
      → 0 < n
      → length t < 16
      → num_loop (suc k) n base t ≡ num_loop k (n / base) base (glyph (n % base) ∷ t)
  unfolding num_loop
  num_loop_round k n t pos room =
      let more : (n == 0) ≡ false = ground arith in
      rw (more, n2c-glyph (n % base) (mod_small n).1, push_in (glyph (n % base)) t room) refl

  num_loop_end : (k : ℕ) (t : List ℕ) → num_loop k 0 base t ≡ some t
  unfolding num_loop
  num_loop_end zero t = refl
  num_loop_end (suc k) t = refl

  num_loop_last :
      (k n : ℕ) (t : List ℕ)
      → 0 < n
      → n < base
      → length t < 16
      → num_loop (suc k) n base t ≡ some (glyph n ∷ t)
  num_loop_last k n t pos small room =
      let (q, r) = div_zero n small in
      num_loop_round k n t pos room
      ∙ ap (λ m. num_loop k m base (glyph (n % base) ∷ t)) q
      ∙ num_loop_end k (glyph (n % base) ∷ t)
      ∙ ap (λ d. some (glyph d ∷ t)) r

  numeral_small : (f n : ℕ) → n < base → numeral base f n ≡ n ∷ []
  unfolding numeral
  numeral_small zero n h = refl
  numeral_small (suc f) n h = rw (lt→ltb n base h) refl

  numeral_large :
      (f n : ℕ) → base ≤ n → numeral base (suc f) n ≡ numeral base f (n / base) ++ n % base ∷ []
  unfolding numeral
  numeral_large f n h = rw (le→ltb n base h) refl

  num_loop-numeral :
      (f k n : ℕ) (t : List ℕ)
      → 0 < n
      → n < base ^ suc f
      → f < k
      → length t + f < 16
      → num_loop k n base t ≡ some (map glyph (numeral base f n) ++ t)
  num_loop-numeral f zero n t pos small fuel room = absurd (omega arith)
  num_loop-numeral zero (suc k) n t pos small fuel room =
      let one : n < base = omega (arith, pow_one) in
      num_loop_last k n t pos one (omega arith)
      ∙ ap (λ l. some (map glyph l ++ t)) (sym (numeral_small zero n one))
  num_loop-numeral (suc f) (suc k) n t pos small fuel room = elim (dec_lt n base) [
    | yes one ↦
        num_loop_last k n t pos one (omega arith)
        ∙ ap (λ l. some (map glyph l ++ t)) (sym (numeral_small (suc f) n one))
    | no more ↦
        num_loop_round k n t pos (omega arith)
        ∙ num_loop-numeral f k (n / base) (glyph (n % base) ∷ t) (div_pos n (omega arith))
            (div_bound n f small) (omega arith) (omega arith)
        ∙ ap some (
            sym (
              ap (λ l. map glyph l ++ t) (numeral_large f n (omega arith))
              ∙ ap (λ (l : List ℕ). l ++ t)
                  (map-append glyph (numeral base f (n / base)) (n % base ∷ []))
              ∙ append_assoc (map glyph (numeral base f (n / base))) (glyph (n % base) ∷ []) t))
  ]

  length-numeral : (f n : ℕ) → length (numeral base f n) ≤ suc f
  unfolding numeral
  length-numeral zero n = omega arith
  length-numeral (suc f) n = ground (
    arith,
    length-append (numeral base f (n / base)) (n % base ∷ []),
    length-numeral f (n / base),
  )

  large_power : (n : ℕ) → n < 2 ^ 32 → n < base ^ 10
  large_power n h = elim b [ inl e ↦ rw e (omega arith) | inr e ↦ rw e (omega arith) ]

  radix_large : 0 < base
  radix_large = elim b [ inl e ↦ omega arith | inr e ↦ omega arith ]

  digits-notation :
      (n : ℕ)
      → n < 2 ^ 32
      → (if n == 0 then push b'0' [] else num_loop 32 n base []) ≡ some (notation base n)
  digits-notation n h = elim (Bool-cases (n == 0)) [
    | inl none_left ↦
        let zero_n : n ≡ 0 = ==→eq _ _ none_left in
        rw none_left (
          push_in b'0' [] (omega arith)
          ∙ ap (λ l. some (map glyph l)) (sym (numeral_small 9 0 radix_large))
          ∙ ap (λ m. some (notation base m)) (sym zero_n))
    | inr more ↦ rw more (
        num_loop-numeral 9 32 n [] (omega (arith, ==→ne _ _ more)) (large_power n h) (omega arith)
          (omega arith)
        ∙ ap some (append-nil (notation base n)))
  ]

align-pad : (width flag : ℕ) (text : List ℕ) → align width flag text ≡ pad flag width text
unfolding align pad
align-pad width flag text = elim (Bool-cases (leb width (length text))) [
  | inl full ↦
      let gone : width - length text ≡ 0 = omega (arith, leb→le _ _ full) in
      let same = append-nil text in rw (full, gone) (ground (arith, same))
  | inr room ↦ rw room (ground arith)
]

module _ (base : ℕ) (b : IsRadix base) where
  -- Without a sign.
  pub num_fmt-notation :
      (n width flag : ℕ)
      → n < 2 ^ 32
      → num_fmt n base width 0 flag ≡ pad flag width (notation base n)
  unfolding num_fmt
  num_fmt-notation n width flag h =
      rw (digits-notation base b n h) (align-pad width flag (notation base n))

  -- With a sign in front.
  pub num_fmt_sign :
      (n width flag : ℕ)
      → n < 2 ^ 32
      → num_fmt n base width b'-' flag ≡ pad flag width (b'-' ∷ notation base n)
  unfolding num_fmt
  num_fmt_sign n width flag h =
      let short : length (notation base n) < 16 =
        omega (arith, length-map (numeral base 9 n) glyph, length-numeral base b 9 n) in
      rw (digits-notation base b n h, push_in b'-' (notation base n) short)
        (align-pad width flag (b'-' ∷ notation base n))
