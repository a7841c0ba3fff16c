-- ===== src/Net/Checksum/Sum.antt =====
-- `checksum_calc` of myLoader/core/net.c is the ones' complement of the ones' complement sum.
use porcelix.Prelude.{
  ℕ, zero, suc, ◌+◌, ◌-◌, ◌*◌, ◌%◌, ◌^◌, ◌≤◌, ◌<◌, ◌≡◌, refl, false, some, List, [], ◌∷◌, ◌++◌,
  arith, ◌==◌, if◌then◌else◌, length, get_elem?, ap, ◌∙◌,
}
use porcelix.Prelude.Mem.{All}
use porcelix.Net.Checksum.{add_words, fold_carry, checksum_calc}

-- The sum of the big-endian 16-bit words of a text; a last byte alone is a high byte.
unfoldable pub word_sum : List ℕ → ℕ
word_sum [] = 0
word_sum (hi ∷ []) = hi * 256
word_sum (hi ∷ lo ∷ s) = hi * 256 + lo + word_sum s

-- The 16-bit ones' complement sum with the value `s`: 0 only for 0.
abbrev pub ones : ℕ → ℕ
ones s = if s == 0 then 0 else 1 + (s - 1) % 65535

fold_carry-ones : (s : ℕ) → s < 2 ^ 32 → fold_carry 2 s ≡ some (ones s)
unfolding fold_carry
fold_carry-ones s h = ground arith

word_sum_bound : (s : List ℕ) → All (λ c. c < 256) s → word_sum s ≤ 65535 * length s
unfolding word_sum
word_sum_bound [] h = omega arith
word_sum_bound (hi ∷ []) h = omega (arith, h.0)
word_sum_bound (hi ∷ lo ∷ s) h = omega (arith, h.0, h.1.0, word_sum_bound s h.1.1)

-- From `num` on the buffer reads as the text `s`.
abbrev Reads : List ℕ → ℕ → List ℕ → Type 0
Reads p num s = (i : ℕ) → i < length s → get_elem? p (num + i) ≡ get_elem? s i

add_words_step :
    (p : List ℕ) (num len cksum hi lo : ℕ)
    → get_elem? p num ≡ some hi
    → get_elem? p (num + 1) ≡ some lo
    → add_words p num (suc (suc len)) cksum
      ≡ add_words p ((num + 2) % 2 ^ 8) len ((cksum + (hi * 2 ^ 8 + lo)) % 2 ^ 32)
unfolding add_words
add_words_step p num len cksum hi lo h l = rw (h, l) refl

-- The two loops add the words up, where the index does not wrap.
add_words-word_sum :
    (s p : List ℕ) (num cksum : ℕ)
    → Reads p num s
    → num + length s ≤ 256
    → cksum < 2 ^ 32
    → add_words p (num % 2 ^ 8) (length s) cksum ≡ some ((cksum + word_sum s) % 2 ^ 32)
unfolding add_words word_sum
add_words-word_sum [] p num cksum r h small = ap some (omega arith)
add_words-word_sum (hi ∷ []) p num cksum r h small =
    let here : num + 0 ≡ num % 2 ^ 8 = omega arith in
    let read : get_elem? p (num % 2 ^ 8) ≡ some hi = rw here at (r 0 (omega arith)) in
    rw read (ap some (omega arith))
add_words-word_sum (hi ∷ lo ∷ s) p num cksum r h small =
    let here : num + 0 ≡ num % 2 ^ 8 = omega arith in
    let next : num + 1 ≡ num % 2 ^ 8 + 1 = omega arith in
    let wrap : (num % 2 ^ 8 + 2) % 2 ^ 8 ≡ (num + 2) % 2 ^ 8 = omega arith in
    let sum : ((cksum + (hi * 2 ^ 8 + lo)) % 2 ^ 32 + word_sum s) % 2 ^ 32
        ≡ (cksum + (hi * 256 + lo + word_sum s)) % 2 ^ 32 =
      omega arith in
    let rest : Reads p (num + 2) s = λ i l.
      let e : num + suc (suc i) ≡ num + 2 + i = omega arith in
      rw e at (r (suc (suc i)) (omega arith)) in
    add_words_step p (num % 2 ^ 8) (length s) cksum hi lo (rw here at (r 0 (omega arith)))
      (rw next at (r 1 (omega arith)))
    ∙ rw wrap (
        add_words-word_sum s p (num + 2) ((cksum + (hi * 2 ^ 8 + lo)) % 2 ^ 32) rest (omega arith)
          (omega arith))
    ∙ ap some sum

get_elem?-append : (s r : List ℕ) (i : ℕ) → i < length s → get_elem? (s ++ r) i ≡ get_elem? s i
get_elem?-append [] r i h = absurd (omega arith)
get_elem?-append (c ∷ s) r zero h = refl
get_elem?-append (c ∷ s) r (suc i) h = get_elem?-append s r i (omega arith)

-- `checksum_calc` with the start value 0 over a text of 1 to 256 bytes is the ones' complement of
-- the ones' complement sum of its big-endian 16-bit words, whatever follows the text.
pub checksum_calc-ones :
    (s r : List ℕ)
    → 0 < length s
    → length s ≤ 256
    → All (λ c. c < 256) s
    → checksum_calc 0 (s ++ r) (length s) ≡ some (65535 - ones (word_sum s))
unfolding checksum_calc
checksum_calc-ones s r some_byte short bytes =
    let used : (length s == 0) ≡ false = ground arith in
    let bound = word_sum_bound s bytes in
    let total : word_sum s < 2 ^ 32 = omega arith in
    let start : add_words (s ++ r) 0 (length s) 0 ≡ some (word_sum s) =
      add_words-word_sum s (s ++ r) 0 0
        (λ i l. ap (get_elem? (s ++ r)) (omega arith) ∙ get_elem?-append s r i l) (omega arith)
        (omega arith)
      ∙ ap some (omega arith) in
    rw (used, start, fold_carry-ones (word_sum s) total) refl
