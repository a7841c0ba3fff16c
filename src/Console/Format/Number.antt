-- ===== src/Console/Format/Number.antt =====
-- `num_fmt` of myLoader/io/disp.c writes the decimal notation, which `str2num` reads back.
use mathlib.Core.List.{append_assoc, append-nil, map-append}
use native.Mathlib.Nat.{pow-suc}
use porcelix.Prelude.{
  ℕ, zero, suc, ◌+◌, ◌/◌, ◌%◌, ◌^◌, ◌≤◌, ◌<◌, ◌≡◌, refl, true, false, Bool-cases, ==→eq, ==→ne, inl,
  inr, some, List, [], ◌∷◌, ◌++◌, map, arith, length, leb, ◌==◌, if◌then◌else◌, ap, sym, ◌∙◌,
  lt→ltb, le→ltb, dec_lt,
}
use porcelix.Prelude.Mem.{◌>>=◌}
use porcelix.Str.{str2num}
use porcelix.Str.Number.{digit_char, digits, str2num-digits}
use porcelix.Console.Format.{n2c, push, num_loop, align, num_fmt}

pub push_in : (c : ℕ) (t : List ℕ) → length t < 16 → push c t ≡ some (c ∷ t)
unfolding push
push_in c t h = ground arith

n2c-digit : (d : ℕ) → d < 10 → n2c (d % 2 ^ 8) ≡ digit_char d
unfolding n2c
n2c-digit d h = ground arith

-- One round of the loop at a decimal digit.
num_loop_round :
    (k n : ℕ) (t : List ℕ)
    → 0 < n
    → length t < 16
    → num_loop (suc k) n 10 t ≡ num_loop k (n / 10) 10 (digit_char (n % 10) ∷ t)
unfolding num_loop
num_loop_round k n t pos room =
    let more : (n == 0) ≡ false = ground arith in
    rw (more, n2c-digit (n % 10) (omega arith), push_in (digit_char (n % 10)) t room) refl

num_loop_end : (k : ℕ) (t : List ℕ) → num_loop k 0 10 t ≡ some t
unfolding num_loop
num_loop_end zero t = refl
num_loop_end (suc k) t = refl

num_loop_last :
    (k n : ℕ) (t : List ℕ)
    → 0 < n
    → n < 10
    → length t < 16
    → num_loop (suc k) n 10 t ≡ some (digit_char n ∷ t)
num_loop_last k n t pos small room =
    num_loop_round k n t pos room
    ∙ ap (λ m. num_loop k m 10 (digit_char (n % 10) ∷ t)) {x = n / 10} {y = 0} (omega arith)
    ∙ num_loop_end k (digit_char (n % 10) ∷ t)
    ∙ ap (λ d. some (digit_char d ∷ t)) {x = n % 10} {y = n} (omega arith)

digits_small : (f n : ℕ) → n < 10 → digits f n ≡ n ∷ []
unfolding digits
digits_small zero n h = refl
digits_small (suc f) n h = rw (lt→ltb n 10 h) refl

digits_large : (f n : ℕ) → 10 ≤ n → digits (suc f) n ≡ digits f (n / 10) ++ n % 10 ∷ []
unfolding digits
digits_large f n h = rw (le→ltb n 10 h) refl

num_loop-digits :
    (f k n : ℕ) (t : List ℕ)
    → 0 < n
    → n < 10 ^ suc f
    → f < k
    → length t + f < 16
    → num_loop k n 10 t ≡ some (map digit_char (digits f n) ++ t)
num_loop-digits f zero n t pos small fuel room = absurd (omega arith)
num_loop-digits zero (suc k) n t pos small fuel room =
    num_loop_last k n t pos (omega arith) (omega arith)
    ∙ ap (λ l. some (map digit_char l ++ t)) (sym (digits_small zero n (omega arith)))
num_loop-digits (suc f) (suc k) n t pos small fuel room = elim (dec_lt n 10) [
  | yes one ↦
      num_loop_last k n t pos one (omega arith)
      ∙ ap (λ l. some (map digit_char l ++ t)) (sym (digits_small (suc f) n one))
  | no more ↦
      num_loop_round k n t pos (omega arith)
      ∙ num_loop-digits f k (n / 10) (digit_char (n % 10) ∷ t) (omega arith)
          (omega (arith, pow-suc 10 (suc f))) (omega arith) (omega arith)
      ∙ ap some (
          sym (
            ap (λ l. map digit_char l ++ t) (digits_large f n (omega arith))
            ∙ ap (λ (l : List ℕ). l ++ t) (map-append digit_char (digits f (n / 10)) (n % 10 ∷ []))
            ∙ append_assoc (map digit_char (digits f (n / 10))) (digit_char (n % 10) ∷ []) t))
]

num_fmt_plain :
    (n flag : ℕ) (t : List ℕ)
    → (if n == 0 then push b'0' [] else num_loop 32 n 10 []) ≡ some t
    → num_fmt n 10 0 0 flag ≡ some t
unfolding num_fmt align
num_fmt_plain n flag t e = let fits : leb 0 (length t) ≡ true = ground arith in rw (e, fits) refl

-- `num_fmt` of a 32-bit number in base 10, with no width and no prefix, writes its decimal digits.
pub num_fmt-digits :
    (n flag : ℕ) → n < 2 ^ 32 → num_fmt n 10 0 0 flag ≡ some (map digit_char (digits 9 n))
num_fmt-digits n flag h =
    num_fmt_plain n flag (map digit_char (digits 9 n)) (elim (Bool-cases (n == 0)) [
      | inl none_left ↦
          let zero_n : n ≡ 0 = ==→eq _ _ none_left in
          rw none_left (
            push_in b'0' [] (omega arith)
            ∙ ap (λ l. some (map digit_char l)) (sym (digits_small 9 0 (omega arith)))
            ∙ ap (λ m. some (map digit_char (digits 9 m))) (sym zero_n))
      | inr more ↦ rw more (
          num_loop-digits 9 32 n [] (omega (arith, ==→ne _ _ more)) (omega arith) (omega arith)
            (omega arith)
          ∙ ap some (append-nil (map digit_char (digits 9 n))))
    ])

-- `str2num` reads back what `num_fmt` has written of a 32-bit number in base 10, with no width and
-- no prefix.
pub str2num-num_fmt :
    (n flag : ℕ) (rest : List ℕ)
    → n < 2 ^ 32
    → (num_fmt n 10 0 0 flag >>= λ text. str2num (text ++ 0 ∷ rest)) ≡ some n
str2num-num_fmt n flag rest h = rw (num_fmt-digits n flag h) (str2num-digits n rest h)
