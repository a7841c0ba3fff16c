-- ===== src/Str/Number.antt =====
-- What `str2num` of myLoader/core/func.c reads.
use porcelix.Prelude.{
  ℕ, zero, suc, ◌+◌, ◌-◌, ◌*◌, ◌/◌, ◌%◌, ◌^◌, ◌<◌, ◌≡◌, refl, ◌≢◌, Bool, true, false, ◌&&◌, ◌||◌,
  Bool-cases, Option, some, List, [], ◌∷◌, ◌++◌, map, arith, ltb, if◌then◌else◌, ap, ◌⊎◌, inl, inr,
  ◌==◌, ◌∙◌,
}
use native.Mathlib.Nat.{pow-suc}
use porcelix.Prelude.Mem.{All, All-append}
use porcelix.Str.{digit_value, str2num_from, str2num}

-- The character for a digit below 16, in lower case.
abbrev pub digit_char : ℕ → ℕ
digit_char d = if ltb d 10 then b'0' + d else b'a' + (d - 10)

-- The value of a list of digits, the most significant first, with no bound on it.
unfoldable pub value : ℕ → ℕ → List ℕ → ℕ
value base acc [] = acc
value base acc (d ∷ ds) = value base (acc * base + d) ds

digit_value-char : (d : ℕ) → d < 16 → digit_value (digit_char d) ≡ some d
unfolding digit_value
digit_value-char d h = ground arith

abbrev IsBase : ℕ → Type 0
IsBase base = (base ≡ 10) ⊎ (base ≡ 16)

wrap_step :
    (base acc d : ℕ)
    → IsBase base
    → (acc % 2 ^ 32 * base % 2 ^ 32 + d) % 2 ^ 32 ≡ (acc * base + d) % 2 ^ 32
wrap_step base acc d (inl ten) = rw ten (omega arith)
wrap_step base acc d (inr sixteen) = rw sixteen (omega arith)

str2num_from-cons :
    (base ret c d : ℕ) (s : List ℕ)
    → c ≢ 0
    → digit_value c ≡ some d
    → str2num_from base ret (c ∷ s) ≡ str2num_from base ((ret * base % 2 ^ 32 + d) % 2 ^ 32) s
unfolding str2num_from
str2num_from-cons base ret c d s h e = ground arith

str2num_from-value :
    (base acc : ℕ) (ds r : List ℕ)
    → IsBase base
    → All (λ d. d < base) ds
    → str2num_from base (acc % 2 ^ 32) (map digit_char ds ++ 0 ∷ r)
      ≡ some (value base acc ds % 2 ^ 32)
unfolding str2num_from value
str2num_from-value base acc [] r b h = refl
str2num_from-value base acc (d ∷ ds) r b h =
    str2num_from-cons base (acc % 2 ^ 32) (digit_char d) d (map digit_char ds ++ 0 ∷ r)
      (ground arith) (digit_value-char d (ground arith))
    ∙ rw (wrap_step base acc d b) (str2num_from-value base (acc * base + d) ds r b h.1)

choose : (a b : Bool) (l r : Option ℕ) → b ≡ false → (if a && b then l else r) ≡ r
choose true b l r h = rw h
choose false b l r h = refl

-- Where the second character is no x the base is 10.
str2num_plain :
    (c x : ℕ) (s : List ℕ)
    → (x == b'x' || x == b'X') ≡ false
    → str2num (c ∷ x ∷ s) ≡ str2num_from 10 0 (c ∷ x ∷ s)
unfolding str2num
str2num_plain c x s h = choose (c == b'0') (x == b'x' || x == b'X') _ _ h

-- `str2num` of a string of decimal digits is their value modulo 2 ^ 32.
pub str2num_decimal :
    (ds r : List ℕ)
    → All (λ d. d < 10) ds
    → str2num (map digit_char ds ++ 0 ∷ r) ≡ some (value 10 0 ds % 2 ^ 32)
str2num_decimal [] [] h = empty
  where
    empty : str2num (0 ∷ []) ≡ some (value 10 0 [] % 2 ^ 32)
    empty = unfold str2num value in refl
str2num_decimal [] (c ∷ r) h = empty
  where
    empty : str2num (0 ∷ c ∷ r) ≡ some (value 10 0 [] % 2 ^ 32)
    empty = unfold str2num value in refl
str2num_decimal (d ∷ []) r h =
    str2num_plain (digit_char d) 0 r refl ∙ str2num_from-value 10 0 (d ∷ []) r (inl refl) h
str2num_decimal (d ∷ x ∷ ds) r h =
    str2num_plain (digit_char d) (digit_char x) (map digit_char ds ++ 0 ∷ r) (ground arith)
    ∙ str2num_from-value 10 0 (d ∷ x ∷ ds) r (inl refl) h

-- `str2num` of `0x` or `0X` and hexadecimal digits is their value modulo 2 ^ 32.
pub str2num_hex :
    (x : ℕ) (ds r : List ℕ)
    → (x ≡ b'x') ⊎ (x ≡ b'X')
    → All (λ d. d < 16) ds
    → str2num (b'0' ∷ x ∷ map digit_char ds ++ 0 ∷ r) ≡ some (value 16 0 ds % 2 ^ 32)
unfolding str2num
str2num_hex x ds r (inl e) a = rw e (str2num_from-value 16 0 ds r (inr refl) a)
str2num_hex x ds r (inr e) a = rw e (str2num_from-value 16 0 ds r (inr refl) a)

-- The digits of a number, with fuel; `10 ^ fuel` above the number is enough.
unfoldable pub digits : ℕ → ℕ → List ℕ
digits zero n = n ∷ []
digits (suc f) n =
    let more = digits f (n / 10) in if ltb n 10 then n ∷ [] else more ++ (n % 10) ∷ []

value-append :
    (base acc : ℕ) (ds : List ℕ) (d : ℕ)
    → value base acc (ds ++ d ∷ []) ≡ value base acc ds * base + d
unfolding value
value-append base acc [] d = refl
value-append base acc (x ∷ ds) d = value-append base (acc * base + x) ds d

value-digits : (f n : ℕ) → value 10 0 (digits f n) ≡ n
unfolding digits value
value-digits zero n = omega arith
value-digits (suc f) n =
    ground (arith, value-append 10 0 (digits f (n / 10)) (n % 10), value-digits f (n / 10))

digits-lt : (f n : ℕ) → n < 10 ^ suc f → All (λ d. d < 10) (digits f n)
unfolding digits
digits-lt zero n h = (omega arith, tt)
digits-lt (suc f) n h = elim (Bool-cases (ltb n 10)) [
  | inl small ↦ rw small (ground arith, tt)
  | inr large ↦ rw large (
      All-append (λ d. d < 10) (digits f (n / 10)) (n % 10 ∷ [])
        (digits-lt f (n / 10) (omega (arith, pow-suc 10 (suc f)))) (omega arith, tt))
]

-- `str2num` reads back the decimal notation of every 32-bit number.
pub str2num-digits :
    (n : ℕ) (r : List ℕ) → n < 2 ^ 32 → str2num (map digit_char (digits 9 n) ++ 0 ∷ r) ≡ some n
str2num-digits n r h =
    str2num_decimal (digits 9 n) r (digits-lt 9 n (omega arith))
    ∙ ap some (omega (arith, value-digits 9 n))
