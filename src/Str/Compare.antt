-- ===== src/Str/Compare.antt =====
-- What `strcmp` and `memcmp` of myLoader/core/func.c decide.
use porcelix.Prelude.{
  ℕ, zero, suc, ◌≤◌, ◌≡◌, refl, ◌↔◌, some, List, [], ◌∷◌, ◌++◌, arith, ltb, if◌then◌else◌, length,
  take,
}
use porcelix.Prelude.Int.{ℤ, pos, negsuc}
use porcelix.Str.{strcmp, memcmp}
use porcelix.Str.Length.{IsText}

-- The dictionary order of two byte strings, a proper prefix first.
pub lex : List ℕ → List ℕ → ℤ
lex [] [] = pos 0
lex [] (b ∷ t) = negsuc 0
lex (a ∷ s) [] = pos 1
lex (a ∷ s) (b ∷ t) = if ltb a b then negsuc 0 else (if ltb b a then pos 1 else lex s t)

-- `strcmp` of two C strings is their dictionary order, whatever follows the final zeros.
pub strcmp-lex :
    (s t r q : List ℕ) → IsText s → IsText t → strcmp (s ++ 0 ∷ r) (t ++ 0 ∷ q) ≡ some (lex s t)
unfolding strcmp lex
strcmp-lex [] [] r q hs ht = refl
strcmp-lex [] (b ∷ t) r q hs ht = ground arith
strcmp-lex (a ∷ s) [] r q hs ht = ground arith
strcmp-lex (a ∷ s) (b ∷ t) r q hs ht = ground (arith, strcmp-lex s t r q hs.1 ht.1)

lex_refl : (s : List ℕ) → lex s s ≡ pos 0
unfolding lex
lex_refl [] = refl
lex_refl (a ∷ s) = ground (arith, lex_refl s)

eq_of_lex : (s t : List ℕ) → lex s t ≡ pos 0 → s ≡ t
unfolding lex
eq_of_lex [] [] h = refl
eq_of_lex [] (b ∷ t) h = cc
eq_of_lex (a ∷ s) [] h = cc
eq_of_lex (a ∷ s) (b ∷ t) h = ground (arith, eq_of_lex s t)

-- `strcmp` returns 0 for two C strings exactly when they are the same string.
pub strcmp-eq-zero :
    (s t r q : List ℕ)
    → IsText s
    → IsText t
    → (strcmp (s ++ 0 ∷ r) (t ++ 0 ∷ q) ≡ some (pos 0)) ↔ (s ≡ t)
strcmp-eq-zero s t r q hs ht = (
  λ h. eq_of_lex s t (cc (strcmp-lex s t r q hs ht)),
  λ e. cc (strcmp-lex s t r q hs ht, lex_refl s),
)

-- `memcmp` on two regions that hold `len` bytes is the dictionary order of their first `len` bytes.
pub memcmp-lex :
    (s t : List ℕ) (len : ℕ)
    → len ≤ length s
    → len ≤ length t
    → memcmp s t len ≡ some (lex (take len s) (take len t))
unfolding memcmp lex
memcmp-lex s t zero hs ht = refl
memcmp-lex [] t (suc len) hs ht = absurd (omega arith)
memcmp-lex (a ∷ s) [] (suc len) hs ht = absurd (omega arith)
memcmp-lex (a ∷ s) (b ∷ t) (suc len) hs ht =
    ground (arith, memcmp-lex s t len (omega arith) (omega arith))

-- `memcmp` on two regions that hold `len` bytes returns 0 exactly when their first `len` bytes
-- agree.
pub memcmp-eq-zero :
    (s t : List ℕ) (len : ℕ)
    → len ≤ length s
    → len ≤ length t
    → (memcmp s t len ≡ some (pos 0)) ↔ (take len s ≡ take len t)
memcmp-eq-zero s t len hs ht = (
  λ h. eq_of_lex (take len s) (take len t) (cc (memcmp-lex s t len hs ht)),
  λ e. cc (memcmp-lex s t len hs ht, lex_refl (take len s)),
)
