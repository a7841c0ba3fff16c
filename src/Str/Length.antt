-- ===== src/Str/Length.antt =====
-- What `strlen` of myLoader/core/func.c returns.
use porcelix.Prelude.{
  ℕ, ◌+◌, ◌%◌, ◌^◌, ◌<◌, ◌≡◌, refl, ◌≢◌, none, some, List, [], ◌∷◌, ◌++◌, arith, length, ap, ◌∙◌,
}
use porcelix.Prelude.Mem.{All}
use porcelix.Str.{strlen_from, strlen}

-- The bytes of a C string, its final zero left off.
abbrev pub IsText : List ℕ → Type 0
IsText w = All (λ c. c ≢ 0) w

strlen_from-text :
    (len : ℕ) (w r : List ℕ)
    → len < 2 ^ 16
    → IsText w
    → strlen_from len (w ++ 0 ∷ r) ≡ some ((len + length w) % 2 ^ 16)
unfolding strlen_from
strlen_from-text len [] r h t = ap some (omega arith)
strlen_from-text len (c ∷ w) r h t =
    ground (arith, strlen_from-text ((len + 1) % 2 ^ 16) w r (omega arith) t.1)

-- `strlen` of a C string is the number of bytes before its zero, modulo 2 ^ 16.
pub strlen-text : (w r : List ℕ) → IsText w → strlen (w ++ 0 ∷ r) ≡ some (length w % 2 ^ 16)
unfolding strlen
strlen-text w r t = strlen_from-text 0 w r (omega arith) t ∙ ap some (omega arith)

-- `strlen` faults on a region without a zero byte.
pub strlen_unterminated : (w : List ℕ) → IsText w → strlen w ≡ none
unfolding strlen
strlen_unterminated w t = go 0 w t
  where
    go : (len : ℕ) (v : List ℕ) → IsText v → strlen_from len v ≡ none
    go len [] u = refl
    go len (c ∷ v) u = ground (arith, go ((len + 1) % 2 ^ 16) v u.1)
