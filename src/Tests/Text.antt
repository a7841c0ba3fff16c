-- ===== src/Tests/Text.antt =====
-- The string routines of myLoader/core/func.c on short strings.
use porcelix.Prelude.{ℕ, ◌+◌, ◌≡◌, inl, List, [], ◌∷◌, ◌++◌, map, some, arith, drop, get_elem?}
use porcelix.Str.{memcpy, parse_str_by_inteflag}
use porcelix.Str.Length.{IsText}
use porcelix.Str.Copy.{IsWindow, memcpy_lem}
use porcelix.Str.Split.{cstr, words, parse_str_by_inteflag-words}

abbrev cat : List ℕ
cat = b'c' ∷ b'a' ∷ b't' ∷ []

abbrev car : List ℕ
car = b'c' ∷ b'a' ∷ b'r' ∷ []

-- ` mv  a`
abbrev line : List ℕ
line = 32 ∷ b'm' ∷ b'v' ∷ 32 ∷ 32 ∷ b'a' ∷ []

cat-IsText : IsText cat
cat-IsText = (omega arith, (omega arith, (omega arith, tt)))

car-IsText : IsText car
car-IsText = (omega arith, (omega arith, (omega arith, tt)))

line-IsText : IsText line
line-IsText =
    (omega arith, (omega arith, (omega arith, (omega arith, (omega arith, (omega arith, tt))))))

memcpy_lem_example :
    (m' : List ℕ) × (memcpy line 0 1 4 ≡ some m')
    × IsWindow line m' 0 4 (λ k. get_elem? line (1 + k))
memcpy_lem_example = memcpy_lem line 0 1 4 (omega arith) (omega arith) (inl (omega arith))

parse_str_by_inteflag-words_example :
    (argv : List ℕ) × (buf : List ℕ) × (parse_str_by_inteflag (line ++ 0 ∷ []) (32 ∷ [])
      ≡ some (argv, buf))
    × (map (λ p. cstr (drop p buf)) argv ≡ words (32 ∷ []) line)
parse_str_by_inteflag-words_example = parse_str_by_inteflag-words line [] (32 ∷ []) line-IsText
