-- ===== src/Console/Format/Meaning.antt =====
-- What the fields of a format of `vsprintf` (myLoader/io/disp.c) mean, without its loops: numbers in
-- positional notation, padding, characters and strings.
use porcelix.Prelude.{
  ℕ, zero, suc, ◌+◌, ◌-◌, ◌/◌, ◌%◌, ◌^◌, Bool, false, ◌||◌, Option, none, some, List, [], ◌∷◌, ◌++◌,
  map, length, ltb, leb, ◌==◌, if◌then◌else◌, replicate,
}
use porcelix.Prelude.Mem.{◌>>=◌}
use porcelix.Str.Number.{value}
use porcelix.Console.Format.Pieces.{Piece, char, field, flag_of}

-- The digits of a number, the first one first, at most one more than the first argument.
unfoldable pub numeral : ℕ → ℕ → ℕ → List ℕ
numeral base zero n = n ∷ []
numeral base (suc f) n =
    let more = numeral base f (n / base) in if ltb n base then n ∷ [] else more ++ (n % base) ∷ []

-- `0` to `9` and `A` to `F`
abbrev pub glyph : ℕ → ℕ
glyph d = if ltb d 10 then b'0' + d else b'A' + (d - 10)

-- A 32-bit number has at most ten digits in base 10, and eight in base 16.
abbrev pub notation : ℕ → ℕ → List ℕ
notation base n = map glyph (numeral base 9 n)

-- A word as a signed number in two's complement.
unfoldable pub signed : ℕ → List ℕ
signed i = if ltb i (2 ^ 31) then notation 10 i else b'-' ∷ notation 10 (2 ^ 32 - i)

-- A text in a field of at least this width: `#` fills with zeros and a blank with blanks from the
-- left, `+` fills with blanks from the right, and `-` does not fill.
unfoldable pub pad : ℕ → ℕ → List ℕ → Option (List ℕ)
pad flag width text =
    let fill = replicate (width - length text) in
    if flag == b'#'
    then some (fill b'0' ++ text)
    else if flag == b' '
    then some (fill b' ' ++ text)
    else if flag == b'+'
    then some (text ++ fill b' ')
    else if leb width (length text)
    then some text
    else none

abbrev pub has_zero : List ℕ → Bool
has_zero [] = false
has_zero (c ∷ s) = c == 0 || has_zero s

abbrev pub before_zero : List ℕ → List ℕ
before_zero [] = []
before_zero (c ∷ s) = if c == 0 then [] else c ∷ before_zero s

-- A string in memory, if it ends.
unfoldable pub string : List ℕ → Option (List ℕ)
string s = if has_zero s then some (before_zero s) else none

module _ (mem : ℕ → List ℕ) where
  -- What the word `i` is in a field that ends with `ch`.
  unfoldable pub shape : ℕ → ℕ → ℕ → ℕ → Option (List ℕ)
  shape ch width flag i =
      if ch == b'd' || ch == b'i'
      then pad flag width (signed i)
      else if ch == b'x' || ch == b'X'
      then pad flag width (notation 16 i)
      else if ch == b'c'
      then some (i % 2 ^ 8 ∷ [])
      else if ch == b's'
      then string (mem i)
      else none

  -- The field with the next word, if it takes one, and the words that are left.
  unfoldable pub means : ℕ → ℕ → ℕ → List ℕ → Option (List ℕ × List ℕ)
  means ch width flag [] = if ch == b'%' then some (b'%' ∷ [], []) else none
  means ch width flag (i ∷ args) =
      if ch == b'%'
      then some (b'%' ∷ [], i ∷ args)
      else (shape ch width flag i >>= λ text. some (text, args))

  abbrev pub spell : Piece → List ℕ → Option (List ℕ × List ℕ)
  spell (char c) args = some (c ∷ [], args)
  spell (field f ds ch) args = means ch (value 10 0 ds % 2 ^ 16) (flag_of f) args

  -- The whole format.
  unfoldable pub spell_all : List Piece → List ℕ → Option (List ℕ)
  spell_all [] args = some []
  spell_all (p ∷ ps) args = do
    (text, args') ← spell p args
    rest ← spell_all ps args'
    some (text ++ rest)
