-- ===== src/Str.antt =====
-- The byte-string routines of myLoader/core/func.c, as myLoader/include/ml_string.h declares them.
-- A `char *` is the list of the bytes from the pointer to the end of the region it points into;
-- a read past that end is the fault `none`. `memcpy` and `memset` work on one region by offsets,
-- so that the two operands of `memcpy` may overlap.
pub mod Length
pub mod Compare
pub mod Copy
pub mod Number
pub mod Split
pub mod Region
use porcelix.Prelude.{
  ℕ, zero, suc, ◌+◌, ◌-◌, ◌*◌, ◌%◌, ◌^◌, Bool, true, false, not, ◌&&◌, ◌||◌, Option, none, some,
  List, [], ◌∷◌, ltb, leb, ◌==◌, if◌then◌else◌, get_elem?,
}
use porcelix.Prelude.Int.{ℤ, pos, negsuc}
use porcelix.Prelude.Mem.{◌>>=◌, store}

-- `while (*str++) len++;` with a `u16` counter
strlen_from : ℕ → List ℕ → Option ℕ
strlen_from len [] = none
strlen_from len (c ∷ s) =
    let rest = strlen_from ((len + 1) % 2 ^ 16) s in if c == 0 then some len else rest

pub strlen : List ℕ → Option ℕ
unfolding strlen_from
strlen str = strlen_from 0 str

pub strcmp : List ℕ → List ℕ → Option ℤ
strcmp [] ct = none
strcmp (c1 ∷ cs) [] = none
strcmp (c1 ∷ cs) (c2 ∷ ct) =
    if c1 == c2
    then (if c1 == 0 then some (pos 0) else strcmp cs ct)
    else (if ltb c1 c2 then some (negsuc 0) else some (pos 1))

unfoldable pub memcmp : List ℕ → List ℕ → ℕ → Option ℤ
memcmp str1 str2 zero = some (pos 0)
memcmp [] str2 (suc len) = none
memcmp (a ∷ str1) [] (suc len) = none
memcmp (a ∷ str1) (b ∷ str2) (suc len) =
    if ltb b a then some (pos 1) else (if ltb a b then some (negsuc 0) else memcmp str1 str2 len)

-- `mem` is the region; `dst` and `src` are offsets into it.
pub memcpy : List ℕ → ℕ → ℕ → ℕ → Option (List ℕ)
memcpy mem dst src zero = some mem
memcpy mem dst src (suc len) = do
  v ← get_elem? mem src
  mem' ← store mem dst v
  memcpy mem' (dst + 1) (src + 1) len

unfoldable pub memset : List ℕ → ℕ → ℕ → ℕ → Option (List ℕ)
memset mem dst value zero = some mem
memset mem dst value (suc len) = do mem' ← store mem dst value; memset mem' (dst + 1) value len

-- What one character adds, or `none` for the final `else` of the chain.
digit_value : ℕ → Option ℕ
digit_value ch =
    if leb b'0' ch && leb ch b'9'
    then some (ch - b'0')
    else (if leb b'a' ch && leb ch b'f'
        then some (ch - b'a' + 10)
        else (if leb b'A' ch && leb ch b'F' then some (ch - b'A' + 10) else none))

str2num_from : ℕ → ℕ → List ℕ → Option ℕ
str2num_from base ret [] = none
str2num_from base ret (ch ∷ s) = elim (ch == 0) [
  | true ↦ some ret
  | false ↦ elim (digit_value ch) [
    | none ↦ some 0
    | some d ↦ str2num_from base ((ret * base % 2 ^ 32 + d) % 2 ^ 32) s
  ]
]

pub str2num : List ℕ → Option ℕ
unfolding str2num_from digit_value
str2num [] = none
str2num (c ∷ []) = str2num_from 10 0 (c ∷ [])
str2num (c ∷ x ∷ s) =
    if c == b'0' && (x == b'x' || x == b'X')
    then str2num_from 16 0 s
    else str2num_from 10 0 (c ∷ x ∷ s)

-- `inteflag` is the array of its `n_inteflag` characters.
unfoldable pub isinteflag : ℕ → List ℕ → Bool
isinteflag ch [] = false
isinteflag ch (f ∷ inteflag) = ch == f || isinteflag ch inteflag

-- `flag` says that the scan stands inside a word. The result has the pointers that are stored
-- into `argv`, as offsets of `str`, and the bytes of `str` as the loop leaves them.
split_from : List ℕ → ℕ → Bool → List ℕ → Option (List ℕ × List ℕ)
split_from inteflag at flag [] = none
split_from inteflag at flag (c ∷ s) =
    let inter = isinteflag c inteflag in
    let rest = split_from inteflag (at + 1) (not inter) s in
    if c == 0 then some ([], c ∷ s) else do
      (argv, s') ← rest
      some (
          if inter
          then (argv, (if flag then 0 else c) ∷ s')
          else ((if flag then argv else at ∷ argv), c ∷ s'))

pub parse_str_by_inteflag : List ℕ → List ℕ → Option (List ℕ × List ℕ)
unfolding split_from isinteflag
parse_str_by_inteflag str inteflag = split_from inteflag 0 false str
