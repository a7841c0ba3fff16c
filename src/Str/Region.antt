-- ===== src/Str/Region.antt =====
-- The pointers of `parse_str_by_inteflag` (myLoader/core/func.c) are to C strings that end in the
-- buffer.
use porcelix.Prelude.{
  ℕ, zero, suc, ◌+◌, ◌≤◌, ◌<◌, ◌≡◌, refl, inl, inr, Bool, true, false, not, Option, none, some,
  List, [], ◌∷◌, ◌++◌, map, arith, ◌==◌, if◌then◌else◌, length, drop, ap, sym, ◌∙◌, Bool-cases,
  ==→eq, ==→ne, length-append,
}
use porcelix.Prelude.Mem.{All}
use porcelix.Str.{isinteflag, split_from, parse_str_by_inteflag}
use porcelix.Str.Length.{IsText}
use porcelix.Str.Split.{cstr, words, parse_str_by_inteflag-words}

-- The scan leaves the final zero where it was, and its pointers stand before it.
split_from-ends :
    (flags : List ℕ) (at : ℕ) (flag : Bool) (w r : List ℕ)
    → IsText w
    → (argv : List ℕ) × (v : List ℕ) × (split_from flags at flag (w ++ 0 ∷ r)
        ≡ some (argv, v ++ 0 ∷ r))
      × (length v ≡ length w)
      × All (λ p. p < at + length w) argv
unfolding split_from
split_from-ends flags at flag [] r t = ([], [], refl, refl, tt)
split_from-ends flags at flag (c ∷ w) r t =
    let live : (c == 0) ≡ false = ground arith in
    let (argv, v, run, size, before) =
      split_from-ends flags (at + 1) (not (isinteflag c flags)) w r t.1 in
    elim (Bool-cases (isinteflag c flags)) [
      | inl sep ↦ (
        argv,
        (if flag then 0 else c) ∷ v,
        rw (live, sep, rw sep at run),
        ap suc size,
        later at (length w) argv before,
      )
      | inr word ↦ (
        (if flag then argv else at ∷ argv),
        c ∷ v,
        rw (live, word, rw word at run),
        ap suc size,
        first flag at (length w) argv (later at (length w) argv before),
      )
    ]
  where
    later :
        (at n : ℕ) (argv : List ℕ) → All (λ p. p < at + 1 + n) argv → All (λ p. p < at + suc n) argv
    later at n [] h = tt
    later at n (p ∷ argv) h = (omega (arith, h.0), later at n argv h.1)

    first :
        (flag : Bool) (at n : ℕ) (argv : List ℕ)
        → All (λ p. p < at + suc n) argv
        → All (λ p. p < at + suc n) (if flag then argv else at ∷ argv)
    first true at n argv h = h
    first false at n argv h = (omega arith, h)

pub drop-append : (p : ℕ) (v r : List ℕ) → p ≤ length v → drop p (v ++ r) ≡ drop p v ++ r
drop-append zero v r h = refl
drop-append (suc p) [] r h = absurd (omega arith)
drop-append (suc p) (c ∷ v) r h = drop-append p v r (omega arith)

-- A region with a zero byte begins with a C string and its final zero.
cstr_terminated :
    (v r : List ℕ)
    → (q : List ℕ) × (v ++ 0 ∷ r ≡ cstr (v ++ 0 ∷ r) ++ 0 ∷ q) × IsText (cstr (v ++ 0 ∷ r))
unfolding cstr
cstr_terminated [] r = (r, refl, tt)
cstr_terminated (c ∷ v) r = elim (Bool-cases (c == 0)) [
  | inl z ↦ (v ++ 0 ∷ r, rw z (ap (λ (a : ℕ). a ∷ v ++ 0 ∷ r) (==→eq c 0 z)), rw z tt)
  | inr live ↦
      let (q, e, t) = cstr_terminated v r in
      (q, rw live (ap (λ (s : List ℕ). c ∷ s) e), rw live (==→ne c 0 live, t))
]

-- `p` points to a C string of the region.
abbrev pub IsString : List ℕ → ℕ → Type 0
IsString buf p = let w = cstr (drop p buf) in IsText w × (q : List ℕ) × (drop p buf ≡ w ++ 0 ∷ q)

IsString-below : (v r : List ℕ) (p : ℕ) → p ≤ length v → IsString (v ++ 0 ∷ r) p
IsString-below v r p h =
    let (q, e, t) = cstr_terminated (drop p v) r in rw (drop-append p v (0 ∷ r) h) (t, q, e)

IsString-All :
    (v r : List ℕ) (n : ℕ) (argv : List ℕ)
    → length v ≡ n
    → All (λ p. p < n) argv
    → All (IsString (v ++ 0 ∷ r)) argv
IsString-All v r n [] e h = tt
IsString-All v r n (p ∷ argv) e h =
    (IsString-below v r p (omega (arith, h.0)), IsString-All v r n argv e h.1)

strings_of : Option (List ℕ × List ℕ) → List (List ℕ)
strings_of none = []
strings_of (some (argv, buf)) = map (λ p. cstr (drop p buf)) argv

All-below : (n : ℕ) (argv : List ℕ) → All (λ p. p < 0 + n) argv → All (λ p. p < n) argv
All-below n [] h = tt
All-below n (p ∷ argv) h = (omega (arith, h.0), All-below n argv h.1)

-- `parse_str_by_inteflag` on a C string stores pointers to C strings of the buffer, which are the
-- words of the text; the buffer keeps its size.
pub parse_str_by_inteflag-IsString :
    (w r flags : List ℕ)
    → IsText w
    → (argv : List ℕ) × (buf : List ℕ) × (parse_str_by_inteflag (w ++ 0 ∷ r) flags
        ≡ some (argv, buf))
      × (map (λ p. cstr (drop p buf)) argv ≡ words flags w)
      × (length buf ≡ length (w ++ 0 ∷ r))
      × All (IsString buf) argv
unfolding parse_str_by_inteflag strings_of
parse_str_by_inteflag-IsString w r flags t =
    let (argv', v, run', size, before) = split_from-ends flags 0 false w r t in
    let (argv, buf, run, read) = parse_str_by_inteflag-words w r flags t in
    let same : some (argv', v ++ 0 ∷ r) ≡ some (argv, buf) = sym run' ∙ run in
    let read' : map (λ p. cstr (drop p (v ++ 0 ∷ r))) argv' ≡ words flags w =
      ap (λ o. strings_of o) same ∙ read in
    let same_size : length (v ++ 0 ∷ r) ≡ length (w ++ 0 ∷ r) =
      omega (arith, length-append v (0 ∷ r), length-append w (0 ∷ r), size) in
    (
      argv',
      v ++ 0 ∷ r,
      run',
      read',
      same_size,
      IsString-All v r (length w) argv' size (All-below (length w) argv' before),
    )
