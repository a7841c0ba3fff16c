-- ===== src/Str/Split.antt =====
-- What `parse_str_by_inteflag` of myLoader/core/func.c stores into `argv`.
use porcelix.Prelude.{
  inl, inr, ℕ, suc, ◌+◌, ◌-◌, ◌≤◌, ◌<◌, ◌≡◌, refl, ◌≢◌, Bool, true, false, not, some, List, [], ◌∷◌,
  ◌++◌, map, arith, ◌==◌, if◌then◌else◌, drop, ap, ◌∙◌, Bool-cases,
}
use porcelix.Prelude.Mem.{All}
use porcelix.Str.{isinteflag, split_from, parse_str_by_inteflag}
use porcelix.Str.Length.{IsText}

-- The C string that a region starts with: its bytes before the first zero.
unfoldable pub cstr : List ℕ → List ℕ
cstr [] = []
cstr (c ∷ s) = if c == 0 then [] else c ∷ cstr s

cstr-cons : (c : ℕ) (s : List ℕ) → c ≢ 0 → cstr (c ∷ s) ≡ c ∷ cstr s
unfolding cstr
cstr-cons c s h = ground arith

module _ (flags : List ℕ) where
  -- The bytes of a text before its first separator.
  unfoldable pub first_word : List ℕ → List ℕ
  first_word [] = []
  first_word (c ∷ s) = if isinteflag c flags then [] else c ∷ first_word s

  -- The maximal runs of a text that hold no separator; `within` says that the text before ends
  -- inside a run, which is not listed again.
  unfoldable pub runs : Bool → List ℕ → List (List ℕ)
  runs within [] = []
  runs within (c ∷ s) =
      let rest = runs (not (isinteflag c flags)) s in
      if isinteflag c flags then rest else (if within then rest else first_word (c ∷ s) ∷ rest)

  unfoldable pub words : List ℕ → List (List ℕ)
  words s = runs false s

  module _ (sep : ℕ) (e : isinteflag sep flags ≡ true) where
    first_word_last : (w : List ℕ) → first_word (w ++ sep ∷ []) ≡ first_word w
    unfolding first_word
    first_word_last [] = rw e refl
    first_word_last (c ∷ w) = elim (Bool-cases (isinteflag c flags)) [
      | inl s ↦ rw s refl
      | inr word ↦ rw word (ap (λ (v : List ℕ). c ∷ v) (first_word_last w))
    ]

    runs_last : (within : Bool) (w : List ℕ) → runs within (w ++ sep ∷ []) ≡ runs within w
    unfolding runs
    runs_last within [] = rw e refl
    runs_last within (c ∷ w) =
        rw (first_word_last (c ∷ w), runs_last (not (isinteflag c flags)) w) refl

    -- A separator at the end of a text adds no word.
    pub words_last : (w : List ℕ) → words (w ++ sep ∷ []) ≡ words w
    unfolding words
    words_last w = runs_last false w

-- The C strings that the pointers of `argv` address, in a buffer that starts at `at`.
abbrev pub strings : ℕ → List ℕ → List ℕ → List (List ℕ)
strings at buf argv = map (λ p. cstr (drop (p - at) buf)) argv

-- The buffer may be read from one byte further on where no pointer is to its first byte.
strings_shift :
    (at c : ℕ) (buf argv : List ℕ)
    → All (λ p. at < p) argv
    → strings at (c ∷ buf) argv ≡ strings (at + 1) buf argv
strings_shift at c buf [] h = refl
strings_shift at c buf (p ∷ argv) h =
    let e : p - at ≡ suc (p - (at + 1)) = omega arith in rw (e, strings_shift at c buf argv h.1)

All-weaken : (at : ℕ) (argv : List ℕ) → All (λ p. at + 1 ≤ p) argv → All (λ p. at ≤ p) argv
All-weaken at [] h = tt
All-weaken at (p ∷ argv) h = (omega arith, All-weaken at argv h.1)

All-beyond : (at : ℕ) (argv : List ℕ) → All (λ p. at + 1 ≤ p) argv → All (λ p. at < p) argv
All-beyond at [] h = tt
All-beyond at (p ∷ argv) h = (omega arith, All-beyond at argv h.1)

-- What the loop leaves when it has run from `at` over `w` and stopped at the zero.
record IsSplit (flags : List ℕ) (at : ℕ) (flag : Bool) (w argv buf : List ℕ) : Type 0 where
  beyond : All (λ p. at ≤ p) argv
  started : flag ≡ true → cstr buf ≡ first_word flags w
  read : strings at buf argv ≡ runs flags flag w

module _ (flags : List ℕ) (at c : ℕ) (w argv buf : List ℕ) where
  -- a separator ends the run before it, if there is one
  separator-IsSplit :
      (flag : Bool)
      → isinteflag c flags ≡ true
      → IsSplit flags (at + 1) false w argv buf
      → IsSplit flags at flag (c ∷ w) argv ((if flag then 0 else c) ∷ buf)
  unfolding cstr first_word runs
  separator-IsSplit flag sep s = record {
    beyond = All-weaken at argv s.beyond;
    started = λ e. rw (e, sep);
    read =
        rw (sep, strings_shift at (if flag then 0 else c) buf argv (All-beyond at argv s.beyond))
          s.read;
  }

  -- a character goes on with the run, or begins one
  character-IsSplit :
      (flag : Bool)
      → isinteflag c flags ≡ false
      → c ≢ 0
      → IsSplit flags (at + 1) true w argv buf
      → IsSplit flags at flag (c ∷ w) (if flag then argv else at ∷ argv) (c ∷ buf)
  unfolding cstr first_word runs
  character-IsSplit true word live s = record {
    beyond = All-weaken at argv s.beyond;
    started = λ e. rw word (cstr-cons c buf live ∙ ap (λ (v : List ℕ). c ∷ v) (s.started refl));
    read = rw (word, strings_shift at c buf argv (All-beyond at argv s.beyond)) s.read;
  }
  character-IsSplit false word live s =
      let here : at - at ≡ 0 = omega arith in
      let head : cstr (c ∷ buf) ≡ c ∷ first_word flags w =
        cstr-cons c buf live ∙ ap (λ (v : List ℕ). c ∷ v) (s.started refl) in
      record {
        beyond = (omega arith, All-weaken at argv s.beyond);
        started = λ e. cc;
        read =
            rw (here, word, strings_shift at c buf argv (All-beyond at argv s.beyond), s.read)
              (ap (λ (v : List ℕ). v ∷ runs flags true w) head);
      }

split_from-IsSplit :
    (flags : List ℕ) (at : ℕ) (flag : Bool) (w r : List ℕ)
    → IsText w
    → (argv : List ℕ) × (buf : List ℕ) × (split_from flags at flag (w ++ 0 ∷ r) ≡ some (argv, buf))
      × IsSplit flags at flag w argv buf
unfolding split_from
split_from-IsSplit flags at flag [] r t = (
  [],
  0 ∷ r,
  refl,
  record { beyond = tt; started = λ e. unfold cstr first_word in refl; read = unfold runs in refl },
)
split_from-IsSplit flags at flag (c ∷ w) r t =
    let live : (c == 0) ≡ false = ground arith in
    elim (Bool-cases (isinteflag c flags)) [
      | inl sep ↦
          let (argv, buf, run, s) = split_from-IsSplit flags (at + 1) false w r t.1 in
          (
            argv,
            (if flag then 0 else c) ∷ buf,
            rw (live, sep, run),
            separator-IsSplit flags at c w argv buf flag sep s,
          )
      | inr word ↦
          let (argv, buf, run, s) = split_from-IsSplit flags (at + 1) true w r t.1 in
          (
            (if flag then argv else at ∷ argv),
            c ∷ buf,
            rw (live, word, run),
            character-IsSplit flags at c w argv buf flag word t.0 s,
          )
    ]

-- `parse_str_by_inteflag` on a C string stores the pointers to its words, the maximal runs without
-- a separator, in order: read as C strings in the buffer that it leaves, the pointers of `argv`
-- give exactly these words.
pub parse_str_by_inteflag-words :
    (w r flags : List ℕ)
    → IsText w
    → (argv : List ℕ) × (buf : List ℕ) × (parse_str_by_inteflag (w ++ 0 ∷ r) flags
        ≡ some (argv, buf))
      × (map (λ p. cstr (drop p buf)) argv ≡ words flags w)
unfolding parse_str_by_inteflag words
parse_str_by_inteflag-words w r flags t =
    let (argv, buf, run, s) = split_from-IsSplit flags 0 false w r t in
    (argv, buf, run, at_zero argv buf ∙ s.read)
  where
    at_zero : (argv buf : List ℕ) → map (λ p. cstr (drop p buf)) argv ≡ strings 0 buf argv
    at_zero [] buf = refl
    at_zero (p ∷ argv) buf = let e : p - 0 ≡ p = omega arith in rw (e, at_zero argv buf)
