-- ===== src/Console/Format/Pieces.antt =====
-- What a format of `vsprintf` (myLoader/io/disp.c) means: characters, and fields that have a flag or
-- none, a width and a conversion.
use porcelix.Prelude.{
  ℕ, ◌+◌, ◌*◌, ◌%◌, ◌^◌, ◌<◌, ◌≡◌, refl, Bool, true, false, ◌||◌, ◌&&◌, Option, none, some, List,
  [], ◌∷◌, ◌++◌, map, arith, leb, ◌==◌, ap,
}
use porcelix.Prelude.Mem.{◌>>=◌, All}
use porcelix.Str.Number.{value}
use porcelix.Console.Format.{
  PrintfState, s_char, s_pre_flag, s_pre_width, Printf, is_pre, is_flag_or_width, convert, emit,
  pre_step, printf_step, printf_loop,
}

pub data Piece : Type 0 where
  char : ℕ → Piece
  field : Option ℕ → List ℕ → ℕ → Piece

abbrev pub flag_source : Option ℕ → List ℕ
flag_source none = []
flag_source (some f) = f ∷ []

abbrev pub flag_of : Option ℕ → ℕ
flag_of none = b' '
flag_of (some f) = f

-- How a piece is written in the format.
unfoldable pub source : Piece → List ℕ
source (char c) = c ∷ []
source (field f ds ch) = b'%' ∷ flag_source f ++ (map (λ d. b'0' + d) ds ++ ch ∷ [])

abbrev pub is_flag : ℕ → Bool
is_flag ch = ch == b'#' || ch == b'+' || ch == b'-' || ch == b' '

abbrev pub is_digit : ℕ → Bool
is_digit ch = leb b'0' ch && leb ch b'9'

-- A character that ends a field.
abbrev pub IsLast : ℕ → Type 0
IsLast ch =
    ((ch == 0) ≡ false) × (is_flag ch ≡ false) × (is_digit ch ≡ false) × ((ch == b'.') ≡ false)

abbrev pub IsFlag : Option ℕ → Type 0
IsFlag none = Unit
IsFlag (some f) = is_flag f ≡ true

abbrev pub IsPiece : Piece → Type 0
IsPiece (char c) = ((c == 0) ≡ false) × ((c == b'%') ≡ false)
IsPiece (field f ds ch) = IsFlag f × All (λ d. d < 10) ds × IsLast ch

module _ (mem : ℕ → List ℕ) where
  -- What a piece writes, and the arguments that it leaves.
  abbrev pub render : Piece → List ℕ → Option (List ℕ × List ℕ)
  render (char c) args = some (c ∷ [], args)
  render (field f ds ch) args = convert mem ch (value 10 0 ds % 2 ^ 16) (flag_of f) args

  unfoldable pub render_all : List Piece → List ℕ → Option (List ℕ)
  render_all [] args = some []
  render_all (p ∷ ps) args = do
    (text, args') ← render p args
    rest ← render_all ps args'
    some (text ++ rest)

  module _ (size : ℕ) where
    abbrev pub at : PrintfState → ℕ → ℕ → List ℕ → List ℕ → Printf
    at state width flag args out = record {
      state = state;
      width = width;
      flag = flag;
      args = args;
      out = out;
    }

    pub loop_cons :
        (s : Printf) (ch : ℕ) (fmt : List ℕ)
        → (ch == 0) ≡ false
        → printf_loop mem size s (ch ∷ fmt)
          ≡ (printf_step mem size s ch >>= λ s'. printf_loop mem size s' fmt)
    unfolding printf_loop
    loop_cons s ch fmt more = rw more refl

    pub step_pre :
        (s : Printf) (ch : ℕ)
        → is_pre s.state ≡ true
        → printf_step mem size s ch ≡ pre_step mem size s ch
    unfolding printf_step
    step_pre s ch pre = rw pre refl

    pub step_percent :
        (width flag : ℕ) (args out : List ℕ)
        → printf_step mem size (at s_char width flag args out) b'%'
          ≡ some (at s_pre_flag 0 b' ' args out)
    unfolding printf_step
    step_percent width flag args out = refl

    pub step_char :
        (c width flag : ℕ) (args out : List ℕ)
        → (c == b'%') ≡ false
        → printf_step mem size (at s_char width flag args out) c
          ≡ emit mem size (at s_char width flag args out) s_char (c ∷ []) args
    unfolding printf_step
    step_char c width flag args out plain = rw plain refl

    pub step_flag :
        (f width flag : ℕ) (args out : List ℕ)
        → is_flag f ≡ true
        → pre_step mem size (at s_pre_flag width flag args out) f
          ≡ some (at s_pre_width width f args out)
    unfolding pre_step
    step_flag f width flag args out e = rw e refl

    pub step_digit :
        (d : ℕ) (state : PrintfState) (width flag : ℕ) (args out : List ℕ)
        → d < 10
        → is_flag_or_width state ≡ true
        → pre_step mem size (at state width flag args out) (b'0' + d)
          ≡ some (at state ((width * 10 % 2 ^ 16 + d) % 2 ^ 16) flag args out)
    unfolding pre_step
    step_digit d state width flag args out h fw =
        let no_flag : is_flag (b'0' + d) ≡ false = ground arith in
        let digit : is_digit (b'0' + d) ≡ true = ground arith in
        rw (no_flag, digit, fw)
          (ap (λ k. some (at state ((width * 10 % 2 ^ 16 + k) % 2 ^ 16) flag args out))
            (omega arith))

    pub step_last :
        (s : Printf) (ch : ℕ)
        → IsLast ch
        → pre_step mem size s ch ≡ (
            convert mem ch s.width s.flag s.args >>= λ (text, args').
            emit mem size s s_char text args')
    unfolding pre_step
    step_last s ch (_, no_flag, no_digit, no_dot) = rw (no_flag, no_digit, no_dot) refl
