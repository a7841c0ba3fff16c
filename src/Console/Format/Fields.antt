-- ===== src/Console/Format/Fields.antt =====
-- What the loop of `vsprintf` (myLoader/io/disp.c) does with one piece of its format.
use mathlib.Core.List.{append_assoc}
use porcelix.Prelude.{
  ℕ, ◌+◌, ◌*◌, ◌%◌, ◌^◌, ◌<◌, ◌≡◌, refl, true, false, Option, none, some, List, [], ◌∷◌, ◌++◌, map,
  arith, ◌==◌, ap, ◌∙◌,
}
use porcelix.Prelude.Mem.{◌>>=◌, All}
use porcelix.Str.Number.{value}
use porcelix.Console.Format.{
  PrintfState, s_char, s_pre_flag, s_pre_width, s_pre_perc, s_pre_f_n_h_l, s_dec, s_oct, s_hex,
  Printf, is_pre, is_flag_or_width, convert, emit, pre_step, printf_loop,
}
use porcelix.Console.Format.Pieces.{
  Piece, char, field, flag_source, flag_of, source, IsFlag, IsPiece, render, at, loop_cons,
  step_pre, step_percent, step_char, step_flag, step_digit, step_last,
}

module _ (mem : ℕ → List ℕ) (size : ℕ) where
  loop_pre :
      (s : Printf) (ch : ℕ) (fmt : List ℕ)
      → is_pre s.state ≡ true
      → (ch == 0) ≡ false
      → printf_loop mem size s (ch ∷ fmt)
        ≡ (pre_step mem size s ch >>= λ s'. printf_loop mem size s' fmt)
  loop_pre s ch fmt pre more =
      loop_cons mem size s ch fmt more
      ∙ ap (λ o. o >>= λ s'. printf_loop mem size s' fmt) (step_pre mem size s ch pre)

  pre_of : (state : PrintfState) → is_flag_or_width state ≡ true → is_pre state ≡ true
  pre_of s_pre_flag e = refl
  pre_of s_pre_width e = refl
  pre_of s_char e = cc
  pre_of s_pre_perc e = refl
  pre_of s_pre_f_n_h_l e = refl
  pre_of s_dec e = cc
  pre_of s_oct e = cc
  pre_of s_hex e = cc

  loop_digits :
      (ds : List ℕ) (state : PrintfState) (acc flag : ℕ) (args out fmt : List ℕ)
      → is_flag_or_width state ≡ true
      → All (λ d. d < 10) ds
      → printf_loop mem size
          (at mem size state (acc % 2 ^ 16) flag args out)
          (map (λ d. b'0' + d) ds ++ fmt)
        ≡ printf_loop mem size (at mem size state (value 10 acc ds % 2 ^ 16) flag args out) fmt
  unfolding value
  loop_digits [] state acc flag args out fmt fw all = refl
  loop_digits (d ∷ ds) state acc flag args out fmt fw (h, all) =
      loop_pre (at mem size state (acc % 2 ^ 16) flag args out) (b'0' + d) _ (pre_of state fw)
        (ground arith)
      ∙ ap (λ o. o >>= λ s'. printf_loop mem size s' (map (λ d. b'0' + d) ds ++ fmt))
          (step_digit mem size d state (acc % 2 ^ 16) flag args out h fw)
      ∙ ap
          (λ w.
            printf_loop mem size (at mem size state w flag args out)
              (map (λ d. b'0' + d) ds ++ fmt))
          {x = (acc % 2 ^ 16 * 10 % 2 ^ 16 + d) % 2 ^ 16} {y = (acc * 10 + d) % 2 ^ 16}
          (omega arith)
      ∙ loop_digits ds state (acc * 10 + d) flag args out fmt fw all

  -- Behind the flag, if there is one.
  loop_flag :
      (f : Option ℕ) (args out fmt : List ℕ)
      → IsFlag f
      → (state : PrintfState) × (is_flag_or_width state ≡ true)
        × (printf_loop mem size (at mem size s_pre_flag 0 b' ' args out) (flag_source f ++ fmt)
            ≡ printf_loop mem size (at mem size state 0 (flag_of f) args out) fmt)
  loop_flag none args out fmt e = (s_pre_flag, refl, refl)
  loop_flag (some f) args out fmt e = (
    s_pre_width,
    refl,
    loop_pre (at mem size s_pre_flag 0 b' ' args out) f fmt refl (ground arith)
        ∙ ap (λ o. o >>= λ s'. printf_loop mem size s' fmt)
            (step_flag mem size f 0 b' ' args out e),
  )

  abbrev pub after : Option (List ℕ × List ℕ) → Printf → List ℕ → Option (List ℕ)
  after none s fmt = none
  after (some (text, args')) s fmt =
      emit mem size s s_char text args' >>= λ s'. printf_loop mem size s' fmt

  after_convert :
      (o : Option (List ℕ × List ℕ)) (state : PrintfState) (width flag : ℕ) (args out fmt : List ℕ)
      → ((o >>= λ (text, args').
            emit mem size (at mem size state width flag args out) s_char text args')
          >>= λ s'. printf_loop mem size s' fmt)
        ≡ after o (at mem size s_char width flag args out) fmt
  unfolding emit
  after_convert none state width flag args out fmt = refl
  after_convert (some (text, args')) state width flag args out fmt = refl

  -- One piece: what it means goes to the buffer, and the loop goes on behind it.
  pub loop_piece :
      (p : Piece) (width flag : ℕ) (args out fmt : List ℕ)
      → IsPiece p
      → (width' flag' : ℕ) × (printf_loop mem size
            (at mem size s_char width flag args out)
            (source p ++ fmt)
          ≡ after (render mem p args) (at mem size s_char width' flag' args out) fmt)
  unfolding source
  loop_piece (char c) width flag args out fmt (more, plain) = (
    width,
    flag,
    loop_cons mem size (at mem size s_char width flag args out) c fmt more
        ∙ ap (λ o. o >>= λ s'. printf_loop mem size s' fmt)
            (step_char mem size c width flag args out plain),
  )
  loop_piece (field f ds ch) width flag args out fmt (ok, all, last) =
      let shown = map (λ d. b'0' + d) ds in
      let tail = flag_source f ++ (shown ++ ch ∷ fmt) in
      let shape : flag_source f ++ (shown ++ ch ∷ []) ++ fmt ≡ tail =
        append_assoc (flag_source f) (shown ++ ch ∷ []) fmt
        ∙ ap (λ (t : List ℕ). flag_source f ++ t) (append_assoc shown (ch ∷ []) fmt) in
      let (state, fw, run) = loop_flag f args out (shown ++ ch ∷ fmt) ok in
      let w = value 10 0 ds % 2 ^ 16 in
      let s = at mem size state w (flag_of f) args out in
      (
        w,
        flag_of f,
        ap
              (λ (t : List ℕ).
                printf_loop mem size (at mem size s_char width flag args out) (b'%' ∷ t))
              shape
            ∙ loop_cons mem size (at mem size s_char width flag args out) b'%' tail refl
            ∙ ap (λ o. o >>= λ s'. printf_loop mem size s' tail)
                (step_percent mem size width flag args out)
            ∙ run
            ∙ loop_digits ds state 0 (flag_of f) args out (ch ∷ fmt) fw all
            ∙ loop_pre s ch fmt (pre_of state fw) last.0
            ∙ ap (λ o. o >>= λ s'. printf_loop mem size s' fmt) (step_last mem size s ch last)
            ∙ after_convert (convert mem ch w (flag_of f) args) state w (flag_of f) args out fmt,
      )
