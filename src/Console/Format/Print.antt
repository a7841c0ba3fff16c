-- ===== src/Console/Format/Print.antt =====
-- `vsprintf` (myLoader/io/disp.c) writes what the pieces of its format mean, and `printk` shows it.
use mathlib.Core.List.{append_assoc, append-nil}
use porcelix.Prelude.{
  ℕ, ◌+◌, ◌%◌, ◌^◌, ◌<◌, ◌≡◌, refl, true, false, Bool-cases, inl, inr, Option, none, some, List, [],
  ◌∷◌, ◌++◌, arith, length, length-append, ltb, leb, if◌then◌else◌, ap, sym, ◌∙◌, leb→lt, le→ltb,
  lt→ltb,
}
use porcelix.Prelude.Mem.{◌>>=◌, All}
use porcelix.Console.Vga.{Vga, vga_console_write}
use porcelix.Console.Vga.Bounds.{IsVga}
use porcelix.Console.Vga.Write.{vga_console_write-IsVga}
use porcelix.Console.Format.{s_char, emit, printf_loop, vsprintf, printk}
use porcelix.Console.Format.Pieces.{Piece, source, IsPiece, render, render_all, at}
use porcelix.Console.Format.Fields.{after, loop_piece}

unfoldable pub sources : List Piece → List ℕ
sources [] = []
sources (p ∷ ps) = source p ++ sources ps

module _ (mem : ℕ → List ℕ) (size : ℕ) where
  -- The whole text, where it and the zero behind it fit.
  abbrev fits : List ℕ → Option (List ℕ)
  fits text = if ltb (length text) size then some text else none

  too_long :
      (o : Option (List ℕ)) (out text : List ℕ)
      → size < length out + length text
      → ((o >>= λ rest. some (text ++ rest)) >>= λ t. fits (out ++ t)) ≡ none
  too_long none out text h = refl
  too_long (some rest) out text h =
      rw
        (le→ltb (length (out ++ (text ++ rest))) size
          (omega (arith, length-append out (text ++ rest), length-append text rest)))
        refl

  regroup_text :
      (o : Option (List ℕ)) (out text : List ℕ)
      → (o >>= λ t. fits (out ++ text ++ t))
        ≡ ((o >>= λ rest. some (text ++ rest)) >>= λ t. fits (out ++ t))
  regroup_text none out text = refl
  regroup_text (some rest) out text = ap fits (append_assoc out text rest)

  emit_room :
      (width flag : ℕ) (args out text args' : List ℕ)
      → leb (length out + length text) size ≡ true
      → emit mem size (at mem size s_char width flag args out) s_char text args'
        ≡ some (at mem size s_char width flag args' (out ++ text))
  unfolding emit
  emit_room width flag args out text args' e = rw e refl

  emit_full :
      (width flag : ℕ) (args out text args' : List ℕ)
      → leb (length out + length text) size ≡ false
      → emit mem size (at mem size s_char width flag args out) s_char text args' ≡ none
  unfolding emit
  emit_full width flag args out text args' e = rw e refl

  -- Behind a piece, where the rest of the format is as it should be.
  after_fits :
      (o : Option (List ℕ × List ℕ)) (ps : List Piece) (width flag : ℕ) (args out fmt : List ℕ)
      → ((w f : ℕ) (a o : List ℕ)
          → printf_loop mem size (at mem size s_char w f a o) fmt
            ≡ (render_all mem ps a >>= λ text. fits (o ++ text)))
      → after mem size o (at mem size s_char width flag args out) fmt ≡ (
          (o >>= λ (text, args'). render_all mem ps args' >>= λ rest'. some (text ++ rest'))
          >>= λ text. fits (out ++ text))
  after_fits none ps width flag args out fmt more = refl
  after_fits (some (text, args')) ps width flag args out fmt more =
      elim (Bool-cases (leb (length out + length text) size)) [
        | inl room ↦
            ap (λ o. o >>= λ s'. printf_loop mem size s' fmt)
              (emit_room width flag args out text args' room)
            ∙ more width flag args' (out ++ text)
            ∙ regroup_text (render_all mem ps args') out text
        | inr full ↦
            ap (λ o. o >>= λ s'. printf_loop mem size s' fmt)
              (emit_full width flag args out text args' full)
            ∙ sym (too_long (render_all mem ps args') out text (leb→lt _ _ full))
      ]

  loop_nil :
      (width flag : ℕ) (args out rest : List ℕ)
      → printf_loop mem size (at mem size s_char width flag args out) (0 ∷ rest) ≡ fits out
  unfolding printf_loop
  loop_nil width flag args out rest = refl

  loop_pieces :
      (ps : List Piece) (width flag : ℕ) (args out rest : List ℕ)
      → All IsPiece ps
      → printf_loop mem size (at mem size s_char width flag args out) (sources ps ++ 0 ∷ rest)
        ≡ (render_all mem ps args >>= λ text. fits (out ++ text))
  unfolding sources render_all
  loop_pieces [] width flag args out rest all =
      loop_nil width flag args out rest ∙ ap fits (sym (append-nil out))
  loop_pieces (p ∷ ps) width flag args out rest (ok, all) =
      let (width', flag', run) =
        loop_piece mem size p width flag args out (sources ps ++ 0 ∷ rest) ok in
      ap (printf_loop mem size (at mem size s_char width flag args out))
        (append_assoc (source p) (sources ps) (0 ∷ rest))
      ∙ run
      ∙ after_fits (render mem p args) ps width' flag' args out (sources ps ++ 0 ∷ rest)
          (λ w f a o. loop_pieces ps w f a o rest all)

  -- `vsprintf` of a format that is a sequence of characters, none of them 0 or %, and of fields,
  -- each of a flag or none, the digits of a width and a last character that is none of these, no
  -- point and no zero, writes what the characters and the fields mean, one behind the other,
  -- where each field has what it needs and the text and its zero fit into the buffer; otherwise
  -- the call fails.
  pub vsprintf-render_all :
      (ps : List Piece) (args rest : List ℕ)
      → All IsPiece ps
      → vsprintf mem size (sources ps ++ 0 ∷ rest) args
        ≡ (render_all mem ps args >>= λ text. if ltb (length text) size then some text else none)
  unfolding vsprintf
  vsprintf-render_all ps args rest all = loop_pieces ps 0 b' ' args [] rest all

-- On a well formed screen `printk` of a format that is a sequence of characters and fields
-- (`IsPiece`), whose text has less than 512 bytes, writes the text to the console as it is and
-- returns, and the screen is well formed afterwards.
pub printk-IsVga :
    (mem : ℕ → List ℕ) (v : Vga) (ps : List Piece) (args rest text : List ℕ)
    → IsVga v
    → All IsPiece ps
    → render_all mem ps args ≡ some text
    → length text < 512
    → (v' : Vga) × (printk mem v (sources ps ++ 0 ∷ rest) args ≡ some v')
      × (vga_console_write v (text ++ 0 ∷ []) (length text) ≡ some v')
      × IsVga v'
unfolding printk
printk-IsVga mem v ps args rest text i all e short =
    let (v', run, i') = vga_console_write-IsVga v text [] (length text) i in
    let whole : vsprintf mem 512 (sources ps ++ 0 ∷ rest) args ≡ some text =
      vsprintf-render_all mem 512 ps args rest all ∙ rw (e, lt→ltb (length text) 512 short) refl in
    let len : length text % 2 ^ 16 ≡ length text = omega arith in (v', rw (whole, len) run, run, i')
