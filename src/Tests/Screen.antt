-- ===== src/Tests/Screen.antt =====
-- The console of myLoader/io/disp.c.
use porcelix.Prelude.{
  ℕ, ◌+◌, ◌-◌, ◌*◌, ◌^◌, ◌<◌, ◌≡◌, ◌≢◌, refl, true, false, some, none, List, [], ◌∷◌, ◌++◌, arith,
  length, length-replicate, replicate, get_elem?, ltb, if◌then◌else◌,
}
use porcelix.Prelude.Mem.{◌>>=◌, All}
use porcelix.Str.{str2num}
use porcelix.Str.Number.{value}
use porcelix.Console.Vga.{Vga, dec16, scroll, vga_bks, put_char, vga_console_write, disp_init}
use porcelix.Console.Vga.Scroll.{IsScrolled, scroll-IsScrolled}
use porcelix.Console.Vga.Bounds.{IsVga}
use porcelix.Console.Vga.Write.{vga_console_write-IsVga, disp_init-IsVga}
use porcelix.Console.Vga.Cursor.{vga_bks-put_char}
use porcelix.Console.Format.{
  num_fmt, printk, n2c, push, num_loop, align, text_of, conv_dec, conv_str, convert,
}
use porcelix.Console.Format.Number.{str2num-num_fmt}
use porcelix.Console.Format.Pieces.{Piece, char, field, IsPiece, render_all}
use porcelix.Console.Format.Print.{sources, printk-IsVga}
use porcelix.Console.Format.Meaning.{numeral, signed, pad, string, shape, means, spell_all}

-- A screen of 40 columns and 2 lines, with the cursor in the last line.
abbrev screen : Vga
screen = record {
  x_pos = 3;
  y_pos = 1;
  x_max = 40;
  y_max = 2;
  ram = replicate 80 0x741;
  r14 = 0;
  r15 = 43;
  spcdisp_swch = true;
  spcbuff = replicate 32 b'-';
}

screen-IsVga : IsVga screen
screen-IsVga = record {
  wide = omega arith;
  high = omega arith;
  room = omega (arith, length-replicate {A = ℕ} 80 0x741);
  small = (omega arith, omega arith);
  spc = (length-replicate {A = ℕ} 32 b'-', omega arith);
}

scroll-IsScrolled_example :
    (ram : List ℕ) × (scroll screen ≡ some (record screen { ram = ram; y_pos = dec16 1 }))
    × IsScrolled 40 (40 * (2 - 1)) (replicate 80 0x741) ram
scroll-IsScrolled_example = scroll-IsScrolled screen (omega arith) (omega arith) screen-IsVga.room

vga_console_write-IsVga_example :
    (v : Vga) × (vga_console_write screen (b'a' ∷ b'\n' ∷ [] ++ 0 ∷ []) 2 ≡ some v) × IsVga v
vga_console_write-IsVga_example =
    vga_console_write-IsVga screen (b'a' ∷ b'\n' ∷ []) [] 2 screen-IsVga

abbrev wide_screen : Vga
wide_screen = record {
  x_pos = 79;
  y_pos = 24;
  x_max = 80;
  y_max = 25;
  ram = replicate 2000 0;
  r14 = 0;
  r15 = 0;
  spcdisp_swch = false;
  spcbuff = replicate 32 0;
}

disp_init-IsVga_example :
    (v : Vga) × (disp_init wide_screen ≡ some v)
    × IsVga v
    × (v.x_max ≡ 80)
    × (v.y_max ≡ 25)
    × (v.x_pos ≡ 0)
    × (v.y_pos ≡ 0)
    × ((q : ℕ) → q < 2000 → get_elem? v.ram q ≡ some 0x720)
disp_init-IsVga_example =
    disp_init-IsVga wide_screen (omega (arith, length-replicate {A = ℕ} 2000 0))
      (length-replicate {A = ℕ} 32 0)

vga_bks-put_char_example :
    (v : Vga) × ((put_char screen b'q' >>= vga_bks) ≡ some v)
    × (v.x_pos ≡ 3)
    × (v.y_pos ≡ 1)
    × (get_elem? v.ram (40 * 1 + 3) ≡ some 0x720)
    × ((q : ℕ) → q ≢ 40 * 1 + 3 → get_elem? v.ram q ≡ get_elem? screen.ram q)
vga_bks-put_char_example =
    vga_bks-put_char screen b'q' screen-IsVga (refl, refl, refl) (omega arith)

str2num-num_fmt_example :
    (num_fmt 4096 10 0 0 b' ' >>= λ text. str2num (text ++ 0 ∷ [])) ≡ some 4096
str2num-num_fmt_example = str2num-num_fmt 4096 b' ' [] (omega arith)

-- "n=% 4d %s" with -7 and the address 5, where "ok" stands.
abbrev pieces : List Piece
pieces =
    char b'n' ∷ char b'=' ∷ field (some b' ') (4 ∷ []) b'd' ∷ char b' ' ∷ field none [] b's' ∷ []

abbrev memory : ℕ → List ℕ
memory a = if ltb a 5 then [] else b'o' ∷ b'k' ∷ 0 ∷ []

pieces-IsPiece : All IsPiece pieces
pieces-IsPiece = (
  (refl, refl),
  (
    (refl, refl),
    (
      (refl, (omega arith, tt), (refl, refl, refl, refl)),
      ((refl, refl), ((tt, tt, (refl, refl, refl, refl)), tt)),
    ),
  ),
)

abbrev two_args : List ℕ
two_args = (2 ^ 32 - 7) ∷ 5 ∷ []

abbrev shown : List ℕ
shown = b'n' ∷ b'=' ∷ b' ' ∷ b' ' ∷ b'-' ∷ b'7' ∷ b' ' ∷ b'o' ∷ b'k' ∷ []

meaning : render_all memory pieces two_args ≡ some shown
unfolding render_all convert conv_dec conv_str text_of num_fmt num_loop push align n2c value
meaning = refl

spelled : spell_all memory pieces two_args ≡ some shown
unfolding spell_all means shape pad signed numeral string value
spelled = refl

printk-IsVga_example :
    (v : Vga) × (printk memory screen (sources pieces ++ 0 ∷ []) two_args ≡ some v)
    × (vga_console_write screen (shown ++ 0 ∷ []) (length shown) ≡ some v)
    × IsVga v
printk-IsVga_example =
    printk-IsVga memory screen pieces two_args [] shown screen-IsVga pieces-IsPiece meaning
      (omega arith)
