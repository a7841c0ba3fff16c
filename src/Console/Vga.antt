-- ===== src/Console/Vga.antt =====
-- The VGA console of myLoader/io/disp.c. `ram` is the video memory from `VGA_RAMBASE` on, one number
-- for each `u16`, and an access past its end is `none`. `r14` and `r15` are the registers of the
-- controller that hold the place of the cursor. A string is the list of the bytes from the pointer
-- on, and `char` is signed.
pub mod Scroll
pub mod Bounds
pub mod Write
pub mod Cursor
use porcelix.Prelude.{
  ℕ, zero, suc, ◌+◌, ◌-◌, ◌*◌, ◌/◌, ◌%◌, ◌^◌, Bool, true, false, ◌&&◌, Option, none, some, List, [],
  ◌∷◌, ltb, leb, ◌==◌, if◌then◌else◌, bit_and, bit_or, get_elem?, replicate,
}
use porcelix.Prelude.Mem.{◌>>=◌, store}

-- `struct vga_param`, with the switch and the buffer of the text on the right of line 0 that
-- `struct console` holds.
pub record Vga : Type 0 where
  pub x_pos : ℕ
  pub y_pos : ℕ
  pub x_max : ℕ
  pub y_max : ℕ
  pub ram : List ℕ
  pub r14 : ℕ
  pub r15 : ℕ
  pub spcdisp_swch : Bool
  pub spcbuff : List ℕ

abbrev pub vga_table_width : ℕ
vga_table_width = 8

-- `ARRAY_ELEMENT_SIZE(con->spcbuff)`
abbrev pub spcbuffsize : ℕ
spcbuffsize = 32

-- `(0x7 << 8) | (unsigned short)ch`
unfoldable pub pix : ℕ → ℕ
pix ch = bit_or 0x700 (if ltb ch 128 then ch else ch + 0xff00)

unfoldable pub vga_set_cursal : Vga → Vga
vga_set_cursal v =
    let cur_cursal = (v.x_max * v.y_pos + v.x_pos) % 2 ^ 16 in
    record v { r14 = cur_cursal / 2 ^ 8 % 2 ^ 8; r15 = cur_cursal % 2 ^ 8 }

-- The cell at the cursor.
abbrev pub put_pix : Vga → ℕ → Option Vga
put_pix v value = do
  ram ← store v.ram (v.x_max * v.y_pos + v.x_pos) value
  some (record v { ram = ram })

-- `memset_u16`, from the place `dst` on.
unfoldable pub memset_u16 : List ℕ → ℕ → ℕ → ℕ → Option (List ℕ)
memset_u16 ram dst value zero = some ram
memset_u16 ram dst value (suc len) = do
  ram' ← store ram dst value
  memset_u16 ram' (dst + 1) value len

unfoldable pub vga_screen_clear : Vga → Option Vga
vga_screen_clear v = do
  ram ← memset_u16 v.ram 0 0x720 (v.x_max * v.y_max % 2 ^ 16)
  some (vga_set_cursal (record v { ram = ram; x_pos = 0; y_pos = 0 }))

-- `--` of a `u16`
abbrev pub dec16 : ℕ → ℕ
dec16 n = (n + (2 ^ 16 - 1)) % 2 ^ 16

-- The step back of `vga_bks`; in the corner there is none.
unfoldable pub step_back : Vga → Vga
step_back v =
    if v.x_pos == 0
    then record v { x_pos = dec16 v.x_max; y_pos = dec16 v.y_pos }
    else record v { x_pos = dec16 v.x_pos }

unfoldable pub vga_bks : Vga → Option Vga
vga_bks v =
    if v.x_pos == 0 && v.y_pos == 0
    then some v
    else do v' ← put_pix (step_back v) 0x720; some (vga_set_cursal v')

-- To the start of the next line where the line is full.
unfoldable pub wrap_line : Vga → Bool → Vga
wrap_line v full = if full then record v { x_pos = 0; y_pos = (v.y_pos + 1) % 2 ^ 16 } else v

-- One character, before the screen moves.
unfoldable pub put_char : Vga → ℕ → Option Vga
put_char v ch =
    if ch == b'\n'
    then some (record v { x_pos = 0; y_pos = (v.y_pos + 1) % 2 ^ 16 })
    else if ch == 8
    then vga_bks v
    else if ch == 9
    then (let x = bit_and (v.x_pos + vga_table_width) (2 ^ 16 - vga_table_width) in
        some (wrap_line (record v { x_pos = x }) (leb v.x_max x)))
    else do
      v' ← put_pix v (pix ch)
      let x = (v.x_pos + 1) % 2 ^ 16
      some (wrap_line (record v' { x_pos = x }) (x == v.x_max))

-- The inner and the outer loop that move the lines up, with the rounds left as the last argument.
unfoldable pub move_line : List ℕ → ℕ → ℕ → ℕ → ℕ → ℕ → Option (List ℕ)
move_line ram x_max j k i zero = some ram
move_line ram x_max j k i (suc n) = do
  c ← get_elem? ram (x_max * j + i)
  ram' ← store ram (x_max * k + i) c
  move_line ram' x_max j k (i + 1) n

unfoldable pub move_lines : List ℕ → ℕ → ℕ → ℕ → ℕ → Option (List ℕ)
move_lines ram x_max j k zero = some ram
move_lines ram x_max j k (suc n) = do
  ram' ← move_line ram x_max j k 0 x_max
  move_lines ram' x_max (j + 1) (k + 1) n

unfoldable pub scroll : Vga → Option Vga
scroll v = do
  up ← move_lines v.ram v.x_max 1 0 (v.y_max - 1)
  ram ← memset_u16 up (v.x_max * (v.y_max - 1)) 0x720 v.x_max
  some (record v { ram = ram; y_pos = dec16 v.y_pos })

-- One round of the loop of `vga_console_write`.
unfoldable pub vga_write_char : Vga → ℕ → Option Vga
vga_write_char v ch = do
  v' ← put_char v ch
  v'' ← if v'.y_pos == v'.y_max then scroll v' else some v'
  some (vga_set_cursal v'')

unfoldable pub vga_write_loop : Vga → List ℕ → ℕ → Option Vga
vga_write_loop v [] len = none
vga_write_loop v (ch ∷ str) zero = some v
vga_write_loop v (ch ∷ str) (suc len) =
    if ch == 0 then some v else (vga_write_char v ch >>= λ v'. vga_write_loop v' str len)

-- The text on the right of line 0, from the place `dst` on.
unfoldable pub show_from : List ℕ → ℕ → List ℕ → Option (List ℕ)
show_from ram dst [] = some ram
show_from ram dst (ch ∷ chs) = do ram' ← store ram dst (pix ch); show_from ram' (dst + 1) chs

unfoldable pub show_spcbuff : Vga → Option Vga
show_spcbuff v =
    if v.spcdisp_swch
    then (do ram ← show_from v.ram (v.x_max - spcbuffsize) v.spcbuff; some (record v { ram = ram }))
    else some v

unfoldable pub vga_console_write : Vga → List ℕ → ℕ → Option Vga
vga_console_write v str len = do v' ← vga_write_loop v str len; show_spcbuff v'

-- `memcpy` from another region: the first `len` bytes of `src` to the place `at` on.
unfoldable pub copy_in : List ℕ → ℕ → List ℕ → ℕ → Option (List ℕ)
copy_in dst at src zero = some dst
copy_in dst at [] (suc len) = none
copy_in dst at (c ∷ src) (suc len) = do dst' ← store dst at c; copy_in dst' (at + 1) src len

unfoldable pub vga_console_spcdisp : Vga → List ℕ → ℕ → Bool → Option Vga
vga_console_spcdisp v buf len false = some (record v { spcdisp_swch = false })
vga_console_spcdisp v buf len true = do
  let n = if ltb spcbuffsize len then spcbuffsize else len
  spcbuff ← copy_in (replicate spcbuffsize 0) (spcbuffsize - n) buf n
  show_spcbuff (record v { spcbuff = spcbuff; spcdisp_swch = true })

unfoldable pub vga_console_init : Vga → Vga
vga_console_init v =
    let cur_pos = bit_or (v.r14 * 2 ^ 8 % 2 ^ 16) v.r15 in
    record v { x_max = 80; y_max = 25; x_pos = cur_pos % 80; y_pos = cur_pos / 80 }

-- `disp_init`, up to its messages.
unfoldable pub disp_init : Vga → Option Vga
disp_init v = vga_screen_clear (vga_console_init v)
