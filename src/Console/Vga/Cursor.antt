-- ===== src/Console/Vga/Cursor.antt =====
-- The cursor of the VGA console (myLoader/io/disp.c).
use porcelix.Prelude.{
  ℕ, ◌+◌, ◌*◌, ◌/◌, ◌%◌, ◌^◌, ◌<◌, ◌≡◌, refl, false, some, arith, length, set, get_elem?,
  get_elem?-set_self, get_elem?-set_ne, sym, ◌≢◌, length-set, ap, ◌∙◌, bit_or, ◌==◌,
}
use porcelix.Prelude.Mem.{◌>>=◌}
use porcelix.Prelude.Bits.{bit_or_fields_left}
use porcelix.Console.Vga.{
  Vga, pix, dec16, vga_set_cursal, vga_console_init, vga_bks, put_char, wrap_line,
}
use porcelix.Console.Vga.Bounds.{IsVga, IsPlain, put_plain, bks_left, place_lt}

register_pair : (n : ℕ) → n < 2 ^ 16 → bit_or (n / 2 ^ 8 % 2 ^ 8 * 2 ^ 8 % 2 ^ 16) (n % 2 ^ 8) ≡ n
register_pair n h =
    ap (λ m. bit_or m (n % 2 ^ 8)) {x = n / 2 ^ 8 % 2 ^ 8 * 2 ^ 8 % 2 ^ 16} {y = n / 2 ^ 8 * 2 ^ 8}
      (omega arith)
    ∙ bit_or_fields_left 8 (n / 2 ^ 8) (n % 2 ^ 8) (omega arith)
    ∙ omega arith

-- `vga_console_init` reads back, for a cursor on a screen of 80 columns and 25 lines, the place
-- that `vga_set_cursal` has written into the registers of the controller.
pub vga_console_init-vga_set_cursal :
    (v : Vga)
    → v.x_max ≡ 80
    → v.x_pos < 80
    → v.y_pos < 25
    → ((vga_console_init (vga_set_cursal v)).x_pos ≡ v.x_pos)
      × ((vga_console_init (vga_set_cursal v)).y_pos ≡ v.y_pos)
unfolding vga_console_init vga_set_cursal
vga_console_init-vga_set_cursal v ex hx hy =
    let place : v.x_max * v.y_pos + v.x_pos ≡ 80 * v.y_pos + v.x_pos = rw ex refl in
    rw place (
      rw (register_pair ((80 * v.y_pos + v.x_pos) % 2 ^ 16) (omega arith))
        (omega arith, omega arith))

-- On a well formed screen, a character that takes a cell, in a column before the last, and a step
-- back: the cursor is where it was, the cell at it is blank, and no other cell has changed.
pub vga_bks-put_char :
    (v : Vga) (ch : ℕ)
    → IsVga v
    → IsPlain ch
    → v.x_pos + 1 < v.x_max
    → (v' : Vga) × ((put_char v ch >>= vga_bks) ≡ some v')
      × (v'.x_pos ≡ v.x_pos)
      × (v'.y_pos ≡ v.y_pos)
      × (get_elem? v'.ram (v.x_max * v.y_pos + v.x_pos) ≡ some 0x720)
      × ((q : ℕ) → q ≢ v.x_max * v.y_pos + v.x_pos → get_elem? v'.ram q ≡ get_elem? v.ram q)
unfolding wrap_line vga_set_cursal
vga_bks-put_char v ch i plain more =
    let p = v.x_max * v.y_pos + v.x_pos in
    let x = (v.x_pos + 1) % 2 ^ 16 in
    let ram1 = set v.ram p (pix ch) in
    let inside : (x == v.x_max) ≡ false = ground (arith, i.small) in
    let u = record v { x_pos = x; ram = ram1 } in
    let iu : IsVga u = record {
      wide = omega (arith, i.small);
      high = i.high;
      room = rw (length-set v.ram p (pix ch)) i.room;
      small = i.small;
      spc = i.spc;
    } in
    let inner : (x == 0) ≡ false = ground (arith, i.small) in
    let back : dec16 x ≡ v.x_pos = omega (arith, i.small) in
    let size : p < length ram1 = omega (
      arith,
      length-set v.ram p (pix ch),
      i.room,
      place_lt v.x_max v.y_max v.x_pos v.y_pos i.wide i.high,
    ) in
    (
      vga_set_cursal (record u { x_pos = v.x_pos; ram = set ram1 p 0x720 }),
      rw (put_plain v i ch plain, inside) (bks_left u iu inner ∙ rw back refl),
      refl,
      refl,
      get_elem?-set_self ram1 p 0x720 size,
      λ q other.
          get_elem?-set_ne ram1 0x720 (λ same. other (sym same))
          ∙ get_elem?-set_ne v.ram (pix ch) (λ same. other (sym same)),
    )
