-- ===== src/Console/Vga/Bounds.antt =====
-- `vga_console_write` (myLoader/io/disp.c) keeps the cursor and its writes on the screen.
use native.Mathlib.Nat.{mul-suc, mul-le-mul_left}
use porcelix.Prelude.{
  ℕ, suc, ◌+◌, ◌-◌, ◌*◌, ◌%◌, ◌^◌, ◌≤◌, ◌<◌, ◌≡◌, refl, ==→ne, ==→eq, leb→lt, inl, inr, Bool, true,
  false, some, List, arith, length, leb, ◌==◌, set, length-set, Bool-cases, bit_and,
}
use porcelix.Prelude.Mem.{store, store_in}
use porcelix.Console.Vga.{
  Vga, pix, dec16, step_back, vga_bks, wrap_line, put_char, vga_set_cursal, vga_write_char,
  spcbuffsize, vga_table_width,
}
use porcelix.Console.Vga.Scroll.{scroll-IsScrolled}

-- The screen: a size that the registers of the cursor can hold, with room in the video memory and
-- in line 0 for the text on its right, and the cursor on it.
pub record IsVga (v : Vga) : Type 0 where
  pub wide : v.x_pos < v.x_max
  pub high : v.y_pos < v.y_max
  pub room : v.x_max * v.y_max ≤ length v.ram
  pub small : (v.x_max < 2 ^ 15) × (v.y_max < 2 ^ 15)
  pub spc : (length v.spcbuff ≡ spcbuffsize) × (spcbuffsize ≤ v.x_max)

-- After a character the cursor may stand on the line behind the last.
record IsWritten (v v' : Vga) : Type 0 where
  wide : v'.x_pos < v'.x_max
  high : v'.y_pos ≤ v'.y_max
  same : (v'.x_max ≡ v.x_max) × (v'.y_max ≡ v.y_max) × (v'.spcbuff ≡ v.spcbuff)
  size : length v'.ram ≡ length v.ram

-- The place of a cursor that is on the screen.
pub place_lt : (w h x y : ℕ) → x < w → y < h → w * y + x < w * h
place_lt w h x y wide high = omega (arith, mul-suc w y, mul-le-mul_left {m = suc y} {n = h} w high)

-- A character that takes a cell.
abbrev pub IsPlain : ℕ → Type 0
IsPlain ch = ((ch == b'\n') ≡ false) × ((ch == 8) ≡ false) × ((ch == 9) ≡ false)

module _ (v : Vga) (i : IsVga v) where
  store_cell :
      (x y c : ℕ)
      → x < v.x_max
      → y < v.y_max
      → store v.ram (v.x_max * y + x) c ≡ some (set v.ram (v.x_max * y + x) c)
  store_cell x y c wide high =
      store_in v.ram (v.x_max * y + x) c
        (omega (arith, place_lt v.x_max v.y_max x y wide high, i.room))

  -- `vga_bks` away from the left edge, and at it.
  pub bks_left :
      (v.x_pos == 0) ≡ false
      → vga_bks v
        ≡ some (
            vga_set_cursal (record v {
              x_pos = dec16 v.x_pos;
              ram = set v.ram (v.x_max * v.y_pos + dec16 v.x_pos) 0x720;
            }))
  unfolding vga_bks step_back
  bks_left inner =
      let wide : dec16 v.x_pos < v.x_max = omega (arith, i.wide, i.small, ==→ne _ _ inner) in
      rw (inner, store_cell (dec16 v.x_pos) v.y_pos 0x720 wide i.high) refl

  bks_up :
      (v.x_pos == 0) ≡ true
      → (v.y_pos == 0) ≡ false
      → vga_bks v
        ≡ some (
            vga_set_cursal (record v {
              x_pos = dec16 v.x_max;
              y_pos = dec16 v.y_pos;
              ram = set v.ram (v.x_max * dec16 v.y_pos + dec16 v.x_max) 0x720;
            }))
  unfolding vga_bks step_back
  bks_up edge below =
      let wide : dec16 v.x_max < v.x_max = omega (arith, i.wide, i.small) in
      let high : dec16 v.y_pos < v.y_max = omega (arith, i.high, i.small, ==→ne _ _ below) in
      rw (edge, below, store_cell (dec16 v.x_max) (dec16 v.y_pos) 0x720 wide high) refl

  bks_corner : (v.x_pos == 0) ≡ true → (v.y_pos == 0) ≡ true → vga_bks v ≡ some v
  unfolding vga_bks
  bks_corner edge top = rw (edge, top) refl

  vga_bks-IsWritten : (v' : Vga) × (vga_bks v ≡ some v') × IsWritten v v'
  unfolding vga_set_cursal
  vga_bks-IsWritten = elim (Bool-cases (v.x_pos == 0)) [
    | inr inner ↦ (
      _,
      bks_left inner,
      record {
        wide = omega (arith, i.wide, i.small, ==→ne _ _ inner);
        high = omega (arith, i.high);
        same = (refl, refl, refl);
        size = length-set v.ram _ _;
      },
    )
    | inl edge ↦ elim (Bool-cases (v.y_pos == 0)) [
      | inl top ↦ (
        v,
        bks_corner edge top,
        record {
          wide = i.wide;
          high = omega (arith, i.high);
          same = (refl, refl, refl);
          size = refl;
        },
      )
      | inr below ↦ (
        _,
        bks_up edge below,
        record {
          wide = omega (arith, i.wide, i.small);
          high = omega (arith, i.high, i.small, ==→ne _ _ below);
          same = (refl, refl, refl);
          size = length-set v.ram _ _;
        },
      )
    ]
  ]

  -- The cursor in the column `x`, which may be past the last one.
  wrap_line-IsWritten :
      (x : ℕ) (full : Bool) (ram : List ℕ)
      → (full ≡ false → x < v.x_max)
      → length ram ≡ length v.ram
      → IsWritten v (wrap_line (record v { x_pos = x; ram = ram }) full)
  unfolding wrap_line
  wrap_line-IsWritten x true ram inside size = record {
    wide = omega (arith, i.wide);
    high = omega (arith, i.high, i.small);
    same = (refl, refl, refl);
    size = size;
  }
  wrap_line-IsWritten x false ram inside size = record {
    wide = inside refl;
    high = omega (arith, i.high);
    same = (refl, refl, refl);
    size = size;
  }

  pub put_plain :
      (ch : ℕ)
      → IsPlain ch
      → put_char v ch
        ≡ some (
            wrap_line
              (record v {
                x_pos = (v.x_pos + 1) % 2 ^ 16;
                ram = set v.ram (v.x_max * v.y_pos + v.x_pos) (pix ch);
              })
              ((v.x_pos + 1) % 2 ^ 16 == v.x_max))
  unfolding put_char
  put_plain ch (nl, bs, tab) =
      rw (nl, bs, tab, store_cell v.x_pos v.y_pos (pix ch) i.wide i.high) refl

  put_char-IsWritten : (ch : ℕ) → (v' : Vga) × (put_char v ch ≡ some v') × IsWritten v v'
  unfolding put_char wrap_line
  put_char-IsWritten ch = elim (Bool-cases (ch == b'\n')) [
    | inl nl ↦ (_, rw nl refl, wrap_line-IsWritten v.x_pos true v.ram (λ e. i.wide) refl)
    | inr nl ↦ elim (Bool-cases (ch == 8)) [
      | inl bs ↦ let (v', run, w) = vga_bks-IsWritten in (v', rw (nl, bs) run, w)
      | inr bs ↦ elim (Bool-cases (ch == 9)) [
        | inl tab ↦
            let x = bit_and (v.x_pos + vga_table_width) (2 ^ 16 - vga_table_width) in
            (
              _,
              rw (nl, bs, tab) refl,
              wrap_line-IsWritten x (leb v.x_max x) v.ram (leb→lt _ _) refl,
            )
        | inr tab ↦
            let x = (v.x_pos + 1) % 2 ^ 16 in
            (
              _,
              put_plain ch (nl, bs, tab),
              wrap_line-IsWritten x (x == v.x_max) _
                  (λ e. omega (arith, i.wide, i.small, ==→ne x v.x_max e)) (length-set v.ram _ _),
            )
      ]
    ]
  ]

  pub vga_write_char-IsVga : (ch : ℕ) → (v' : Vga) × (vga_write_char v ch ≡ some v') × IsVga v'
  unfolding vga_write_char vga_set_cursal
  vga_write_char-IsVga ch =
      let (u, run, w) = put_char-IsWritten ch in
      let (ex, ey, es) = w.same in
      let room : u.x_max * u.y_max ≤ length u.ram = rw (ex, ey, w.size) i.room in
      let small : (u.x_max < 2 ^ 15) × (u.y_max < 2 ^ 15) = rw (ex, ey) i.small in
      let spc : (length u.spcbuff ≡ spcbuffsize) × (spcbuffsize ≤ u.x_max) = rw (es, ex) i.spc in
      elim (Bool-cases (u.y_pos == u.y_max)) [
        | inl below ↦
            let (ram, up, s) =
              scroll-IsScrolled u (omega (arith, w.wide)) (omega (arith, ey, i.high)) room in
            (
              vga_set_cursal (record u { ram = ram; y_pos = dec16 u.y_pos }),
              rw (run, below, up) refl,
              record {
                wide = w.wide;
                high = omega (arith, ==→eq _ _ below, ey, i.high, small);
                room = rw s.size room;
                small = small;
                spc = spc;
              },
            )
        | inr inside ↦ (
          vga_set_cursal u,
          rw (run, inside) refl,
          record {
            wide = w.wide;
            high = omega (arith, ==→ne _ _ inside, w.high);
            room = room;
            small = small;
            spc = spc;
          },
        )
      ]
