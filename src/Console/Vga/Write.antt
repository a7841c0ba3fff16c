-- ===== src/Console/Vga/Write.antt =====
-- The loop of `vga_console_write` (myLoader/io/disp.c) and the text on the right of line 0.
use native.Mathlib.Nat.{le-mul_of_pos_right}
use porcelix.Prelude.{
  ℕ, zero, suc, ◌+◌, ◌-◌, ◌*◌, ◌≤◌, ◌<◌, ◌≡◌, refl, inl, inr, Bool, true, false, Option, some, List,
  [], ◌∷◌, ◌++◌, arith, ltb, length, get_elem?, set, length-set, replicate, length-replicate,
  Bool-cases, ◌==◌, if◌then◌else◌, ◌∙◌,
}
use porcelix.Prelude.Mem.{store_in}
use porcelix.Console.Vga.{
  Vga, pix, vga_write_loop, show_from, show_spcbuff, spcbuffsize, copy_in, vga_console_write,
  vga_console_spcdisp, vga_screen_clear, vga_set_cursal, vga_console_init, disp_init,
}
use porcelix.Console.Vga.Scroll.{memset_u16-IsFilled}
use porcelix.Console.Vga.Bounds.{IsVga, vga_write_char-IsVga}

-- The call returns, and the screen is well formed afterwards.
abbrev pub IsDone : Option Vga → Type 0
IsDone o = (v : Vga) × (o ≡ some v) × IsVga v

vga_write_loop-IsVga :
    (v : Vga) (str rest : List ℕ) (len : ℕ)
    → IsVga v
    → IsDone (vga_write_loop v (str ++ 0 ∷ rest) len)
unfolding vga_write_loop
vga_write_loop-IsVga v [] rest zero i = (v, refl, i)
vga_write_loop-IsVga v [] rest (suc len) i = (v, refl, i)
vga_write_loop-IsVga v (ch ∷ str) rest zero i = (v, refl, i)
vga_write_loop-IsVga v (ch ∷ str) rest (suc len) i =
    let (v1, run1, i1) = vga_write_char-IsVga v i ch in
    let (v2, run2, i2) = vga_write_loop-IsVga v1 str rest len i1 in
    elim (Bool-cases (ch == 0)) [
      | inl done ↦ (v, rw done refl, i)
      | inr more ↦ (v2, rw (more, run1) run2, i2)
    ]

show_from_in :
    (ram : List ℕ) (dst : ℕ) (chs : List ℕ)
    → dst + length chs ≤ length ram
    → (ram' : List ℕ) × (show_from ram dst chs ≡ some ram') × (length ram' ≡ length ram)
unfolding show_from
show_from_in ram dst [] h = (ram, refl, refl)
show_from_in ram dst (ch ∷ chs) h =
    let ram1 = set ram dst (pix ch) in
    let (ram', run, size) =
      show_from_in ram1 (dst + 1) chs (omega (arith, length-set ram dst (pix ch))) in
    (ram', rw (store_in ram dst (pix ch) (omega arith)) run, size ∙ length-set ram dst (pix ch))

show_spcbuff-IsVga : (v : Vga) → IsVga v → IsDone (show_spcbuff v)
unfolding show_spcbuff
show_spcbuff-IsVga v i =
    let (size, narrow) = i.spc in
    let line : v.x_max ≤ v.x_max * v.y_max = le-mul_of_pos_right v.x_max (omega (arith, i.high)) in
    let (ram, run, same) =
      show_from_in v.ram (v.x_max - spcbuffsize) v.spcbuff
        (omega (arith, size, narrow, line, i.room)) in
    elim (Bool-cases v.spcdisp_swch) [
      | inl on ↦ (
        record v { ram = ram },
        rw (on, run) refl,
        record {
          wide = i.wide;
          high = i.high;
          room = rw same i.room;
          small = i.small;
          spc = i.spc;
        },
      )
      | inr off ↦ (v, rw off refl, i)
    ]

-- On a well formed screen `vga_console_write` of a string returns, whatever characters it holds and
-- whatever length is asked for: no write leaves the video memory, and the screen is well formed
-- again, with the cursor on it.
pub vga_console_write-IsVga :
    (v : Vga) (str rest : List ℕ) (len : ℕ)
    → IsVga v
    → (v' : Vga) × (vga_console_write v (str ++ 0 ∷ rest) len ≡ some v') × IsVga v'
unfolding vga_console_write
vga_console_write-IsVga v str rest len i =
    let (v1, run1, i1) = vga_write_loop-IsVga v str rest len i in
    let (v2, run2, i2) = show_spcbuff-IsVga v1 i1 in (v2, rw run1 run2, i2)

copy_in_room :
    (dst : List ℕ) (at : ℕ) (src : List ℕ) (len : ℕ)
    → at + len ≤ length dst
    → len ≤ length src
    → (dst' : List ℕ) × (copy_in dst at src len ≡ some dst') × (length dst' ≡ length dst)
unfolding copy_in
copy_in_room dst at src zero h k = (dst, refl, refl)
copy_in_room dst at [] (suc len) h k = absurd (omega arith)
copy_in_room dst at (c ∷ src) (suc len) h k =
    let dst1 = set dst at c in
    let (dst', run, size) =
      copy_in_room dst1 (at + 1) src len (omega (arith, length-set dst at c)) (omega arith) in
    (dst', rw (store_in dst at c (omega arith)) run, size ∙ length-set dst at c)

-- On a well formed screen `vga_console_spcdisp` of a buffer with `len` bytes, or of none where it
-- switches the text off, returns and leaves a well formed screen: a text longer than the place for
-- it is cut.
pub vga_console_spcdisp-IsVga :
    (v : Vga) (buf : List ℕ) (len : ℕ) (swch : Bool)
    → IsVga v
    → len ≤ length buf
    → (v' : Vga) × (vga_console_spcdisp v buf len swch ≡ some v') × IsVga v'
unfolding vga_console_spcdisp
vga_console_spcdisp-IsVga v buf len false i h =
    (_, refl, record { wide = i.wide; high = i.high; room = i.room; small = i.small; spc = i.spc })
vga_console_spcdisp-IsVga v buf len true i h =
    let n = if ltb spcbuffsize len then spcbuffsize else len in
    let cut : (n ≤ spcbuffsize) × (n ≤ length buf) = ground arith in
    let blank : length {A = ℕ} (replicate spcbuffsize 0) ≡ spcbuffsize =
      length-replicate {A = ℕ} spcbuffsize 0 in
    let (spcbuff, run, size) =
      copy_in_room (replicate spcbuffsize 0) (spcbuffsize - n) buf n (omega (arith, cut)) cut.1 in
    let (v', run', i') =
      show_spcbuff-IsVga (record v { spcbuff = spcbuff; spcdisp_swch = true })
        (record {
          wide = i.wide;
          high = i.high;
          room = i.room;
          small = i.small;
          spc = (size ∙ blank, i.spc.1);
        }) in
    (v', rw run run', i')

-- With room for 80 columns and 25 lines in the video memory, and a buffer of 32 bytes for the
-- text on the right of line 0, `disp_init` up to its messages leaves a well formed screen of this
-- size, blank and with the cursor in its corner.
pub disp_init-IsVga :
    (v : Vga)
    → 2000 ≤ length v.ram
    → length v.spcbuff ≡ spcbuffsize
    → (v' : Vga) × (disp_init v ≡ some v')
      × IsVga v'
      × (v'.x_max ≡ 80)
      × (v'.y_max ≡ 25)
      × (v'.x_pos ≡ 0)
      × (v'.y_pos ≡ 0)
      × ((q : ℕ) → q < 2000 → get_elem? v'.ram q ≡ some 0x720)
unfolding disp_init vga_screen_clear vga_console_init vga_set_cursal
disp_init-IsVga v room spc =
    let (ram, run, f) = memset_u16-IsFilled v.ram 0 0x720 2000 (omega arith) in
    (
      vga_set_cursal (record (vga_console_init v) { ram = ram; x_pos = 0; y_pos = 0 }),
      rw run refl,
      record {
        wide = omega arith;
        high = omega arith;
        room = omega (arith, f.size);
        small = (omega arith, omega arith);
        spc = (spc, omega arith);
      },
      refl,
      refl,
      refl,
      refl,
      λ q h. f.filled q (omega arith) (omega arith),
    )
