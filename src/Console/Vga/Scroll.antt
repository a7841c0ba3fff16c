-- ===== src/Console/Vga/Scroll.antt =====
-- The loops of `vga_console_write` (myLoader/io/disp.c) that move the screen up by one line.
use native.Mathlib.Nat.{mul-zero, mul-suc}
use porcelix.Prelude.{
  ℕ, zero, suc, ◌+◌, ◌-◌, ◌*◌, ◌≤◌, ◌<◌, ◌≡◌, refl, some, List, arith, dec_lt, length, get_elem?,
  set, length-set, get_elem?-set_self, get_elem?-set_ne, sym, ap, ◌∙◌,
}
use porcelix.Prelude.Mem.{store_in, get_elem?_in}
use porcelix.Console.Vga.{Vga, memset_u16, move_line, move_lines, scroll, dec16}

-- The `n` cells from `p` on hold what stood `w` places behind them, and the rest is as it was.
pub record IsShifted (w p n : ℕ) (ram ram' : List ℕ) : Type 0 where
  pub size : length ram' ≡ length ram
  pub below : (q : ℕ) → q < p → get_elem? ram' q ≡ get_elem? ram q
  pub moved : (q : ℕ) → p ≤ q → q < p + n → get_elem? ram' q ≡ get_elem? ram (q + w)
  pub above : (q : ℕ) → p + n ≤ q → get_elem? ram' q ≡ get_elem? ram q

IsShifted-none : (w p : ℕ) (ram : List ℕ) → IsShifted w p 0 ram ram
IsShifted-none w p ram = record {
  size = refl;
  below = λ q h. refl;
  moved = λ q h k. absurd (omega arith);
  above = λ q h. refl;
}

IsShifted-append :
    {w p n p' m t : ℕ} {ram mid ram' : List ℕ}
    → IsShifted w p n ram mid
    → IsShifted w p' m mid ram'
    → p' ≡ p + n
    → t ≡ n + m
    → IsShifted w p t ram ram'
IsShifted-append {w = w} {p = p} {n = n} s t e e' = record {
  size = t.size ∙ s.size;
  below = λ q h. t.below q (omega arith) ∙ s.below q h;
  moved = λ q h k. elim (dec_lt q (p + n)) [
    | yes small ↦ t.below q (omega arith) ∙ s.moved q h small
    | no large ↦ t.moved q (omega arith) (omega arith) ∙ s.above (q + w) (omega arith)
  ];
  above = λ q h. t.above q (omega arith) ∙ s.above q (omega arith);
}

IsShifted-one :
    (w p c : ℕ) (ram : List ℕ)
    → p < length ram
    → get_elem? ram (p + w) ≡ some c
    → IsShifted w p 1 ram (set ram p c)
IsShifted-one w p c ram h e = record {
  size = length-set ram p c;
  below = λ q k. get_elem?-set_ne ram c (λ same. absurd (omega arith));
  moved = λ q k j. let same : q ≡ p = omega arith in rw same (get_elem?-set_self ram p c h ∙ sym e);
  above = λ q k. get_elem?-set_ne ram c (λ same. absurd (omega arith));
}

-- One line: the destination is `w` cells in front of the source.
move_line-IsShifted :
    (ram : List ℕ) (w j k i n : ℕ)
    → w * j ≡ w * k + w
    → 0 < w
    → w * j + i + n ≤ length ram
    → (ram' : List ℕ) × (move_line ram w j k i n ≡ some ram') × IsShifted w (w * k + i) n ram ram'
unfolding move_line
move_line-IsShifted ram w j k i zero e pos h = (ram, refl, IsShifted-none w (w * k + i) ram)
move_line-IsShifted ram w j k i (suc n) e pos h =
    let (c, read) = get_elem?_in ram (w * j + i) (omega arith) in
    let place : w * k + i < length ram = omega arith in
    let ram1 = set ram (w * k + i) c in
    let (ram', run, rest) =
      move_line-IsShifted ram1 w j k (i + 1) n e pos
        (omega (arith, length-set ram (w * k + i) c)) in
    let first =
      IsShifted-one w (w * k + i) c ram place
        (ap (get_elem? ram) {x = w * k + i + w} {y = w * j + i} (omega arith) ∙ read) in
    (
      ram',
      rw (read, store_in ram (w * k + i) c place) run,
      IsShifted-append first rest (omega arith) (omega arith),
    )

move_lines-IsShifted :
    (ram : List ℕ) (w j k n : ℕ)
    → w * j ≡ w * k + w
    → 0 < w
    → w * j + w * n ≤ length ram
    → (ram' : List ℕ) × (move_lines ram w j k n ≡ some ram') × IsShifted w (w * k) (w * n) ram ram'
unfolding move_lines
move_lines-IsShifted ram w j k zero e pos h = (
  ram,
  refl,
  record {
    size = refl;
    below = λ q _. refl;
    moved = λ q h k. absurd (omega (arith, mul-zero w));
    above = λ q _. refl;
  },
)
move_lines-IsShifted ram w j k (suc n) e pos h =
    let size = mul-suc w n in
    let (up, run, first) = move_line-IsShifted ram w j k 0 w e pos (omega arith) in
    let (ram', run', rest) =
      move_lines-IsShifted up w (j + 1) (k + 1) n (omega (arith, mul-suc w j, mul-suc w k)) pos
        (omega (arith, mul-suc w j, first.size)) in
    (
      ram',
      rw run run',
      IsShifted-append (lower first) rest (omega (arith, mul-suc w k)) (omega arith),
    )
  where
    lower : {up : List ℕ} → IsShifted w (w * k + 0) w ram up → IsShifted w (w * k) w ram up
    lower s = record {
      size = s.size;
      below = λ q h. s.below q (omega arith);
      moved = λ q h k. s.moved q (omega arith) (omega arith);
      above = λ q h. s.above q (omega arith);
    }

-- The `n` cells from `p` on hold `c`, and the rest is as it was.
pub record IsFilled (c p n : ℕ) (ram ram' : List ℕ) : Type 0 where
  pub size : length ram' ≡ length ram
  pub below : (q : ℕ) → q < p → get_elem? ram' q ≡ get_elem? ram q
  pub filled : (q : ℕ) → p ≤ q → q < p + n → get_elem? ram' q ≡ some c
  pub above : (q : ℕ) → p + n ≤ q → get_elem? ram' q ≡ get_elem? ram q

pub memset_u16-IsFilled :
    (ram : List ℕ) (p c n : ℕ)
    → p + n ≤ length ram
    → (ram' : List ℕ) × (memset_u16 ram p c n ≡ some ram') × IsFilled c p n ram ram'
unfolding memset_u16
memset_u16-IsFilled ram p c zero h = (
  ram,
  refl,
  record {
    size = refl;
    below = λ q _. refl;
    filled = λ q h k. absurd (omega arith);
    above = λ q _. refl;
  },
)
memset_u16-IsFilled ram p c (suc n) h =
    let (ram', run, rest) =
      memset_u16-IsFilled (set ram p c) (p + 1) c n (omega (arith, length-set ram p c)) in
    (
      ram',
      rw (store_in ram p c (omega arith)) run,
      record {
        size = rest.size ∙ length-set ram p c;
        below = λ q k.
            rest.below q (omega arith) ∙ get_elem?-set_ne ram c (λ same. absurd (omega arith));
        filled = λ q k j. elim (dec_lt p q) [
          | yes past ↦ rest.filled q (omega arith) (omega arith)
          | no here ↦
              let same : q ≡ p = omega arith in
              rest.below q (omega arith) ∙ rw same (get_elem?-set_self ram p c (omega arith))
        ];
        above = λ q k.
            rest.above q (omega arith) ∙ get_elem?-set_ne ram c (λ same. absurd (omega arith));
      },
    )

-- The screen, `w` cells wide, one line up: each cell but those of the last line holds what stood
-- below it, and the last line, from `last` on, is blank.
pub record IsScrolled (w last : ℕ) (ram ram' : List ℕ) : Type 0 where
  pub size : length ram' ≡ length ram
  pub moved : (q : ℕ) → q < last → get_elem? ram' q ≡ get_elem? ram (q + w)
  pub blank : (q : ℕ) → last ≤ q → q < last + w → get_elem? ram' q ≡ some 0x720
  pub above : (q : ℕ) → last + w ≤ q → get_elem? ram' q ≡ get_elem? ram q

-- Where the video memory has room for a screen of at least one line and column, `scroll` moves the
-- lines of the screen up by one, blanks the last line, leaves the memory behind the screen, and
-- takes the cursor one line up.
pub scroll-IsScrolled :
    (v : Vga)
    → 0 < v.x_max
    → 0 < v.y_max
    → v.x_max * v.y_max ≤ length v.ram
    → (ram : List ℕ) × (scroll v ≡ some (record v { ram = ram; y_pos = dec16 v.y_pos }))
      × IsScrolled v.x_max (v.x_max * (v.y_max - 1)) v.ram ram
unfolding scroll
scroll-IsScrolled v wide high room =
    let w = v.x_max in
    let n = v.y_max - 1 in
    let lines : w * v.y_max ≡ w * n + w =
      ap (λ y. w * y) {x = v.y_max} {y = suc n} (omega arith) ∙ mul-suc w n in
    let one : w * 1 ≡ w = omega arith in
    let start : w * 0 ≡ 0 = omega arith in
    let (up, run, s) = move_lines-IsShifted v.ram w 1 0 n (omega arith) wide (omega arith) in
    let (ram, run', f) = memset_u16-IsFilled up (w * n) 0x720 w (omega (arith, s.size)) in
    (
      ram,
      rw (run, run') refl,
      record {
        size = f.size ∙ s.size;
        moved = λ q h. f.below q h ∙ s.moved q (omega arith) (omega arith);
        blank = f.filled;
        above = λ q h. f.above q h ∙ s.above q (omega arith);
      },
    )
