-- ===== src/Kbd/Decode.antt =====
-- What the interrupt handler of myLoader/io/kbd.c makes of a scan code.
use porcelix.Prelude.{
  ℕ, zero, suc, ◌-◌, ◌*◌, ◌/◌, ◌^◌, ◌<◌, ◌≡◌, refl, inl, inr, Bool, true, false, not, ◌&&◌, ◌||◌,
  List, [], ◌∷◌, ◌++◌, arith, length, ap, ◌∙◌, ◌==◌, leb, if◌then◌else◌, Bool-cases, bit_and,
}
use porcelix.Kbd.{
  Kbd, kbd_int, kbd_rawbuff_insert, key_char, caps, map_at, kbd_shiftup_map, kbd_shiftdown_map,
}
use porcelix.Prelude.Bits.{bit_and_mask, bit_and_shift}
use porcelix.Kbd.Queue.{IsRing, queue, kbd_rawbuff_insert-queue}

abbrev pub is_lower : ℕ → Bool
is_lower ch = leb b'a' ch && leb ch b'z'

-- Two tables in which every small letter of the first stands against its capital in the second.
agree : List ℕ → List ℕ → Bool
agree [] down = true
agree (u ∷ up) [] = not (is_lower u) && agree up []
agree (u ∷ up) (d ∷ down) = (not (is_lower u) || d == u - 32) && agree up down

maps_agree : agree kbd_shiftup_map kbd_shiftdown_map ≡ true
unfolding agree
maps_agree = refl

agree_at :
    (up down : List ℕ) (i : ℕ)
    → agree up down ≡ true
    → is_lower (map_at up i) ≡ true
    → map_at down i ≡ map_at up i - 32
unfolding agree
agree_at [] down i h l = ground arith
agree_at (u ∷ up) [] zero h l = ground arith
agree_at (u ∷ up) [] (suc i) h l = agree_at up [] i (ground arith) l
agree_at (u ∷ up) (d ∷ down) zero h l = ground arith
agree_at (u ∷ up) (d ∷ down) (suc i) h l = agree_at up down i (ground arith) l

-- On a letter key, `SHIFT` and `CAP` each give the capital letter, and both together the small one.
pub caps-key_char :
    (shift cap : Bool) (code : ℕ)
    → is_lower (key_char false code) ≡ true
    → (if cap then caps (key_char shift code) else key_char shift code) ≡ (
        if (if cap then not shift else shift)
        then key_char false code - 32
        else key_char false code)
unfolding caps key_char
caps-key_char shift cap code h =
    let down = agree_at kbd_shiftup_map kbd_shiftdown_map code maps_agree h in ground arith

pressed : (code : ℕ) → code < 128 → (bit_and code 0x7f ≡ code) × (bit_and code 0x80 ≡ 0)
pressed code h =
    let high : code / 2 ^ 7 ≡ 0 = omega arith in
    (
      bit_and_mask 7 code ∙ omega arith,
      bit_and_shift 7 code 1 ∙ ap (λ (t : ℕ). bit_and t 1 * 2 ^ 7) high,
    )

-- A letter key is none of the keys that change the state.
letter_code :
    (code key : ℕ)
    → is_lower (key_char false code) ≡ true
    → is_lower (key_char false key) ≡ false
    → (code == key) ≡ false
letter_code code key h k = elim (Bool-cases (code == key)) [
  | inr other ↦ other
  | inl same ↦
      let e : code ≡ key = ground arith in
      ground (arith, h, k, ap (λ t. is_lower (key_char false t)) e)
]

other_shift : is_lower (key_char false 0x2a) ≡ false
unfolding key_char
other_shift = refl

other_shift_right : is_lower (key_char false 0x36) ≡ false
unfolding key_char
other_shift_right = refl

other_cap : is_lower (key_char false 0x3a) ≡ false
unfolding key_char
other_cap = refl

letter_some : (u d : ℕ) → is_lower u ≡ true → d ≡ u - 32 → ((u == 0) ≡ false) × ((d == 0) ≡ false)
letter_some u d h e = ground arith

key_char_some :
    (shift : Bool) (code : ℕ)
    → is_lower (key_char false code) ≡ true
    → (key_char shift code == 0) ≡ false
unfolding key_char
key_char_some true code h =
    (letter_some (map_at kbd_shiftup_map code) (map_at kbd_shiftdown_map code) h
      (agree_at kbd_shiftup_map kbd_shiftdown_map code maps_agree h)).1
key_char_some false code h =
    (letter_some (map_at kbd_shiftup_map code) (map_at kbd_shiftdown_map code) h
      (agree_at kbd_shiftup_map kbd_shiftdown_map code maps_agree h)).0

-- The handler on the press and the release of the left `SHIFT`.
shift_down : (k : Kbd) → kbd_int k 0x2a ≡ record k { state_shift = true }
unfolding kbd_int
shift_down k = refl

shift_up : (k : Kbd) → kbd_int k 0xaa ≡ record k { state_shift = false }
unfolding kbd_int
shift_up k = refl

-- The key of a letter, pressed.
press_letter :
    (k : Kbd) (code : ℕ)
    → code < 128
    → is_lower (key_char false code) ≡ true
    → kbd_int k code ≡ record k {
      raw =
          (kbd_rawbuff_insert k.raw (
            if (if k.state_cap then not k.state_shift else k.state_shift)
            then key_char false code - 32
            else key_char false code)).0;
    }
unfolding kbd_int
press_letter k code small h =
    let (low, high) = pressed code small in
    rw
      (
        low,
        high,
        letter_code code 0x2a h other_shift,
        letter_code code 0x36 h other_shift_right,
        letter_code code 0x3a h other_cap,
        key_char_some k.state_shift code h,
        caps-key_char k.state_shift k.state_cap code h,
      )
      refl

under_shift :
    (cap : Bool) (a b : ℕ)
    → (if (if cap then not true else true) then a else b) ≡ (if cap then b else a)
under_shift true a b = refl
under_shift false a b = refl

-- The state after the three codes.
shifted :
    (k : Kbd) (code : ℕ)
    → code < 128
    → is_lower (key_char false code) ≡ true
    → kbd_int (kbd_int (kbd_int k 0x2a) code) 0xaa ≡ record {
      state_shift = false;
      state_cap = k.state_cap;
      raw =
          (kbd_rawbuff_insert k.raw
            (if k.state_cap then key_char false code else key_char false code - 32)).0;
    }
shifted k code small h =
    let held : Kbd = record k { state_shift = true } in
    let typed : Kbd = record held {
      raw =
          (kbd_rawbuff_insert k.raw (
            if (if k.state_cap then not true else true)
            then key_char false code - 32
            else key_char false code)).0;
    } in
    ap (λ (t : Kbd). kbd_int (kbd_int t code) 0xaa) (shift_down k)
    ∙ ap (λ (t : Kbd). kbd_int t 0xaa) (press_letter held code small h)
    ∙ shift_up typed
    ∙ rw (under_shift k.state_cap (key_char false code - 32) (key_char false code)) refl

-- `SHIFT` held down over a letter key, from a state with a well-formed buffer in which it is not:
-- the letter is put behind the characters that wait, if there are fewer than 255 of them, as the
-- capital letter, or as the small letter where `CAP` is on; the states of `SHIFT` and `CAP` are as
-- before.
pub kbd_int_shifted :
    (k : Kbd) (code : ℕ)
    → code < 128
    → is_lower (key_char false code) ≡ true
    → IsRing k.raw
    → k.state_shift ≡ false
    → length (queue k.raw) < 255
    → (queue (kbd_int (kbd_int (kbd_int k 0x2a) code) 0xaa).raw
        ≡ queue k.raw
          ++ (if k.state_cap then key_char false code else key_char false code - 32) ∷ [])
      × IsRing (kbd_int (kbd_int (kbd_int k 0x2a) code) 0xaa).raw
      × ((kbd_int (kbd_int (kbd_int k 0x2a) code) 0xaa).state_shift ≡ false)
      × ((kbd_int (kbd_int (kbd_int k 0x2a) code) 0xaa).state_cap ≡ k.state_cap)
kbd_int_shifted k code small h ring up room =
    let ch = if k.state_cap then key_char false code else key_char false code - 32 in
    let (ring', bound, added, woken) = kbd_rawbuff_insert-queue k.raw ch ring in
    let less : (length (queue k.raw) == 255) ≡ false = ground arith in
    rw (shifted k code small h) (rw less at added, ring', refl, refl)
