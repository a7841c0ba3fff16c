-- ===== src/Tests/Keys.antt =====
-- The keyboard of myLoader/io/kbd.c.
use porcelix.Prelude.{
  ◌-◌, ◌≤◌, ◌≡◌, refl, true, false, not, [], ◌∷◌, ◌++◌, arith, length, replicate, ◌==◌,
  if◌then◌else◌,
}
use porcelix.Kbd.{Kbd, RawBuff, kbd_int, kbd_rawbuff_insert, key_char}
use porcelix.Kbd.Queue.{IsRing, GetCharReturns, queue, kbd_rawbuff_insert-queue, kbd_get_char-queue}
use porcelix.Kbd.Ring.{items}
use porcelix.Kbd.Decode.{is_lower, kbd_int_shifted}

-- One character waits, in the last place of the ring.
abbrev raw : RawBuff
raw = record { buff = replicate 256 b'x'; readpos = 255; writepos = 0 }

raw-IsRing : IsRing raw
raw-IsRing = record { size = refl; read = omega arith; write = omega arith }

kbd_rawbuff_insert-queue_example :
    IsRing (kbd_rawbuff_insert raw b'a').0
    × (length (queue raw) ≤ 255)
    × (queue (kbd_rawbuff_insert raw b'a').0
        ≡ (if length (queue raw) == 255 then queue raw else queue raw ++ b'a' ∷ []))
    × ((kbd_rawbuff_insert raw b'a').1 ≡ not (length (queue raw) == 255))
kbd_rawbuff_insert-queue_example = kbd_rawbuff_insert-queue raw b'a' raw-IsRing

kbd_get_char-queue_example : GetCharReturns raw 7
kbd_get_char-queue_example = kbd_get_char-queue raw 7 raw-IsRing

-- The key of the letter q.
q_key : is_lower (key_char false 0x10) ≡ true
q_key = unfold key_char in refl

abbrev keyboard : Kbd
keyboard = record { state_shift = false; state_cap = false; raw = raw }

kbd_int_shifted_example :
    (queue (kbd_int (kbd_int (kbd_int keyboard 0x2a) 0x10) 0xaa).raw
      ≡ queue keyboard.raw
        ++ (if keyboard.state_cap then key_char false 0x10 else key_char false 0x10 - 32) ∷ [])
    × IsRing (kbd_int (kbd_int (kbd_int keyboard 0x2a) 0x10) 0xaa).raw
    × ((kbd_int (kbd_int (kbd_int keyboard 0x2a) 0x10) 0xaa).state_shift ≡ false)
    × ((kbd_int (kbd_int (kbd_int keyboard 0x2a) 0x10) 0xaa).state_cap ≡ keyboard.state_cap)
kbd_int_shifted_example =
    kbd_int_shifted keyboard 0x10 (omega arith) q_key raw-IsRing refl (unfold items in omega arith)
