-- ===== src/Kbd.antt =====
-- The keyboard of myLoader/io/kbd.c: the ring buffer of the characters that were typed, and the
-- interrupt handler that decodes scan codes. A scan code is read from the controller by `inb`, so
-- it is an argument. A flag says that the insertion has called `sem_signal`, on the semaphore
-- `kbd_sem` (Sem.antt), for which the reader waits.
pub mod Ring
pub mod Queue
pub mod Decode
use porcelix.Prelude.{
  ℕ, ◌+◌, ◌-◌, ◌%◌, ◌^◌, Bool, true, false, not, ◌&&◌, ◌||◌, Option, none, some, List, [], ◌∷◌,
  ◌++◌, bit_and, ltb, leb, ◌==◌, if◌then◌else◌, set, get_elem?, replicate,
}
use porcelix.Prelude.Mem.{◌>>=◌, ◌>>◌, assert}
use porcelix.Prelude.Int.{pos}
use porcelix.Sem.{Sem, sem_init, sem_wait}

-- `struct kbd_rawinput_buff`
pub record RawBuff : Type 0 where
  pub buff : List ℕ
  pub readpos : ℕ
  pub writepos : ℕ

abbrev pub kbd_rawinputbuff_size : ℕ
kbd_rawinputbuff_size = 256

-- The buffer after the call, and whether `sem_signal` was called.
pub kbd_rawbuff_insert : RawBuff → ℕ → RawBuff × Bool
kbd_rawbuff_insert b value =
    if (b.writepos + 1) % kbd_rawinputbuff_size == b.readpos then (b, false) else (
      record b {
        buff = set b.buff b.writepos value;
        writepos = (b.writepos + 1) % 2 ^ 16 % kbd_rawinputbuff_size;
      },
      true,
    )

-- `kbd_get_char` behind the wait: `none` is the failed `ASSERT` of an empty buffer.
pub take_char : RawBuff → Option (ℕ × RawBuff)
take_char b = do
  assert (not (b.writepos == b.readpos))
  ret ← get_elem? b.buff b.readpos
  some (ret, record b { readpos = (b.readpos + 1) % 2 ^ 16 % kbd_rawinputbuff_size })

-- `kbd_sem`, as `sem_init(&(kbd_sem), 0)` sets it up.
abbrev pub idle_sem : Sem
idle_sem = sem_init (pos 0)

-- What a call comes to: a character, or a blocked task, which goes on with `take_char` once it has
-- been woken up.
pub data GetChar : Type 0 where
  got : ℕ → RawBuff → Sem → GetChar
  blocked : Sem → GetChar

-- The call of the task `current` with `kbd_sem`.
pub kbd_get_char : RawBuff → Sem → ℕ → Option GetChar
kbd_get_char b kbd_sem current =
    let waited = sem_wait kbd_sem current in
    if b.writepos == b.readpos
    then if waited.1
      then some (blocked waited.0)
      else (take_char b >>= λ (ret, b'). some (got ret b' waited.0))
    else (take_char b >>= λ (ret, b'). some (got ret b' kbd_sem))

abbrev pub kbd_shiftup_map : List ℕ
kbd_shiftup_map =
    0
    ∷ 0
    ∷ b'1'
    ∷ b'2'
    ∷ b'3'
    ∷ b'4'
    ∷ b'5'
    ∷ b'6'
    ∷ b'7'
    ∷ b'8'
    ∷ b'9'
    ∷ b'0'
    ∷ b'-'
    ∷ b'='
    ∷ 8
    ∷ 9
    ∷ b'q'
    ∷ b'w'
    ∷ b'e'
    ∷ b'r'
    ∷ b't'
    ∷ b'y'
    ∷ b'u'
    ∷ b'i'
    ∷ b'o'
    ∷ b'p'
    ∷ b'['
    ∷ b']'
    ∷ 10
    ∷ 0
    ∷ b'a'
    ∷ b's'
    ∷ b'd'
    ∷ b'f'
    ∷ b'g'
    ∷ b'h'
    ∷ b'j'
    ∷ b'k'
    ∷ b'l'
    ∷ b';'
    ∷ 39
    ∷ b'`'
    ∷ 0
    ∷ 92
    ∷ b'z'
    ∷ b'x'
    ∷ b'c'
    ∷ b'v'
    ∷ b'b'
    ∷ b'n'
    ∷ b'm'
    ∷ b','
    ∷ b'.'
    ∷ b'/'
    ∷ 0
    ∷ 0
    ∷ 0
    ∷ 32
    ∷ replicate 70 0

abbrev pub kbd_shiftdown_map : List ℕ
kbd_shiftdown_map =
    0
    ∷ 0
    ∷ b'!'
    ∷ b'@'
    ∷ b'#'
    ∷ b'$'
    ∷ b'%'
    ∷ b'^'
    ∷ b'&'
    ∷ b'*'
    ∷ b'('
    ∷ b')'
    ∷ b'_'
    ∷ b'+'
    ∷ 8
    ∷ 9
    ∷ b'Q'
    ∷ b'W'
    ∷ b'E'
    ∷ b'R'
    ∷ b'T'
    ∷ b'Y'
    ∷ b'U'
    ∷ b'I'
    ∷ b'O'
    ∷ b'P'
    ∷ b'{'
    ∷ b'}'
    ∷ 10
    ∷ 0
    ∷ b'A'
    ∷ b'S'
    ∷ b'D'
    ∷ b'F'
    ∷ b'G'
    ∷ b'H'
    ∷ b'J'
    ∷ b'K'
    ∷ b'L'
    ∷ b':'
    ∷ 34
    ∷ b'~'
    ∷ 0
    ∷ b'|'
    ∷ b'Z'
    ∷ b'X'
    ∷ b'C'
    ∷ b'V'
    ∷ b'B'
    ∷ b'N'
    ∷ b'M'
    ∷ b'<'
    ∷ b'>'
    ∷ b'?'
    ∷ 0
    ∷ 0
    ∷ 0
    ∷ 32
    ∷ replicate 70 0

abbrev pub map_at : List ℕ → ℕ → ℕ
map_at map i = elim (get_elem? map i) [ none ↦ 0 | some ch ↦ ch ]

-- `if (state_cap)`: the case of a letter is turned round.
pub caps : ℕ → ℕ
caps ch =
    if leb b'a' ch && leb ch b'z'
    then ch + b'A' - b'a'
    else (if leb b'A' ch && leb ch b'Z' then ch + b'a' - b'A' else ch)

-- `state_shift`, `state_cap` and the buffer.
pub record Kbd : Type 0 where
  pub state_shift : Bool
  pub state_cap : Bool
  pub raw : RawBuff

-- The character of a key without its release bit, before the state of `CAP`.
unfoldable pub key_char : Bool → ℕ → ℕ
key_char shift code = if shift then map_at kbd_shiftdown_map code else map_at kbd_shiftup_map code

pub kbd_int : Kbd → ℕ → Kbd
kbd_int k scancode =
    let code = bit_and scancode 0x7f in
    let up = not (bit_and scancode 0x80 == 0) in
    let ch = key_char k.state_shift code in
    if code == 0x2a || code == 0x36
    then record k { state_shift = not up }
    else (if code == 0x3a
        then (if up then k else record k { state_cap = not k.state_cap })
        else (if up || ch == 0 then k else record k {
          raw = (kbd_rawbuff_insert k.raw (if k.state_cap then caps ch else ch)).0;
        }))
