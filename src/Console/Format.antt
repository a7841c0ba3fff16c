-- ===== src/Console/Format.antt =====
-- `num_fmt` and `vsprintf` of myLoader/io/disp.c, and the functions that print with them. A format
-- is the list of the bytes from the pointer on, `args` are the words behind it on the stack, and
-- `mem` says what stands in the memory from an address on. What a call writes to its buffer is the
-- list of these bytes; a write behind the buffer, a read of an argument that is not there and a
-- failed ASSERT are `none`.
pub mod Number
pub mod Pieces
pub mod Fields
pub mod Print
pub mod Meaning
pub mod Numeral
pub mod Spelled
use porcelix.Prelude.{
  ℕ, zero, suc, ◌+◌, ◌-◌, ◌*◌, ◌/◌, ◌%◌, ◌^◌, Bool, true, false, ◌&&◌, ◌||◌, Option, none, some,
  List, [], ◌∷◌, ◌++◌, ltb, leb, ◌==◌, if◌then◌else◌, length, replicate,
}
use porcelix.Prelude.Mem.{◌>>=◌, ◌>>◌, assert}
use porcelix.Console.Vga.{Vga, vga_console_write, vga_console_spcdisp, spcbuffsize}

unfoldable pub n2c : ℕ → ℕ
n2c num = if leb num 9 then num + b'0' else (num - 10 + b'A') % 2 ^ 8

-- `tempbuf[--idx] = c`, where the list is the part of the 16 bytes from `idx` on.
unfoldable pub push : ℕ → List ℕ → Option (List ℕ)
push c tempbuf = if ltb (length tempbuf) 16 then some (c ∷ tempbuf) else none

-- `while (num)`; 32 rounds are enough for a base above 1.
unfoldable pub num_loop : ℕ → ℕ → ℕ → List ℕ → Option (List ℕ)
num_loop zero num basenum tempbuf = if num == 0 then some tempbuf else none
num_loop (suc k) num basenum tempbuf =
    let rest = num_loop k (num / basenum) basenum in
    if num == 0 then some tempbuf else (push (n2c (num % basenum % 2 ^ 8)) tempbuf >>= rest)

-- The text in a field of `width` bytes.
unfoldable pub align : ℕ → ℕ → List ℕ → Option (List ℕ)
align width flag text =
    let len = length text in
    if leb width len
    then some text
    else if flag == b'#' || flag == b' '
    then some (replicate (width - len) (if flag == b'#' then b'0' else b' ') ++ text)
    else if flag == b'+'
    then some (text ++ replicate (width - len) b' ')
    else none

-- The bytes that go to `buf`; their number is returned.
unfoldable pub num_fmt : ℕ → ℕ → ℕ → ℕ → ℕ → Option (List ℕ)
num_fmt num basenum width prefix flag = do
  digits ← if num == 0 then push b'0' [] else num_loop 32 num basenum []
  text ← if prefix == 0 then some digits else push prefix digits
  align width flag text

-- `enum PRINTF_STATE`
pub data PrintfState : Type 0 where
  s_char s_pre_flag s_pre_width s_pre_perc s_pre_f_n_h_l s_dec s_oct s_hex : PrintfState

-- The local variables of `vsprintf`, with the bytes that are written in place of `idx`.
pub record Printf : Type 0 where
  pub state : PrintfState
  pub width : ℕ
  pub flag : ℕ
  pub args : List ℕ
  pub out : List ℕ

abbrev pub is_pre : PrintfState → Bool
is_pre s_pre_flag = true
is_pre s_pre_width = true
is_pre s_pre_perc = true
is_pre s_pre_f_n_h_l = true
is_pre s_char = false
is_pre s_dec = false
is_pre s_oct = false
is_pre s_hex = false

abbrev pub is_pre_flag : PrintfState → Bool
is_pre_flag s_pre_flag = true
is_pre_flag _ = false

abbrev pub is_flag_or_width : PrintfState → Bool
is_flag_or_width s_pre_flag = true
is_flag_or_width s_pre_width = true
is_flag_or_width _ = false

-- `*args++`
abbrev pub next_arg : List ℕ → Option (ℕ × List ℕ)
next_arg [] = none
next_arg (i ∷ args) = some (i, args)

-- The bytes of a string up to its zero.
unfoldable pub text_of : List ℕ → Option (List ℕ)
text_of [] = none
text_of (c ∷ src) =
    let rest = text_of src in if c == 0 then some [] else (rest >>= λ t. some (c ∷ t))

-- The conversions: what is written, and the arguments that are left.
unfoldable pub conv_dec : ℕ → ℕ → List ℕ → Option (List ℕ × List ℕ)
conv_dec width flag args = do
  (i, args') ← next_arg args
  text ←
      if leb (2 ^ 31) i
      then num_fmt ((2 ^ 32 - i) % 2 ^ 32) 10 width b'-' flag
      else num_fmt i 10 width 0 flag
  some (text, args')

unfoldable pub conv_hex : ℕ → ℕ → List ℕ → Option (List ℕ × List ℕ)
conv_hex width flag args = do
  (i, args') ← next_arg args
  text ← num_fmt i 16 width 0 flag
  some (text, args')

unfoldable pub conv_char : List ℕ → Option (List ℕ × List ℕ)
conv_char args = do (i, args') ← next_arg args; some (i % 2 ^ 8 ∷ [], args')

module _ (mem : ℕ → List ℕ) where
  unfoldable pub conv_str : List ℕ → Option (List ℕ × List ℕ)
  conv_str args = do (i, args') ← next_arg args; text ← text_of (mem i); some (text, args')

  -- The character of a conversion, or `none` for the ASSERT of the last `else`.
  unfoldable pub convert : ℕ → ℕ → ℕ → List ℕ → Option (List ℕ × List ℕ)
  convert ch width flag args =
      if ch == b'd' || ch == b'i'
      then conv_dec width flag args
      else if ch == b'x' || ch == b'X'
      then conv_hex width flag args
      else if ch == b'c'
      then conv_char args
      else if ch == b's'
      then conv_str args
      else if ch == b'%'
      then some (b'%' ∷ [], args)
      else none

  module _ (size : ℕ) where
    -- Bytes to the buffer of `size` bytes.
    unfoldable pub emit : Printf → PrintfState → List ℕ → List ℕ → Option Printf
    emit s state text args' =
        if leb (length s.out + length text) size
        then some (record s { state = state; args = args'; out = s.out ++ text })
        else none

    -- The branch of the loop for a character behind a `%`.
    unfoldable pub pre_step : Printf → ℕ → Option Printf
    pre_step s ch =
        if ch == b'#' || ch == b'+' || ch == b'-' || ch == b' '
        then assert (is_pre_flag s.state) >> some (record s { flag = ch; state = s_pre_width })
        else if leb b'0' ch && leb ch b'9'
        then (assert (is_flag_or_width s.state)
            >> some (record s { width = (s.width * 10 % 2 ^ 16 + (ch - b'0')) % 2 ^ 16 }))
        else if ch == b'.'
        then assert (is_flag_or_width s.state) >> some (record s { state = s_pre_perc })
        else do (text, args') ← convert ch s.width s.flag s.args; emit s s_char text args'

    unfoldable pub printf_step : Printf → ℕ → Option Printf
    printf_step s ch =
        if is_pre s.state
        then pre_step s ch
        else if ch == b'%'
        then some (record s { state = s_pre_flag; width = 0; flag = b' ' })
        else emit s s.state (ch ∷ []) s.args

    -- The loop, and the zero behind the text.
    unfoldable pub printf_loop : Printf → List ℕ → Option (List ℕ)
    printf_loop s [] = none
    printf_loop s (ch ∷ fmt) =
        if ch == 0
        then (if ltb (length s.out) size then some s.out else none)
        else (printf_step s ch >>= λ s'. printf_loop s' fmt)

    -- The text; its length is returned.
    unfoldable pub vsprintf : List ℕ → List ℕ → Option (List ℕ)
    vsprintf fmt args =
        printf_loop (record { state = s_char; width = 0; flag = b' '; args = args; out = [] }) fmt

  -- `printk`, with its buffer of 512 bytes.
  unfoldable pub printk : Vga → List ℕ → List ℕ → Option Vga
  printk v fmt args = do
    text ← vsprintf 512 fmt args
    vga_console_write v (text ++ 0 ∷ []) (length text % 2 ^ 16)

  -- The buffer is filled with zeros before.
  unfoldable pub conspc_printf : Vga → List ℕ → List ℕ → Option Vga
  conspc_printf v fmt args = do
    text ← vsprintf spcbuffsize fmt args
    vga_console_spcdisp v (text ++ replicate (spcbuffsize - length text) 0) (length text % 2 ^ 16)
        true
