-- ===== src/Cmd.antt =====
-- The command line of myLoader/core/cmdlist.c: its line editor and the search of the command table.
-- What a typed line calls is a value, `Parsed`; the commands' own functions are a type parameter.
-- The characters of `kbd_get_char` come as a list, and what the loop prints goes to `echo`.
pub mod Parse
pub mod Edit
pub mod Begins
pub mod Keys
pub mod Round
use porcelix.Prelude.{
  ℕ, zero, suc, ◌+◌, ◌-◌, ◌%◌, ◌^◌, Bool, true, false, Option, none, some, List, [], ◌∷◌, ◌++◌, ltb,
  ◌==◌, if◌then◌else◌, drop, length, replicate,
}
use porcelix.Prelude.Int.{ℤ, pos, negsuc}
use porcelix.Prelude.Mem.{◌>>=◌, store}
use porcelix.Str.{strlen, memcmp, memset, parse_str_by_inteflag}

-- A string in memory, with its final zero.
abbrev pub literal : List ℕ → List ℕ
literal w = w ++ 0 ∷ []

abbrev pub backspace : ℕ
backspace = 8

abbrev pub tab : ℕ
tab = 9

abbrev pub newline : ℕ
newline = 10

abbrev pub blank : ℕ
blank = 32

-- `0 == r`
abbrev pub is_zero : ℤ → Bool
is_zero (pos n) = n == 0
is_zero (negsuc n) = false

-- `struct command`; `A` stands for the functions and their `param`.
pub record Command (A : Type 0) : Type 0 where
  pub cmd_name : List ℕ
  pub op_func : Option A

-- What `cmd_parse_impl` does: nothing for a line without words, the call of a function with `argv`
-- (offsets of the buffer, which holds the words then), nothing for a command without a function,
-- the message of an unknown command.
pub data Parsed (A : Type 0) : Type 0 where
  no_words : Parsed A
  called : A → List ℕ → List ℕ → Parsed A
  no_func : Parsed A
  unknown : Parsed A

abbrev pub max_argv : ℕ
max_argv = 16

-- `" \n"`
abbrev pub inteflags : List ℕ
inteflags = blank ∷ newline ∷ []

module _ {A : Type 0} where
  -- The loop over the table, up to the command whose name matches.
  unfoldable pub find_cmd : List ℕ → List (Command A) → Option (Option (Command A))
  find_cmd argv0 [] = some none
  find_cmd argv0 (cmd ∷ cmds) =
      let rest = find_cmd argv0 cmds in
      do
        argv01_len ← strlen argv0
        cmd_len ← strlen (literal cmd.cmd_name)
        let same = memcmp argv0 (literal cmd.cmd_name) argv01_len >>= λ r.
            if is_zero r then some (some cmd) else rest
        if argv01_len == cmd_len then same else rest

  unfoldable pub call_of : Option (Command A) → List ℕ → List ℕ → Parsed A
  call_of none argv buf = unknown
  call_of (some cmd) argv buf = elim cmd.op_func [ none ↦ no_func | some f ↦ called f argv buf ]

  unfoldable pub dispatch : List (Command A) → List ℕ → List ℕ → Option (Parsed A)
  dispatch cmds [] buf = some no_words
  dispatch cmds (p ∷ argv) buf = do
    cmd ← find_cmd (drop p buf) cmds
    some (call_of cmd (p ∷ argv) buf)

  -- `argv` has room for 16 pointers: one more is a write behind the array.
  unfoldable pub cmd_parse_impl : List (Command A) → List ℕ → Option (Parsed A)
  cmd_parse_impl cmds cmd = do
    (argv, buf) ← parse_str_by_inteflag cmd inteflags
    if ltb max_argv (length argv) then none else dispatch cmds argv buf

-- The variables of `cmd_loop`, and what it has printed since the prompt.
pub record Editor : Type 0 where
  pub cmd_buff : List ℕ
  pub position : ℕ
  pub echo : List ℕ

abbrev pub buff_size : ℕ
buff_size = 256

-- `memcpy` from another region
unfoldable pub memcpy_from : List ℕ → ℕ → List ℕ → ℕ → Option (List ℕ)
memcpy_from mem dst src zero = some mem
memcpy_from mem dst [] (suc len) = none
memcpy_from mem dst (v ∷ src) (suc len) = do
  mem' ← store mem dst v
  memcpy_from mem' (dst + 1) src len

unfoldable pub fill_in : List ℕ → ℕ → Editor → Option Editor
fill_in cmd_name cmdlen e = do
  let rest = drop e.position (literal cmd_name)
  copied ← memcpy_from e.cmd_buff e.position rest (cmdlen - e.position)
  buf ← store copied cmdlen blank
  some (record {
    cmd_buff = buf;
    position = (cmdlen + 1) % 2 ^ 16;
    echo = e.echo ++ drop e.position cmd_name ++ blank ∷ [];
  })

unfoldable pub erase_last : Editor → Option Editor
erase_last e = if e.position == 0 then some e else do
  buf ← store e.cmd_buff e.position 0
  some (record { cmd_buff = buf; position = e.position - 1; echo = e.echo ++ backspace ∷ [] })

unfoldable pub add_char : ℕ → Editor → Option Editor
add_char getch e = do
  buf ← store e.cmd_buff e.position getch
  some
      (record { cmd_buff = buf; position = (e.position + 1) % 2 ^ 16; echo = e.echo ++ getch ∷ [] })

module _ {A : Type 0} where
  -- The loop of the tab key.
  unfoldable pub auto_complete : List (Command A) → Editor → Option Editor
  auto_complete [] e = some e
  auto_complete (cmd ∷ cmds) e =
      let rest = auto_complete cmds e in
      do
        cmdlen ← strlen (literal cmd.cmd_name)
        let fits = memcmp e.cmd_buff (literal cmd.cmd_name) e.position >>= λ r.
            if is_zero r then fill_in cmd.cmd_name cmdlen e else rest
        if ltb cmdlen e.position then rest else fits

  -- One round of the inner loop.
  unfoldable pub cmd_key : List (Command A) → ℕ → Editor → Option Editor
  cmd_key cmds getch e =
      if getch == backspace
      then erase_last e
      else if getch == tab
      then auto_complete cmds e
      else add_char getch e

-- The inner loop of `cmd_loop` on the keys typed so far: it still waits for one, or it has read a
-- newline, with the keys that are left.
pub data Typed : Type 0 where
  waiting : Editor → Typed
  entered : Editor → List ℕ → Typed

module _ {A : Type 0} where
  unfoldable pub read_line : List (Command A) → List ℕ → Editor → Option Typed
  read_line cmds [] e = some (waiting e)
  read_line cmds (getch ∷ keys) e = do
    e' ← cmd_key cmds getch e
    let rest = read_line cmds keys e'
    if getch == newline then some (entered e' keys) else rest

  unfoldable pub run_line : List (Command A) → Typed → Option (Option (Parsed A) × Editor × List ℕ)
  run_line cmds (waiting e) = some (none, e, [])
  run_line cmds (entered e keys) = do
    parsed ← cmd_parse_impl cmds e.cmd_buff
    buf ← memset e.cmd_buff 0 0 buff_size
    some (some parsed, record { cmd_buff = buf; position = 0; echo = [] }, keys)

  -- One round of the outer loop of `cmd_loop`: what the line does, if it is complete, the editor
  -- for the next line, and the keys that are left.
  unfoldable pub cmd_loop :
      List (Command A) → List ℕ → Editor → Option (Option (Parsed A) × Editor × List ℕ)
  cmd_loop cmds keys e = do typed ← read_line cmds keys e; run_line cmds typed

abbrev pub init_editor : Editor
init_editor = record { cmd_buff = replicate buff_size 0; position = 0; echo = [] }
