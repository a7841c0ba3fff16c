-- ===== src/Tests/Commands.antt =====
-- The command line of myLoader/core/cmdlist.c with two commands.
use porcelix.Prelude.{ℕ, ◌≡◌, ◌≤◌, ap, refl, none, some, List, [], ◌∷◌, ◌++◌, arith, length}
use porcelix.Str.{isinteflag}
use porcelix.Str.Length.{IsText}
use porcelix.Str.Split.{words, runs, first_word}
use porcelix.Cmd.{
  Command, Parsed, Editor, init_editor, cmd_loop, cmd_key, newline, tab, inteflags, max_argv,
}
use porcelix.Cmd.Parse.{IsTable, IsCalled}
use porcelix.Cmd.Edit.{edit, begins, complete, init}
use porcelix.Cmd.Keys.{IsLine, cmd_key-edit}
use porcelix.Cmd.Round.{IsTyping, edits, IsLine-nil, cmd_loop-IsCalled}

abbrev help : List ℕ
help = b'h' ∷ b'e' ∷ b'l' ∷ b'p' ∷ []

abbrev hd : List ℕ
hd = b'h' ∷ b'd' ∷ []

-- The functions are their numbers.
abbrev commands : List (Command ℕ)
commands =
    record { cmd_name = hd; op_func = some 1 } ∷ record { cmd_name = help; op_func = none } ∷ []

commands-IsTable : IsTable commands
commands-IsTable = (
  ((omega arith, (omega arith, tt)), omega arith),
  (((omega arith, (omega arith, (omega arith, (omega arith, tt)))), omega arith), tt),
)

init_editor-IsLine : IsLine [] init_editor
init_editor-IsLine = IsLine-nil init_editor refl refl

cmd_key-edit_example :
    (e : Editor) × (cmd_key commands tab init_editor ≡ some e) × IsLine (edit commands tab []) e
unfolding edit complete begins
cmd_key-edit_example =
    cmd_key-edit commands tab [] init_editor commands-IsTable init_editor-IsLine (omega arith)

-- `h`, the tab key, `x`, the backspace and `0` make `hd 0`.
abbrev keys : List ℕ
keys = b'h' ∷ tab ∷ b'x' ∷ 8 ∷ b'0' ∷ []

typed : edits commands [] keys ≡ hd ++ 32 ∷ b'0' ∷ []
unfolding edits edit complete begins init
typed = refl

keys-IsTyping : IsTyping commands [] keys
unfolding edit complete begins init
keys-IsTyping = (
  omega arith,
  omega arith,
  (
    omega arith,
    omega arith,
    (omega arith, omega arith, (omega arith, omega arith, (omega arith, omega arith, tt))),
  ),
)

typed-IsText : IsText (edits commands [] keys)
typed-IsText = rw typed (omega arith, (omega arith, (omega arith, (omega arith, tt))))

few_words : length (words inteflags (edits commands [] keys)) ≤ max_argv
unfolding words runs first_word isinteflag edits edit complete begins init
few_words = omega arith

cmd_loop-IsCalled_example :
    (p : Parsed ℕ) × (buf : List ℕ) × (e' : Editor) × (cmd_loop commands
        (keys ++ newline ∷ b'q' ∷ [])
        init_editor
      ≡ some (some p, e', b'q' ∷ []))
    × IsCalled commands buf (words inteflags (edits commands [] keys)) p
    × IsLine [] e'
cmd_loop-IsCalled_example =
    cmd_loop-IsCalled commands commands-IsTable keys (b'q' ∷ []) [] init_editor init_editor-IsLine
      keys-IsTyping typed-IsText (omega (arith, ap length typed)) few_words
