-- ===== src/Cmd/Round.antt =====
-- From the keys to the call: a round of `cmd_loop` (myLoader/core/cmdlist.c).
use porcelix.Prelude.{
  ℕ, suc, ◌+◌, ◌-◌, ◌%◌, ◌^◌, ◌≤◌, ◌≡◌, ◌≢◌, refl, true, false, some, List, [], ◌∷◌, ◌++◌, arith,
  ◌==◌, length, ap, sym, ◌∙◌, length-append, replicate, length-replicate,
}
use mathlib.Core.List.{append_assoc}
use porcelix.Prelude.Mem.{All-append, store}
use porcelix.Str.{memset, isinteflag}
use porcelix.Str.Length.{IsText}
use porcelix.Str.Split.{words, words_last}
use porcelix.Cmd.{
  Command, Parsed, Editor, entered, add_char, cmd_key, cmd_parse_impl, read_line, run_line,
  cmd_loop, newline, inteflags, max_argv, buff_size,
}
use porcelix.Cmd.Parse.{IsTable, IsCalled, cmd_parse_impl-IsCalled}
use porcelix.Cmd.Edit.{edit, put-zeros, store_behind, length-snoc}
use porcelix.Cmd.Keys.{IsLine, cmd_key-edit}

module _ {A : Type 0} where
  -- What keys make of a line.
  unfoldable pub edits : List (Command A) → List ℕ → List ℕ → List ℕ
  edits cmds line [] = line
  edits cmds line (k ∷ ks) = edits cmds (edit cmds k line) ks

  -- No key is the newline, and the line stays within 255 characters at each.
  abbrev pub IsTyping : List (Command A) → List ℕ → List ℕ → Type 0
  IsTyping cmds line [] = Unit
  IsTyping cmds line (k ∷ ks) =
      (k ≢ newline) × (length (edit cmds k line) ≤ 255) × IsTyping cmds (edit cmds k line) ks

-- The editor for a new line.
pub IsLine-nil : (e : Editor) → e.cmd_buff ≡ replicate buff_size 0 → e.position ≡ 0 → IsLine [] e
IsLine-nil e h k = record { text = record { stale = 0; held = h }; at_end = k; room = omega arith }

memset-all :
    (xs old : List ℕ)
    → memset (xs ++ old) (length xs) 0 (length old) ≡ some (xs ++ replicate (length old) 0)
unfolding memset
memset-all xs [] = refl
memset-all xs (o ∷ old) =
    let rest = memset-all (xs ++ 0 ∷ []) old in
    let here = store_behind xs old o 0 in
    let size = length-snoc xs 0 in
    let before = append_assoc xs (0 ∷ []) old in
    let after = append_assoc xs (0 ∷ []) (replicate (length old) 0) in
    rw here (rw (size, before, after) at rest)

newline_separates : isinteflag newline inteflags ≡ true
unfolding isinteflag
newline_separates = refl

module _ {A : Type 0} (cmds : List (Command A)) (table : IsTable cmds) where
  put_newline :
      (line : List ℕ) (e : Editor) (rest : List ℕ)
      → IsLine line e
      → (e' : Editor) × (read_line cmds (newline ∷ rest) e ≡ some (entered e' rest))
        × (e'.cmd_buff ≡ line ++ newline ∷ replicate (255 - length line) 0)
  unfolding read_line cmd_key add_char
  put_newline line e rest l =
      let run = put-zeros line e.cmd_buff newline l.text in
      let there : store e.cmd_buff e.position newline
          ≡ some (line ++ newline ∷ replicate (255 - length line) 0) =
        ap (λ p. store e.cmd_buff p newline) l.at_end ∙ run in
      (
        record {
          cmd_buff = line ++ newline ∷ replicate (255 - length line) 0;
          position = (e.position + 1) % 2 ^ 16;
          echo = e.echo ++ newline ∷ [];
        },
        rw there refl,
        refl,
      )

  read_line-edits :
      (ks rest line : List ℕ) (e : Editor)
      → IsLine line e
      → IsTyping cmds line ks
      → (e' : Editor) × (read_line cmds (ks ++ newline ∷ rest) e ≡ some (entered e' rest))
        × (e'.cmd_buff
            ≡ edits cmds line ks ++ newline ∷ replicate (255 - length (edits cmds line ks)) 0)
  unfolding read_line edits
  read_line-edits [] rest line e l typing = put_newline line e rest l
  read_line-edits (k ∷ ks) rest line e l (other, fits, typing) =
      let (mid, run, l') = cmd_key-edit cmds k line e table l fits in
      let (e', next, held) = read_line-edits ks rest (edit cmds k line) mid l' typing in
      let no_newline : (k == newline) ≡ false = ground arith in
      (e', rw (run, no_newline) next, held)

  run_line-IsCalled :
      (line rest : List ℕ) (e : Editor)
      → e.cmd_buff ≡ line ++ newline ∷ replicate (255 - length line) 0
      → IsText line
      → length line ≤ 254
      → length (words inteflags line) ≤ max_argv
      → (p : Parsed A) × (buf : List ℕ) × (e' : Editor) × (run_line cmds (entered e rest)
          ≡ some (some p, e', rest))
        × IsCalled cmds buf (words inteflags line) p
        × IsLine [] e'
  unfolding run_line
  run_line-IsCalled line rest e held text short few =
      let shape = held ∙ with_zero line short in
      let typed = line ++ newline ∷ [] in
      let zeros : List ℕ = replicate (254 - length line) 0 in
      let same : words inteflags typed ≡ words inteflags line =
        words_last inteflags newline newline_separates line in
      let size : length (typed ++ 0 ∷ zeros) ≡ buff_size = omega (
        arith,
        length-append typed (0 ∷ zeros),
        length-snoc line newline,
        length-replicate {A = ℕ} (254 - length line) 0,
      ) in
      let (p, buf, run, is) =
        cmd_parse_impl-IsCalled cmds typed zeros table
          (All-append (λ c. c ≢ 0) line (newline ∷ []) text (newline_live, tt))
          (omega (arith, size)) (omega (arith, ap length same)) in
      let cleared = clear e.cmd_buff (ap length shape ∙ size) in
      let empty_line : Editor = record {
        cmd_buff = replicate buff_size 0;
        position = 0;
        echo = [];
      } in
      (
        p,
        buf,
        empty_line,
        rw (ap (cmd_parse_impl cmds) shape ∙ run, cleared) refl,
        rw same at is,
        IsLine-nil empty_line refl refl,
      )
    where
      newline_live : newline ≢ 0
      newline_live e = absurd (omega arith)

      with_zero :
          (line : List ℕ)
          → length line ≤ 254
          → line ++ newline ∷ replicate (255 - length line) 0
            ≡ line ++ newline ∷ [] ++ 0 ∷ replicate (254 - length line) 0
      with_zero line h =
          let left : 255 - length line ≡ suc (254 - length line) = omega arith in
          rw left (sym (append_assoc line (newline ∷ []) (0 ∷ replicate (254 - length line) 0)))

      clear :
          (buf : List ℕ)
          → length buf ≡ buff_size
          → memset buf 0 0 buff_size ≡ some (replicate buff_size 0)
      clear buf size = rw size at (memset-all [] buf)

  -- While a line of at most 254 characters other than zero is typed, each of its stages at most
  -- 255 characters long, of at most 16 words, into a buffer that holds the line's beginning, and on
  -- a table whose names are texts of less than 2 ^ 16 bytes: `cmd_loop` reads the keys up to the
  -- newline and none further, does what the words of the edited line say (nothing, the first
  -- command whose name is exactly the first word with pointers to the words, or the message of an
  -- unknown command), and leaves the buffer of an empty line.
  pub cmd_loop-IsCalled :
      (ks rest line : List ℕ) (e : Editor)
      → IsLine line e
      → IsTyping cmds line ks
      → IsText (edits cmds line ks)
      → length (edits cmds line ks) ≤ 254
      → length (words inteflags (edits cmds line ks)) ≤ max_argv
      → (p : Parsed A) × (buf : List ℕ) × (e' : Editor) × (cmd_loop cmds (ks ++ newline ∷ rest) e
          ≡ some (some p, e', rest))
        × IsCalled cmds buf (words inteflags (edits cmds line ks)) p
        × IsLine [] e'
  unfolding cmd_loop
  cmd_loop-IsCalled ks rest line e l typing text short few =
      let (e', typed, held) = read_line-edits ks rest line e l typing in
      let (p, buf, next, run, is, fresh) =
        run_line-IsCalled (edits cmds line ks) rest e' held text short few in
      (p, buf, next, rw typed run, is, fresh)
