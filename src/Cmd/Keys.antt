-- ===== src/Cmd/Keys.antt =====
-- Each key that `cmd_loop` of myLoader/core/cmdlist.c reads edits the line in its buffer.
use porcelix.Prelude.{
  ℕ, ◌+◌, ◌-◌, ◌%◌, ◌^◌, ◌≤◌, ◌<◌, ◌≡◌, refl, inl, inr, true, false, Option, some, List, [], ◌∷◌,
  ◌++◌, arith, ltb, ◌==◌, length, drop, ap, sym, ◌∙◌, Bool-cases, le→ltb, ==→eq, ==→ne, replicate,
  length-drop, ltb→le,
}
use porcelix.Prelude.Mem.{store}
use porcelix.Str.{memcmp}
use porcelix.Str.Region.{drop-append}
use porcelix.Cmd.{
  Command, Editor, literal, memcpy_from, fill_in, auto_complete, erase_last, add_char, cmd_key,
  backspace, tab, blank,
}
use porcelix.Cmd.Begins.{memcmp-begins, begins→le, begins→rest}
use porcelix.Cmd.Parse.{IsTable, strlen_region}
use porcelix.Cmd.Edit.{
  begins, init, complete, edit, IsHeld, put-IsHeld, copy-IsHeld, erase-IsHeld, length-snoc,
}

-- The editor holds a line: in its buffer, and up to its position.
pub record IsLine (line : List ℕ) (e : Editor) : Type 0 where
  pub text : IsHeld line e.cmd_buff
  pub at_end : e.position ≡ length line
  pub room : length line ≤ 255

-- What a key leaves, where it succeeds.
abbrev pub Leaves : List ℕ → Option Editor → Type 0
Leaves line o = (e : Editor) × (o ≡ some e) × IsLine line e

add_char-IsLine :
    (line : List ℕ) (e : Editor) (c : ℕ)
    → IsLine line e
    → length (line ++ c ∷ []) ≤ 255
    → Leaves (line ++ c ∷ []) (add_char c e)
unfolding add_char
add_char-IsLine line e c l fits =
    let (buf, run, held) =
      put-IsHeld line e.cmd_buff c l.text (omega (arith, length-snoc line c)) in
    (
      record { cmd_buff = buf; position = (e.position + 1) % 2 ^ 16; echo = e.echo ++ c ∷ [] },
      rw (l.at_end, run) refl,
      record { text = held; at_end = omega (arith, l.at_end, length-snoc line c); room = fits },
    )

init-snoc : (line : List ℕ) → 0 < length line → (c : ℕ) × (line ≡ init line ++ c ∷ [])
unfolding init
init-snoc [] h = absurd (omega arith)
init-snoc (c ∷ []) h = (c, refl)
init-snoc (c ∷ d ∷ line) h =
    let (l, e) = init-snoc (d ∷ line) (omega arith) in (l, ap (λ (t : List ℕ). c ∷ t) e)

empty : (line : List ℕ) → length line ≡ 0 → line ≡ init line
unfolding init
empty [] h = refl
empty (c ∷ line) h = absurd (omega arith)

erase_last_run :
    (e : Editor) (at : ℕ) (buf : List ℕ)
    → (e.position == 0) ≡ false
    → e.position ≡ at
    → store e.cmd_buff at 0 ≡ some buf
    → erase_last e
      ≡ some (record { cmd_buff = buf; position = e.position - 1; echo = e.echo ++ backspace ∷ [] })
unfolding erase_last
erase_last_run e at buf live here stored =
    rw (live, ap (λ p. store e.cmd_buff p 0) here ∙ stored) refl

erase_last-IsLine : (line : List ℕ) (e : Editor) → IsLine line e → Leaves (init line) (erase_last e)
unfolding erase_last
erase_last-IsLine line e l = elim (Bool-cases (e.position == 0)) [
  | inl none_left ↦
      let nil = empty line (omega (arith, l.at_end, ==→eq e.position 0 none_left)) in
      (e, rw none_left refl, rw nil at l)
  | inr some_left ↦
      let live = ==→ne e.position 0 some_left in
      let (c, snoc) = init-snoc line (omega (arith, l.at_end, live)) in
      let size = length-snoc (init line) c in
      let held : IsHeld (init line ++ c ∷ []) e.cmd_buff = rw snoc at l.text in
      let at_end : e.position ≡ length (init line ++ c ∷ []) = l.at_end ∙ ap length snoc in
      let short : length (init line) < 255 = omega (arith, size, ap length snoc, l.room) in
      let (buf, run, left) = erase-IsHeld (init line) e.cmd_buff c held short in
      (
        record { cmd_buff = buf; position = e.position - 1; echo = e.echo ++ backspace ∷ [] },
        erase_last_run e (length (init line ++ c ∷ [])) buf some_left at_end run,
        record { text = left; at_end = omega (arith, size, at_end); room = omega (arith, short) },
      )
]

fill_in_run :
    (name : List ℕ) (len at n : ℕ) (e : Editor) (src mid buf : List ℕ)
    → e.position ≡ at
    → drop at (literal name) ≡ src
    → len - at ≡ n
    → memcpy_from e.cmd_buff at src n ≡ some mid
    → store mid len blank ≡ some buf
    → fill_in name len e
      ≡ some (record {
        cmd_buff = buf;
        position = (len + 1) % 2 ^ 16;
        echo = e.echo ++ drop e.position name ++ blank ∷ [];
      })
unfolding fill_in
fill_in_run name len at n e src mid buf here source left copied stored =
    rw (here, source, left, copied, stored) refl

fill_in-IsLine :
    (line name : List ℕ) (e : Editor)
    → IsLine line e
    → begins line name ≡ true
    → length (name ++ blank ∷ []) ≤ 255
    → Leaves (name ++ blank ∷ []) (fill_in name (length name) e)
fill_in-IsLine line name e l prefix fits =
    let s = drop (length line) name in
    let whole = begins→rest line name prefix in
    let size = length-snoc name blank in
    let below = begins→le line name prefix in
    let source : drop (length line) (literal name) ≡ s ++ 0 ∷ [] =
      drop-append (length line) name (0 ∷ []) below in
    let left : length name - length line ≡ length s = sym (length-drop (length line) name) in
    let (mid, copied, held) =
      copy-IsHeld line e.cmd_buff s (0 ∷ []) l.text (omega (arith, size, ap length whole)) in
    let (buf, stored, held') = put-IsHeld name mid blank (rw whole at held) (omega (arith, size)) in
    (
      record {
        cmd_buff = buf;
        position = (length name + 1) % 2 ^ 16;
        echo = e.echo ++ drop e.position name ++ blank ∷ [];
      },
      fill_in_run name (length name) (length line) (length s) e (s ++ 0 ∷ []) mid buf l.at_end
          source left copied stored,
      record { text = held'; at_end = omega (arith, size); room = fits },
    )

module _ {A : Type 0} where
  auto_complete-IsLine :
      (cmds : List (Command A)) (line : List ℕ) (e : Editor)
      → IsTable cmds
      → IsLine line e
      → length (complete cmds line) ≤ 255
      → Leaves (complete cmds line) (auto_complete cmds e)
  unfolding auto_complete complete
  auto_complete-IsLine [] line e table l fits = (e, refl, l)
  auto_complete-IsLine (c ∷ cs) line e table l fits =
      let name = c.cmd_name in
      let sized = strlen_region name [] table.0.0 table.0.1 in
      let rest = l.text.stale ∷ replicate (255 - length line) 0 in
      elim (Bool-cases (begins line name)) [
        | inl prefix ↦
            let below = begins→le line name prefix in
            let long : ltb (length name) e.position ≡ false =
              le→ltb (length name) e.position (omega (arith, l.at_end)) in
            let (z, run, same) = memcmp-begins line rest name (0 ∷ []) below in
            let run' : memcmp e.cmd_buff (literal name) e.position ≡ some z =
              rw (l.text.held, l.at_end) run in
            let (e', filled, l') = fill_in-IsLine line name e l prefix (rw prefix at fits) in
            (e', rw (sized, long, run', same, prefix) filled, rw prefix l')
        | inr other ↦
            let (e', next, l') = auto_complete-IsLine cs line e table.1 l (rw other at fits) in
            elim (Bool-cases (ltb (length name) e.position)) [
              | inl short ↦ (e', rw (sized, short) next, rw other l')
              | inr long ↦
                  let below : length line ≤ length name =
                    omega (arith, ltb→le (length name) e.position long, l.at_end) in
                  let (z, run, same) = memcmp-begins line rest name (0 ∷ []) below in
                  let run' : memcmp e.cmd_buff (literal name) e.position ≡ some z =
                    rw (l.text.held, l.at_end) run in
                  (e', rw (sized, long, run', same, other) next, rw other l')
            ]
      ]

  -- With a buffer that holds a line of at most 255 characters, and a table whose names are texts of
  -- less than 2 ^ 16 bytes, every key whose edited line has at most 255 characters succeeds and
  -- leaves a buffer that holds the edited line: the backspace takes its last character off, the tab
  -- makes it the first name that it begins, with a blank, and every other key is added to it.
  pub cmd_key-edit :
      (cmds : List (Command A)) (getch : ℕ) (line : List ℕ) (e : Editor)
      → IsTable cmds
      → IsLine line e
      → length (edit cmds getch line) ≤ 255
      → Leaves (edit cmds getch line) (cmd_key cmds getch e)
  unfolding cmd_key edit
  cmd_key-edit cmds getch line e table l fits = elim (Bool-cases (getch == backspace)) [
    | inl back ↦ rw back (erase_last-IsLine line e l)
    | inr not_back ↦ elim (Bool-cases (getch == tab)) [
      | inl tabbed ↦
          rw (not_back, tabbed)
            (auto_complete-IsLine cmds line e table l (rw (not_back, tabbed) at fits))
      | inr plain ↦
          rw (not_back, plain) (add_char-IsLine line e getch l (rw (not_back, plain) at fits))
    ]
  ]
