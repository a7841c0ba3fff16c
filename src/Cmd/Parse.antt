-- ===== src/Cmd/Parse.antt =====
-- The command that `cmd_parse_impl` of myLoader/core/cmdlist.c calls.
use porcelix.Prelude.{
  ℕ, ◌^◌, ◌≤◌, ◌<◌, ◌≡◌, ◌≢◌, refl, inl, inr, true, false, Option, none, some, List, [], ◌∷◌, ◌++◌,
  map, arith, Option-cases, ltb, ◌==◌, length, drop, take, ap, sym, ◌∙◌, Bool-cases, le→ltb, ◌↔◌,
  length-map, length-drop, ==→eq, ==→ne, length-append,
}
use porcelix.Prelude.Int.{ℤ, pos, negsuc}
use porcelix.Prelude.Mem.{All}
use porcelix.Str.{strlen, memcmp}
use porcelix.Str.Length.{IsText, strlen-text}
use porcelix.Str.Compare.{lex, memcmp-lex, memcmp-eq-zero}
use porcelix.Str.Split.{cstr, words}
use porcelix.Str.Region.{IsString, parse_str_by_inteflag-IsString}
use porcelix.Cmd.{
  Command, Parsed, no_words, called, no_func, unknown, literal, is_zero, find_cmd, call_of,
  dispatch, cmd_parse_impl, inteflags, max_argv,
}

take-length_append : (w r : List ℕ) → take (length w) (w ++ r) ≡ w
take-length_append [] r = refl
take-length_append (c ∷ w) r = ap (λ (s : List ℕ). c ∷ s) (take-length_append w r)

is_zero→eq : (z : ℤ) → is_zero z ≡ true → z ≡ pos 0
is_zero→eq (pos n) h = ap pos (==→eq n 0 h)
is_zero→eq (negsuc n) h = absurd (ground arith)

-- The command that a table has under a name: the first one of that name.
pub data IsNamed {A : Type 0} (h : List ℕ) : List (Command A) → Option (Command A) → Type 0 where
  nobody : IsNamed h [] none
  here : (c : Command A) (cs : List (Command A)) → c.cmd_name ≡ h → IsNamed h (c ∷ cs) (some c)
  later :
      (c : Command A) (cs : List (Command A)) (o : Option (Command A))
      → c.cmd_name ≢ h
      → IsNamed h cs o
      → IsNamed h (c ∷ cs) o

-- The names of a table are texts of less than 2 ^ 16 bytes.
abbrev pub IsTable : {A : Type 0} → List (Command A) → Type 0
IsTable cmds = All (λ c. IsText c.cmd_name × (length c.cmd_name < 2 ^ 16)) cmds

pub strlen_region :
    (w q : List ℕ) → IsText w → length w < 2 ^ 16 → strlen (w ++ 0 ∷ q) ≡ some (length w)
strlen_region w q t h = strlen-text w q t ∙ ap some (omega arith)

room : (w r : List ℕ) → length w ≤ length (w ++ 0 ∷ r)
room w r = omega (arith, length-append w (0 ∷ r))

take-literal : (w r : List ℕ) (n : ℕ) → n ≡ length w → take n (w ++ r) ≡ w
take-literal w r n e = rw e (take-length_append w r)

-- The comparison of the typed word with a name of the same length.
memcmp_name :
    (h q name : List ℕ)
    → length h ≡ length name
    → (z : ℤ) × (memcmp (h ++ 0 ∷ q) (literal name) (length h) ≡ some z)
      × ((is_zero z ≡ true) ↔ (name ≡ h))
memcmp_name h q name e =
    let n = length h in
    let typed = room h q in
    let stored : n ≤ length (literal name) = omega (arith, room name []) in
    let s = h ++ 0 ∷ q in
    let run = memcmp-lex s (literal name) n typed stored in
    let z = lex (take n s) (take n (literal name)) in
    let (to, from) = memcmp-eq-zero s (literal name) n typed stored in
    let left : take n s ≡ h = take-length_append h (0 ∷ q) in
    let right : take n (literal name) ≡ name = take-literal name (0 ∷ []) n e in
    (
      z,
      run,
      (
        λ i. sym right ∙ sym (to (run ∙ ap some (is_zero→eq z i))) ∙ left,
        λ i.
            let zero_result : some z ≡ some (pos 0) = sym run ∙ from (left ∙ sym i ∙ sym right) in
            is_zero_some z zero_result,
      ),
    )
  where
    is_zero_some : (z : ℤ) → some z ≡ some (pos 0) → is_zero z ≡ true
    is_zero_some z e = let i : z ≡ pos 0 = cc in rw i refl

module _ {A : Type 0} (h q : List ℕ) (t : IsText h) (small : length h < 2 ^ 16) where
  find_cmd-IsNamed :
      (cmds : List (Command A))
      → IsTable cmds
      → (o : Option (Command A)) × (find_cmd (h ++ 0 ∷ q) cmds ≡ some o) × IsNamed h cmds o
  unfolding find_cmd
  find_cmd-IsNamed [] names = (none, refl, nobody)
  find_cmd-IsNamed (c ∷ cs) names =
      let (o, run, named) = find_cmd-IsNamed cs names.1 in
      let typed = strlen_region h q t small in
      let stored = strlen_region c.cmd_name [] names.0.0 names.0.1 in
      elim (Bool-cases (length h == length c.cmd_name)) [
        | inr ne ↦
            let other : c.cmd_name ≢ h =
              λ e. ==→ne (length h) (length c.cmd_name) ne (ap length (sym e)) in
            (o, rw (typed, stored, ne) run, later c cs o other named)
        | inl eq ↦
            let (z, compared, (to, from)) =
              memcmp_name h q c.cmd_name (==→eq (length h) (length c.cmd_name) eq) in
            elim (Bool-cases (is_zero z)) [
              | inl same ↦
                  (some c, rw (typed, stored, eq, compared, same) refl, here c cs (to same))
              | inr differ ↦
                  let other : c.cmd_name ≢ h = λ e. false_true (sym differ ∙ from e) in
                  (o, rw (typed, stored, eq, compared, differ) run, later c cs o other named)
            ]
      ]
    where
      false_true : false ≡ true → ⊥
      false_true e = absurd (ground arith)

-- What a line with the words `ws` does on a table of commands: nothing without words, the message
-- of an unknown command where no command has the first word as its name, nothing where the first
-- that has has no function, and else a call of its function with pointers to the words.
pub data IsCalled {A : Type 0} (cmds : List (Command A)) (buf : List ℕ)
    : List (List ℕ) → Parsed A → Type 0 where
  nothing : IsCalled cmds buf [] no_words
  nobody_named :
      (h : List ℕ) (ws : List (List ℕ)) → IsNamed h cmds none → IsCalled cmds buf (h ∷ ws) unknown
  without_func :
      (h : List ℕ) (ws : List (List ℕ)) (c : Command A)
      → IsNamed h cmds (some c)
      → c.op_func ≡ none
      → IsCalled cmds buf (h ∷ ws) no_func
  calls :
      (h : List ℕ) (ws : List (List ℕ)) (c : Command A) (f : A) (argv : List ℕ)
      → IsNamed h cmds (some c)
      → c.op_func ≡ some f
      → map (λ p. cstr (drop p buf)) argv ≡ h ∷ ws
      → IsCalled cmds buf (h ∷ ws) (called f argv buf)

-- What the found command does with the words.
call_of-IsCalled :
    {A : Type 0} (cmds : List (Command A)) (buf h : List ℕ) (ws : List (List ℕ))
    (o : Option (Command A)) (argv : List ℕ)
    → IsNamed h cmds o
    → map (λ p. cstr (drop p buf)) argv ≡ h ∷ ws
    → IsCalled cmds buf (h ∷ ws) (call_of o argv buf)
unfolding call_of
call_of-IsCalled cmds buf h ws none argv named read = nobody_named h ws named
call_of-IsCalled cmds buf h ws (some c) argv named read = elim (Option-cases c.op_func) [
  | inl e ↦ rw e (without_func h ws c named e)
  | inr (f, e) ↦ rw e (calls h ws c f argv named e read)
]

dispatch-IsCalled :
    {A : Type 0} (cmds : List (Command A)) (argv buf : List ℕ)
    → IsTable cmds
    → length buf < 2 ^ 16
    → All (IsString buf) argv
    → (p : Parsed A) × (dispatch cmds argv buf ≡ some p)
      × IsCalled cmds buf (map (λ p. cstr (drop p buf)) argv) p
unfolding dispatch
dispatch-IsCalled cmds [] buf table small strings = (no_words, refl, nothing)
dispatch-IsCalled cmds (p ∷ argv) buf table small strings =
    let h = cstr (drop p buf) in
    let (t, q, e) = strings.0 in
    let short : length h < 2 ^ 16 = omega (arith, room h q, ap length e, length-drop p buf) in
    let (o, run, named) = find_cmd-IsNamed h q t short cmds table in
    let run' : find_cmd (drop p buf) cmds ≡ some o = ap (λ s. find_cmd s cmds) e ∙ run in
    (
      call_of o (p ∷ argv) buf,
      rw run' refl,
      call_of-IsCalled cmds buf h (map (λ p. cstr (drop p buf)) argv) o (p ∷ argv) named refl,
    )

-- On a buffer of less than 2 ^ 16 bytes that holds a C string of at most 16 words, and a table
-- whose names are texts of less than 2 ^ 16 bytes, `cmd_parse_impl` does nothing if there is no
-- word, else what the first command does whose name is exactly the first word, or the message of
-- an unknown command if there is none; the function of the command gets pointers to the words, in
-- the buffer in which each of them ends with a zero.
pub cmd_parse_impl-IsCalled :
    {A : Type 0} (cmds : List (Command A)) (w r : List ℕ)
    → IsTable cmds
    → IsText w
    → length (w ++ 0 ∷ r) < 2 ^ 16
    → length (words inteflags w) ≤ max_argv
    → (p : Parsed A) × (buf : List ℕ) × (cmd_parse_impl cmds (w ++ 0 ∷ r) ≡ some p)
      × IsCalled cmds buf (words inteflags w) p
unfolding cmd_parse_impl
cmd_parse_impl-IsCalled cmds w r table t small few =
    let (argv, buf, run, read, size, strings) = parse_str_by_inteflag-IsString w r inteflags t in
    let (p, call, is) = dispatch-IsCalled cmds argv buf table (omega (arith, size)) strings in
    let fits : ltb max_argv (length argv) ≡ false =
      le→ltb max_argv (length argv)
        (omega (arith, ap length read, length-map argv (λ p. cstr (drop p buf)))) in
    (p, buf, rw (run, fits) call, rw read at is)
