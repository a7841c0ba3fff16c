-- ===== src/Cmd/Edit.antt =====
-- What the keys do to the line that `cmd_loop` of myLoader/core/cmdlist.c has in its buffer.
use porcelix.Prelude.{
  ℕ, suc, ◌+◌, ◌-◌, ◌≤◌, ◌<◌, ◌≡◌, refl, Bool, true, false, ◌&&◌, some, List, [], ◌∷◌, ◌++◌, arith,
  ◌==◌, if◌then◌else◌, length, ap, sym, ◌∙◌, length-append, replicate, set,
}
use mathlib.Core.List.{append_assoc, append-nil}
use porcelix.Prelude.Mem.{store, store_in}
use porcelix.Cmd.{Command, memcpy_from, backspace, tab, blank}

-- `line` is a prefix of `name`.
unfoldable pub begins : List ℕ → List ℕ → Bool
begins [] name = true
begins (c ∷ line) [] = false
begins (c ∷ line) (d ∷ name) = c == d && begins line name

-- A line without its last character.
unfoldable pub init : List ℕ → List ℕ
init [] = []
init (c ∷ []) = []
init (c ∷ d ∷ line) = c ∷ init (d ∷ line)

module _ {A : Type 0} where
  -- The line becomes the first name that it begins, and a blank.
  unfoldable pub complete : List (Command A) → List ℕ → List ℕ
  complete [] line = line
  complete (c ∷ cs) line =
      if begins line c.cmd_name then c.cmd_name ++ blank ∷ [] else complete cs line

  -- What a key does to the line.
  unfoldable pub edit : List (Command A) → ℕ → List ℕ → List ℕ
  edit cmds getch line =
      if getch == backspace
      then init line
      else if getch == tab
      then complete cmds line
      else line ++ getch ∷ []

-- The buffer holds a line: behind it stand one byte, which a backspace may have left, and zeros.
pub record IsHeld (line buf : List ℕ) : Type 0 where
  pub stale : ℕ
  pub held : buf ≡ line ++ stale ∷ replicate (255 - length line) 0

pub store_behind :
    (xs ys : List ℕ) (y v : ℕ) → store (xs ++ y ∷ ys) (length xs) v ≡ some (xs ++ v ∷ ys)
store_behind xs ys y v =
    store_in (xs ++ y ∷ ys) (length xs) v (omega (arith, length-append xs (y ∷ ys)))
    ∙ ap some (put xs)
  where
    put : (zs : List ℕ) → set (zs ++ y ∷ ys) (length zs) v ≡ zs ++ v ∷ ys
    put [] = refl
    put (z ∷ zs) = ap (λ (l : List ℕ). z ∷ l) (put zs)

pub length-snoc : (line : List ℕ) (c : ℕ) → length (line ++ c ∷ []) ≡ length line + 1
length-snoc line c = length-append line (c ∷ [])

-- The byte behind a character that is added is zero.
pub put-zeros :
    (line buf : List ℕ) (c : ℕ)
    → IsHeld line buf
    → store buf (length line) c ≡ some (line ++ c ∷ replicate (255 - length line) 0)
put-zeros line buf c h = rw h.held (store_behind line (replicate (255 - length line) 0) h.stale c)

pub put-IsHeld :
    (line buf : List ℕ) (c : ℕ)
    → IsHeld line buf
    → length line < 255
    → (buf' : List ℕ) × (store buf (length line) c ≡ some buf') × IsHeld (line ++ c ∷ []) buf'
put-IsHeld line buf c h short =
    let zeros = 255 - length (line ++ c ∷ []) in
    let left : 255 - length line ≡ suc zeros = omega (arith, length-snoc line c) in
    let tail : replicate (255 - length line) 0 ≡ 0 ∷ replicate zeros 0 =
      ap (λ n. replicate {A = ℕ} n 0) left in
    (
      line ++ c ∷ replicate (255 - length line) 0,
      put-zeros line buf c h,
      record {
        stale = 0;
        held = rw tail (sym (append_assoc line (c ∷ []) (0 ∷ replicate zeros 0)));
      },
    )

pub copy-IsHeld :
    (line buf s q : List ℕ)
    → IsHeld line buf
    → length (line ++ s) ≤ 255
    → (buf' : List ℕ) × (memcpy_from buf (length line) (s ++ q) (length s) ≡ some buf')
      × IsHeld (line ++ s) buf'
unfolding memcpy_from
copy-IsHeld line buf [] q h fits = (buf, refl, rw (append-nil line) h)
copy-IsHeld line buf (c ∷ s) q h fits =
    let (mid, first, h') = put-IsHeld line buf c h (omega (arith, length-append line (c ∷ s))) in
    let whole : line ++ c ∷ [] ++ s ≡ line ++ c ∷ s = append_assoc line (c ∷ []) s in
    let (buf', rest, h'') =
      copy-IsHeld (line ++ c ∷ []) mid s q h' (omega (arith, ap length whole)) in
    (buf', rw first (rw (length-snoc line c) at rest), rw whole at h'')

pub erase-IsHeld :
    (line buf : List ℕ) (c : ℕ)
    → IsHeld (line ++ c ∷ []) buf
    → length line < 255
    → (buf' : List ℕ) × (store buf (length (line ++ c ∷ [])) 0 ≡ some buf') × IsHeld line buf'
erase-IsHeld line buf c h short =
    let n = 255 - length (line ++ c ∷ []) in
    let left : 255 - length line ≡ suc n = omega (arith, length-snoc line c) in
    let tail : 0 ∷ replicate n 0 ≡ replicate (255 - length line) 0 =
      ap (λ n. replicate {A = ℕ} n 0) (sym left) in
    (
      line ++ c ∷ [] ++ 0 ∷ replicate n 0,
      rw h.held (store_behind (line ++ c ∷ []) (replicate n 0) h.stale 0),
      record {
        stale = c;
        held =
            append_assoc line (c ∷ []) (0 ∷ replicate n 0)
            ∙ ap (λ (t : List ℕ). line ++ c ∷ t) tail;
      },
    )
