-- ===== src/Kbd/Queue.antt =====
-- The ring buffer of myLoader/io/kbd.c is a bounded queue.
use porcelix.Prelude.{
  ℕ, zero, suc, ◌+◌, ◌%◌, ◌^◌, ◌≤◌, ◌<◌, ◌≡◌, refl, ◌≢◌, ◌⊎◌, inl, inr, true, false, not, List, [],
  ◌∷◌, ◌++◌, arith, length, length-set, set, ap, sym, ◌∙◌, some, ◌==◌, if◌then◌else◌, Bool-cases,
}
use porcelix.Prelude.Mem.{get_elem?_in}
use porcelix.Prelude.Int.{negsuc, ◌+ℤ◌, ◌-ℤ◌}
use porcelix.Sem.{Sem, sem_wait, sem_signal}
use porcelix.Kbd.{
  RawBuff, idle_sem, got, blocked, map_at, kbd_rawbuff_insert, take_char, kbd_get_char,
}
use porcelix.Kbd.Ring.{items, items-snoc, items-set, map_at-set, distance}

pub record IsRing (b : RawBuff) : Type 0 where
  pub size : length b.buff ≡ 256
  pub read : b.readpos < 256
  pub write : b.writepos < 256

-- The characters that wait to be read, oldest first.
abbrev pub queue : RawBuff → List ℕ
queue b = items b.buff (distance b.readpos b.writepos) b.readpos

length-items : (buff : List ℕ) (k pos : ℕ) → length (items buff k pos) ≡ k
unfolding items
length-items buff zero pos = refl
length-items buff (suc k) pos = ap suc (length-items buff k ((pos + 1) % 256))

module _ (b : RawBuff) (r : IsRing b) where
  insert_items :
      (v : ℕ)
      → (b.writepos + 1) % 256 ≢ b.readpos
      → items (set b.buff b.writepos v) (distance b.readpos ((b.writepos + 1) % 256)) b.readpos
        ≡ queue b ++ v ∷ []
  insert_items v room =
      let d = distance b.readpos b.writepos in
      let more : distance b.readpos ((b.writepos + 1) % 256) ≡ suc d =
        omega (arith, r.read, r.write) in
      let end : (b.readpos + d) % 256 ≡ b.writepos = omega (arith, r.read, r.write) in
      let new : map_at (set b.buff b.writepos v) b.writepos ≡ v =
        ground
          (arith, map_at-set b.buff b.writepos b.writepos v (omega (arith, r.size, r.write))) in
      rw more (
        items-snoc (set b.buff b.writepos v) d b.readpos r.read
        ∙ rw
            (
              end,
              new,
              items-set b.buff d b.readpos b.writepos v r.size r.read r.write (omega arith),
            )
            refl)

  take_items :
      b.writepos ≢ b.readpos
      → queue b
        ≡ map_at b.buff b.readpos
          ∷ items b.buff (distance ((b.readpos + 1) % 256) b.writepos) ((b.readpos + 1) % 256)
  unfolding items
  take_items ne =
      let more : distance b.readpos b.writepos ≡ suc (distance ((b.readpos + 1) % 256) b.writepos) =
        omega (arith, r.read, r.write) in
      rw more refl

-- The queue of a well-formed buffer has at most 255 characters. `kbd_rawbuff_insert` appends the
-- character to a queue of fewer than 255 characters and calls `sem_signal`; on a queue of 255 it
-- drops the character and calls nothing. The buffer stays well formed.
pub kbd_rawbuff_insert-queue :
    (b : RawBuff) (v : ℕ)
    → IsRing b
    → IsRing (kbd_rawbuff_insert b v).0
      × (length (queue b) ≤ 255)
      × (queue (kbd_rawbuff_insert b v).0
          ≡ (if length (queue b) == 255 then queue b else queue b ++ v ∷ []))
      × ((kbd_rawbuff_insert b v).1 ≡ not (length (queue b) == 255))
unfolding kbd_rawbuff_insert
kbd_rawbuff_insert-queue b v r =
    let d = distance b.readpos b.writepos in
    let len = length-items b.buff d b.readpos in
    let bound : length (queue b) ≤ 255 = omega (arith, len) in
    elim (Bool-cases ((b.writepos + 1) % 256 == b.readpos)) [
      | inl full ↦
          let most : (length (queue b) == 255) ≡ true =
            ground (arith, len, full, r.read, r.write) in
          rw (full, most) (r, bound, refl, refl)
      | inr room ↦
          let less : (length (queue b) == 255) ≡ false =
            ground (arith, len, room, r.read, r.write) in
          let wrap : (b.writepos + 1) % 2 ^ 16 % 256 ≡ (b.writepos + 1) % 256 =
            omega (arith, r.write) in
          rw (room, less)
            (
              record {
                size = length-set b.buff b.writepos v ∙ r.size;
                read = r.read;
                write = omega arith;
              },
              bound,
              rw wrap (insert_items b r v (ground arith)),
              refl,
            )
    ]

-- Behind the wait the oldest character is taken off the queue.
take_char-queue :
    (b : RawBuff)
    → IsRing b
    → (b.writepos == b.readpos) ≡ false
    → (v : ℕ) × (b' : RawBuff) × (take_char b ≡ some (v, b')) × IsRing b' × (queue b ≡ v ∷ queue b')
unfolding take_char
take_char-queue b r more =
    let (v, read) = get_elem?_in b.buff b.readpos (omega (arith, r.size, r.read)) in
    let here : map_at b.buff b.readpos ≡ v = ground (arith, read) in
    let wrap : (b.readpos + 1) % 2 ^ 16 % 256 ≡ (b.readpos + 1) % 256 = omega (arith, r.read) in
    (
      v,
      record b { readpos = (b.readpos + 1) % 256 },
      rw (more, read, wrap) refl,
      record { size = r.size; read = omega arith; write = r.write },
      take_items b r (ground arith)
          ∙ ap (λ (t : ℕ). t ∷ queue (record b { readpos = (b.readpos + 1) % 256 })) here,
    )

empty_queue : (b : RawBuff) → IsRing b → (b.writepos == b.readpos) ≡ true → queue b ≡ []
empty_queue b r empty =
    let none_left : distance b.readpos b.writepos ≡ 0 = ground (arith, r.read, r.write) in
    rw none_left (unfold items in refl)

-- A character that comes while the queue is empty is the one that is taken then.
take_char-insert :
    (b : RawBuff) (v : ℕ)
    → IsRing b
    → queue b ≡ []
    → ((kbd_rawbuff_insert b v).1 ≡ true)
      × (b' : RawBuff) × (take_char (kbd_rawbuff_insert b v).0 ≡ some (v, b'))
      × IsRing b'
      × (queue b' ≡ [])
take_char-insert b v r empty =
    let (r', bound, held, signal) = kbd_rawbuff_insert-queue b v r in
    let c = (kbd_rawbuff_insert b v).0 in
    let one : queue c ≡ v ∷ [] = rw empty at held in
    let called : (kbd_rawbuff_insert b v).1 ≡ true = rw empty at signal in
    elim (Bool-cases (c.writepos == c.readpos)) [
      | inl none_left ↦
          let gone = empty_queue c r' none_left in
          absurd (omega (arith, ap length (sym gone ∙ one)))
      | inr more ↦
          let (w, b', run, ring, rest) = take_char-queue c r' more in
          let all : w ∷ queue b' ≡ v ∷ [] = sym rest ∙ one in
          let same : w ≡ v = cc in
          let gone : queue b' ≡ [] = cc in
          (called, b', run ∙ ap (λ (t : ℕ). some (t, b')) same, ring, gone)
    ]

-- The call of `kbd_get_char` by the only reader, on a queue and the semaphore as it is set up.
abbrev pub GetCharReturns : RawBuff → ℕ → Type 0
GetCharReturns b current =
    ((queue b ≡ [])
      × (kbd_sem' : Sem) × (kbd_get_char b idle_sem current ≡ some (blocked kbd_sem'))
      × (sem_signal kbd_sem' ≡ some (idle_sem, some current))
      × ((v : ℕ)
          → ((kbd_rawbuff_insert b v).1 ≡ true)
            × (b' : RawBuff) × (take_char (kbd_rawbuff_insert b v).0 ≡ some (v, b'))
            × IsRing b'
            × (queue b' ≡ [])))
    ⊎ ((v : ℕ) × (b' : RawBuff) × (kbd_get_char b idle_sem current ≡ some (got v b' idle_sem))
        × IsRing b'
        × (queue b ≡ v ∷ queue b'))

-- On a well-formed buffer and a semaphore for which no task waits, with the limit 0 and no ticket:
-- where the queue holds a character, `kbd_get_char` takes the oldest one off it and leaves the
-- semaphore as it was. Where it is empty, the call blocks the task; the next character that is
-- inserted calls `sem_signal`, which wakes that task up and leaves the semaphore as it was before
-- the call, and the task then takes just this character: the `ASSERT` behind the wait does not
-- fail. The buffer stays well formed.
pub kbd_get_char-queue : (b : RawBuff) (current : ℕ) → IsRing b → GetCharReturns b current
unfolding kbd_get_char sem_wait sem_signal ◌+ℤ◌ ◌-ℤ◌
kbd_get_char-queue b current r = elim (Bool-cases (b.writepos == b.readpos)) [
  | inl empty ↦
      let gone = empty_queue b r empty in
      inl (
        gone,
        record { ticket = negsuc 0; max_ticket = idle_sem.max_ticket; wlh = current ∷ [] },
        rw empty refl,
        refl,
        λ v. take_char-insert b v r gone,
      )
  | inr more ↦
      let (v, b', run, ring, rest) = take_char-queue b r more in
      inr (v, b', rw (more, run) refl, ring, rest)
]
