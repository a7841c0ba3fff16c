-- ===== src/Sem.antt =====
-- Semaphores, myLoader/core/sem.c. A task is its number, and the wait queue is the list of the tasks
-- in it, the one that `wakeup_task` takes next first. The locks leave no trace: a call runs alone.
-- A failed ASSERT is `none`. A wait has no time limit, as all the waits of the program.
use porcelix.Prelude.{ℕ, Bool, true, false, Option, none, some, List, [], ◌∷◌, ◌++◌, if◌then◌else◌}
use porcelix.Prelude.Int.{ℤ, pos, ltb_ℤ, ◌+ℤ◌, ◌-ℤ◌}

-- `sem_t`
pub record Sem : Type 0 where
  pub ticket : ℤ
  pub max_ticket : ℤ
  pub wlh : List ℕ

abbrev pub sem_init : ℤ → Sem
sem_init max_ticket = record { ticket = pos 0; max_ticket = max_ticket; wlh = [] }

-- The semaphore, and whether the task is blocked: then it goes on behind the call once it has been
-- woken up.
unfoldable pub sem_wait : Sem → ℕ → Sem × Bool
unfolding ◌-ℤ◌
sem_wait sem current =
    let left = sem.ticket -ℤ pos 1 in
    if ltb_ℤ left (pos 0)
    then (record sem { ticket = left; wlh = sem.wlh ++ current ∷ [] }, true)
    else (record sem { ticket = left }, false)

-- `wakeup_task` of the first task of the queue.
abbrev pub wakeup : Sem → List ℕ → Option (Sem × Option ℕ)
wakeup sem [] = none
wakeup sem (t ∷ wlh) = some (record sem { wlh = wlh }, some t)

-- The semaphore, and the task that is woken up, if one is.
unfoldable pub sem_signal : Sem → Option (Sem × Option ℕ)
unfolding ◌+ℤ◌
sem_signal sem =
    let more = if ltb_ℤ sem.ticket sem.max_ticket then sem.ticket +ℤ pos 1 else sem.ticket in
    if ltb_ℤ sem.ticket (pos 0)
    then wakeup (record sem { ticket = more }) sem.wlh
    else some (record sem { ticket = more }, none)
