-- ===== src/Ksynch.antt =====
-- Semaphores and mutexes, ksynch.c, over the wait queues. A function that may sleep or that switches
-- to a woken process is two, before and after the processor is given away.
pub mod Semaphores
mod Examples
use desiros.Base.{
  ℕ, zero, suc, Bool, true, false, List, [], ◌∷◌, Option, none, some, length, ◌==◌, if◌then◌else◌,
}
use desiros.Kwaitq.{
  Kwaitqs, Result, returns, fails_with, ok, ebusy, wait_begin, wait_end, is_running, wake_begin,
  wake_finish, kwaitq_init, kwaitq_is_empty,
}

-- The number -1 - n is negsuc n.
pub data ℤ : Type 0 where
  pos negsuc : ℕ → ℤ

abbrev pub increment : ℤ → ℤ
increment (pos n) = pos (suc n)
increment (negsuc zero) = pos 0
increment (negsuc (suc n)) = negsuc n

abbrev pub decrement : ℤ → ℤ
decrement (pos zero) = negsuc 0
decrement (pos (suc n)) = pos n
decrement (negsuc n) = negsuc (suc n)

abbrev pub is_negative : ℤ → Bool
is_negative (pos n) = false
is_negative (negsuc n) = true

-- `struct ksema` with all wait queues; its own queue is at `kwaitq`.
pub record Ksema : Type 0 where
  pub value : ℤ
  pub kwaitq : ℕ
  pub queues : Kwaitqs

unfoldable pub ksema_init : Kwaitqs → ℕ → ℤ → Ksema
ksema_init s q initial_value = record {
  value = initial_value;
  kwaitq = q;
  queues = kwaitq_init s q;
}

-- `ksema_down` until the process sleeps, in the entry at `e`, or returns.
unfoldable pub down_begin : Ksema → ℕ → ℕ → Option Result × Ksema
down_begin s e current =
    let t = record s { value = decrement s.value } in
    if is_negative t.value
    then (none, record t { queues = wait_begin t.queues t.kwaitq e current })
    else (some (returns ok), t)

-- `ksema_down` from the end of the sleep on: what `kwaitq_wait` returns, and the rest.
unfoldable pub down_finish : Ksema → Result × Kwaitqs → Result × Ksema
down_finish s (fails_with error, queues) =
    (fails_with error, record s { value = increment s.value; queues = queues })
down_finish s (returns status, queues) =
    if status == ok
    then (returns status, record s { queues = queues })
    else (returns status, record s { value = increment s.value; queues = queues })

unfoldable pub down_end : Ksema → ℕ → Result × Ksema
down_end s e = down_finish s (wait_end s.queues s.kwaitq e)

unfoldable pub ksema_trydown : Ksema → Result × Ksema
ksema_trydown s = elim s.value [
  | negsuc n ↦ (fails_with ebusy, s)
  | pos zero ↦ (fails_with ebusy, s)
  | pos (suc n) ↦ (returns ok, record s { value = pos n })
]

-- `kwaitq_wakeup` of one process, until `reschedule` switches to it: its entry, or none if nobody
-- waits. `none` for the whole is a loop that does not end, as the first process is running.
unfoldable pub wakeup_begin : Kwaitqs → ℕ → Option (Option ℕ × Kwaitqs)
wakeup_begin s q = elim (s.waiting_list q) [
  | [] ↦ some (none, s)
  | e ∷ entries ↦
      if is_running (s.proc_state (s.entry_at e).proc) then none else some (some e, wake_begin s e)
]

-- `ksema_up` until the switch, or to its end if nobody waits; and from the end of `reschedule` on.
unfoldable pub up_begin : Ksema → Option (Option ℕ × Ksema)
unfolding wakeup_begin
up_begin s = elim (wakeup_begin s.queues s.kwaitq) [
  | none ↦ none
  | some (woken, queues) ↦ some (woken, record s { value = increment s.value; queues = queues })
]

unfoldable pub up_finish : Ksema → ℕ → Ksema
up_finish s e = record s { queues = wake_finish s.queues s.kwaitq e ok }

-- `struct kmutex`; the owner is a process, `none` for NULL.
pub record Kmutex : Type 0 where
  pub owner : Option ℕ
  pub kwaitq : ℕ
  pub queues : Kwaitqs

abbrev pub owned_by : Option ℕ → ℕ → Bool
owned_by none current = false
owned_by (some p) current = p == current

unfoldable pub kmutex_init : Kwaitqs → ℕ → Kmutex
kmutex_init s q = record { owner = none; kwaitq = q; queues = kwaitq_init s q }

-- `kmutex_lock` until the process sleeps or returns.
unfoldable pub lock_begin : Kmutex → ℕ → ℕ → Option Result × Kmutex
lock_begin m e current = elim m.owner [
  | none ↦ (some (returns ok), record m { owner = some current })
  | some p ↦
      if p == current
      then (some (fails_with ebusy), m)
      else (none, record m { queues = wait_begin m.queues m.kwaitq e current })
]

unfoldable pub lock_end : Kmutex → ℕ → ℕ → Result × Kmutex
lock_end m e current =
    let (result, queues) = wait_end m.queues m.kwaitq e in
    let t = record m { queues = queues } in
    elim result [
      | fails_with error ↦ (fails_with error, t)
      | returns status ↦
          if status == ok
          then (returns ok, record t { owner = some current })
          else (returns status, t)
    ]

unfoldable pub kmutex_trylock : Kmutex → ℕ → Result × Kmutex
kmutex_trylock m current = elim m.owner [
  | none ↦ (returns ok, record m { owner = some current })
  | some p ↦ (fails_with ebusy, m)
]

-- `kmutex_unlock` until its wake-up switches, or to its end: its result, none when it has switched to
-- the process of an entry; and from the end of `reschedule` on.
unfoldable pub unlock_begin : Kmutex → ℕ → Option (Option Result × Kmutex)
unfolding wakeup_begin
unlock_begin m current =
    if owned_by m.owner current
    then if kwaitq_is_empty m.queues m.kwaitq
      then some (some (returns ok), record m { owner = none })
      else elim (wakeup_begin m.queues m.kwaitq) [
        | none ↦ none
        | some (woken, queues) ↦ some (none, record m { queues = queues })
      ]
    else some (some (fails_with 1), m)

unfoldable pub unlock_finish : Kmutex → ℕ → Result × Kmutex
unlock_finish m e = (returns ok, record m { queues = wake_finish m.queues m.kwaitq e ok })
