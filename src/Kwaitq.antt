-- ===== src/Kwaitq.antt =====
-- Wait queues, kwaitq.c. A queue and an entry are named by their addresses, and a queue's list is a
-- sequence as in module Physmem; 0 is NULL. The calls of `reschedule` of schedule.c are noted down in
-- order. The code between switching interrupts off and on is one step, but for the two places where
-- the processor is given away: `kwaitq_wait` is two steps, before and after the process sleeps, and so
-- is each turn of `kwaitq_wakeup`, before and after `reschedule` runs the woken process. An entry that
-- is removed from a list is in it.
pub mod Waking
mod Examples
use desiros.Base.{
  ℕ, zero, suc, ◌-◌, Bool, true, false, List, [], ◌∷◌, ◌++◌, Option, none, some, ◌==◌,
  if◌then◌else◌, erase,
}
use desiros.Schedule.{
  ProcessState, proc_stopped, proc_ready, proc_running, proc_blocked, proc_zombie,
}

-- What the functions return: 0 or a given status, or minus the number of an error.
pub data Result : Type 0 where
  returns : ℕ → Result
  fails_with : ℕ → Result

abbrev pub ok : ℕ
ok = 0

abbrev pub ebusy : ℕ
ebusy = 16

abbrev pub eintr : ℕ
eintr = 4

pub record KwaitqEntry : Type 0 where
  pub proc : ℕ
  pub kwaitq : ℕ
  pub wakeup_triggered : Bool
  pub wakeup_status : ℕ

pub record Kwaitqs : Type 0 where
  pub entry_at : ℕ → KwaitqEntry
  pub waiting_list : ℕ → List ℕ
  pub proc_state : ℕ → ProcessState
  pub rescheduled : List ℕ

abbrev pub set_entry : Kwaitqs → ℕ → KwaitqEntry → Kwaitqs
set_entry s e entry = record s { entry_at = λ x. if x == e then entry else s.entry_at x }

abbrev pub set_list : Kwaitqs → ℕ → List ℕ → Kwaitqs
set_list s q entries = record s { waiting_list = λ x. if x == q then entries else s.waiting_list x }

abbrev pub set_state : Kwaitqs → ℕ → ProcessState → Kwaitqs
set_state s p state = record s { proc_state = λ x. if x == p then state else s.proc_state x }

abbrev pub is_running : ProcessState → Bool
is_running proc_stopped = false
is_running proc_ready = false
is_running proc_running = true
is_running proc_blocked = false
is_running proc_zombie = false

unfoldable pub kwaitq_init : Kwaitqs → ℕ → Kwaitqs
kwaitq_init s q = set_list s q []

unfoldable pub kwaitq_is_empty : Kwaitqs → ℕ → Bool
kwaitq_is_empty s q = elim (s.waiting_list q) [ [] ↦ true | _ ∷ _ ↦ false ]

unfoldable pub kwaitq_dispose : Kwaitqs → ℕ → Result
kwaitq_dispose s q = if kwaitq_is_empty s q then returns ok else fails_with ebusy

unfoldable pub kwaitq_init_entry : Kwaitqs → ℕ → ℕ → Kwaitqs
kwaitq_init_entry s e current =
    set_entry s e
      (record { proc = current; kwaitq = 0; wakeup_triggered = false; wakeup_status = 0 })

unfoldable pub kwaitq_add_entry : Kwaitqs → ℕ → ℕ → Kwaitqs
kwaitq_add_entry s q e = set_entry (set_list s q (s.waiting_list q ++ e ∷ [])) e (record {
  proc = (s.entry_at e).proc;
  kwaitq = q;
  wakeup_triggered = false;
  wakeup_status = ok;
})

unfoldable pub kwaitq_remove_entry : Kwaitqs → ℕ → ℕ → Kwaitqs
kwaitq_remove_entry s q e =
    set_entry (set_list s q (erase e (s.waiting_list q))) e (record (s.entry_at e) { kwaitq = 0 })

-- `kwaitq_wait` up to `schedule()`, and from there on; the entry is on the stack, at `e`.
unfoldable pub wait_begin : Kwaitqs → ℕ → ℕ → ℕ → Kwaitqs
wait_begin s q e current =
    let t = kwaitq_add_entry (kwaitq_init_entry s e current) q e in
    set_state t (t.entry_at e).proc proc_blocked

unfoldable pub wait_end : Kwaitqs → ℕ → ℕ → Result × Kwaitqs
wait_end s q e =
    if (s.entry_at e).wakeup_triggered
    then (returns (s.entry_at e).wakeup_status, s)
    else (fails_with eintr, kwaitq_remove_entry s q e)

-- A turn of `kwaitq_wakeup` up to its call of `reschedule`, and from there on.
unfoldable pub wake_begin : Kwaitqs → ℕ → Kwaitqs
wake_begin s e =
    let p = (s.entry_at e).proc in
    record (set_state s p proc_ready) { rescheduled = s.rescheduled ++ p ∷ [] }

unfoldable pub wake_finish : Kwaitqs → ℕ → ℕ → ℕ → Kwaitqs
wake_finish s q e wakeup_status =
    let gone = kwaitq_remove_entry s q e in
    set_entry gone e
      (record (gone.entry_at e) { wakeup_triggered = true; wakeup_status = wakeup_status })

-- The loop of `kwaitq_wakeup`, on fuel. `others` is what the other processes do to the queues until
-- `reschedule` of a process returns.
unfoldable pub wakeup_loop : (Kwaitqs → ℕ → Kwaitqs) → ℕ → Kwaitqs → ℕ → ℕ → ℕ → Option Kwaitqs
wakeup_loop others zero s q nb_process wakeup_status = none
wakeup_loop others (suc n) s q nb_process wakeup_status = elim (s.waiting_list q) [
  | [] ↦ some s
  | e ∷ entries ↦
      let again = wakeup_loop others n s q nb_process wakeup_status in
      let back = others (wake_begin s e) (s.entry_at e).proc in
      let rest =
        wakeup_loop others n (wake_finish back q e wakeup_status) q (nb_process - 1)
          wakeup_status in
      if nb_process == 0
      then some s
      else if is_running (s.proc_state (s.entry_at e).proc)
      then again
      else rest
]

unfoldable pub kwaitq_change_priority : Kwaitqs → ℕ → ℕ → Kwaitqs
kwaitq_change_priority s q e = kwaitq_add_entry (kwaitq_remove_entry s q e) q e
