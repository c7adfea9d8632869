-- ===== src/Kwaitq/Examples.antt =====
-- A queue of three sleeping processes to which a fourth comes, and the theorem at it.
use desiros.Base.{ℕ, ◌-◌, ◌≡◌, ◌≢◌, refl, false, [], ◌∷◌, ◌==◌, if◌then◌else◌, has, ◌∈◌, ◌∉◌}
use desiros.Schedule.{proc_blocked}
use desiros.Kwaitq.{Kwaitqs, fails_with, eintr, wait_begin, wait_end, wake_begin}
use desiros.Kwaitq.Waking.{here, after, wakes, kwaitq_wait-interrupted, Reach}

-- The entry 10 + p is that of the process p.
abbrev three_waiting : Kwaitqs
three_waiting = record {
  entry_at = λ e. record { proc = e - 10; kwaitq = 1; wakeup_triggered = false; wakeup_status = 0 };
  waiting_list = λ q. if q == 1 then 13 ∷ 14 ∷ 15 ∷ [] else [];
  proc_state = λ p. proc_blocked;
  rescheduled = [];
}

-- The fourth process begins to sleep, and kwaitq_wakeup switches to it.
abbrev asleep : Kwaitqs
asleep = wait_begin three_waiting 1 16 6

abbrev switched : Kwaitqs
switched = wake_begin asleep 16

woken : Reach 1 16 asleep switched
woken = after asleep asleep switched (here asleep) (wakes asleep 16)

kwaitq_wait-interrupted_example :
    ((wait_end switched 1 16).0 ≡ fails_with eintr)
    × (16 ∈ switched.waiting_list 1)
    × (16 ∉ (wait_end switched 1 16).1.waiting_list 1)
    × ((x : ℕ)
        → x ≢ 16
        → has x ((wait_end switched 1 16).1.waiting_list 1) ≡ has x (switched.waiting_list 1))
kwaitq_wait-interrupted_example =
    kwaitq_wait-interrupted three_waiting switched 1 16 6 (refl, (refl, (refl, tt))) refl woken
