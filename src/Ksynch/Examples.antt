-- ===== src/Ksynch/Examples.antt =====
-- A semaphore for which two processes wait, and the theorems at it.
use desiros.Base.{false, [], ◌∷◌, ◌==◌, if◌then◌else◌}
use desiros.Schedule.{proc_blocked}
use desiros.Ksynch.{Ksema, negsuc}

abbrev two_wait : Ksema
two_wait = record {
  value = negsuc 1;
  kwaitq = 1;
  queues = record {
    entry_at = λ e. record { proc = 3; kwaitq = 1; wakeup_triggered = false; wakeup_status = 0 };
    waiting_list = λ q. if q == 1 then 13 ∷ 14 ∷ [] else [];
    proc_state = λ p. proc_blocked;
    rescheduled = [];
  };
}
