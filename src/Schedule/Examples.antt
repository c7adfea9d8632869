-- ===== src/Schedule/Examples.antt =====
-- Three processes, of which one is blocked, and the theorems at them.
use desiros.Base.{ℕ, ◌*◌, ◌≡◌, refl, false, arith, ◌==◌, if◌then◌else◌}
use desiros.Schedule.{
  Regs, Process, proc_ready, proc_running, proc_blocked, Scheduler, schedule, next_pid, mark_ready,
  stays,
}
use desiros.Schedule.Choice.{Chosen, next_pid-Chosen}
use desiros.Schedule.Switching.{Scheduled, schedule-Scheduled}

abbrev user_regs : Regs
user_regs = record {
  eax = 0;
  ecx = 0;
  edx = 0;
  ebx = 0;
  esp = 0;
  ebp = 0;
  esi = 0;
  edi = 0;
  eip = 0;
  eflags = 0;
  cs = 35;
  ss = 51;
  ds = 51;
  es = 51;
  fs = 51;
  gs = 51;
}

-- Process 2 runs, process 3 is blocked, all others are ready.
abbrev table : ℕ → Process
table n = record {
  pid = n;
  regs = user_regs;
  kstack_ss0 = 24;
  kstack_esp0 = 1000 * n;
  state = if n == 2 then proc_running else if n == 3 then proc_blocked else proc_ready;
}

abbrev running_2 : Scheduler
running_2 = record { p_list = table; current = 2; num_proc = 4; tss_ss0 = 24; tss_esp0 = 2000 }

next_pid-Chosen_example : Chosen table 2 (next_pid table 2)
next_pid-Chosen_example = next_pid-Chosen table 2 (omega arith)

next_is_4 : next_pid table 2 ≡ 4
unfolding next_pid
next_is_4 = refl

goes_on : stays (mark_ready running_2) ≡ false
unfolding mark_ready
goes_on = refl

schedule-Scheduled_example : Scheduled running_2 (schedule running_2 (λ _. 0)).1
schedule-Scheduled_example =
    schedule-Scheduled running_2 (λ _. 0) refl refl (λ n r. refl) (omega arith) goes_on
