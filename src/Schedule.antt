-- ===== src/Schedule.antt =====
-- The scheduler, schedule.c, on the process table of include/process.h. A process is named by its
-- index in `p_list`. What the assembly loads into the processor is the result of a switch; the
-- words of the interrupt's stack are an argument.
pub mod Choice
pub mod Switching
mod Examples
use desiros.Base.{
  ℕ, zero, suc, ◌+◌, ◌-◌, ◌/◌, ◌%◌, ◌^◌, ◌≡◌, Bool, true, false, ◌&&◌, ◌||◌, not, Option, none,
  some, ltb, ◌==◌, if◌then◌else◌,
}
use desiros.Base.Words.{add32}

pub data ProcessState : Type 0 where
  proc_stopped proc_ready proc_running proc_blocked proc_zombie : ProcessState

abbrev pub is_ready : ProcessState → Bool
is_ready proc_stopped = false
is_ready proc_ready = true
is_ready proc_running = false
is_ready proc_blocked = false
is_ready proc_zombie = false

abbrev pub max_pid : ℕ
max_pid = 32

-- The member `regs` of `struct process`, without `cr3`.
pub record Regs : Type 0 where
  pub eax : ℕ
  pub ecx : ℕ
  pub edx : ℕ
  pub ebx : ℕ
  pub esp : ℕ
  pub ebp : ℕ
  pub esi : ℕ
  pub edi : ℕ
  pub eip : ℕ
  pub eflags : ℕ
  pub cs : ℕ
  pub ss : ℕ
  pub ds : ℕ
  pub es : ℕ
  pub fs : ℕ
  pub gs : ℕ

pub record Process : Type 0 where
  pub pid : ℕ
  pub regs : Regs
  pub kstack_ss0 : ℕ
  pub kstack_esp0 : ℕ
  pub state : ProcessState

pub record Scheduler : Type 0 where
  pub p_list : ℕ → Process
  pub current : ℕ
  pub num_proc : ℕ
  pub tss_ss0 : ℕ
  pub tss_esp0 : ℕ

abbrev pub set_process : Scheduler → ℕ → Process → Scheduler
set_process s n p = record s { p_list = λ q. if q == n then p else s.p_list q }

-- The kernel stack that is loaded, and what `do_switch` returns to.
pub record Switch : Type 0 where
  pub user_mode : Bool
  pub kss : ℕ
  pub kesp : ℕ
  pub target : Regs

-- `(eflags | 0x200) & 0xFFFFBFFF`: the bit for interrupts is set, and that of a nested task cleared.
abbrev pub with_bit : ℕ → ℕ → ℕ
with_bit x bit = if ((x / 2 ^ bit) % 2) == 1 then x else x + 2 ^ bit

abbrev pub without_bit : ℕ → ℕ → ℕ
without_bit x bit = if ((x / 2 ^ bit) % 2) == 1 then x - 2 ^ bit else x

unfoldable pub loaded_flags : ℕ → ℕ
loaded_flags eflags = without_bit (with_bit eflags 9) 14

-- The segment registers are 16-bit fields.
abbrev pub u16 : ℕ → ℕ
u16 x = x % 2 ^ 16

unfoldable pub switch_to_task : Scheduler → ℕ → Bool → Switch × Scheduler
switch_to_task s n user =
    let p = s.p_list n in
    let t =
      set_process (record s { current = n; tss_ss0 = p.kstack_ss0; tss_esp0 = p.kstack_esp0 }) n
        (record p { state = proc_running }) in
    (
      record {
        user_mode = user;
        kss = if user then p.kstack_ss0 else p.regs.ss;
        kesp = if user then p.kstack_esp0 else p.regs.esp;
        target = record p.regs { eflags = loaded_flags p.regs.eflags };
      },
      t,
    )

-- The current process with its registers taken from the stack of the interrupt.
unfoldable pub save_registers : Scheduler → (ℕ → ℕ) → Process → Process
save_registers s stack p =
    let kernel = u16 (stack 15) == 8 in
    record p {
      regs = record p.regs {
        eflags = stack 16;
        cs = u16 (stack 15);
        eip = stack 14;
        eax = stack 13;
        ecx = stack 12;
        edx = stack 11;
        ebx = stack 10;
        ebp = stack 8;
        esi = stack 7;
        edi = stack 6;
        ds = u16 (stack 5);
        es = u16 (stack 4);
        fs = u16 (stack 3);
        gs = u16 (stack 2);
        esp = if kernel then add32 (stack 9) 12 else stack 17;
        ss = if kernel then s.tss_ss0 else u16 (stack 18);
      };
      kstack_ss0 = s.tss_ss0;
      kstack_esp0 = s.tss_esp0;
    }

-- The loops `for (i = ...; newpid == 0; i++)` over `n` indices from `i` on.
unfoldable pub first_ready : (ℕ → Process) → ℕ → ℕ → ℕ
first_ready ps zero i = 0
first_ready ps (suc n) i =
    let rest = first_ready ps n (i + 1) in if is_ready (ps i).state then i else rest

unfoldable pub next_pid : (ℕ → Process) → ℕ → ℕ
unfolding first_ready
next_pid ps pid =
    let newpid = first_ready ps (max_pid - (pid + 1)) (pid + 1) in
    if newpid == 0 then first_ready ps (pid - 1) 1 else newpid

unfoldable pub switch_to : Scheduler → ℕ → Switch × Scheduler
unfolding switch_to_task
switch_to s n = let p = s.p_list n in switch_to_task s p.pid (not (p.regs.cs == 8))

-- The current process is ready, and has its registers saved.
unfoldable pub mark_ready : Scheduler → Scheduler
mark_ready s = set_process s s.current (record (s.p_list s.current) { state = proc_ready })

unfoldable pub save_current : Scheduler → (ℕ → ℕ) → Scheduler
unfolding save_registers
save_current s stack = set_process s s.current (save_registers s stack (s.p_list s.current))

-- There is nothing to switch to.
abbrev pub stays : Scheduler → Bool
stays s = s.num_proc == 0 || (s.num_proc == 1 && not ((s.p_list s.current).pid == 0))

-- `none` for a return to the current process.
unfoldable pub schedule : Scheduler → (ℕ → ℕ) → Option Switch × Scheduler
unfolding mark_ready save_current next_pid switch_to
schedule s stack =
    let s1 = mark_ready s in
    if stays s1
    then (none, s1)
    else (let s2 = save_current s1 stack in
        let (switch, t) = switch_to s2 (next_pid s2.p_list (s2.p_list s2.current).pid) in
        (some switch, t))

unfoldable pub reschedule : Scheduler → (ℕ → ℕ) → ℕ → Option Switch × Scheduler
unfolding save_current switch_to
reschedule s stack pid =
    if stays s
    then (none, s)
    else (let s2 = save_current s stack in let (switch, t) = switch_to s2 pid in (some switch, t))
