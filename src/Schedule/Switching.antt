-- ===== src/Schedule/Switching.antt =====
-- In which states `schedule` leaves the processes.
use desiros.Base.{
  ℕ, ◌<◌, ◌≡◌, refl, sym, ap, ◌∙◌, ◌≢◌, false, true, arith, eq→==, ne→==, ℕ_discrete,
}
use desiros.Schedule.{
  Process, proc_ready, proc_running, is_ready, max_pid, Scheduler, set_process, next_pid,
  save_registers, switch_to, switch_to_task, schedule, mark_ready, save_current, stays,
}
use desiros.Schedule.Choice.{Chosen, behind, before, idle, next_pid-Chosen}

-- The choice does not look at the current process.
agreeing :
    {ps ps1 : ℕ → Process} {pid r : ℕ}
    → ((q : ℕ) → q ≢ pid → (ps1 q).state ≡ (ps q).state)
    → Chosen ps1 pid r
    → Chosen ps pid r
agreeing {ps} {ps1} {pid} {r} e c =
    let same : (q : ℕ) → q ≢ pid → is_ready (ps q).state ≡ is_ready (ps1 q).state =
      λ q n. ap is_ready (sym (e q n)) in
    elim c [
      | behind l u d f ↦
          behind l u (same r (λ z. ground arith) ∙ d)
            (λ q a b. same q (λ z. ground arith) ∙ f q a b)
      | before l u d f g ↦
          before l u (same r (λ z. ground arith) ∙ d)
            (λ q a b. same q (λ z. ground arith) ∙ f q a b)
            (λ q a b. same q (λ z. ground arith) ∙ g q a b)
      | idle z f ↦ idle z (λ q a b n. same q n ∙ f q a b n)
    ]

-- The chosen process has its index as its pid, if the ready processes and process 0 have.
Chosen-pid :
    {ps : ℕ → Process} {pid r : ℕ}
    → Chosen ps pid r
    → (ps 0).pid ≡ 0
    → ((n : ℕ) → is_ready (ps n).state ≡ true → (ps n).pid ≡ n)
    → (ps r).pid ≡ r
Chosen-pid {r = r} (behind l u d f) zero_id ids = ids r d
Chosen-pid {r = r} (before l u d f g) zero_id ids = ids r d
Chosen-pid (idle z f) zero_id ids = rw z zero_id

-- What a switch leaves.
pub record Scheduled (s t : Scheduler) : Type 0 where
  pub chosen : Chosen s.p_list s.current t.current
  pub running : (t.p_list t.current).state ≡ proc_running
  pub left : t.current ≢ s.current → (t.p_list s.current).state ≡ proc_ready
  pub others : (q : ℕ) → q ≢ s.current → q ≢ t.current → t.p_list q ≡ s.p_list q

-- The current process is put aside, ready.
record Aside (s t : Scheduler) : Type 0 where
  at_same : t.current ≡ s.current
  ready : (t.p_list s.current).state ≡ proc_ready
  rest : (q : ℕ) → q ≢ s.current → t.p_list q ≡ s.p_list q
  ids : (q : ℕ) → (t.p_list q).pid ≡ (s.p_list q).pid

changed :
    (s : Scheduler) (p : Process)
    → p.state ≡ proc_ready
    → p.pid ≡ (s.p_list s.current).pid
    → Aside s (set_process s s.current p)
changed s p r i = record {
  at_same = refl;
  ready = rw (eq→== s.current s.current refl) r;
  rest = λ q n. rw (ne→== q s.current n) refl;
  ids = λ q. elim (ℕ_discrete q s.current) [
    | yes e ↦ rw (e, eq→== s.current s.current refl) i
    | no n ↦ rw (ne→== q s.current n) refl
  ];
}

twice : {s t u : Scheduler} → Aside s t → Aside t u → Aside s u
twice {s} {t} {u} a b = record {
  at_same = b.at_same ∙ a.at_same;
  ready = rw (← a.at_same) b.ready;
  rest = λ q n. b.rest q (λ e. n (e ∙ a.at_same)) ∙ a.rest q n;
  ids = λ q. b.ids q ∙ a.ids q;
}

saved-Aside :
    (s : Scheduler) (stack : ℕ → ℕ)
    → (s.p_list s.current).state ≡ proc_ready
    → Aside s (save_current s stack)
unfolding save_current save_registers
saved-Aside s stack r = changed s (save_registers s stack (s.p_list s.current)) r refl

ready-Aside : (s : Scheduler) → Aside s (mark_ready s)
unfolding mark_ready
ready-Aside s = changed s (record (s.p_list s.current) { state = proc_ready }) refl refl

both : (s : Scheduler) (stack : ℕ → ℕ) → Aside s (save_current (mark_ready s) stack)
both s stack =
    let a = ready-Aside s in twice a (saved-Aside (mark_ready s) stack (rw a.at_same a.ready))

switched-Scheduled :
    {s t : Scheduler} (n : ℕ)
    → Aside s t
    → Chosen s.p_list s.current n
    → (t.p_list n).pid ≡ n
    → Scheduled s (switch_to t n).1
unfolding switch_to switch_to_task
switched-Scheduled {s} {t} n a c id = record {
  chosen = rw id c;
  running = rw (eq→== (t.p_list n).pid (t.p_list n).pid refl) refl;
  left = λ ne. rw (ne→== s.current (t.p_list n).pid (λ z. ne (sym z))) a.ready;
  others = λ q b d. rw (ne→== q (t.p_list n).pid d) (a.rest q b);
}

-- When the number of processes makes schedule switch, and process 0, the current process and every
-- ready one have their indices as pids, it goes to the
-- ready process that comes first in the round after the current one, or to process 0 when there is
-- none; that one is running then, the one that was current is ready, whatever its state was before,
-- and all other processes are as they were.
pub schedule-Scheduled :
    (s : Scheduler) (stack : ℕ → ℕ)
    → (s.p_list 0).pid ≡ 0
    → (s.p_list s.current).pid ≡ s.current
    → ((n : ℕ) → is_ready (s.p_list n).state ≡ true → (s.p_list n).pid ≡ n)
    → s.current < max_pid
    → stays (mark_ready s) ≡ false
    → Scheduled s (schedule s stack).1
unfolding schedule
schedule-Scheduled s stack idle_id own_id ids small many =
    let t : Scheduler = save_current (mark_ready s) stack in
    let a : Aside s t = both s stack in
    let pid : (t.p_list t.current).pid ≡ s.current =
      a.ids t.current ∙ ap (λ q. (s.p_list q).pid) a.at_same ∙ own_id in
    let n : ℕ = next_pid t.p_list (t.p_list t.current).pid in
    let picked : Chosen t.p_list s.current n = rw pid (next_pid-Chosen t.p_list s.current small) in
    let c : Chosen s.p_list s.current n =
      agreeing {ps1 = t.p_list} (λ q ne. ap (λ p. p.state) (a.rest q ne)) picked in
    rw many (switched-Scheduled n a c (a.ids n ∙ Chosen-pid c idle_id ids))
