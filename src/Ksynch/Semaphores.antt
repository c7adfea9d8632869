-- ===== src/Ksynch/Semaphores.antt =====
-- Semaphores: the value counts the processes that wait.
use desiros.Base.{
  ℕ, suc, ◌≡◌, ◌≢◌, false, List, [], ◌∷◌, Option, none, some, length, ◌∈◌, ◌∉◌, Distinct,
}
use desiros.Schedule.{ProcessState}
use desiros.Kwaitq.{fails_with, eintr}
use desiros.Ksynch.{ℤ, pos, negsuc, increment, Ksema, down_begin, down_end, ksema_trydown, up_begin}

-- As many processes wait as the value is below 0.
abbrev pub Counts : ℤ → List ℕ → Type 0
Counts (pos n) entries = entries ≡ []
Counts (negsuc n) entries = length entries ≡ suc n

abbrev pub waiting : Ksema → List ℕ
waiting s = s.queues.waiting_list s.kwaitq

pub record Settled (s : Ksema) : Type 0 where
  pub counts : Counts s.value (waiting s)
  pub distinct : Distinct (waiting s)

-- What can happen to a semaphore until ksema_up wakes a process: a process takes it or begins to wait
-- in a new entry, tries to take it, gives it back while nobody waits, or runs again although it was
-- not woken; and processes are switched.
pub data Step : Ksema → Ksema → Type 0 where
  takes : (s : Ksema) (e current : ℕ) → e ∉ waiting s → Step s (down_begin s e current).1
  tries : (s : Ksema) → Step s (ksema_trydown s).1
  gives_back : (s : Ksema) → waiting s ≡ [] → (t : Ksema) → up_begin s ≡ some (none, t) → Step s t
  interrupted :
      (s : Ksema) (e : ℕ)
      → e ∈ waiting s
      → (s.queues.entry_at e).wakeup_triggered ≡ false
      → Step s (down_end s e).1
  switches :
      (s : Ksema) (state : ℕ → ProcessState)
      → Step s (record s { queues = record s.queues { proc_state = state } })

pub data Reach : Ksema → Ksema → Type 0 where
  here : (s : Ksema) → Reach s s
  after : (s t u : Ksema) → Reach s t → Step t u → Reach s u

state_of : Ksema → Option (Option ℕ × Ksema) → Ksema
state_of s none = s
state_of s (some (woken, t)) = t

-- What is left when the process of the first entry has ended its ksema_down.
pub record Failed (s t : Ksema) (e : ℕ) (rest : List ℕ) : Type 0 where
  pub switched : up_begin s ≡ some (some e, t)
  pub result : (down_end t e).0 ≡ fails_with eintr
  pub left : waiting (down_end t e).1 ≡ rest
  pub value : (down_end t e).1.value ≡ increment (increment s.value)
  pub miscounts : rest ≢ [] → Counts s.value (e ∷ rest) → ¬ Counts (down_end t e).1.value rest
