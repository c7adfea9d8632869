-- ===== src/Schedule/Choice.antt =====
-- Which process the scheduler picks, and in which states it leaves the processes.
use desiros.Base.{
  ℕ, zero, suc, ◌+◌, ◌-◌, ◌<◌, ◌≤◌, ◌≡◌, refl, ◌≢◌, inl, inr, true, false, Bool-cases, arith, ◌==◌,
  eq→==, dec_lt, ℕ_discrete,
}
use desiros.Schedule.{Process, is_ready, max_pid, first_ready, next_pid}

-- What a scan of the indices from `i` on finds.
pub data Scanned (ps : ℕ → Process) (n i : ℕ) (r : ℕ) : Type 0 where
  found :
      i ≤ r
      → r < i + n
      → is_ready (ps r).state ≡ true
      → ((q : ℕ) → i ≤ q → q < r → is_ready (ps q).state ≡ false)
      → Scanned ps n i r
  none_ready :
      r ≡ 0 → ((q : ℕ) → i ≤ q → q < i + n → is_ready (ps q).state ≡ false) → Scanned ps n i r

step :
    {ps : ℕ → Process} {n i r : ℕ}
    → is_ready (ps i).state ≡ false
    → Scanned ps n (i + 1) r
    → Scanned ps (suc n) i r
step {ps} {n} {i} no_one (found l u d f) =
    found (omega arith) (omega arith) d
      (λ q a b. elim (ℕ_discrete q i) [ yes e ↦ rw e no_one | no ne ↦ f q (omega arith) b ])
step {ps} {n} {i} no_one (none_ready z f) = none_ready z (λ q a b. elim (ℕ_discrete q i) [
  | yes e ↦ rw e no_one
  | no ne ↦ f q (omega arith) (omega arith)
])

first_ready-Scanned : (ps : ℕ → Process) (n i : ℕ) → Scanned ps n i (first_ready ps n i)
unfolding first_ready
first_ready-Scanned ps zero i = none_ready refl (λ q a b. ground arith)
first_ready-Scanned ps (suc n) i = elim (Bool-cases (is_ready (ps i).state)) [
  | inl e ↦ rw e (found (omega arith) (omega arith) e (λ q a b. ground arith))
  | inr e ↦ rw e (step e (first_ready-Scanned ps n (i + 1)))
]

-- The choice after the process `pid`, in the order pid + 1, ..., 31, 1, ..., pid - 1.
pub data Chosen (ps : ℕ → Process) (pid r : ℕ) : Type 0 where
  behind :
      pid < r
      → r < max_pid
      → is_ready (ps r).state ≡ true
      → ((q : ℕ) → pid < q → q < r → is_ready (ps q).state ≡ false)
      → Chosen ps pid r
  before :
      0 < r
      → r < pid
      → is_ready (ps r).state ≡ true
      → ((q : ℕ) → pid < q → q < max_pid → is_ready (ps q).state ≡ false)
      → ((q : ℕ) → 0 < q → q < r → is_ready (ps q).state ≡ false)
      → Chosen ps pid r
  idle :
      r ≡ 0
      → ((q : ℕ) → 0 < q → q < max_pid → q ≢ pid → is_ready (ps q).state ≡ false)
      → Chosen ps pid r

-- The scheduler picks the ready process that comes first in the round after the current one, and
-- process 0 exactly when no other process but the current one is ready.
pub next_pid-Chosen : (ps : ℕ → Process) (pid : ℕ) → pid < max_pid → Chosen ps pid (next_pid ps pid)
unfolding next_pid
next_pid-Chosen ps pid small = elim (first_ready-Scanned ps (max_pid - (pid + 1)) (pid + 1)) [
  | found l u d f ↦
      let ne : (first_ready ps (max_pid - (pid + 1)) (pid + 1) == 0) ≡ false = ground arith in
      rw (next_pid, ne) (behind (omega arith) (omega arith) d (λ q a b. f q (omega arith) b))
  | none_ready z f ↦
      let first_part : (q : ℕ) → pid < q → q < max_pid → is_ready (ps q).state ≡ false =
        λ q a b. f q (omega arith) (omega arith) in
      rw (next_pid, eq→== (first_ready ps (max_pid - (pid + 1)) (pid + 1)) 0 z)
        (elim (first_ready-Scanned ps (pid - 1) 1) [
          | found l u d g ↦
              before (omega arith) (omega arith) d first_part (λ q a b. g q (omega arith) b)
          | none_ready y g ↦ idle y (λ q a b c. elim (dec_lt q pid) [
            | yes t ↦ g q (omega arith) (omega arith)
            | no t ↦ first_part q (omega arith) b
          ])
        ])
]
