-- ===== src/Kwaitq/Waking.antt =====
-- What a process finds that sleeps in a wait queue.
use desiros.Base.{
  ℕ, ◌≡◌, refl, sym, ap, ◌∙◌, ◌≢◌, true, false, Bool-cases, inl, inr, List, [], ◌∷◌, ◌++◌, has,
  has-append, has-erase_ne, ◌∈◌, ◌∉◌, Distinct, Distinct-erase, Distinct-append, not_mem-erase,
  ne→==, eq→==, ℕ_discrete, arith, erase,
}
use desiros.Schedule.{ProcessState}
use desiros.Kwaitq.{
  Kwaitqs, KwaitqEntry, set_entry, fails_with, eintr, kwaitq_add_entry, kwaitq_init_entry,
  kwaitq_remove_entry, wait_begin, wait_end, wake_begin, wake_finish,
}

-- What the processes do while the one with the entry `e` sleeps in the queue `q`: they begin to wait in
-- new entries and end it, in any queue; kwaitq_wakeup switches to the process of an entry, this one or
-- another, and goes on behind that with another entry; and processes are switched.
pub data Step (q e : ℕ) : Kwaitqs → Kwaitqs → Type 0 where
  begins :
      (s : Kwaitqs) (r x current : ℕ)
      → x ≢ e
      → x ∉ s.waiting_list q
      → Step q e s (wait_begin s r x current)
  ends : (s : Kwaitqs) (r x : ℕ) → x ≢ e → Step q e s (wait_end s r x).1
  wakes : (s : Kwaitqs) (x : ℕ) → Step q e s (wake_begin s x)
  goes_on : (s : Kwaitqs) (r x status : ℕ) → x ≢ e → Step q e s (wake_finish s r x status)
  switches : (s : Kwaitqs) (state : ℕ → ProcessState) → Step q e s (record s { proc_state = state })

pub data Reach (q e : ℕ) : Kwaitqs → Kwaitqs → Type 0 where
  here : (s : Kwaitqs) → Reach q e s s
  after : (s t u : Kwaitqs) → Reach q e s t → Step q e t u → Reach q e s u

-- The process waits, and nobody has marked its entry.
record Waits (q e : ℕ) (s : Kwaitqs) : Type 0 where
  listed : e ∈ s.waiting_list q
  distinct : Distinct (s.waiting_list q)
  unmarked : (s.entry_at e).wakeup_triggered ≡ false

pub Distinct-snoc : (x : ℕ) (xs : List ℕ) → Distinct xs → x ∉ xs → Distinct (xs ++ x ∷ [])
Distinct-snoc x xs d n =
    Distinct-append xs (x ∷ []) d (refl, tt)
      (λ a m. elim (ℕ_discrete a x) [
        | yes z ↦ absurd (ground (arith, sym (ap (λ y. has y xs) z) ∙ m, n))
        | no z ↦ rw (ne→== a x z) refl
      ])

wait_begin-Waits :
    (s : Kwaitqs) (q e current : ℕ)
    → Distinct (s.waiting_list q)
    → e ∉ s.waiting_list q
    → Waits q e (wait_begin s q e current)
unfolding wait_begin kwaitq_add_entry kwaitq_init_entry
wait_begin-Waits s q e current d n = record {
  listed =
      rw (eq→== q q refl)
        (ground (arith, has-append e (s.waiting_list q) (e ∷ []), eq→== e e refl));
  distinct = rw (eq→== q q refl) (Distinct-snoc e (s.waiting_list q) d n);
  unmarked = rw (eq→== e e refl) refl;
}

begins-Waits :
    (s : Kwaitqs) (q e r x current : ℕ)
    → x ≢ e
    → x ∉ s.waiting_list q
    → Waits q e s
    → Waits q e (wait_begin s r x current)
unfolding wait_begin kwaitq_add_entry kwaitq_init_entry
begins-Waits s q e r x current ne n w = elim (ℕ_discrete q r) [
  | yes z ↦
      let same : s.waiting_list r ≡ s.waiting_list q = ap s.waiting_list (sym z) in
      record {
        listed =
            rw (z, eq→== r r refl, same)
              (ground (arith, has-append e (s.waiting_list q) (x ∷ []), w.listed));
        distinct = rw (z, eq→== r r refl, same) (Distinct-snoc x (s.waiting_list q) w.distinct n);
        unmarked = rw (ne→== e x (λ y. ne (sym y))) w.unmarked;
      }
  | no z ↦ record {
    listed = rw (ne→== q r z) w.listed;
    distinct = rw (ne→== q r z) w.distinct;
    unmarked = rw (ne→== e x (λ y. ne (sym y))) w.unmarked;
  }
]

removed-Waits :
    (s : Kwaitqs) (q e r x : ℕ) → x ≢ e → Waits q e s → Waits q e (kwaitq_remove_entry s r x)
unfolding kwaitq_remove_entry
removed-Waits s q e r x ne w = elim (ℕ_discrete q r) [
  | yes z ↦ record {
    listed =
        rw (z, eq→== r r refl)
          (has-erase_ne e x (s.waiting_list r) (λ y. ne (sym y)) ∙ (rw z at w.listed));
    distinct = rw (z, eq→== r r refl) (Distinct-erase x (s.waiting_list r) (rw z at w.distinct));
    unmarked = rw (ne→== e x (λ y. ne (sym y))) w.unmarked;
  }
  | no z ↦ record {
    listed = rw (ne→== q r z) w.listed;
    distinct = rw (ne→== q r z) w.distinct;
    unmarked = rw (ne→== e x (λ y. ne (sym y))) w.unmarked;
  }
]

marked-Waits :
    (s : Kwaitqs) (q e x : ℕ) (entry : KwaitqEntry)
    → x ≢ e
    → Waits q e s
    → Waits q e (set_entry s x entry)
marked-Waits s q e x entry ne w = record {
  listed = w.listed;
  distinct = w.distinct;
  unmarked = rw (ne→== e x (λ y. ne (sym y))) w.unmarked;
}

Step-Waits : (q e : ℕ) (s t : Kwaitqs) → Step q e s t → Waits q e s → Waits q e t
unfolding wait_end wake_begin wake_finish
Step-Waits q e _ _ (begins s r x current ne n) w = begins-Waits s q e r x current ne n w
Step-Waits q e _ _ (ends s r x ne) w = elim (Bool-cases (s.entry_at x).wakeup_triggered) [
  | inl m ↦ rw m w
  | inr m ↦ rw m (removed-Waits s q e r x ne w)
]
Step-Waits q e _ _ (wakes s x) w = record {
  listed = w.listed;
  distinct = w.distinct;
  unmarked = w.unmarked;
}
Step-Waits q e _ _ (goes_on s r x status ne) w =
    marked-Waits (kwaitq_remove_entry s r x) q e x
      (record ((kwaitq_remove_entry s r x).entry_at x) {
        wakeup_triggered = true;
        wakeup_status = status;
      })
      ne (removed-Waits s q e r x ne w)
Step-Waits q e _ _ (switches s state) w = record {
  listed = w.listed;
  distinct = w.distinct;
  unmarked = w.unmarked;
}

Reach-Waits : (q e : ℕ) (s t : Kwaitqs) → Reach q e s t → Waits q e s → Waits q e t
Reach-Waits q e _ _ (here s) w = w
Reach-Waits q e _ _ (after s t u r p) w = Step-Waits q e t u p (Reach-Waits q e s t r w)

pub wait_begin-list :
    (s : Kwaitqs) (q e current : ℕ)
    → (wait_begin s q e current).waiting_list q ≡ s.waiting_list q ++ e ∷ []
unfolding wait_begin kwaitq_add_entry kwaitq_init_entry
wait_begin-list s q e current = rw (eq→== q q refl) refl

pub remove_entry-list :
    (s : Kwaitqs) (q e : ℕ)
    → (kwaitq_remove_entry s q e).waiting_list q ≡ erase e (s.waiting_list q)
unfolding kwaitq_remove_entry
remove_entry-list s q e = rw (eq→== q q refl) refl

-- A process that sleeps in kwaitq_wait returns with -EINTR, and takes its own entry and no other out of
-- the queue, whatever happens to the queues while it sleeps, as long as kwaitq_wakeup has not gone on
-- behind its switch to this process: so also when kwaitq_wakeup has just switched to it. The process
-- begins to wait in an entry that is new to a queue without repetitions.
pub kwaitq_wait-interrupted :
    (s t : Kwaitqs) (q e current : ℕ)
    → Distinct (s.waiting_list q)
    → e ∉ s.waiting_list q
    → Reach q e (wait_begin s q e current) t
    → ((wait_end t q e).0 ≡ fails_with eintr)
      × (e ∈ t.waiting_list q)
      × (e ∉ (wait_end t q e).1.waiting_list q)
      × ((x : ℕ) → x ≢ e → has x ((wait_end t q e).1.waiting_list q) ≡ has x (t.waiting_list q))
unfolding wait_end kwaitq_remove_entry
kwaitq_wait-interrupted s t q e current d n r =
    let w = Reach-Waits q e (wait_begin s q e current) t r (wait_begin-Waits s q e current d n) in
    (
      rw w.unmarked refl,
      w.listed,
      rw (w.unmarked, eq→== q q refl) (not_mem-erase e (t.waiting_list q) w.distinct),
      λ x ne. rw (w.unmarked, eq→== q q refl) (has-erase_ne x e (t.waiting_list q) ne),
    )
