-- ===== src/Uvmm/Usage.antt =====
-- The statistics of an address space.
use desiros.Base.{ℕ, ◌<◌, ◌≡◌, refl, ap, ◌∙◌, Bool, true, false, ◌||◌, ◌==◌, arith, ne→==}
use desiros.Base.Words.{add32, sub32, u32_mod}
use desiros.Uvmm.{
  Uvmm, VmUsage, has_bit, p_read, p_write, p_user, change_written, change_code, change_overall,
  change_usage, account_change_of_arena_prot,
}

-- The counters are 32-bit words.
pub record Words (u : VmUsage) : Type 0 where
  pub overall : u.overall < u32_mod
  pub ro : u.ro < u32_mod
  pub rw : u.rw < u32_mod
  pub code : u.code < u32_mod

back : (a size : ℕ) → a < u32_mod → size < u32_mod → sub32 (add32 a size) size ≡ a
back a size l m = omega (arith, l, m)

-- Adding to the counters by some rights, and taking away by the same.
steps-back :
    (u : VmUsage) (size : ℕ) (write read user : Bool)
    → Words u
    → size < u32_mod
    → (read || write) ≡ true
    → change_overall
        (change_code
          (change_written
            (change_overall
              (change_code (change_written u size false write false read) size false user)
              size
              false
              true)
            size
            write
            false
            read
            false)
          size
          user
          false)
        size
        true
        false
      ≡ u
unfolding change_written change_code change_overall
steps-back u size true true true w l h =
    rw (back u.rw size w.rw l, back u.code size w.code l, back u.overall size w.overall l) refl
steps-back u size true true false w l h =
    rw (back u.rw size w.rw l, back u.overall size w.overall l) refl
steps-back u size true false true w l h =
    rw (back u.rw size w.rw l, back u.code size w.code l, back u.overall size w.overall l) refl
steps-back u size true false false w l h =
    rw (back u.rw size w.rw l, back u.overall size w.overall l) refl
steps-back u size false true true w l h =
    rw (back u.ro size w.ro l, back u.code size w.code l, back u.overall size w.overall l) refl
steps-back u size false true false w l h =
    rw (back u.ro size w.ro l, back u.overall size w.overall l) refl
steps-back u size false false true w l h = ground arith
steps-back u size false false false w l h = ground arith

any_right :
    (rights : ℕ) → (has_bit rights p_read || has_bit rights p_write) ≡ true → (rights == 0) ≡ false
any_right rights h = ne→== rights 0 (λ z. ground (arith, h, z))

change_usage-back :
    (u : VmUsage) (size rights : ℕ)
    → Words u
    → size < u32_mod
    → (has_bit rights p_read || has_bit rights p_write) ≡ true
    → change_usage (change_usage u size 0 rights) size rights 0 ≡ u
unfolding change_usage
change_usage-back u size rights w l h =
    rw (change_usage, any_right rights h)
      (steps-back u size (has_bit rights p_write) (has_bit rights p_read) (has_bit rights p_user) w
        l h)

abbrev with_usage : Uvmm → VmUsage → VmUsage → Uvmm
with_usage s total shrd = record s { vm_total = total; vm_shrd = shrd }

-- Memory that is accounted for with rights to read or to write, and then taken back with the same
-- rights, leaves the address space's statistics, and all else of it, as they were.
pub account_change_back :
    (s : Uvmm) (shared : Bool) (size rights : ℕ)
    → Words s.vm_total
    → Words s.vm_shrd
    → size < u32_mod
    → (has_bit rights p_read || has_bit rights p_write) ≡ true
    → account_change_of_arena_prot
        (account_change_of_arena_prot s shared size 0 rights)
        shared
        size
        rights
        0
      ≡ s
unfolding account_change_of_arena_prot
account_change_back s true size rights w v l h =
    let n : (rights == 0) ≡ false = any_right rights h in
    let m : (0 == rights) ≡ false = ground (arith, n) in
    rw (account_change_of_arena_prot, m, n)
      (ap (λ y. with_usage s y (change_usage (change_usage s.vm_shrd size 0 rights) size rights 0))
          (change_usage-back s.vm_total size rights w l h)
        ∙ ap (with_usage s s.vm_total) (change_usage-back s.vm_shrd size rights v l h))
account_change_back s false size rights w v l h =
    let n : (rights == 0) ≡ false = any_right rights h in
    let m : (0 == rights) ≡ false = ground (arith, n) in
    rw (account_change_of_arena_prot, m, n)
      (ap (λ y. with_usage s y s.vm_shrd) (change_usage-back s.vm_total size rights w l h))
