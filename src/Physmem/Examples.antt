-- ===== src/Physmem/Examples.antt =====
-- A memory of 2 MB with a kernel of 64 kB at 0x100000, and the theorems about the allocator there.
use desiros.Base.{
  ◌+◌, ◌/◌, ℕ, ◌*◌, ◌≤◌, ◌<◌, ◌≡◌, refl, ◌≢◌, ◌⊎◌, true, false, List, [], ◌∷◌, some, arith, length,
  ◌==◌, if◌then◌else◌,
}
use desiros.Base.Words.{page_size}
use desiros.Physmem.{
  Physmem, Image, physmem_setup, ref_physpage_new, ref_physpage_at, unref_physpage, set_kvmm_range,
  get_kvmm_range, bios_n_video_start, bios_n_video_end, mark_of,
}
use desiros.Physmem.Invariant.{Inv, acquired}
use desiros.Physmem.Reference.{
  Referenced, ref_physpage_new_lem, ref_physpage_at-Referenced, Unsaturated,
}
use desiros.Physmem.Release.{Unreferenced, unref_physpage-Unreferenced, unref-ref_physpage_new}
use desiros.Physmem.Setup.{physmem_setup-Inv, physmem_setup_fails}
use desiros.Physmem.Reserved.{descriptors_end, physmem_setup_reserved}
use desiros.Physmem.Runs.{here, next, call_new, call_unref, Reach-Inv, get-set_kvmm_range, apply}

abbrev image : Image
image = record { b_kernel = 0x100000; e_kernel = 0x110000 }

abbrev ram_size : ℕ
ram_size = 0x200000

abbrev blank : Physmem
blank = record {
  paddr = λ _. 0;
  ref_cnt = λ _. 0;
  kernel_range = λ _. 0;
  free_ppage = [];
  used_ppage = [];
  physmem_base = 0;
  physmem_top = 0;
  physmem_total_pages = 0;
  physmem_used_pages = 0;
}

-- Of 512 pages 96 hold the BIOS area, 16 the kernel and 3 the descriptors; page 0 is on no list.
ready_counts :
    let s = (physmem_setup image ram_size blank).1 in
    (length s.free_ppage ≡ 396) × (length s.used_ppage ≡ 115) × (s.physmem_used_pages ≡ 115)
unfolding physmem_setup mark_of
ready_counts = (refl, refl, refl)

physmem_setup-Inv_example :
    let r = physmem_setup image ram_size blank in
    (r.0 ≡ true) × Inv r.1 × (r.1.physmem_total_pages ≡ 512) × (r.1.physmem_top ≡ ram_size)
physmem_setup-Inv_example =
    physmem_setup-Inv image ram_size blank (omega arith) (λ p. omega arith) (omega arith)

physmem_setup_fails_example :
    let r = physmem_setup image 0x100000 blank in
    (r.0 ≡ false) × (r.1.free_ppage ≡ []) × (r.1.used_ppage ≡ [])
physmem_setup_fails_example = physmem_setup_fails image 0x100000 blank (omega arith)

-- The first page behind the descriptors.
physmem_setup_reserved_example :
    (page_size ≤ 0x113 * page_size)
    × ((0x113 * page_size < bios_n_video_start) ⊎ (bios_n_video_end ≤ 0x113 * page_size))
    × ((0x113 * page_size + page_size ≤ image.b_kernel)
        ⊎ (descriptors_end image (ram_size / page_size) ≤ 0x113 * page_size))
unfolding physmem_setup mark_of
physmem_setup_reserved_example =
    physmem_setup_reserved image ram_size blank 0x113 (omega arith) (omega arith) (omega arith)
      (omega arith) refl refl

-- Three managed pages: two free, one with two references.
abbrev pub three : Physmem
three = record {
  paddr = λ p. p * page_size;
  ref_cnt = λ p. if p == 3 then 2 else 0;
  kernel_range = λ _. 0;
  free_ppage = 1 ∷ 2 ∷ [];
  used_ppage = 3 ∷ [];
  physmem_base = 0x1000;
  physmem_top = 0x4000;
  physmem_total_pages = 4;
  physmem_used_pages = 1;
}

pub three-Inv : Inv three
three-Inv = record {
  above_zero = omega arith;
  below_4g = omega arith;
  few_pages = omega arith;
  counted = refl;
  free_distinct = (refl, (refl, tt));
  used_distinct = (refl, tt);
  apart = λ p m. ground arith;
  free_managed = λ p m. ground arith;
  used_managed = λ p m. ground arith;
  listed = λ p m. ground arith;
  free_count = λ p m. ground arith;
  used_count = λ p m. ground arith;
  word_count = λ p. ground arith;
  address = λ p m. refl;
}

pub three-Unsaturated : Unsaturated three
three-Unsaturated p = ground arith

ref_physpage_new_lem_example :
    ((three.free_ppage ≡ []) × (ref_physpage_new three ≡ (0, three)))
    ⊎ ((p : ℕ) × (rest : List ℕ) × (three.free_ppage ≡ p ∷ rest)
        × (three.ref_cnt p ≡ 0)
        × (ref_physpage_new three ≡ (p * page_size, acquired three p))
        × (p * page_size ≢ 0)
        × Inv (ref_physpage_new three).1)
ref_physpage_new_lem_example = ref_physpage_new_lem three three-Inv

ref_physpage_at-Referenced_example : Referenced three 0x2000 (ref_physpage_at three 0x2000)
ref_physpage_at-Referenced_example =
    ref_physpage_at-Referenced three 0x2000 three-Inv three-Unsaturated

unref_physpage-Unreferenced_example : Unreferenced three 0x3000 (unref_physpage three 0x3000)
unref_physpage-Unreferenced_example = unref_physpage-Unreferenced three 0x3000 three-Inv

unref-ref_physpage_new_example :
    unref_physpage (ref_physpage_new three).1 (ref_physpage_new three).0 ≡ (some true, three)
unref-ref_physpage_new_example = unref-ref_physpage_new three three-Inv (λ e. cc)

Reach-Inv_example : Inv (apply (apply three call_new) (call_unref 0x3000))
unfolding ref_physpage_new
Reach-Inv_example =
    Reach-Inv three-Inv (next (call_unref 0x3000) (next call_new here three-Unsaturated) after)
  where
    after : Unsaturated (apply three call_new)
    after p = ground arith

get-set_kvmm_range_example : get_kvmm_range (set_kvmm_range three 0x1000 7).1 0x1000 ≡ 7
unfolding set_kvmm_range
get-set_kvmm_range_example = get-set_kvmm_range three 0x1000 7 refl
