-- ===== src/Physmem/Reserved.antt =====
-- Which pages `physmem_setup` leaves free.
use desiros.Base.{
  ℕ, zero, suc, ◌*◌, ◌%◌, ◌/◌, ◌≤◌, ◌<◌, ◌≡◌, refl, ◌⊎◌, [], arith, ◌∈◌, le→ltb, if◌then◌else◌,
  ◌==◌, ==→eq, ltb, ltb→le, ◌+◌, ◌-◌, ◌^◌, true, Bool-cases, inl, inr, ap, sym, ◌∙◌,
}
use desiros.Physmem.Setup.{round-base}
use desiros.Base.Words.{page_size, page_align_inf, page_align_sup, add32}
use desiros.Physmem.{
  Physmem, Mark, mark_reserved, mark_free, mark_kernel, mark_hwmap, mark_of, fresh_page, mark_page,
  setup_loop, physmem_setup, Image, kernel_core_base, kernel_core_top, bios_n_video_start,
  bios_n_video_end, descr_size,
}

module _ (base core_base core_top b_kernel : ℕ) where
  abbrev mark_at : ℕ → Mark
  mark_at p = mark_of base core_base core_top b_kernel (p * page_size)

  -- Free pages were marked free.
  abbrev Sorted : Physmem → Type 0
  Sorted s = (p : ℕ) → p ∈ s.free_ppage → mark_at p ≡ mark_free

  round-Sorted :
      (s : Physmem) (n : ℕ) (m : Mark)
      → mark_at n ≡ m
      → Sorted s
      → Sorted (mark_page (fresh_page s n) n m)
  unfolding mark_page fresh_page
  round-Sorted s n mark_reserved e v = v
  round-Sorted s n mark_free e v = λ p h. elim (Bool-cases (p == n)) [
    | inl same ↦ rw (==→eq p n same) e
    | inr other ↦ v p (ground arith)
  ]
  round-Sorted s n mark_kernel e v = v
  round-Sorted s n mark_hwmap e v = v

  setup_loop-Sorted :
      (rounds n : ℕ) (s : Physmem)
      → s.physmem_base ≡ base
      → Sorted s
      → Sorted (setup_loop core_base core_top b_kernel rounds n s)
  unfolding setup_loop
  setup_loop-Sorted zero n s b v = v
  setup_loop-Sorted (suc rounds) n s b v =
      let m : Mark = mark_of s.physmem_base core_base core_top b_kernel (n * page_size) in
      let same : mark_at n ≡ m =
        ap (λ y. mark_of y core_base core_top b_kernel (n * page_size)) (sym b) in
      setup_loop-Sorted rounds (suc n) (mark_page (fresh_page s n) n m) ((round-base s n m).0 ∙ b)
        (round-Sorted s n m same v)

  -- A page marked free stands above the base, outside the BIOS area and outside the kernel, if the
  -- kernel begins on a page boundary.
  mark_free-outside :
      (addr : ℕ)
      → core_base ≡ b_kernel
      → bios_n_video_end ≤ core_base
      → mark_of base core_base core_top b_kernel addr ≡ mark_free
      → (base ≤ addr)
        × ((addr < bios_n_video_start) ⊎ (bios_n_video_end ≤ addr))
        × ((addr < core_base) ⊎ (core_top ≤ addr))
  unfolding mark_of
  mark_free-outside addr aligned high e = ground arith

setup_fits :
    (k : Image) (ram_size : ℕ) (s : Physmem)
    → (physmem_setup k ram_size s).0 ≡ true
    → kernel_core_top k (page_align_inf ram_size) ≤ page_align_inf ram_size
unfolding physmem_setup
setup_fits k ram_size s h =
    let ram : ℕ = page_align_inf ram_size in
    elim (Bool-cases (ltb ram (kernel_core_top k ram))) [
      | inl e ↦ absurd (ground (arith, rw e at h))
      | inr e ↦ ltb→le ram (kernel_core_top k ram) e
    ]

marked_free :
    (k : Image) (ram_size : ℕ) (s : Physmem) (p : ℕ)
    → k.b_kernel % page_size ≡ 0
    → bios_n_video_end ≤ k.b_kernel
    → kernel_core_top k (page_align_inf ram_size) ≤ page_align_inf ram_size
    → p ∈ (physmem_setup k ram_size s).1.free_ppage
    → (page_size ≤ p * page_size)
      × ((p * page_size < bios_n_video_start) ⊎ (bios_n_video_end ≤ p * page_size))
      × ((p * page_size < kernel_core_base k)
          ⊎ (kernel_core_top k (page_align_inf ram_size) ≤ p * page_size))
unfolding physmem_setup
marked_free k ram_size s p aligned high fits m =
    let ram : ℕ = page_align_inf ram_size in
    let start : Physmem = record s {
      free_ppage = [];
      used_ppage = [];
      physmem_total_pages = 0;
      physmem_used_pages = 0;
      physmem_base = page_size;
      physmem_top = ram;
    } in
    let test = le→ltb ram (kernel_core_top k ram) fits in
    mark_free-outside page_size (kernel_core_base k) (kernel_core_top k ram) k.b_kernel
      (p * page_size) (omega arith) (omega arith)
      (setup_loop-Sorted page_size (kernel_core_base k) (kernel_core_top k ram) k.b_kernel
        (ram / page_size) 0 start refl (λ q h. cc) p (rw (test, if◌then◌else◌) at m))

-- The descriptors of the pages stand behind the kernel image, from the next page boundary on; their end.
abbrev pub descriptors_end : Image → ℕ → ℕ
descriptors_end k pages =
    (k.e_kernel + (page_size - 1)) / page_size * page_size + pages * descr_size

core_top_high :
    (k : Image) (pages : ℕ)
    → 1 ≤ k.e_kernel
    → k.e_kernel + 2 * page_size + pages * descr_size < 2 ^ 32
    → descriptors_end k pages
      ≤ add32 (page_align_sup k.e_kernel) (page_align_sup (pages * descr_size % 2 ^ 32))
core_top_high k pages some_kernel small = omega (arith, some_kernel, small)

-- A free page does not reach into the kernel image or into the descriptors.
page_outside :
    (b p top last : ℕ)
    → b % page_size ≡ 0
    → last ≤ top
    → (p * page_size < page_align_inf b) ⊎ (top ≤ p * page_size)
    → (p * page_size + page_size ≤ b) ⊎ (last ≤ p * page_size)
page_outside b p top last aligned t (inl h) = inl (omega (arith, aligned, h))
page_outside b p top last aligned t (inr h) = inr (omega (arith, t, h))

-- After a successful physmem_setup no free page is page 0, lies in the BIOS and video area, or
-- reaches into the kernel image or the page descriptors behind it, provided that the image begins on a
-- page boundary and not below 0x100000, as the linker script has it, and that it ends, with the
-- descriptors, two pages below the end of the 32-bit addresses.
pub physmem_setup_reserved :
    (k : Image) (ram_size : ℕ) (s : Physmem) (p : ℕ)
    → k.b_kernel % page_size ≡ 0
    → bios_n_video_end ≤ k.b_kernel
    → k.b_kernel ≤ k.e_kernel
    → k.e_kernel + 2 * page_size + ram_size / page_size * descr_size < 2 ^ 32
    → (physmem_setup k ram_size s).0 ≡ true
    → p ∈ (physmem_setup k ram_size s).1.free_ppage
    → (page_size ≤ p * page_size)
      × ((p * page_size < bios_n_video_start) ⊎ (bios_n_video_end ≤ p * page_size))
      × ((p * page_size + page_size ≤ k.b_kernel)
          ⊎ (descriptors_end k (ram_size / page_size) ≤ p * page_size))
unfolding physmem_setup
physmem_setup_reserved k ram_size s p aligned high ordered small succeeds m =
    let ram : ℕ = page_align_inf ram_size in
    let fits : kernel_core_top k ram ≤ ram = setup_fits k ram_size s succeeds in
    let (above, bios, core) = marked_free k ram_size s p aligned high fits m in
    let pages : ram / page_size ≡ ram_size / page_size = omega arith in
    (
      above,
      bios,
      page_outside k.b_kernel p (kernel_core_top k ram) (descriptors_end k (ram_size / page_size))
          aligned
          (rw pages (core_top_high k (ram_size / page_size) (omega (arith, high, ordered)) small))
          core,
    )
