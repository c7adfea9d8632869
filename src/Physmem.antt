-- ===== src/Physmem.antt =====
-- The physical page allocator, mem/physmem.c. A page descriptor is named by its index in the array,
-- which is the page's number; the fields of the descriptors are functions of it. The lists of free
-- and used pages are kept as sequences, head first: module Ring shows that the macros of
-- include/list.h act on the links as the operations here act on the sequences.
pub mod Invariant
pub mod Reference
pub mod Release
pub mod Setup
pub mod Reserved
pub mod Balance
pub mod Runs
pub mod Examples
use desiros.Base.{
  ℕ, zero, suc, ◌+◌, ◌-◌, ◌*◌, ◌/◌, ◌%◌, ◌^◌, Bool, true, false, ◌&&◌, ◌||◌, not, List, [], ◌∷◌,
  ◌++◌, Option, none, some, ltb, leb, ◌==◌, if◌then◌else◌, erase,
}
use desiros.Base.Words.{add32, sub32, page_size, page_align_inf, page_align_sup}

-- The static variables of the file. A `kernel_range` of 0 is `NULL`.
pub record Physmem : Type 0 where
  pub paddr : ℕ → ℕ
  pub ref_cnt : ℕ → ℕ
  pub kernel_range : ℕ → ℕ
  pub free_ppage : List ℕ
  pub used_ppage : List ℕ
  pub physmem_base : ℕ
  pub physmem_top : ℕ
  pub physmem_total_pages : ℕ
  pub physmem_used_pages : ℕ

abbrev pub update : (ℕ → ℕ) → ℕ → ℕ → ℕ → ℕ
update f p v q = if q == p then v else f q

-- `physmem_ref_physpage_new` behind the pop of a page from the free list.
take_page : Physmem → ℕ → ℕ × Physmem
take_page s ppage = if s.ref_cnt ppage == 1 then (0, s) else (
  s.paddr ppage,
  record s {
    ref_cnt = update s.ref_cnt ppage (add32 (s.ref_cnt ppage) 1);
    used_ppage = s.used_ppage ++ ppage ∷ [];
    physmem_used_pages = add32 s.physmem_used_pages 1;
  },
)

take_first : Physmem → List ℕ → ℕ × Physmem
unfolding take_page
take_first s [] = (0, s)
take_first s (ppage ∷ rest) = take_page (record s { free_ppage = rest }) ppage

-- The address of a page, or 0 when there is none, and the new state.
unfoldable pub ref_physpage_new : Physmem → ℕ × Physmem
unfolding take_first
ref_physpage_new s = take_first s s.free_ppage

-- The index of the page's descriptor. `ppage_paddr & PAGE_MASK` is the remainder by the page size.
unfoldable pub get_page_descr_at_paddr : Physmem → ℕ → Option ℕ
get_page_descr_at_paddr s ppage_paddr =
    if not (ppage_paddr % page_size == 0)
    then none
    else if ltb ppage_paddr s.physmem_base || leb s.physmem_top ppage_paddr
    then none
    else some (ppage_paddr / page_size)

-- The result `none` stands for -1, `some` for a Boolean.
ref_page : Physmem → ℕ → Option Bool × Physmem
ref_page s ppage =
    let s1 = record s { ref_cnt = update s.ref_cnt ppage (add32 (s.ref_cnt ppage) 1) } in
    if s1.ref_cnt ppage == 1
    then (
      some false,
      record s1 {
        free_ppage = erase ppage s.free_ppage;
        used_ppage = s.used_ppage ++ ppage ∷ [];
        physmem_used_pages = add32 s.physmem_used_pages 1;
      },
    )
    else (some true, s1)

unfoldable pub ref_physpage_at : Physmem → ℕ → Option Bool × Physmem
unfolding ref_page get_page_descr_at_paddr
ref_physpage_at s ppage_paddr = elim (get_page_descr_at_paddr s ppage_paddr) [
  | none ↦ (none, s)
  | some ppage ↦ ref_page s ppage
]

pub unref_page : Physmem → ℕ → Option Bool × Physmem
unref_page s ppage =
    if s.ref_cnt ppage == 0
    then (none, s)
    else (let s1 = record s { ref_cnt = update s.ref_cnt ppage (sub32 (s.ref_cnt ppage) 1) } in
        if s1.ref_cnt ppage == 0
        then (
          some true,
          record s1 {
            used_ppage = erase ppage s.used_ppage;
            physmem_used_pages = sub32 s.physmem_used_pages 1;
            free_ppage = ppage ∷ s.free_ppage;
          },
        )
        else (some false, s1))

unfoldable pub unref_physpage : Physmem → ℕ → Option Bool × Physmem
unfolding unref_page get_page_descr_at_paddr
unref_physpage s ppage_paddr = elim (get_page_descr_at_paddr s ppage_paddr) [
  | none ↦ (none, s)
  | some ppage ↦ unref_page s ppage
]

unfoldable pub get_kvmm_range : Physmem → ℕ → ℕ
unfolding get_page_descr_at_paddr
get_kvmm_range s ppage_paddr = elim (get_page_descr_at_paddr s ppage_paddr) [
  | none ↦ 0
  | some ppage ↦ s.kernel_range ppage
]

-- `true` stands for 0 and `false` for -3.
unfoldable pub set_kvmm_range : Physmem → ℕ → ℕ → Bool × Physmem
unfolding get_page_descr_at_paddr
set_kvmm_range s ppage_paddr range = elim (get_page_descr_at_paddr s ppage_paddr) [
  | none ↦ (false, s)
  | some ppage ↦ (true, record s { kernel_range = update s.kernel_range ppage range })
]

-- `PAGE_SIZE`, the BIOS area of include/physmem.h and `sizeof(struct physical_page_descr)`.
abbrev pub bios_n_video_start : ℕ
bios_n_video_start = 0xa0000

abbrev pub bios_n_video_end : ℕ
bios_n_video_end = 0x100000

abbrev pub descr_size : ℕ
descr_size = 20

-- The addresses of the markers that the linker script puts around the kernel.
pub record Image : Type 0 where
  pub b_kernel : ℕ
  pub e_kernel : ℕ

pub data Mark : Type 0 where
  mark_reserved mark_free mark_kernel mark_hwmap : Mark

-- The ladder of tests that decides what becomes of the page at an address.
unfoldable pub mark_of : (base core_base core_top b_kernel ppage_addr : ℕ) → Mark
mark_of base core_base core_top b_kernel ppage_addr =
    if ltb ppage_addr base
    then mark_reserved
    else if leb base ppage_addr && ltb ppage_addr bios_n_video_start
    then mark_free
    else if leb bios_n_video_start ppage_addr && ltb ppage_addr bios_n_video_end
    then mark_hwmap
    else if leb bios_n_video_end ppage_addr && ltb ppage_addr b_kernel
    then mark_free
    else if leb core_base ppage_addr && ltb ppage_addr core_top
    then mark_kernel
    else if leb core_top ppage_addr && ltb ppage_addr core_top
    then mark_hwmap
    else mark_free

-- One round of the loop over the pages: `memset`, the address, the count of pages, the `switch`.
pub fresh_page : Physmem → ℕ → Physmem
fresh_page s ppage = record s {
  paddr = update s.paddr ppage (ppage * page_size);
  ref_cnt = update s.ref_cnt ppage 0;
  kernel_range = update s.kernel_range ppage 0;
  physmem_total_pages = add32 s.physmem_total_pages 1;
}

pub mark_page : Physmem → ℕ → Mark → Physmem
mark_page s ppage mark_reserved = s
mark_page s ppage mark_free = record s { free_ppage = ppage ∷ s.free_ppage }
mark_page s ppage mark_kernel = record s {
  ref_cnt = update s.ref_cnt ppage 1;
  used_ppage = ppage ∷ s.used_ppage;
  physmem_used_pages = add32 s.physmem_used_pages 1;
}
mark_page s ppage mark_hwmap = record s {
  ref_cnt = update s.ref_cnt ppage 1;
  used_ppage = ppage ∷ s.used_ppage;
  physmem_used_pages = add32 s.physmem_used_pages 1;
}

-- The loop, on the rounds left: `ppage_addr` runs from 0 in steps of a page up to `physmem_top`, a
-- multiple of the page size below 2 ^ 32, so it does not wrap.
pub setup_loop : (core_base core_top b_kernel rounds ppage : ℕ) → Physmem → Physmem
unfolding fresh_page mark_page mark_of
setup_loop core_base core_top b_kernel zero ppage s = s
setup_loop core_base core_top b_kernel (suc rounds) ppage s =
    setup_loop core_base core_top b_kernel rounds (suc ppage) (
      mark_page (fresh_page s ppage) ppage
        (mark_of s.physmem_base core_base core_top b_kernel (ppage * page_size)))

-- The values that `physmem_setup` stores in `*kernel_core_base` and `*kernel_core_top`.
abbrev pub kernel_core_base : Image → ℕ
kernel_core_base k = page_align_inf k.b_kernel

abbrev pub kernel_core_top : Image → ℕ → ℕ
kernel_core_top k ram =
    add32 (page_align_sup k.e_kernel) (page_align_sup (ram / page_size * descr_size % 2 ^ 32))

-- `true` stands for 0 and `false` for -3.
unfoldable pub physmem_setup : Image → ℕ → Physmem → Bool × Physmem
unfolding setup_loop
physmem_setup k ram_size s =
    let ram = page_align_inf ram_size in
    let s1 = record s {
      free_ppage = [];
      used_ppage = [];
      physmem_total_pages = 0;
      physmem_used_pages = 0;
    } in
    if ltb ram (kernel_core_top k ram) then (false, s1) else (
      true,
      setup_loop (kernel_core_base k) (kernel_core_top k ram) k.b_kernel (ram / page_size) 0
          (record s1 { physmem_base = page_size; physmem_top = ram }),
    )
