-- ===== src/Paging.antt =====
-- The page tables, mem/paging.c. The directory's last entry maps the directory itself, so that the
-- entry of the page v stands at 0xFFC00000 + 4 * v, and the directory's entries are those of the
-- last 1024 pages: one function from page numbers to entries is the whole of it. An access to an
-- entry whose page table is absent is a page fault, `none`. What the source prints is left out.
pub mod Mapping
pub mod Intervals
mod Examples
use desiros.Base.{
  ℕ, zero, suc, ◌+◌, ◌-◌, ◌*◌, ◌/◌, ◌%◌, ◌^◌, Bool, true, false, not, Option, none, some, ltb, ◌==◌,
  if◌then◌else◌,
}
use desiros.Base.Words.{add32, page_size, is_page_aligned}
use desiros.Physmem.{Physmem, ref_physpage_at, unref_physpage}

pub record Paging : Type 0 where
  pub pages : Physmem
  pub entry : ℕ → ℕ

-- `value | bit` for a `bit` that is a power of 2.
abbrev pub or_bit : ℕ → ℕ → ℕ
or_bit value bit = if (value / bit) % 2 == 1 then value else value + bit

-- `value & P_PRESENT`, as a truth value, and `value & (~P_PRESENT)`.
abbrev pub is_present : ℕ → Bool
is_present value = (value % 2) == 1

abbrev pub clear_present : ℕ → ℕ
clear_present value = value - value % 2

-- The page numbers at which the entries of the directory stand, and of its page.
abbrev pub mirror : ℕ
mirror = 1023 * 1024

-- The directory's entry for the page table that holds the page's entry.
abbrev pub pde : Paging → ℕ → ℕ
pde s virtual = s.entry (mirror + virtual / 2 ^ 22)

abbrev pub pte : Paging → ℕ → ℕ
pte s virtual = s.entry (virtual / page_size)

abbrev pub set_entry : Paging → ℕ → ℕ → Paging
set_entry s page value = record s { entry = λ q. if q == page then value else s.entry q }

unfoldable pub paging_virtual_to_physical : Paging → ℕ → ℕ
paging_virtual_to_physical s virtual =
    if is_present (pde s virtual)
    then if is_present (pte s virtual)
      then pte s virtual / page_size * page_size + virtual % page_size
      else 0
    else 0

unfoldable pub paging_map : Paging → ℕ → ℕ → Bool → Option Paging
paging_map s virtual physical user =
    let t = record s { pages = (ref_physpage_at s.pages physical).1 } in
    let value = or_bit (or_bit physical 1) 2 in
    if is_present (pde t virtual)
    then some (set_entry t (virtual / page_size) (if user then or_bit value 4 else value))
    else none

-- The returned status and the new state.
unfoldable pub paging_unmap : Paging → ℕ → Option (ℕ × Paging)
unfolding paging_virtual_to_physical
paging_unmap s virtual =
    let phys = paging_virtual_to_physical s virtual in
    if not (is_page_aligned virtual)
    then some (1, s)
    else if is_present (pde s virtual)
    then (let t = set_entry s (virtual / page_size) (clear_present (pte s virtual)) in
        some (0, record t { pages = (unref_physpage t.pages phys).1 }))
    else none

-- The loop of `paging_unmap_interval` for `n` pages: the returned size and the new state.
unfoldable pub unmap_loop : ℕ → Paging → ℕ → ℕ → Option (ℕ × Paging)
unfolding paging_unmap
unmap_loop zero s vaddr retval = some (retval, s)
unmap_loop (suc n) s vaddr retval = elim (paging_unmap s vaddr) [
  | none ↦ none
  | some (status, t) ↦
      unmap_loop n t (add32 vaddr page_size) (if status == 0 then retval + page_size else retval)
]

-- The inner `none` stands for -1.
unfoldable pub paging_unmap_interval : Paging → ℕ → ℕ → Option (Option ℕ × Paging)
unfolding unmap_loop
paging_unmap_interval s vaddr size =
    if not (is_page_aligned vaddr)
    then some (none, s)
    else if not (is_page_aligned size)
    then some (none, s)
    else elim (unmap_loop (size / page_size) s vaddr 0) [
      | none ↦ none
      | some (retval, t) ↦ some (some retval, t)
    ]
