-- ===== src/Uvmm.antt =====
-- The address spaces of processes, mem/uvmm.c: the structures, the statistics, and the search for
-- arenas and for free intervals. The arenas of an address space are kept in the order of its list.
-- A place in that circular list is the arenas in front of it and those from it on; no arena is an
-- empty second part. Calls of the arenas' callbacks and the return of structures to the slab caches
-- are noted down in the order in which they are made.
pub mod Unmapping
pub mod View
pub mod Cutting
pub mod Unmapped
pub mod Interval
pub mod Mapping
pub mod Overlaid
pub mod Neighbours
pub mod Merging
pub mod Placed
pub mod Mapped
pub mod Resizing
pub mod Usage
mod Examples
use desiros.Base.{
  ℕ, ◌+◌, ◌-◌, ◌*◌, ◌/◌, ◌%◌, ◌^◌, Bool, true, false, ◌&&◌, not, List, [], ◌∷◌, ◌++◌, Option, none,
  some, ltb, leb, ◌==◌, if◌then◌else◌, erase,
}
use desiros.Base.Words.{add32, sub32, u32_mod, page_size}
use desiros.Paging.{Paging}

-- The callbacks of `struct uvmm_arena_ops` that are set; none is set when the arena's `ops` is NULL.
pub record ArenaOps : Type 0 where
  pub ref : Bool
  pub unref : Bool
  pub unmap : Bool
  pub no_page : Bool

abbrev pub no_ops : ArenaOps
no_ops = record { ref = false; unref = false; unmap = false; no_page = false }

-- `struct uvmm_arena`; the address of the structure stands for it in other lists.
pub record Arena : Type 0 where
  pub address : ℕ
  pub start : ℕ
  pub size : ℕ
  pub access_rights : ℕ
  pub flags : ℕ
  pub ops : ArenaOps
  pub mapped_resource : ℕ
  pub offset_in_resource : ℕ

pub record VmUsage : Type 0 where
  pub overall : ℕ
  pub ro : ℕ
  pub rw : ℕ
  pub code : ℕ

pub data Call : Type 0 where
  called_unmap : ℕ → ℕ → ℕ → Call
  called_ref called_unref : ℕ → Call
  freed : ℕ → Call

-- `struct uvmm_as`, with the lists of the resources, the calls made, the page tables, and the answers
-- that `kvmm_cache_alloc` is going to give (0 is NULL).
pub record Uvmm : Type 0 where
  pub list_arena : List Arena
  pub heap_start : ℕ
  pub heap_size : ℕ
  pub phys_total : ℕ
  pub vm_total : VmUsage
  pub vm_shrd : VmUsage
  pub pgflt_page_in : ℕ
  pub pgflt_invalid : ℕ
  pub resource_arenas : ℕ → List ℕ
  pub calls : List Call
  pub paging : Paging
  pub answers : List ℕ

-- What the functions return: 0, or minus the number.
pub data Status : Type 0 where
  success : Status
  fails : ℕ → Status

abbrev pub user_offset : ℕ
user_offset = 0x40000000

abbrev pub paging_top_user_address : ℕ
paging_top_user_address = 0xFFFFFFFF

-- `value & bit` for a `bit` that is a power of 2.
abbrev pub has_bit : ℕ → ℕ → Bool
has_bit value bit = ((value / bit) % 2) == 1

abbrev pub p_read : ℕ
p_read = 1

abbrev pub p_write : ℕ
p_write = 2

abbrev pub p_user : ℕ
p_user = 4

abbrev pub arena_map_shared : ℕ
arena_map_shared = 1

abbrev pub arena_map_fixed : ℕ
arena_map_fixed = 2 ^ 31

abbrev pub add64 : ℕ → ℕ → ℕ
add64 a b = (a + b) % 2 ^ 64

-- The three steps of `as_account_change_of_arena_prot` on one of the two records of usage: by the
-- rights to write and to read, to execute, and any right, before and after.
unfoldable pub change_written : VmUsage → ℕ → Bool → Bool → Bool → Bool → VmUsage
change_written u size prev_write new_write prev_read new_read =
    if new_write && not prev_write
    then record u { rw = add32 u.rw size; ro = if prev_read then sub32 u.ro size else u.ro }
    else if not new_write && prev_write
    then record u { ro = if new_read then add32 u.ro size else u.ro; rw = sub32 u.rw size }
    else if new_read
    then record u { ro = add32 u.ro size }
    else record u { ro = sub32 u.ro size }

unfoldable pub change_code : VmUsage → ℕ → Bool → Bool → VmUsage
change_code u size prev_user new_user =
    if new_user && not prev_user
    then record u { code = add32 u.code size }
    else if not new_user && prev_user
    then record u { code = sub32 u.code size }
    else u

unfoldable pub change_overall : VmUsage → ℕ → Bool → Bool → VmUsage
change_overall u size prev_any new_any =
    if new_any && not prev_any
    then record u { overall = add32 u.overall size }
    else if not new_any && prev_any
    then record u { overall = sub32 u.overall size }
    else u

unfoldable pub change_usage : VmUsage → ℕ → ℕ → ℕ → VmUsage
change_usage u size prev new =
    let written : VmUsage =
      change_written u size (has_bit prev p_write) (has_bit new p_write) (has_bit prev p_read)
        (has_bit new p_read) in
    let run : VmUsage = change_code written size (has_bit prev p_user) (has_bit new p_user) in
    change_overall run size (not (prev == 0)) (not (new == 0))

unfoldable pub account_change_of_arena_prot : Uvmm → Bool → ℕ → ℕ → ℕ → Uvmm
account_change_of_arena_prot s is_shared size prev new = if prev == new then s else record s {
  vm_total = change_usage s.vm_total size prev new;
  vm_shrd = if is_shared then change_usage s.vm_shrd size prev new else s.vm_shrd;
}

-- A call, noted down, when the test in front of it holds.
unfoldable pub note : Uvmm → Bool → Call → Uvmm
note s test call = if test then record s { calls = s.calls ++ call ∷ [] } else s

-- `kvmm_cache_alloc(cache_of_arena, 0)`, 0 for NULL.
abbrev pub alloc_from : Uvmm → List ℕ → ℕ × Uvmm
alloc_from s [] = (0, s)
alloc_from s (answer ∷ answers) = (answer, record s { answers = answers })

unfoldable pub alloc_arena : Uvmm → ℕ × Uvmm
alloc_arena s = alloc_from s s.answers

-- The resource's list of arenas without an arena, and with a new one at its end.
abbrev pub leave_resource : Uvmm → Arena → Uvmm
leave_resource s a = record s {
  resource_arenas = λ r.
      if r == a.mapped_resource then erase a.address (s.resource_arenas r) else s.resource_arenas r;
}

abbrev pub join_resource : Uvmm → ℕ → ℕ → Uvmm
join_resource s resource address = record s {
  resource_arenas =
      λ r. if r == resource then s.resource_arenas r ++ address ∷ [] else s.resource_arenas r;
}

-- The loop of `find_enclosing_or_next_arena`, with the arenas behind it.
unfoldable pub seek : List Arena → List Arena → ℕ → List Arena × List Arena
seek before [] uaddr = (before, [])
seek before (a ∷ after) uaddr =
    if leb uaddr (add32 a.start (sub32 a.size 1))
    then (before, a ∷ after)
    else seek (before ++ a ∷ []) after uaddr

unfoldable pub find_enclosing_or_next_arena : List Arena → ℕ → List Arena × List Arena
unfolding seek
find_enclosing_or_next_arena arenas uaddr =
    if ltb paging_top_user_address uaddr then (arenas, []) else seek [] arenas uaddr

abbrev pub find_first_intersecting_arena : List Arena → ℕ → ℕ → List Arena × List Arena
find_first_intersecting_arena arenas start_uaddr size =
    find_enclosing_or_next_arena arenas start_uaddr

-- The loop of `find_first_free_interval` over the arenas from the first one found, around the list.
unfoldable pub free_interval_loop : Arena → List Arena → ℕ → ℕ → ℕ
free_interval_loop initial [] hint size = 0
free_interval_loop initial (a ∷ after) hint size =
    let next : Arena = elim after [ [] ↦ initial | n ∷ _ ↦ n ] in
    if leb (add32 hint size) a.start
    then hint
    else if leb hint next.start
    then free_interval_loop initial after (add32 a.start a.size) size
    else if leb hint (sub32 paging_top_user_address size)
    then hint
    else free_interval_loop initial after user_offset size

unfoldable pub find_first_free_interval : List Arena → ℕ → ℕ → ℕ
unfolding find_enclosing_or_next_arena free_interval_loop
find_first_free_interval arenas hint_uaddr size =
    let hint = if ltb hint_uaddr user_offset then user_offset else hint_uaddr in
    if ltb (add32 (sub32 paging_top_user_address size) 1) hint
    then 0
    else (let found = find_enclosing_or_next_arena arenas hint in
        elim found.1 [
          | [] ↦ hint
          | initial ∷ after ↦ free_interval_loop initial (initial ∷ after ++ found.0) hint size
        ])
