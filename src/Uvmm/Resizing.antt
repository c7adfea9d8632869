-- ===== src/Uvmm/Resizing.antt =====
-- `uvmm_resize`, `uvmm_init_heap`, `uvmm_brk` and `uvmm_lazy_loading` of mem/uvmm.c. The resource at
-- an address, and `dev_zero_map` of drivers/zero.c, are arguments. `none` is a page fault, or an
-- access to an arena's structure after it has been given back.
use desiros.Base.{
  ℕ, zero, suc, ◌+◌, ◌-◌, ◌/◌, ◌%◌, ◌^◌, Bool, true, ◌&&◌, ◌||◌, not, List, [], ◌∷◌, Option, none,
  some, ltb, leb, ◌==◌, if◌then◌else◌,
}
use desiros.Base.Words.{add32, sub32, page_size, page_align_inf, page_align_sup, is_page_aligned}
use desiros.Paging.{or_bit, paging_virtual_to_physical, paging_map}
use desiros.Uvmm.{
  Arena, Uvmm, Status, success, fails, user_offset, has_bit, p_read, p_write, arena_map_shared,
  account_change_of_arena_prot, add64, find_first_intersecting_arena,
}
use desiros.Uvmm.Unmapping.{with_arenas, uvmm_unmap}
use desiros.Uvmm.Mapping.{MappedResource, last_of, internal_map_called_from_mremap, uvmm_map}

-- `PAGING_IS_USER_AREA`.
abbrev pub paging_is_user_area : ℕ → ℕ → Bool
paging_is_user_area base length = leb user_offset base && leb length 0xC0000000

abbrev pub arena_remap_maymove : ℕ
arena_remap_maymove = 2 ^ 30

-- `arena->prev_in_as` around the list.
abbrev pub prev_in_as : List Arena → Arena → List Arena → Arena
prev_in_as before a after = elim (last_of before) [
  | some p ↦ p
  | none ↦ elim (last_of after) [ some p ↦ p | none ↦ a ]
]

-- Must the arena move? The next arena is read from `prev_in_as`, as the code does.
unfoldable pub must_move : List Arena → Arena → List Arena → ℕ → ℕ → Bool
must_move before a after new_uaddr new_size =
    let prev = prev_in_as before a after in
    (ltb prev.start a.start && ltb new_uaddr (add32 prev.start prev.size))
    || ((ltb a.start prev.start && ltb prev.start (add32 new_uaddr new_size))
        || not (paging_is_user_area new_uaddr new_size))

unfoldable pub new_offset : Arena → ℕ → ℕ
new_offset a new_uaddr =
    if ltb new_uaddr a.start
    then (a.offset_in_resource + 2 ^ 64 - (a.start - new_uaddr)) % 2 ^ 64
    else add64 a.offset_in_resource (new_uaddr - a.start)

-- The loop that maps the pages of a moved arena at their new addresses, for `n` pages.
unfoldable pub remap_loop : ℕ → Uvmm → Arena → ℕ → ℕ → ℕ → ℕ → Option Uvmm
remap_loop zero s a uaddr new_uaddr new_size result = some s
remap_loop (suc n) s a uaddr new_uaddr new_size result =
    let vaddr =
      if leb new_uaddr a.start
      then add32 (add32 result (sub32 uaddr a.start)) (sub32 a.start new_uaddr)
      else sub32 (add32 result (sub32 uaddr a.start)) (sub32 new_uaddr a.start) in
    let paddr = paging_virtual_to_physical s.paging uaddr in
    let next = add32 uaddr page_size in
    let skipped = remap_loop n s a next new_uaddr new_size result in
    if ltb uaddr new_uaddr || (ltb (add32 new_uaddr new_size) uaddr || (paddr == 0))
    then skipped
    else elim (paging_map s.paging vaddr paddr true) [
      | none ↦ none
      | some p ↦ remap_loop n (record s { paging = p }) a next new_uaddr new_size result
    ]

-- The state after a call whose answer is not read.
abbrev pub state_of : Option (Status × Uvmm) → Option Uvmm
state_of none = none
state_of (some (status, s)) = some s

abbrev pub arena_at : List Arena → ℕ → Option Arena
arena_at [] address = none
arena_at (a ∷ arenas) address = if a.address == address then some a else arena_at arenas address

abbrev pub set_arena : List Arena → Arena → List Arena
set_arena [] b = []
set_arena (a ∷ arenas) b = if a.address == b.address then b ∷ arenas else a ∷ set_arena arenas b

-- The arena that has been mapped elsewhere is unmapped here.
unfoldable pub leave_old : Uvmm → Arena → ℕ → ℕ → ℕ → Option (Status × ℕ × Uvmm)
leave_old s a new_uaddr new_size result = elim (uvmm_unmap s a.start a.size) [
  | none ↦ none
  | some (success, u) ↦ some (success, result, u)
  | some (fails e, u) ↦ elim (state_of (uvmm_unmap u result new_size)) [
    | none ↦ none
    | some v ↦ some (fails e, new_uaddr, v)
  ]
]

-- The arena is mapped elsewhere and unmapped here; the result is the status, `*new_uaddr` and the
-- state. The mapping may widen the arena itself, which is read again.
unfoldable pub move_arena : Uvmm → Arena → ℕ → ℕ → MappedResource → Option (Status × ℕ × Uvmm)
move_arena s a new_uaddr new_size resource =
    elim (uvmm_map s new_uaddr new_size a.access_rights
      (or_bit a.flags internal_map_called_from_mremap) resource (new_offset a new_uaddr)) [
        | none ↦ none
        | some m ↦ elim m.status [
          | fails e ↦ some (fails e, new_uaddr, m.state)
          | success ↦ elim (arena_at m.state.list_arena a.address) [
            | none ↦ none
            | some b ↦
                elim (remap_loop ((b.size + page_size - 1) / page_size) m.state b b.start new_uaddr
                  new_size m.uaddr) [
                    | none ↦ none
                    | some t ↦ leave_old t b new_uaddr new_size m.uaddr
                  ]
          ]
        ]
      ]

abbrev pub account_grown : Uvmm → Arena → ℕ → Uvmm
account_grown s a size =
    account_change_of_arena_prot s (has_bit a.flags arena_map_shared) size 0 a.access_rights

-- The end of the arena is cut off or moved up, then its start.
unfoldable pub resize_end : Uvmm → Arena → ℕ → Option Uvmm
resize_end s a new_end =
    let end = add32 a.start a.size in
    if ltb new_end end
    then state_of (uvmm_unmap s new_end (sub32 end new_end))
    else some (
        with_arenas (account_grown s a (sub32 new_end end))
          (set_arena s.list_arena (record a { size = add32 a.size (sub32 new_end end) })))

unfoldable pub resize_start : Uvmm → Arena → ℕ → ℕ → Option Uvmm
resize_start s a new_uaddr offset =
    if ltb a.start new_uaddr
    then state_of (uvmm_unmap s a.start (sub32 new_uaddr a.start))
    else some (
        with_arenas (account_grown s a (sub32 a.start new_uaddr)) (
          set_arena s.list_arena (record a {
            size = add32 a.size (sub32 a.start new_uaddr);
            start = new_uaddr;
            offset_in_resource = offset;
          })))

unfoldable pub resize_in_place : Uvmm → Arena → ℕ → ℕ → Option (Status × ℕ × Uvmm)
resize_in_place s a new_uaddr new_size = elim (resize_end s a (add32 new_uaddr new_size)) [
  | none ↦ none
  | some t ↦ elim (arena_at t.list_arena a.address) [
    | none ↦ none
    | some b ↦ elim (resize_start t b new_uaddr (new_offset a new_uaddr)) [
      | none ↦ none
      | some u ↦ some (success, new_uaddr, u)
    ]
  ]
]

-- The arena that is found, with its neighbours.
unfoldable pub resize_found :
    Uvmm
    → List Arena
    → Arena
    → List Arena
    → ℕ
    → ℕ
    → ℕ
    → ℕ
    → ℕ
    → MappedResource
    → Option (Status × ℕ × Uvmm)
resize_found s before a after old_uaddr old_size new_uaddr new_size flags resource =
    if ltb old_uaddr a.start || ltb (add32 a.start a.size) (add32 old_uaddr old_size)
    then some (fails 1, new_uaddr, s)
    else if ltb new_uaddr a.start && ltb a.offset_in_resource (a.start - new_uaddr)
    then some (fails 1, new_uaddr, s)
    else if must_move before a after new_uaddr new_size
    then if has_bit flags arena_remap_maymove
      then move_arena s a new_uaddr new_size resource
      else some (fails 1, new_uaddr, s)
    else resize_in_place s a new_uaddr new_size

unfoldable pub uvmm_resize :
    (ℕ → MappedResource) → Uvmm → ℕ → ℕ → ℕ → ℕ → ℕ → Option (Status × ℕ × Uvmm)
uvmm_resize resource_at s old_uaddr old_size new_uaddr new_size flags =
    let old = page_align_inf old_uaddr in
    let old_z = page_align_sup old_size in
    let z = page_align_sup new_size in
    if not (paging_is_user_area new_uaddr new_size)
    then some (fails 1, new_uaddr, s)
    else if not (is_page_aligned new_uaddr) || (new_size == 0)
    then some (fails 1, new_uaddr, s)
    else (let found = find_first_intersecting_arena s.list_arena old old_z in
        elim found.1 [
          | [] ↦ some (fails 1, new_uaddr, s)
          | a ∷ after ↦
              resize_found s found.0 a after old old_z new_uaddr z flags
                (resource_at a.mapped_resource)
        ])

unfoldable pub uvmm_init_heap : Uvmm → ℕ → Uvmm
uvmm_init_heap s heap_start = record s { heap_start = heap_start; heap_size = 0 }

-- `uvmm_brk`; the returned address is 0 for NULL.
unfoldable pub uvmm_brk :
    (Uvmm → ℕ → ℕ → ℕ → ℕ → Option (Status × ℕ × Uvmm))
    → (ℕ → MappedResource)
    → Uvmm
    → ℕ
    → Option (ℕ × Uvmm)
uvmm_brk dev_zero_map resource_at s new_top_uaddr =
    let top = add32 s.heap_start s.heap_size in
    let new_top = page_align_sup new_top_uaddr in
    let new_size = sub32 new_top s.heap_start in
    if (new_top_uaddr == 0) || (new_top_uaddr == top)
    then some (top, s)
    else if ltb new_top_uaddr s.heap_start
    then some (0, s)
    else if s.heap_size == 0
    then elim (dev_zero_map s s.heap_start new_size (p_read + p_write) 0) [
      | none ↦ none
      | some (fails e, start, t) ↦ some (0, record t { heap_start = start })
      | some (success, start, t) ↦
          some (add32 start new_size, record t { heap_start = start; heap_size = new_size })
    ]
    else if new_size == 0
    then elim (uvmm_unmap s s.heap_start s.heap_size) [
      | none ↦ none
      | some (fails e, t) ↦ some (0, t)
      | some (success, t) ↦ some (new_top, record t { heap_size = new_size })
    ]
    else elim (uvmm_resize resource_at s s.heap_start s.heap_size s.heap_start new_size 0) [
      | none ↦ none
      | some (fails e, start, t) ↦ some (0, t)
      | some (success, start, t) ↦ some (new_top, record t { heap_size = new_size })
    ]

-- `uvmm_lazy_loading` in the address space of the current process; `no_page` is the answer of the
-- arena's callback.
unfoldable pub uvmm_lazy_loading :
    (Arena → ℕ → Bool → Status) → Uvmm → ℕ → Bool → Option (Status × Uvmm)
uvmm_lazy_loading no_page s uaddr write_access =
    let found = find_first_intersecting_arena s.list_arena uaddr 1 in
    elim found.1 [
      | [] ↦ some (fails 7, s)
      | a ∷ after ↦
          if a.ops.no_page
          then elim (no_page a uaddr write_access) [
            | fails e ↦ some (fails 7, record s { pgflt_invalid = add32 s.pgflt_invalid 1 })
            | success ↦ some (
              success,
              record s {
                phys_total = add32 s.phys_total page_size;
                pgflt_page_in = add32 s.pgflt_page_in 1;
              },
            )
          ]
          else none
    ]
