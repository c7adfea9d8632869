-- ===== src/Uvmm/Unmapping.antt =====
-- `uvmm_unmap` and `uvmm_delete_as` of mem/uvmm.c.
use desiros.Base.{
  ℕ, zero, suc, ◌+◌, ◌-◌, Bool, true, false, ◌&&◌, ◌||◌, not, List, [], ◌∷◌, ◌++◌, Option, none,
  some, length, ltb, leb, ◌==◌, if◌then◌else◌,
}
use desiros.Base.Words.{add32, sub32, u32_mod, page_align_sup, is_page_aligned}
use desiros.Paging.{paging_unmap_interval}
use desiros.Uvmm.{
  Arena, Uvmm, called_unmap, called_ref, called_unref, freed, Status, success, fails, user_offset,
  paging_top_user_address, has_bit, arena_map_shared, add64, account_change_of_arena_prot, note,
  alloc_arena, leave_resource, join_resource, find_first_intersecting_arena,
}

-- How an arena lies to the interval, in the order of the tests of the loop.
pub data Overlap : Type 0 where
  apart whole inside head tail unknown : Overlap

unfoldable pub overlap : Arena → ℕ → ℕ → Overlap
overlap a uaddr size =
    let top = add32 a.start a.size in
    let end = add32 uaddr size in
    if leb top uaddr
    then apart
    else if leb end a.start
    then apart
    else if leb uaddr a.start && leb top end
    then whole
    else if ltb a.start uaddr && ltb end top
    then inside
    else if leb uaddr a.start
    then head
    else if leb top end
    then tail
    else unknown

-- `arena->flags & ARENA_MAP_SHARED`, and the account of `size` bytes of the arena that are gone.
abbrev pub unaccount : Uvmm → Arena → ℕ → Uvmm
unaccount s a size =
    account_change_of_arena_prot s (has_bit a.flags arena_map_shared) size a.access_rights 0

-- An arena that is unmapped whole: what is done besides taking it out of the address space's list.
unfoldable pub discard : Uvmm → Arena → Uvmm
discard s a =
    let told = leave_resource (note s a.ops.unmap (called_unmap a.address a.start a.size)) a in
    let counted = unaccount (note told a.ops.unref (called_unref a.address)) a a.size in
    note counted true (freed a.address)

-- The second arena of a split, in the structure at `allocated`, and what is left of the first one.
abbrev pub upper_part : Arena → ℕ → ℕ → ℕ → Arena
upper_part a uaddr size allocated = record a {
  address = allocated;
  start = add32 uaddr size;
  size = sub32 (add32 a.start a.size) (add32 uaddr size);
  offset_in_resource = add64 a.offset_in_resource (sub32 (add32 uaddr size) a.start);
}

abbrev pub lower_part : Arena → ℕ → Arena
lower_part a uaddr = record a { size = sub32 uaddr a.start }

unfoldable pub note_split : Uvmm → Arena → ℕ → ℕ → ℕ → Uvmm
note_split s a uaddr size allocated =
    let joined = join_resource s a.mapped_resource allocated in
    let told = note joined a.ops.unmap (called_unmap a.address uaddr size) in
    unaccount (note told a.ops.ref (called_ref allocated)) a size

-- An arena that loses its head.
abbrev pub shifted : Arena → ℕ → ℕ → Arena
shifted a uaddr size =
    let translation = sub32 (add32 uaddr size) a.start in
    record a {
      size = sub32 a.size translation;
      offset_in_resource = add64 a.offset_in_resource translation;
      start = add32 a.start translation;
    }

unfoldable pub note_head : Uvmm → Arena → ℕ → ℕ → Uvmm
note_head s a uaddr size =
    let translation = sub32 (add32 uaddr size) a.start in
    unaccount (note s a.ops.unmap (called_unmap a.address (add32 uaddr size) translation)) a
      translation

unfoldable pub note_tail : Uvmm → Arena → ℕ → Uvmm
note_tail s a uaddr =
    let unmapped_size = sub32 (add32 a.start a.size) uaddr in
    unaccount (note s a.ops.unmap (called_unmap a.address uaddr unmapped_size)) a unmapped_size

abbrev pub with_arenas : Uvmm → List Arena → Uvmm
with_arenas s arenas = record s { list_arena = arenas }

-- The loop of `uvmm_unmap`, on fuel, at a place in the list. The structure at `allocated` is for a
-- split; the result says whether it is used. The end of the list goes on at its head.
unfoldable pub unmap_arenas : ℕ → ℕ → ℕ → ℕ → Uvmm → List Arena → List Arena → Option (Bool × Uvmm)
unmap_arenas zero uaddr size allocated s before after = none
unmap_arenas (suc n) uaddr size allocated s [] [] = some (false, with_arenas s [])
unmap_arenas (suc n) uaddr size allocated s (b ∷ before) [] =
    unmap_arenas n uaddr size allocated s [] (b ∷ before)
unmap_arenas (suc n) uaddr size allocated s before (a ∷ after) = elim (overlap a uaddr size) [
  | apart ↦ some (false, with_arenas s (before ++ a ∷ after))
  | whole ↦ unmap_arenas n uaddr size allocated (discard s a) before after
  | inside ↦ some (
    true,
    with_arenas (note_split s a uaddr size allocated)
        (before ++ lower_part a uaddr ∷ upper_part a uaddr size allocated ∷ after),
  )
  | head ↦
      some (false, with_arenas (note_head s a uaddr size) (before ++ shifted a uaddr size ∷ after))
  | tail ↦
      unmap_arenas n uaddr size allocated (note_tail s a uaddr) (before ++ lower_part a uaddr ∷ [])
        after
  | unknown ↦ unmap_arenas n uaddr size allocated s before (a ∷ after)
]

-- What follows the loop: the page tables, and the structure that is not used.
unfoldable pub finish_unmap : ℕ → ℕ → ℕ → Bool × Uvmm → Option (Status × Uvmm)
finish_unmap uaddr size allocated (used, s) = elim (paging_unmap_interval s.paging uaddr size) [
  | none ↦ none
  | some (answer, p) ↦
      let unmapped : ℕ = elim answer [ none ↦ u32_mod - 1 | some z ↦ z ] in
      let t = record s { paging = p; phys_total = sub32 s.phys_total unmapped } in
      some (success, note t (not used) (freed allocated))
]

-- The loop from the first arena found, if there is one, and what follows it. The fuel is the number
-- of arenas that the loop can visit, and two steps for the end of the list.
unfoldable pub unmap_from : Uvmm → ℕ → ℕ → ℕ → List Arena × List Arena → Option (Status × Uvmm)
unmap_from s uaddr size allocated (before, []) = finish_unmap uaddr size allocated (false, s)
unmap_from s uaddr size allocated (before, a ∷ after) =
    elim (unmap_arenas (length (before ++ a ∷ after) + 2) uaddr size allocated s before
      (a ∷ after)) [ none ↦ none | some result ↦ finish_unmap uaddr size allocated result ]

unfoldable pub uvmm_unmap : Uvmm → ℕ → ℕ → Option (Status × Uvmm)
uvmm_unmap s uaddr size =
    let z = page_align_sup size in
    if not (is_page_aligned uaddr) || (size == 0)
    then some (fails 1, s)
    else if ltb uaddr user_offset || ltb (sub32 paging_top_user_address z) uaddr
    then some (fails 1, s)
    else (let got = alloc_arena s in
        if got.0 == 0
        then some (fails 3, got.1)
        else unmap_from got.1 uaddr z got.0 (find_first_intersecting_arena s.list_arena uaddr z))

-- The loop of `uvmm_delete_as`.
unfoldable pub delete_arenas : Uvmm → List Arena → Uvmm
delete_arenas s [] = with_arenas s []
delete_arenas s (a ∷ arenas) =
    let told = note (leave_resource s a) a.ops.unmap (called_unmap a.address a.start a.size) in
    let free = note (note told a.ops.unref (called_unref a.address)) true (freed a.address) in
    delete_arenas free arenas

-- The address space's own structure, at `space`, is given back last.
unfoldable pub uvmm_delete_as : Uvmm → ℕ → Uvmm
uvmm_delete_as s space = note (delete_arenas s s.list_arena) true (freed space)
