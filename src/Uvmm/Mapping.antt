-- ===== src/Uvmm/Mapping.antt =====
-- `uvmm_map` of mem/uvmm.c. The addresses that it is given and returns in `*uaddr` are an argument
-- and a part of the result.
use desiros.Base.{
  ℕ, ◌+◌, ◌*◌, ◌/◌, ◌%◌, ◌^◌, Bool, true, false, ◌&&◌, ◌||◌, not, List, [], ◌∷◌, ◌++◌, Option, none,
  some, drop, ltb, leb, ◌==◌, if◌then◌else◌,
}
use desiros.Base.Words.{add32, sub32, page_align_sup, is_page_aligned}
use desiros.Uvmm.{
  ArenaOps, no_ops, Arena, Uvmm, called_ref, called_unref, freed, Status, success, fails,
  user_offset, paging_top_user_address, has_bit, p_read, p_write, p_user, arena_map_shared,
  arena_map_fixed, add64, account_change_of_arena_prot, note, alloc_arena, leave_resource,
  join_resource, find_enclosing_or_next_arena, find_first_free_interval,
}
use desiros.Uvmm.Unmapping.{with_arenas, uvmm_unmap}

-- `struct uvmm_mapped_resource` at an address (0 is NULL): `mmap` answers for a new arena, and says
-- which callbacks it sets.
pub record MappedResource : Type 0 where
  pub address : ℕ
  pub allowed_access_rights : ℕ
  pub flags : ℕ
  pub has_mmap : Bool
  pub mmap : Arena → Status × ArenaOps

abbrev pub mapped_resource_anonymous : ℕ
mapped_resource_anonymous = 1

abbrev pub internal_map_called_from_mremap : ℕ
internal_map_called_from_mremap = 2 ^ 8

-- A protection flag that is asked for and not allowed.
abbrev pub denies : ℕ → ℕ → ℕ → Bool
denies asked allowed bit = has_bit asked bit && not (has_bit allowed bit)

-- Is the offset that is given left aside?
abbrev pub ignores_offset : ℕ → MappedResource → Bool
ignores_offset flags resource =
    not (has_bit flags internal_map_called_from_mremap)
    && has_bit resource.flags mapped_resource_anonymous

-- The tests of `uvmm_map` before it allocates anything.
unfoldable pub check_map : ℕ → ℕ → ℕ → ℕ → MappedResource → ℕ → Status
check_map hint size access_rights flags resource offset =
    let allowed = resource.allowed_access_rights in
    let z = page_align_sup size in
    if resource.address == 0
    then fails 1
    else if not resource.has_mmap
    then fails 6
    else if not (is_page_aligned hint)
    then fails 1
    else if size == 0
    then fails 1
    else if has_bit flags arena_map_shared
        && (denies access_rights allowed p_read
            || (denies access_rights allowed p_write || denies access_rights allowed p_user))
    then fails 6
    else if not (ignores_offset flags resource) && leb (add64 offset z) offset
    then fails 1
    else success

-- The address of the new mapping: imposed, after unmapping what is there, or found.
unfoldable pub choose_address : Uvmm → ℕ → ℕ → Bool → Option (Status × ℕ × Uvmm)
choose_address s hint z fixed =
    if fixed
    then if ltb hint user_offset || ltb (sub32 paging_top_user_address z) hint
      then some (fails 1, 0, s)
      else elim (uvmm_unmap s hint z) [ none ↦ none | some (status, t) ↦ some (status, hint, t) ]
    else (let found = find_first_free_interval s.list_arena hint z in
        if found == 0 then some (fails 3, 0, s) else some (success, found, s))

-- `arena->prev_in_as` from a place in the list: the last arena in front of it, or, around the list,
-- the last one behind it.
pub data Prev : Type 0 where
  absent : Prev
  in_front behind : Arena → Prev

abbrev pub last_of : List Arena → Option Arena
last_of [] = none
last_of (a ∷ []) = some a
last_of (a ∷ b ∷ arenas) = last_of (b ∷ arenas)

unfoldable pub find_prev : List Arena → List Arena → ℕ → Prev
find_prev before [] hint = elim (last_of before) [ none ↦ absent | some p ↦ in_front p ]
find_prev before (n ∷ after) hint = elim (last_of before) [
  | some p ↦ if ltb hint p.start then absent else in_front p
  | none ↦ elim (last_of (n ∷ after)) [
    | some p ↦ if ltb hint p.start then absent else behind p
    | none ↦ absent
  ]
]

-- What a new mapping is: the interval, its protection, and the place in the resource.
pub record Request : Type 0 where
  pub start : ℕ
  pub size : ℕ
  pub access_rights : ℕ
  pub flags : ℕ
  pub resource : ℕ
  pub offset : ℕ

abbrev pub same_kind : Arena → Request → Bool
same_kind a r =
    (a.mapped_resource == r.resource)
    && ((a.flags == r.flags) && (a.access_rights == r.access_rights))

unfoldable pub merges_with_preceding : Prev → Request → Bool
merges_with_preceding absent r = false
merges_with_preceding (in_front p) r =
    same_kind p r
    && ((add64 p.offset_in_resource p.size == r.offset) && (add32 p.start p.size == r.start))
merges_with_preceding (behind p) r =
    same_kind p r
    && ((add64 p.offset_in_resource p.size == r.offset) && (add32 p.start p.size == r.start))

unfoldable pub merges_with_next : List Arena → Request → Bool
merges_with_next [] r = false
merges_with_next (n ∷ after) r =
    same_kind n r
    && ((add64 r.offset r.size == n.offset_in_resource) && (add32 r.start r.size == n.start))

-- The last arena of a list, made larger, and the same at the previous arena of a place.
abbrev pub widen_last : List Arena → ℕ → List Arena
widen_last [] more = []
widen_last (a ∷ []) more = record a { size = add32 a.size more } ∷ []
widen_last (a ∷ b ∷ arenas) more = a ∷ widen_last (b ∷ arenas) more

abbrev pub widen_prev : Prev → List Arena → List Arena → ℕ → List Arena × List Arena
widen_prev absent before after more = (before, after)
widen_prev (in_front p) before after more = (widen_last before more, after)
widen_prev (behind p) before after more = (before, widen_last after more)

-- The next arena disappears in a merge.
unfoldable pub drop_next : Uvmm → Arena → Uvmm
drop_next s n =
    note (note (leave_resource s n) n.ops.unref (called_unref n.address)) true (freed n.address)

-- A new arena in the structure at `address`.
abbrev pub new_arena : ℕ → Request → ArenaOps → Arena
new_arena address r ops = record {
  address = address;
  start = r.start;
  size = r.size;
  access_rights = r.access_rights;
  flags = r.flags;
  ops = ops;
  mapped_resource = r.resource;
  offset_in_resource = r.offset;
}

-- Behind the previous arena, or at the head of the list.
abbrev pub link_new : Prev → List Arena → List Arena → Arena → List Arena
link_new absent before after a = a ∷ before ++ after
link_new (in_front p) before after a = before ++ a ∷ after
link_new (behind p) before after a = before ++ after ++ a ∷ []

-- The result of `uvmm_map`: what it returns, `*uaddr`, and whether the allocated structure is used.
pub record Mapped : Type 0 where
  pub status : Status
  pub uaddr : ℕ
  pub used_preallocated_arena : Bool
  pub state : Uvmm

abbrev pub account_new : Uvmm → Request → Uvmm
account_new s r =
    account_change_of_arena_prot s (has_bit r.flags arena_map_shared) r.size 0 r.access_rights

-- A mapping that cannot be merged.
unfoldable pub map_new :
    Uvmm → Prev → List Arena → List Arena → Request → MappedResource → ℕ → Option Mapped
map_new s prev before after r resource allocated =
    let a = new_arena allocated r no_ops in
    let answer = resource.mmap a in
    let b = new_arena allocated r answer.1 in
    let t = join_resource (with_arenas s (link_new prev before after b)) r.resource allocated in
    elim answer.0 [
      | fails e ↦ elim (uvmm_unmap t r.start r.size) [
        | none ↦ none
        | some (status, u) ↦
            some (record { status = status; uaddr = 0; used_preallocated_arena = true; state = u })
      ]
      | success ↦ some (record {
        status = success;
        uaddr = r.start;
        used_preallocated_arena = true;
        state = account_new (note t b.ops.ref (called_ref allocated)) r;
      })
    ]

-- The next arena of a place grows downwards.
abbrev pub grow_next : List Arena → ℕ → List Arena
grow_next [] more = []
grow_next (n ∷ after) more =
    record n { start = sub32 n.start more; size = add32 n.size more } ∷ after

abbrev pub mapped_at : Request → Uvmm → Option Mapped
mapped_at r s = some (record {
  status = success;
  uaddr = r.start;
  used_preallocated_arena = false;
  state = account_new s r;
})

-- Both neighbours become one arena with the new mapping.
unfoldable pub merge_both : Uvmm → Prev → List Arena → List Arena → Request → Option Mapped
merge_both s prev before [] r = mapped_at r s
merge_both s prev before (n ∷ after) r =
    let wide = widen_prev prev before (n ∷ after) (add32 r.size n.size) in
    mapped_at r (with_arenas (drop_next s n) (wide.0 ++ drop 1 wide.1))

unfoldable pub place_mapping :
    Uvmm → List Arena × List Arena → Request → MappedResource → ℕ → Option Mapped
place_mapping s (before, after) r resource allocated =
    let prev = find_prev before after r.start in
    let wide = widen_prev prev before after r.size in
    if merges_with_preceding prev r
    then if merges_with_next after r
      then merge_both s prev before after r
      else mapped_at r (with_arenas s (wide.0 ++ wide.1))
    else if merges_with_next after r
    then mapped_at r (with_arenas s (before ++ grow_next after r.size))
    else map_new s prev before after r resource allocated

-- The exit of `uvmm_map`.
abbrev pub return_mmap : ℕ → Mapped → Mapped
return_mmap allocated m = record m {
  state = note m.state (not m.used_preallocated_arena) (freed allocated);
}

abbrev pub refuse : Status → Uvmm → Mapped
refuse status s = record { status = status; uaddr = 0; used_preallocated_arena = false; state = s }

-- The flags that are kept.
abbrev pub supported_flags : ℕ → ℕ
supported_flags flags = flags % 2 + flags / 2 ^ 31 % 2 * 2 ^ 31

-- The mapping that is asked for, once its address is known.
abbrev pub request : ℕ → ℕ → ℕ → ℕ → MappedResource → ℕ → Request
request hint z access_rights flags resource offset = record {
  start = hint;
  size = z;
  access_rights = access_rights % 8;
  flags = supported_flags flags;
  resource = resource.address;
  offset = if ignores_offset flags resource then hint else offset;
}

-- From the address on.
unfoldable pub map_at : Status × ℕ × Uvmm → ℕ → ℕ → ℕ → MappedResource → ℕ → ℕ → Option Mapped
map_at (fails e, hint, s) z access_rights flags resource offset allocated =
    some (refuse (fails e) s)
map_at (success, hint, s) z access_rights flags resource offset allocated =
    place_mapping s (find_enclosing_or_next_arena s.list_arena hint)
      (request hint z access_rights flags resource offset) resource allocated

unfoldable pub map_checked : Uvmm → ℕ → ℕ → ℕ → ℕ → MappedResource → ℕ → ℕ → Option Mapped
map_checked s hint z access_rights flags resource offset allocated =
    elim (choose_address s hint z (has_bit flags arena_map_fixed)) [
      | none ↦ none
      | some chosen ↦ elim (map_at chosen z access_rights flags resource offset allocated) [
        | none ↦ none
        | some m ↦ some (return_mmap allocated m)
      ]
    ]

unfoldable pub uvmm_map : Uvmm → ℕ → ℕ → ℕ → ℕ → MappedResource → ℕ → Option Mapped
uvmm_map s hint size access_rights flags resource offset =
    elim (check_map hint size access_rights flags resource offset) [
      | fails e ↦ some (refuse (fails e) s)
      | success ↦
          let got = alloc_arena s in
          if got.0 == 0
          then some (refuse (fails 3) got.1)
          else map_checked got.1 hint (page_align_sup size) access_rights flags resource offset
              got.0
    ]
