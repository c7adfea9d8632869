-- ===== src/Kvmm.antt =====
-- The ranges of the kernel's virtual memory, mem/kvmm.c: the lists of free and used ranges, kept as
-- sequences as in module Physmem. A range is named by the address of its structure.
pub mod Sorted
pub mod Lookup
mod Examples
use desiros.Base.{
  ℕ, zero, suc, ◌+◌, ◌-◌, ◌*◌, ◌/◌, ◌%◌, ◌^◌, Bool, true, false, ◌&&◌, ◌||◌, not, List, [], ◌∷◌,
  ◌++◌, Option, none, some, ltb, leb, ◌==◌, if◌then◌else◌,
}
use desiros.Base.Words.{add32, sub32, page_size, page_align_inf, u32_mod}
use desiros.Physmem.{get_kvmm_range, set_kvmm_range}
use desiros.Paging.{Paging, paging_virtual_to_physical}

-- `struct kvmm_range`; a slab of 0 is NULL.
pub record KvmmRange : Type 0 where
  pub base_vaddr : ℕ
  pub nb_pages : ℕ
  pub slab : ℕ

-- The two lists, the structures that they name, and the page tables.
pub record Kvmm : Type 0 where
  pub range_at : ℕ → KvmmRange
  pub kvmm_free_range_list : List ℕ
  pub kvmm_used_range_list : List ℕ
  pub paging : Paging

-- The loop of `get_closest_preceding_kvmm_range`; the result so far comes first.
unfoldable pub closest_loop : (ℕ → KvmmRange) → Option ℕ → List ℕ → ℕ → Option ℕ
closest_loop h ret_range [] vaddr = ret_range
closest_loop h ret_range (r ∷ rs) vaddr =
    if ltb vaddr (h r).base_vaddr then ret_range else closest_loop h (some r) rs vaddr

unfoldable pub get_closest_preceding_kvmm_range : (ℕ → KvmmRange) → List ℕ → ℕ → Option ℕ
unfolding closest_loop
get_closest_preceding_kvmm_range h the_list vaddr = closest_loop h none the_list vaddr

unfoldable pub find_suitable_free_range : (ℕ → KvmmRange) → List ℕ → ℕ → Option ℕ
find_suitable_free_range h [] nb_pages = none
find_suitable_free_range h (r ∷ rs) nb_pages =
    if leb nb_pages (h r).nb_pages then some r else find_suitable_free_range h rs nb_pages

-- `list_insert_after` on a sequence.
unfoldable pub insert_after : List ℕ → ℕ → ℕ → List ℕ
insert_after [] elt elem = elem ∷ []
insert_after (x ∷ xs) elt elem = if x == elt then x ∷ elem ∷ xs else x ∷ insert_after xs elt elem

unfoldable pub insert_range : (ℕ → KvmmRange) → List ℕ → ℕ → List ℕ
unfolding get_closest_preceding_kvmm_range insert_after
insert_range h the_list a_range =
    elim (get_closest_preceding_kvmm_range h the_list (h a_range).base_vaddr) [
      | some prec_used ↦ insert_after the_list prec_used a_range
      | none ↦ a_range ∷ the_list
    ]

-- The range that owns an address, `none` for NULL.
unfoldable pub lookup_range : Kvmm → ℕ → Option ℕ
unfolding get_closest_preceding_kvmm_range
lookup_range s vaddr =
    let ppage_paddr = page_align_inf (paging_virtual_to_physical s.paging vaddr) in
    if not (ppage_paddr == 0)
    then (let range = get_kvmm_range s.paging.pages ppage_paddr in
        if range == 0 then none else some range)
    else elim (get_closest_preceding_kvmm_range s.range_at s.kvmm_used_range_list vaddr) [
      | none ↦ none
      | some range ↦
          let r = s.range_at range in
          if ltb vaddr r.base_vaddr
            || leb (add32 r.base_vaddr (r.nb_pages * page_size % u32_mod)) vaddr
          then none
          else some range
    ]

unfoldable pub resolve_slab : Kvmm → ℕ → ℕ
unfolding lookup_range
resolve_slab s vaddr = elim (lookup_range s vaddr) [
  | none ↦ 0
  | some range ↦ (s.range_at range).slab
]

abbrev pub set_range : Kvmm → ℕ → KvmmRange → Kvmm
set_range s a r = record s { range_at = λ q. if q == a then r else s.range_at q }

-- The loop of `kvmm_create_range` over `n` pages.
unfoldable pub own_pages : ℕ → Paging → ℕ → ℕ → Paging
own_pages zero s vaddr range = s
own_pages (suc n) s vaddr range =
    let t = record s {
      pages = (set_kvmm_range s.pages (paging_virtual_to_physical s vaddr) range).1;
    } in
    own_pages n t (add32 vaddr page_size) range

-- `allocated` is the structure from the slab cache; its other fields come from `old`. The bounds are
-- aligned, as the source tests by messages only.
unfoldable pub create_range : Kvmm → Bool → ℕ → ℕ → ℕ → ℕ → Option ℕ × Kvmm
unfolding own_pages
create_range s is_free base_vaddr top_vaddr associated_slab allocated =
    if ltb (sub32 top_vaddr base_vaddr) page_size
    then (none, s)
    else (let n = sub32 top_vaddr base_vaddr / page_size in
        if is_free
        then (let t = set_range s allocated (record {
          base_vaddr = base_vaddr;
          nb_pages = n;
          slab = (s.range_at allocated).slab;
        }) in
            (
              some allocated,
              record t { kvmm_free_range_list = t.kvmm_free_range_list ++ allocated ∷ [] },
            ))
        else (let t =
              set_range s allocated
                (record { base_vaddr = base_vaddr; nb_pages = n; slab = associated_slab }) in
            (
              some allocated,
              record t {
                kvmm_used_range_list = t.kvmm_used_range_list ++ allocated ∷ [];
                paging = own_pages n t.paging base_vaddr allocated;
              },
            )))
