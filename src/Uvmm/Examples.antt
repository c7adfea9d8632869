-- ===== src/Uvmm/Examples.antt =====
-- An address space with one arena, where every page table is there, and the theorems at it.
use desiros.Base.{ℕ, ◌/◌, ◌≡◌, refl, ap, true, [], ◌∷◌, Option, none, some, arith}
use desiros.Base.Words.{page_size, page_align_sup}
use desiros.Paging.Intervals.{Range}
use desiros.Physmem.Examples.{three}
use desiros.Uvmm.{
  Arena, no_ops, VmUsage, Uvmm, success, seek, free_interval_loop, find_enclosing_or_next_arena,
  find_first_free_interval, user_offset, paging_top_user_address, account_change_of_arena_prot,
}
use desiros.Uvmm.Unmapping.{uvmm_unmap}
use desiros.Uvmm.Mapping.{MappedResource, request, check_map, uvmm_map}
use desiros.Uvmm.View.{Chain, Place, view, place_in}
use desiros.Uvmm.Interval.{Unmapped, uvmm_unmap_lem}
use desiros.Uvmm.Merging.{Placed}
use desiros.Uvmm.Mapped.{NotContinued, uvmm_map-fixed_lem}
use desiros.Uvmm.Usage.{account_change_back}

abbrev low_arena : Arena
low_arena = record {
  address = 0x1000;
  start = 0x40000000;
  size = 0x3000;
  access_rights = 3;
  flags = 0;
  ops = no_ops;
  mapped_resource = 0x500;
  offset_in_resource = 0x7000;
}

abbrev no_usage : VmUsage
no_usage = record { overall = 0; ro = 0; rw = 0; code = 0 }

abbrev one_arena : Uvmm
one_arena = record {
  list_arena = low_arena ∷ [];
  heap_start = 0;
  heap_size = 0;
  phys_total = 0;
  vm_total = no_usage;
  vm_shrd = no_usage;
  pgflt_page_in = 0;
  pgflt_invalid = 0;
  resource_arenas = λ _. 0x1000 ∷ [];
  calls = [];
  paging = record { pages = three; entry = λ _. 0x3003 };
  answers = 0x2000 ∷ 0x3000 ∷ [];
}

one_arena-Chain : Chain user_offset one_arena.list_arena paging_top_user_address
one_arena-Chain = (omega arith, omega arith, omega arith)

middle_page : Range one_arena.paging 0x40001000 (0x1000 / page_size)
middle_page = record { aligned = refl; below = omega arith; tables = λ w l g. refl }

uvmm_unmap_lem_example :
    Unmapped one_arena 0x40001000 (page_align_sup 0x1000) (uvmm_unmap one_arena 0x40001000 0x1000)
uvmm_unmap_lem_example =
    uvmm_unmap_lem one_arena 0x40001000 0x1000 0x2000 (0x3000 ∷ []) one_arena-Chain (omega arith)
      (omega arith) refl (omega arith) middle_page

abbrev zeroes : MappedResource
zeroes = record {
  address = 0x600;
  allowed_access_rights = 7;
  flags = 1;
  has_mmap = true;
  mmap = λ a. (success, no_ops);
}

abbrev fixed : ℕ
fixed = 0x80000000

zeroes_checked : check_map 0x40001000 0x1000 3 fixed zeroes 0 ≡ success
unfolding check_map
zeroes_checked = refl

abbrev resource_of : Option Place → ℕ
resource_of none = 0
resource_of (some p) = p.resource

not_zeroes :
    NotContinued (request 0x40001000 (page_align_sup 0x1000) 3 fixed zeroes 0) one_arena.list_arena
unfolding view place_in
not_zeroes e =
    let r : low_arena.mapped_resource ≡ zeroes.address = ap resource_of e in omega (arith, r)

uvmm_map-fixed_lem_example :
    Placed user_offset paging_top_user_address
      (request 0x40001000 (page_align_sup 0x1000) 3 fixed zeroes 0)
      one_arena.list_arena
      (uvmm_map one_arena 0x40001000 0x1000 3 fixed zeroes 0)
uvmm_map-fixed_lem_example =
    uvmm_map-fixed_lem one_arena 0x40001000 0x1000 3 fixed zeroes 0 0x2000 0x3000 [] zeroes_checked
      refl one_arena-Chain (omega arith) (omega arith) middle_page refl (omega arith) (omega arith)
      (λ a. refl) not_zeroes

account_change_back_example :
    account_change_of_arena_prot
      (account_change_of_arena_prot one_arena true 0x3000 0 5)
      true
      0x3000
      5
      0
    ≡ one_arena
account_change_back_example =
    account_change_back one_arena true 0x3000 5
      (record { overall = omega arith; ro = omega arith; rw = omega arith; code = omega arith })
      (record { overall = omega arith; ro = omega arith; rw = omega arith; code = omega arith })
      (omega arith) refl

-- An address inside the only arena is taken for free.
find_first_free_interval_taken :
    find_first_free_interval one_arena.list_arena 0x40001000 0x1000 ≡ 0x40001000
unfolding find_first_free_interval find_enclosing_or_next_arena seek free_interval_loop
find_first_free_interval_taken = refl

-- No interval is found when the only arena begins at the bottom of user space.
find_first_free_interval_none : find_first_free_interval one_arena.list_arena 0 0x1000 ≡ 0
unfolding find_first_free_interval find_enclosing_or_next_arena seek free_interval_loop
find_first_free_interval_none = refl
