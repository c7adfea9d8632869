-- ===== src/Kvmm/Examples.antt =====
-- Three ranges of kernel memory, and the theorems at them.
use desiros.Base.{ℕ, ◌*◌, ◌≡◌, refl, ◌||◌, [], ◌∷◌, arith, ◌==◌, has}
use desiros.Base.Words.{page_align_inf}
use desiros.Paging.{paging_virtual_to_physical}
use desiros.Physmem.Examples.{three}
use desiros.Kvmm.{Kvmm, KvmmRange, insert_range, lookup_range, find_suitable_free_range}
use desiros.Kvmm.Sorted.{Ascending, insert_range-Ascending}
use desiros.Kvmm.Lookup.{
  Used, Owner, lookup_range-Owner, FirstFit, find_suitable_free_range-FirstFit,
}

-- The range at p begins at page 10 * p and has p pages.
abbrev ranges : ℕ → KvmmRange
ranges p = record { base_vaddr = 0xA000 * p; nb_pages = p; slab = 0 }

abbrev two_used : Kvmm
two_used = record {
  range_at = ranges;
  kvmm_free_range_list = 5 ∷ [];
  kvmm_used_range_list = 1 ∷ 3 ∷ [];
  paging = record { pages = three; entry = λ _. 0 };
}

two_used-Ascending : Ascending ranges (1 ∷ 3 ∷ [])
two_used-Ascending = (λ y m. ground arith, (λ y m. ground arith, tt))

insert_range-Ascending_example :
    Ascending ranges (insert_range ranges (1 ∷ 3 ∷ []) 2)
    × ((q : ℕ) → has q (insert_range ranges (1 ∷ 3 ∷ []) 2) ≡ (q == 2 || has q (1 ∷ 3 ∷ [])))
insert_range-Ascending_example =
    insert_range-Ascending ranges (1 ∷ 3 ∷ []) 2 two_used-Ascending (λ y m. ground arith)

two_used-Used : Used two_used
two_used-Used = record {
  ascending = two_used-Ascending;
  apart = λ p q m n l. ground arith;
  below = λ p m. ground arith;
}

nothing_mapped : page_align_inf (paging_virtual_to_physical two_used.paging 0x1F000) ≡ 0
unfolding paging_virtual_to_physical
nothing_mapped = refl

lookup_range-Owner_example : Owner two_used 0x1F000 (lookup_range two_used 0x1F000)
lookup_range-Owner_example = lookup_range-Owner two_used 0x1F000 two_used-Used nothing_mapped

find_suitable_free_range-FirstFit_example :
    FirstFit ranges (1 ∷ 3 ∷ []) 2 (find_suitable_free_range ranges (1 ∷ 3 ∷ []) 2)
find_suitable_free_range-FirstFit_example = find_suitable_free_range-FirstFit ranges (1 ∷ 3 ∷ []) 2
