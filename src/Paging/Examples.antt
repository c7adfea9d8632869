-- ===== src/Paging/Examples.antt =====
-- Runs of the page tables where every table is there, and the theorems at them.
use desiros.Base.{◌+◌, ◌*◌, ◌/◌, ◌≡◌, refl, true, false, arith, some}
use desiros.Base.Words.{page_size}
use desiros.Physmem.{ref_physpage_at, unref_physpage}
use desiros.Physmem.Examples.{three, three-Inv, three-Unsaturated}
use desiros.Paging.{
  Paging, paging_virtual_to_physical, paging_map, paging_unmap, paging_unmap_interval,
}
use desiros.Paging.Mapping.{Tabled, Translates, paging_map_lem, paging_unmap_lem}
use desiros.Paging.Intervals.{Range, Gone, paging_unmap_interval_lem, unmap-map_pages}

-- Every entry is present and writable and points to frame 3.
abbrev all_present : Paging
all_present = record { pages = three; entry = λ _. 0x3003 }

window-Tabled : Tabled all_present 0x5000
window-Tabled = record { below = omega arith; table = refl }

translated : paging_virtual_to_physical all_present 0x5123 ≡ 0x3123
unfolding paging_virtual_to_physical
translated = refl

paging_map_lem_example :
    (t : Paging) × (paging_map all_present 0x5000 0x2000 true ≡ some t)
    × Translates all_present t 0x5000 (λ o. 0x2000 + o)
    × (t.pages ≡ (ref_physpage_at three 0x2000).1)
paging_map_lem_example = paging_map_lem all_present 0x5000 0x2000 true window-Tabled refl refl

paging_unmap_lem_example :
    (t : Paging) × (paging_unmap all_present 0x5000 ≡ some (0, t))
    × Translates all_present t 0x5000 (λ o. 0)
    × (t.pages ≡ (unref_physpage three (paging_virtual_to_physical all_present 0x5000)).1)
paging_unmap_lem_example = paging_unmap_lem all_present 0x5000 window-Tabled refl

two_pages : Range all_present 0x5000 2
two_pages = record { aligned = refl; below = omega arith; tables = λ w l g. refl }

paging_unmap_interval_lem_example :
    (t : Paging) × (paging_unmap_interval all_present 0x5000 0x2000 ≡ some (some 0x2000, t))
    × Gone all_present t 0x5000 (0x2000 / page_size)
paging_unmap_interval_lem_example =
    paging_unmap_interval_lem all_present 0x5000 0x2000 refl two_pages

unmap-map_pages_example :
    (t : Paging) × (paging_map all_present 0x5000 (3 * page_size) false ≡ some t)
    × (u : Paging) × (paging_unmap t 0x5000 ≡ some (0, u))
    × (u.pages ≡ three)
unmap-map_pages_example =
    unmap-map_pages all_present 0x5000 3 false window-Tabled refl three-Inv three-Unsaturated refl
