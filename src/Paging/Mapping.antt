-- ===== src/Paging/Mapping.antt =====
-- What `paging_map` and `paging_unmap` do to the translation of addresses.
use desiros.Base.{
  ℕ, ◌+◌, ◌*◌, ◌/◌, ◌%◌, ◌^◌, ◌<◌, ◌≡◌, refl, ◌≢◌, Bool, true, false, arith, some, ◌==◌,
  if◌then◌else◌, eq→==, ne→==, Bool-cases, inl, inr,
}
use desiros.Base.Words.{page_size}
use desiros.Physmem.{Physmem, ref_physpage_at, unref_physpage}
use desiros.Paging.{
  Paging, or_bit, is_present, clear_present, mirror, pde, pte, set_entry,
  paging_virtual_to_physical, paging_map, paging_unmap,
}

-- An address below the page tables' own window whose page table is there.
pub record Tabled (s : Paging) (virtual : ℕ) : Type 0 where
  pub below : virtual < mirror * page_size
  pub table : is_present (pde s virtual) ≡ true

-- The page of `virtual` translates as `phys` says, all other pages below the window as before.
pub record Translates (s t : Paging) (virtual : ℕ) (phys : ℕ → ℕ) : Type 0 where
  pub here : (o : ℕ) → o < page_size → paging_virtual_to_physical t (virtual + o) ≡ phys o
  pub elsewhere :
      (w : ℕ)
      → w < mirror * page_size
      → w / page_size ≢ virtual / page_size
      → paging_virtual_to_physical t w ≡ paging_virtual_to_physical s w
  pub tables : (w : ℕ) → w < mirror * page_size → pde t w ≡ pde s w

-- The entry of a page below the window is changed.
set-Translates :
    (s : Paging) (virtual value : ℕ) (f : ℕ → ℕ) (new : Physmem)
    → Tabled s virtual
    → virtual % page_size ≡ 0
    → ((o : ℕ)
        → o < page_size
        → (if is_present value then value / page_size * page_size + o else 0) ≡ f o)
    → Translates s (record (set_entry s (virtual / page_size) value) { pages = new }) virtual f
unfolding paging_virtual_to_physical
set-Translates s virtual value f new h al eq = record {
  here = λ o l.
      let v = h.table in
      let e1 : (virtual + o) / 2 ^ 22 ≡ virtual / 2 ^ 22 = omega arith in
      let e2 : (virtual + o) / 4096 ≡ virtual / 4096 = omega arith in
      let e3 : (virtual + o) % 4096 ≡ o = omega arith in
      let ne : (mirror + virtual / 2 ^ 22 == virtual / 4096) ≡ false =
        ne→== (mirror + virtual / 2 ^ 22) (virtual / 4096) (ground (arith, h.below)) in
      let same : (virtual / 4096 == virtual / 4096) ≡ true = ground arith in
      rw (e1, e2, e3, ne, same, h.table) (eq o l);
  elsewhere = λ w l n.
      let ne : (mirror + w / 2 ^ 22 == virtual / 4096) ≡ false =
        ne→== (mirror + w / 2 ^ 22) (virtual / 4096) (ground (arith, h.below)) in
      rw (ne, ne→== (w / 4096) (virtual / 4096) n) refl;
  tables = λ w l.
      let ne : (mirror + w / 2 ^ 22 == virtual / 4096) ≡ false =
        ne→== (mirror + w / 2 ^ 22) (virtual / 4096) (ground (arith, h.below)) in
      rw ne refl;
}

-- paging_map of a page below the window, whose page table is there, succeeds; then the page
-- translates to the frame, byte by byte, all other pages translate as before, and the frame is
-- referenced once more.
pub paging_map_lem :
    (s : Paging) (virtual physical : ℕ) (user : Bool)
    → Tabled s virtual
    → virtual % page_size ≡ 0
    → physical % page_size ≡ 0
    → (t : Paging) × (paging_map s virtual physical user ≡ some t)
      × Translates s t virtual (λ o. physical + o)
      × (t.pages ≡ (ref_physpage_at s.pages physical).1)
unfolding paging_map
paging_map_lem s virtual physical user h av ap = (
  record (set_entry s (virtual / page_size) value) { pages = (ref_physpage_at s.pages physical).1 },
  rw h.table refl,
  set-Translates s virtual value (λ o. physical + o) (ref_physpage_at s.pages physical).1 h av
      (λ o l. entry_value o l),
  refl,
)
  where
    value : ℕ
    value = if user then or_bit (or_bit (or_bit physical 1) 2) 4 else or_bit (or_bit physical 1) 2

    entry_value :
        (o : ℕ)
        → o < page_size
        → (if is_present value then value / page_size * page_size + o else 0) ≡ physical + o
    entry_value o l =
        let one : or_bit physical 1 ≡ physical + 1 = ground arith in
        let three : or_bit (physical + 1) 2 ≡ physical + 3 = ground arith in
        let seven : or_bit (physical + 3) 4 ≡ physical + 7 = ground arith in
        elim (Bool-cases user) [
          | inl u ↦
              let v : value ≡ physical + 7 = rw (u, one, three, seven) refl in rw v (ground arith)
          | inr u ↦ let v : value ≡ physical + 3 = rw (u, one, three) refl in rw v (ground arith)
        ]

-- paging_unmap of a page below the window, whose page table is there, returns 0; then no address of
-- the page translates, all other pages translate as before, and the frame to which the page did
-- translate has been given back.
pub paging_unmap_lem :
    (s : Paging) (virtual : ℕ)
    → Tabled s virtual
    → virtual % page_size ≡ 0
    → (t : Paging) × (paging_unmap s virtual ≡ some (0, t))
      × Translates s t virtual (λ o. 0)
      × (t.pages ≡ (unref_physpage s.pages (paging_virtual_to_physical s virtual)).1)
unfolding paging_unmap
paging_unmap_lem s virtual h av = (
  record (set_entry s (virtual / page_size) (clear_present (pte s virtual))) {
    pages = (unref_physpage s.pages (paging_virtual_to_physical s virtual)).1;
  },
  rw (eq→== (virtual % 4096) 0 av, h.table) refl,
  set-Translates s virtual (clear_present (pte s virtual)) (λ o. 0)
      (unref_physpage s.pages (paging_virtual_to_physical s virtual)).1 h av (λ o l. ground arith),
  refl,
)
