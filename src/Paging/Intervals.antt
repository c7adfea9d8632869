-- ===== src/Paging/Intervals.antt =====
-- What `paging_unmap_interval` does, and mapping and unmapping of a frame in use.
use desiros.Base.{
  ℕ, zero, suc, ◌+◌, ◌-◌, ◌*◌, ◌/◌, ◌%◌, ◌<◌, ◌≤◌, ◌≡◌, refl, ◌∙◌, ap, Bool, true, arith, some,
  eq→==, dec_lt, inl, ◌⊎◌, ◌∈◌,
}
use desiros.Base.Words.{add32, page_size}
use desiros.Physmem.{unref_physpage}
use desiros.Physmem.Invariant.{Inv}
use desiros.Physmem.Reference.{Unsaturated}
use desiros.Physmem.Balance.{unref-ref_physpage_at}
use desiros.Paging.{
  Paging, is_present, mirror, pde, paging_virtual_to_physical, paging_map, paging_unmap, unmap_loop,
  paging_unmap_interval,
}
use desiros.Paging.Mapping.{Tabled, Translates, paging_map_lem, paging_unmap_lem}

-- `n` pages from `virtual` on, which do not reach the page tables' own window and whose tables are there.
pub record Range (s : Paging) (virtual n : ℕ) : Type 0 where
  pub aligned : virtual % page_size ≡ 0
  pub below : virtual + n * page_size ≤ mirror * page_size
  pub tables : (w : ℕ) → virtual ≤ w → w < virtual + n * page_size → is_present (pde s w) ≡ true

-- The `n` pages from `virtual` on do not translate in `t`; all other pages below the window do as in `s`.
pub record Gone (s t : Paging) (virtual n : ℕ) : Type 0 where
  pub inside :
      (w : ℕ) → virtual ≤ w → w < virtual + n * page_size → paging_virtual_to_physical t w ≡ 0
  pub outside :
      (w : ℕ)
      → w < mirror * page_size
      → (w < virtual) ⊎ (virtual + n * page_size ≤ w)
      → paging_virtual_to_physical t w ≡ paging_virtual_to_physical s w

first-Tabled : {s : Paging} {virtual n : ℕ} → Range s virtual (suc n) → Tabled s virtual
first-Tabled {s} {virtual} r = record {
  below = omega (arith, r.below);
  table = r.tables virtual (omega arith) (omega arith);
}

next-Range :
    {s t : Paging} {virtual n : ℕ} {f : ℕ → ℕ}
    → Range s virtual (suc n)
    → Translates s t virtual f
    → Range t (virtual + page_size) n
next-Range {s} {t} {virtual} {n} r u = record {
  aligned = omega (arith, r.aligned);
  below = omega (arith, r.below);
  tables =
      λ w l g. rw (u.tables w (omega (arith, r.below))) (r.tables w (omega arith) (omega arith));
}

one_more :
    {s t u : Paging} {virtual n : ℕ}
    → Range s virtual (suc n)
    → Translates s t virtual (λ o. 0)
    → Gone t u (virtual + page_size) n
    → Gone s u virtual (suc n)
one_more {s} {t} {u} {virtual} {n} r first g = record {
  inside = λ w l b. elim (dec_lt w (virtual + page_size)) [
    | yes q ↦ g.outside w (omega (arith, r.below)) (inl q) ∙ here w (w - virtual) q (omega arith)
    | no q ↦ g.inside w (omega arith) (omega arith)
  ];
  outside =
      λ w l o. g.outside w l (ground arith) ∙ first.elsewhere w l (λ e. ground (arith, r.aligned));
}
  where
    here :
        (w o : ℕ) → w < virtual + page_size → w ≡ virtual + o → paging_virtual_to_physical t w ≡ 0
    here w o q e = rw e (first.here o (omega arith))

unmap_loop_lem :
    (n : ℕ) (s : Paging) (virtual retval : ℕ)
    → Range s virtual n
    → (t : Paging) × (unmap_loop n s virtual retval ≡ some (retval + n * page_size, t))
      × Gone s t virtual n
unfolding unmap_loop
unmap_loop_lem zero s virtual retval r =
    (s, ground arith, record { inside = λ w l g. ground arith; outside = λ w l o. refl })
unmap_loop_lem (suc n) s virtual retval r =
    let (t, e, tr, _) = paging_unmap_lem s virtual (first-Tabled r) r.aligned in
    let (u, e1, g) =
      unmap_loop_lem n t (virtual + page_size) (retval + page_size) (next-Range r tr) in
    let next : add32 virtual page_size ≡ virtual + page_size = omega (arith, r.below) in
    (u, rw (unmap_loop, e, next, e1) (ground arith), one_more r tr g)

-- paging_unmap_interval of an aligned range below the page tables' window, all of whose page tables
-- are there, returns its size; then no address of the range translates, and all other pages
-- translate as before.
pub paging_unmap_interval_lem :
    (s : Paging) (vaddr size : ℕ)
    → size % page_size ≡ 0
    → Range s vaddr (size / page_size)
    → (t : Paging) × (paging_unmap_interval s vaddr size ≡ some (some size, t))
      × Gone s t vaddr (size / page_size)
unfolding paging_unmap_interval
paging_unmap_interval_lem s vaddr size al r =
    let (t, e, g) = unmap_loop_lem (size / page_size) s vaddr 0 r in
    let whole : 0 + size / page_size * page_size ≡ size = omega arith in
    (t, rw (eq→== (vaddr % 4096) 0 r.aligned, eq→== (size % 4096) 0 al, e, whole) refl, g)

-- A frame in use that is mapped at a page below the tables' window, whose page table is there, and
-- unmapped again leaves the page allocator as it was, if it is well formed and no count is about to wrap.
pub unmap-map_pages :
    (s : Paging) (virtual p : ℕ) (user : Bool)
    → Tabled s virtual
    → virtual % page_size ≡ 0
    → Inv s.pages
    → Unsaturated s.pages
    → p ∈ s.pages.used_ppage
    → (t : Paging) × (paging_map s virtual (p * page_size) user ≡ some t)
      × (u : Paging) × (paging_unmap t virtual ≡ some (0, u))
      × (u.pages ≡ s.pages)
unmap-map_pages s virtual p user h av v small m =
    let (t, e, tr, pages) = paging_map_lem s virtual (p * page_size) user h av (omega arith) in
    let h1 : Tabled t virtual = record {
      below = h.below;
      table = rw (tr.tables virtual h.below) h.table;
    } in
    let (u, e1, tr1, pages1) = paging_unmap_lem t virtual h1 av in
    let phys : paging_virtual_to_physical t virtual ≡ p * page_size =
      ground (arith, tr.here 0 (omega arith)) in
    (
      t,
      e,
      u,
      e1,
      pages1
          ∙ ap (λ x. (unref_physpage t.pages x).1) phys
          ∙ ap (λ x. (unref_physpage x (p * page_size)).1) pages
          ∙ ap (λ x. x.1) (unref-ref_physpage_at s.pages p v small m),
    )
