-- ===== src/Physmem/Release.antt =====
-- Giving pages back: `physmem_unref_physpage`.
use mathlib.Core.Path.{fun_ext}
use desiros.Base.{
  ℕ, ◌+◌, ◌-◌, ◌*◌, ◌^◌, ◌<◌, ◌≡◌, refl, ◌≢◌, inl, inr, true, false, Bool, List, [], ◌∷◌, Option,
  none, some, arith, ◌∈◌, length-erase, ◌==◌, dec_lt, ap, ◌∙◌, List-cases, cons-erase_head,
  erase-append_new, Option-cases,
}
use desiros.Base.Words.{page_size, sub32}
use desiros.Physmem.{
  Physmem, update, ref_physpage_new, get_page_descr_at_paddr, unref_physpage, unref_page,
}
use desiros.Physmem.Invariant.{
  Inv, descr-Managed, Managed-descr, acquired, released, recounted, released-Inv, recounted-Inv,
}
use desiros.Physmem.Reference.{listed_by_count, new-acquired, used_fits}

unref_page-last :
    (s : Physmem) (p : ℕ)
    → s.ref_cnt p ≡ 1
    → 0 < s.physmem_used_pages
    → s.physmem_used_pages < 2 ^ 32
    → unref_page s p ≡ (some true, released s p)
unfolding unref_page
unref_page-last s p one pos small =
    let same : (p == p) ≡ true = ground arith in
    let wrap : sub32 s.physmem_used_pages 1 ≡ s.physmem_used_pages - 1 = omega arith in
    rw (one, same, wrap) refl

pub unref_page-more :
    (s : Physmem) (p : ℕ)
    → 1 < s.ref_cnt p
    → s.ref_cnt p < 2 ^ 32
    → unref_page s p ≡ (some false, recounted s p (s.ref_cnt p - 1))
unfolding unref_page
unref_page-more s p many small =
    let same : (p == p) ≡ true = ground arith in
    let wrap : sub32 (s.ref_cnt p) 1 ≡ s.ref_cnt p - 1 = omega arith in
    let test : (s.ref_cnt p == 0) ≡ false = ground arith in
    let test' : (s.ref_cnt p - 1 == 0) ≡ false = ground arith in rw (test, wrap, same, test') refl

-- What `physmem_unref_physpage` may do at an address.
pub data Unreferenced (s : Physmem) (addr : ℕ) (r : Option Bool × Physmem) : Type 0 where
  -- not the address of a page in use: -1, and nothing changes
  refused :
      ((p : ℕ) → p ∈ s.used_ppage → addr ≢ p * page_size) → r ≡ (none, s) → Unreferenced s addr r
  -- the last reference to the page: `true`, and the page is free
  last :
      (p : ℕ)
      → addr ≡ p * page_size
      → p ∈ s.used_ppage
      → s.ref_cnt p ≡ 1
      → r ≡ (some true, released s p)
      → Unreferenced s addr r
  -- another reference is left: `false`, and the count falls
  more :
      (p : ℕ)
      → addr ≡ p * page_size
      → p ∈ s.used_ppage
      → 1 < s.ref_cnt p
      → r ≡ (some false, recounted s p (s.ref_cnt p - 1))
      → Unreferenced s addr r

module _ {s : Physmem} (addr p : ℕ) (v : Inv s) (e : get_page_descr_at_paddr s addr ≡ some p) where
  place : addr ≡ p * page_size
  place = (descr-Managed s addr e).1

  unref-used : p ∈ s.used_ppage → Unreferenced s addr (unref_physpage s addr)
  unfolding unref_physpage
  unref-used m =
      let pos : 0 < s.ref_cnt p = v.used_count p m in
      elim (dec_lt 1 (s.ref_cnt p)) [
        | yes many ↦
            more p place m many (rw (e, unref_physpage) (unref_page-more s p many (v.word_count p)))
        | no few ↦
            let one : s.ref_cnt p ≡ 1 = omega arith in
            last p place m one (
              rw (e, unref_physpage)
                (unref_page-last s p one (ground (arith, v.counted, length-erase p s.used_ppage m))
                  (omega (arith, v.counted, v.few_pages))))
      ]

  unref-free : p ∈ s.free_ppage → Unreferenced s addr (unref_physpage s addr)
  unfolding unref_physpage
  unref-free m =
      let test : (s.ref_cnt p == 0) ≡ true = ground (arith, v.free_count p m) in
      refused
        (λ q n h. let same : q ≡ p = omega (arith, place) in ground (arith, v.apart p m, same))
        (rw (e, unref_physpage, test, unref_page) refl)

-- Every call of `physmem_unref_physpage` does one of the three.
pub unref_physpage-Unreferenced :
    (s : Physmem) (addr : ℕ) → Inv s → Unreferenced s addr (unref_physpage s addr)
unfolding unref_physpage
unref_physpage-Unreferenced s addr v = elim (Option-cases (get_page_descr_at_paddr s addr)) [
  | inl e ↦
      refused (λ p m h. ground (arith, Managed-descr s p (v.used_managed p m)))
        (rw (e, unref_physpage) refl)
  | inr (p, e) ↦ elim (listed_by_count p v (descr-Managed s addr e).0) [
    | inl (m, _) ↦ unref-free addr p v e m
    | inr (m, _) ↦ unref-used addr p v e m
  ]
]

-- And the state stays well formed.
pub Unreferenced-Inv :
    {s : Physmem} {addr : ℕ} {r : Option Bool × Physmem} → Inv s → Unreferenced s addr r → Inv r.1
Unreferenced-Inv v (refused h e) = rw e v
Unreferenced-Inv v (last p place m one e) = rw e (released-Inv p v m)
Unreferenced-Inv {s} v (more p place m many e) =
    rw e (recounted-Inv p (s.ref_cnt p - 1) v m (omega arith) (omega (arith, v.word_count p)))

released-acquired :
    {s : Physmem} (p : ℕ) (rest : List ℕ)
    → Inv s
    → s.free_ppage ≡ p ∷ rest
    → released (acquired s p) p ≡ s
released-acquired {s} p rest v e i = record s {
  free_ppage = cons-erase_head p rest s.free_ppage e i;
  used_ppage = erase-append_new p s.used_ppage (v.apart p m) i;
  ref_cnt =
      fun_ext {f = update (update s.ref_cnt p 1) p 0} {g = s.ref_cnt}
        (λ q. ground (arith, v.free_count p m)) i;
  physmem_used_pages = pages i;
}
  where
    m : p ∈ s.free_ppage
    m = rw e (ground arith)

    pages : s.physmem_used_pages + 1 - 1 ≡ s.physmem_used_pages
    pages = omega arith

unref-acquired :
    {s : Physmem} (p : ℕ) (rest : List ℕ)
    → Inv s
    → s.free_ppage ≡ p ∷ rest
    → unref_physpage (acquired s p) (p * page_size) ≡ (some true, s)
unfolding unref_physpage
unref-acquired {s} p rest v e =
    let m : p ∈ s.free_ppage = rw e (ground arith) in
    let t : Physmem = acquired s p in
    rw (Managed-descr t p (v.free_managed p m), unref_physpage)
      (unref_page-last t p (ground arith) (omega arith) (used_fits p v m)
        ∙ ap (λ u. (some true, u)) (released-acquired p rest v e))

-- A page taken from the free list and given back at once leaves the allocator as it was.
pub unref-ref_physpage_new :
    (s : Physmem)
    → Inv s
    → s.free_ppage ≢ []
    → unref_physpage (ref_physpage_new s).1 (ref_physpage_new s).0 ≡ (some true, s)
unref-ref_physpage_new s v ne = elim (List-cases s.free_ppage) [
  | inl e ↦ absurd (ne e)
  | inr (p, rest, e) ↦ rw (new-acquired p rest v e) (unref-acquired p rest v e)
]
