-- ===== src/Physmem/Balance.antt =====
-- A reference to a page in use, taken by its address and given back.
use mathlib.Core.Path.{fun_ext}
use desiros.Base.{
  ℕ, ◌+◌, ◌-◌, ◌*◌, ◌<◌, ◌≡◌, refl, ap, ◌∙◌, false, some, arith, ◌∈◌, ℕ_discrete, eq→==, ne→==,
}
use desiros.Base.Words.{page_size}
use desiros.Physmem.{Physmem, update, ref_physpage_at, unref_physpage}
use desiros.Physmem.Invariant.{Inv, recounted, Managed-descr}
use desiros.Physmem.Reference.{refused, first, again, ref_physpage_at-Referenced, Unsaturated}
use desiros.Physmem.Release.{unref_page-more}

counted_back :
    (s : Physmem) (p q : ℕ)
    → update
        (recounted s p (s.ref_cnt p + 1)).ref_cnt
        p
        ((recounted s p (s.ref_cnt p + 1)).ref_cnt p - 1)
        q
      ≡ s.ref_cnt q
counted_back s p q = elim (ℕ_discrete q p) [
  | yes e ↦ rw (e, eq→== p p refl) (omega arith)
  | no n ↦ rw (ne→== q p n) refl
]

-- physmem_unref_physpage after physmem_ref_physpage_at of a page in use restores the whole state of
-- a well-formed allocator with no count about to wrap.
pub unref-ref_physpage_at :
    (s : Physmem) (p : ℕ)
    → Inv s
    → Unsaturated s
    → p ∈ s.used_ppage
    → unref_physpage (ref_physpage_at s (p * page_size)).1 (p * page_size) ≡ (some false, s)
unfolding unref_physpage
unref-ref_physpage_at s p v small m = elim (ref_physpage_at-Referenced s (p * page_size) v small) [
  | refused h e ↦ ground (arith, h p (v.used_managed p m))
  | first q place n e ↦ let same : q ≡ p = omega arith in ground (arith, v.apart q n, same)
  | again q place n e ↦
      let same : q ≡ p = omega arith in
      let t : Physmem = recounted s p (s.ref_cnt p + 1) in
      let r : (ref_physpage_at s (p * page_size)).1 ≡ t =
        ap (λ x. x.1) e ∙ ap (λ x. recounted s x (s.ref_cnt x + 1)) same in
      let cnt : t.ref_cnt p ≡ s.ref_cnt p + 1 = rw (eq→== p p refl) refl in
      let pos : 0 < s.ref_cnt p = v.used_count p m in
      ap (λ x. unref_physpage x (p * page_size)) r
      ∙ rw (unref_physpage, Managed-descr t p (v.used_managed p m))
          (unref_page-more t p (omega arith) (omega (arith, small p)) ∙ (λ i. (
            some false,
            record s { ref_cnt = fun_ext {g = s.ref_cnt} (λ q. counted_back s p q) i },
          )))
]
