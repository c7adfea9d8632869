-- ===== src/Physmem/Runs.antt =====
-- Histories of calls: every state that the allocator reaches is well formed.
use desiros.Base.{ℕ, ◌≡◌, inl, inr, true, arith, Option-cases}
use desiros.Physmem.{
  Physmem, ref_physpage_new, ref_physpage_at, unref_physpage, set_kvmm_range, get_kvmm_range,
  get_page_descr_at_paddr,
}
use desiros.Physmem.Invariant.{Inv}
use desiros.Physmem.Reference.{
  Unsaturated, ref_physpage_new_lem, ref_physpage_at-Referenced, Referenced-Inv,
}
use desiros.Physmem.Release.{unref_physpage-Unreferenced, Unreferenced-Inv}

-- A call of the allocator.
pub data Call : Type 0 where
  call_new : Call
  call_ref : ℕ → Call
  call_unref : ℕ → Call
  call_set_range : ℕ → ℕ → Call

abbrev pub apply : Physmem → Call → Physmem
apply s call_new = (ref_physpage_new s).1
apply s (call_ref addr) = (ref_physpage_at s addr).1
apply s (call_unref addr) = (unref_physpage s addr).1
apply s (call_set_range addr range) = (set_kvmm_range s addr range).1

set_kvmm_range-Inv : (s : Physmem) (addr range : ℕ) → Inv s → Inv (set_kvmm_range s addr range).1
unfolding set_kvmm_range
set_kvmm_range-Inv s addr range v = elim (Option-cases (get_page_descr_at_paddr s addr)) [
  | inl e ↦ rw (e, set_kvmm_range) v
  | inr (p, e) ↦
      rw (e, set_kvmm_range)
        (record {
          above_zero = v.above_zero;
          below_4g = v.below_4g;
          few_pages = v.few_pages;
          counted = v.counted;
          free_distinct = v.free_distinct;
          used_distinct = v.used_distinct;
          apart = v.apart;
          free_managed = v.free_managed;
          used_managed = v.used_managed;
          listed = v.listed;
          free_count = v.free_count;
          used_count = v.used_count;
          word_count = v.word_count;
          address = v.address;
        })
]

ref_physpage_new-Inv : (s : Physmem) → Inv s → Inv (ref_physpage_new s).1
ref_physpage_new-Inv s v = elim (ref_physpage_new_lem s v) [
  | inl (_, e) ↦ rw e v
  | inr (_, _, _, _, _, _, w) ↦ w
]

-- The states that calls lead to, as long as no reference count is about to wrap.
pub data Reach (s : Physmem) : Physmem → Type 0 where
  here : Reach s s
  next : {t : Physmem} (c : Call) → Reach s t → Unsaturated t → Reach s (apply t c)

apply-Inv : (t : Physmem) (c : Call) → Inv t → Unsaturated t → Inv (apply t c)
apply-Inv t call_new v small = ref_physpage_new-Inv t v
apply-Inv t (call_ref addr) v small =
    Referenced-Inv v small (ref_physpage_at-Referenced t addr v small)
apply-Inv t (call_unref addr) v small = Unreferenced-Inv v (unref_physpage-Unreferenced t addr v)
apply-Inv t (call_set_range addr range) v small = set_kvmm_range-Inv t addr range v

-- From a well-formed state every history of calls leads to a well-formed state.
pub Reach-Inv : {s t : Physmem} → Inv s → Reach s t → Inv t
Reach-Inv v here = v
Reach-Inv v (next {t} c r small) = apply-Inv t c (Reach-Inv v r) small

-- `physmem_get_kvmm_range` gives what `physmem_set_kvmm_range` stored for the same page.
pub get-set_kvmm_range :
    (s : Physmem) (addr range : ℕ)
    → (set_kvmm_range s addr range).0 ≡ true
    → get_kvmm_range (set_kvmm_range s addr range).1 addr ≡ range
unfolding set_kvmm_range get_kvmm_range
get-set_kvmm_range s addr range h = ground arith
