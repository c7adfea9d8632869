-- ===== src/Physmem/Setup.antt =====
-- `physmem_setup` builds a well-formed state, and keeps the reserved areas off the free list.
use desiros.Base.{
  ℕ, zero, suc, ◌+◌, ◌*◌, ◌/◌, ◌^◌, ◌≤◌, ◌<◌, ◌≡◌, refl, true, false, ◌||◌, [], arith, length, has,
  ◌∈◌, Distinct, Disjoint, ◌∙◌, le→ltb, lt→ltb, if◌then◌else◌,
}
use desiros.Base.Words.{page_size, page_align_inf}
use desiros.Physmem.{
  Physmem, Mark, mark_reserved, mark_free, mark_kernel, mark_hwmap, mark_of, fresh_page, mark_page,
  setup_loop, physmem_setup, Image, kernel_core_base, kernel_core_top,
}
use desiros.Physmem.Invariant.{Inv}

-- The state before the round for the page `n`: the pages below `n` are placed.
record Partial (s : Physmem) (n : ℕ) : Type 0 where
  few_pages : length s.free_ppage + length s.used_ppage ≤ n
  counted : s.physmem_used_pages ≡ length s.used_ppage
  free_distinct : Distinct s.free_ppage
  used_distinct : Distinct s.used_ppage
  apart : Disjoint s.free_ppage s.used_ppage
  free_below : (p : ℕ) → p ∈ s.free_ppage → (s.physmem_base ≤ p * page_size) × (p < n)
  used_below : (p : ℕ) → p ∈ s.used_ppage → (s.physmem_base ≤ p * page_size) × (p < n)
  listed :
      (p : ℕ)
      → s.physmem_base ≤ p * page_size
      → p < n
      → (has p s.free_ppage || has p s.used_ppage) ≡ true
  free_count : (p : ℕ) → p ∈ s.free_ppage → s.ref_cnt p ≡ 0
  used_count : (p : ℕ) → p ∈ s.used_ppage → s.ref_cnt p ≡ 1
  word_count : (p : ℕ) → s.ref_cnt p < 2 ^ 32
  address : (p : ℕ) → p < n → s.paddr p ≡ p * page_size
  total : s.physmem_total_pages ≡ n

-- A page goes on a list exactly when it is not reserved, that is not below the base.
abbrev Fits : Mark → (base addr : ℕ) → Type 0
Fits mark_reserved base addr = addr < base
Fits _ base addr = base ≤ addr

mark_of-Fits :
    (base core_base core_top b_kernel addr : ℕ)
    → Fits (mark_of base core_base core_top b_kernel addr) base addr
unfolding mark_of
mark_of-Fits base core_base core_top b_kernel addr = ground arith

module _ (s : Physmem) (n : ℕ) (v : Partial s n) (small : n + 1 < 2 ^ 32) where
  round-reserved : n * page_size < s.physmem_base → Partial (fresh_page s n) (suc n)
  unfolding fresh_page
  round-reserved f = record {
    few_pages = omega (arith, v.few_pages);
    counted = v.counted;
    free_distinct = v.free_distinct;
    used_distinct = v.used_distinct;
    apart = v.apart;
    free_below = λ p m. ground (arith, v.free_below p m);
    used_below = λ p m. ground (arith, v.used_below p m);
    listed = λ p b h. ground (arith, v.listed p b);
    free_count = λ p m. ground (arith, v.free_count p m);
    used_count = λ p m. ground (arith, v.used_count p m, v.used_below p m);
    word_count = λ p. ground (arith, v.word_count p);
    address = λ p h. ground (arith, v.address p);
    total = omega (arith, v.total);
  }

  round-free :
      s.physmem_base ≤ n * page_size → Partial (mark_page (fresh_page s n) n mark_free) (suc n)
  unfolding fresh_page mark_page
  round-free f = record {
    few_pages = omega (arith, v.few_pages);
    counted = v.counted;
    free_distinct = (ground (arith, v.free_below n), v.free_distinct);
    used_distinct = v.used_distinct;
    apart = λ p m. ground (arith, v.apart p, v.used_below p);
    free_below = λ p m. ground (arith, v.free_below p);
    used_below = λ p m. ground (arith, v.used_below p m);
    listed = λ p b h. ground (arith, v.listed p b);
    free_count = λ p m. ground (arith, v.free_count p);
    used_count = λ p m. ground (arith, v.used_count p m, v.used_below p m);
    word_count = λ p. ground (arith, v.word_count p);
    address = λ p h. ground (arith, v.address p);
    total = omega (arith, v.total);
  }

  round-used :
      s.physmem_base ≤ n * page_size → Partial (mark_page (fresh_page s n) n mark_kernel) (suc n)
  unfolding fresh_page mark_page
  round-used f = record {
    few_pages = omega (arith, v.few_pages);
    counted = omega (arith, v.counted, v.few_pages);
    free_distinct = v.free_distinct;
    used_distinct = (ground (arith, v.used_below n), v.used_distinct);
    apart = λ p m. ground (arith, v.apart p m, v.free_below p m);
    free_below = λ p m. ground (arith, v.free_below p m);
    used_below = λ p m. ground (arith, v.used_below p);
    listed = λ p b h. ground (arith, v.listed p b);
    free_count = λ p m. ground (arith, v.free_count p m, v.free_below p m);
    used_count = λ p m. ground (arith, v.used_count p);
    word_count = λ p. ground (arith, v.word_count p);
    address = λ p h. ground (arith, v.address p);
    total = omega (arith, v.total);
  }

round-Partial :
    (s : Physmem) (n : ℕ) (m : Mark)
    → Partial s n
    → n + 1 < 2 ^ 32
    → Fits m s.physmem_base (n * page_size)
    → Partial (mark_page (fresh_page s n) n m) (suc n)
unfolding mark_page
round-Partial s n mark_reserved v small f = round-reserved s n v small f
round-Partial s n mark_free v small f = round-free s n v small f
round-Partial s n mark_kernel v small f = round-used s n v small f
round-Partial s n mark_hwmap v small f = round-used s n v small f

-- A round leaves the bounds alone.
pub round-base :
    (s : Physmem) (n : ℕ) (m : Mark)
    → ((mark_page (fresh_page s n) n m).physmem_base ≡ s.physmem_base)
      × ((mark_page (fresh_page s n) n m).physmem_top ≡ s.physmem_top)
unfolding mark_page fresh_page
round-base s n mark_reserved = (refl, refl)
round-base s n _ = (refl, refl)

module _ (core_base core_top b_kernel : ℕ) where
  setup_loop-Partial :
      (rounds n e : ℕ) (s : Physmem)
      → Partial s n
      → n + rounds ≡ e
      → e < 2 ^ 32
      → let t = setup_loop core_base core_top b_kernel rounds n s in
        Partial t e × (t.physmem_base ≡ s.physmem_base) × (t.physmem_top ≡ s.physmem_top)
  unfolding setup_loop
  setup_loop-Partial zero n e s v sum small =
      let same : n ≡ e = omega arith in (rw same at v, refl, refl)
  setup_loop-Partial (suc rounds) n e s v sum small =
      let m : Mark = mark_of s.physmem_base core_base core_top b_kernel (n * page_size) in
      let next : Partial (mark_page (fresh_page s n) n m) (suc n) =
        round-Partial s n m v (omega arith)
          (mark_of-Fits s.physmem_base core_base core_top b_kernel (n * page_size)) in
      let (w, base, top) =
        setup_loop-Partial rounds (suc n) e (mark_page (fresh_page s n) n m) next (omega arith)
          small in
      (w, base ∙ (round-base s n m).0, top ∙ (round-base s n m).1)

start-Partial :
    (s : Physmem)
    → s.free_ppage ≡ []
    → s.used_ppage ≡ []
    → s.physmem_used_pages ≡ 0
    → s.physmem_total_pages ≡ 0
    → ((p : ℕ) → s.ref_cnt p < 2 ^ 32)
    → Partial s 0
start-Partial s no_free no_used none_used none words = record {
  few_pages = rw (no_free, no_used) (omega arith);
  counted = rw no_used none_used;
  free_distinct = rw no_free tt;
  used_distinct = rw no_used tt;
  apart = rw no_free λ p m. cc;
  free_below = rw no_free λ p m. cc;
  used_below = rw no_used λ p m. cc;
  listed = λ p b h. absurd (omega arith);
  free_count = rw no_free λ p m. cc;
  used_count = rw no_used λ p m. cc;
  word_count = words;
  address = λ p h. absurd (omega arith);
  total = none;
}

Partial-Inv :
    (s : Physmem) (n : ℕ)
    → Partial s n
    → n < 2 ^ 32
    → s.physmem_base ≡ page_size
    → s.physmem_top ≡ n * page_size
    → s.physmem_top ≤ 2 ^ 32
    → Inv s
Partial-Inv s n v small base top fits = record {
  above_zero = omega arith;
  below_4g = fits;
  few_pages = omega (arith, v.few_pages);
  counted = v.counted;
  free_distinct = v.free_distinct;
  used_distinct = v.used_distinct;
  apart = v.apart;
  free_managed = λ p m. omega (arith, v.free_below p m);
  used_managed = λ p m. omega (arith, v.used_below p m);
  listed = λ p m. v.listed p m.0 (omega arith);
  free_count = v.free_count;
  used_count = λ p m. omega (arith, v.used_count p m);
  word_count = v.word_count;
  address = λ p m. v.address p (omega arith);
}

-- When `physmem_setup` succeeds, the allocator is well formed, it has counted every page of the
-- memory; it succeeds when the kernel and the descriptors fit into the memory.
pub physmem_setup-Inv :
    (k : Image) (ram_size : ℕ) (s : Physmem)
    → ram_size < 2 ^ 32
    → ((p : ℕ) → s.ref_cnt p < 2 ^ 32)
    → kernel_core_top k (page_align_inf ram_size) ≤ page_align_inf ram_size
    → let r = physmem_setup k ram_size s in
      (r.0 ≡ true)
      × Inv r.1
      × (r.1.physmem_total_pages ≡ ram_size / page_size)
      × (r.1.physmem_top ≡ page_align_inf ram_size)
unfolding physmem_setup
physmem_setup-Inv k ram_size s small words fits =
    let ram : ℕ = page_align_inf ram_size in
    let start : Physmem = record s {
      free_ppage = [];
      used_ppage = [];
      physmem_total_pages = 0;
      physmem_used_pages = 0;
      physmem_base = page_size;
      physmem_top = ram;
    } in
    let loop =
      setup_loop-Partial (kernel_core_base k) (kernel_core_top k ram) k.b_kernel (ram / page_size) 0
        (ram_size / page_size) start (start-Partial start refl refl refl refl words) (omega arith)
        (omega arith) in
    let t : Physmem =
      setup_loop (kernel_core_base k) (kernel_core_top k ram) k.b_kernel (ram / page_size) 0
        start in
    rw (le→ltb ram (kernel_core_top k ram) fits, if◌then◌else◌)
      (
        refl,
        Partial-Inv t (ram_size / page_size) loop.0 (omega arith) loop.1 loop.2
            (omega (arith, loop.2)),
        loop.0.total,
        loop.2,
      )

-- Otherwise it fails, with no page on either list.
pub physmem_setup_fails :
    (k : Image) (ram_size : ℕ) (s : Physmem)
    → page_align_inf ram_size < kernel_core_top k (page_align_inf ram_size)
    → let r = physmem_setup k ram_size s in
      (r.0 ≡ false) × (r.1.free_ppage ≡ []) × (r.1.used_ppage ≡ [])
unfolding physmem_setup
physmem_setup_fails k ram_size s big =
    rw (lt→ltb (page_align_inf ram_size) (kernel_core_top k (page_align_inf ram_size)) big)
      (refl, refl, refl)
