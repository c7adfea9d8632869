-- ===== src/Physmem/Invariant.antt =====
-- Well-formed states of the page allocator.
use desiros.Base.{
  ℕ, ◌+◌, ◌-◌, ◌*◌, ◌^◌, ◌≤◌, ◌<◌, ◌≡◌, refl, true, ◌||◌, [], ◌∷◌, ◌++◌, some, arith, length, has,
  ◌∈◌, ◌∉◌, Distinct, Disjoint, erase, not_mem-erase, has-erase, has-erase_ne, Distinct-erase,
  length-erase, length-append, has-append, Distinct-append,
}
use desiros.Base.Words.{page_size}
use desiros.Physmem.{Physmem, update, get_page_descr_at_paddr}

-- The pages that the allocator hands out: those between `physmem_base` and `physmem_top`.
abbrev pub Managed : Physmem → ℕ → Type 0
Managed s ppage = (s.physmem_base ≤ ppage * page_size) × (ppage * page_size < s.physmem_top)

-- Every managed page is on exactly one list, once: on the free list with a count of 0, on the used
-- list with a count above 0.
pub record Inv (s : Physmem) : Type 0 where
  pub above_zero : 0 < s.physmem_base
  pub below_4g : s.physmem_top ≤ 2 ^ 32
  pub few_pages : length s.free_ppage + length s.used_ppage < 2 ^ 32
  pub counted : s.physmem_used_pages ≡ length s.used_ppage
  pub free_distinct : Distinct s.free_ppage
  pub used_distinct : Distinct s.used_ppage
  pub apart : Disjoint s.free_ppage s.used_ppage
  pub free_managed : (p : ℕ) → p ∈ s.free_ppage → Managed s p
  pub used_managed : (p : ℕ) → p ∈ s.used_ppage → Managed s p
  pub listed : (p : ℕ) → Managed s p → (has p s.free_ppage || has p s.used_ppage) ≡ true
  pub free_count : (p : ℕ) → p ∈ s.free_ppage → s.ref_cnt p ≡ 0
  pub used_count : (p : ℕ) → p ∈ s.used_ppage → 0 < s.ref_cnt p
  pub word_count : (p : ℕ) → s.ref_cnt p < 2 ^ 32
  pub address : (p : ℕ) → Managed s p → s.paddr p ≡ p * page_size

-- The descriptor of an address is found exactly when it is the address of a managed page.
pub descr-Managed :
    (s : Physmem) (addr : ℕ) {p : ℕ}
    → get_page_descr_at_paddr s addr ≡ some p
    → Managed s p × (addr ≡ p * page_size)
unfolding get_page_descr_at_paddr
descr-Managed s addr h = ground arith

pub Managed-descr :
    (s : Physmem) (p : ℕ) → Managed s p → get_page_descr_at_paddr s (p * page_size) ≡ some p
unfolding get_page_descr_at_paddr
Managed-descr s p m = ground arith

-- The three ways in which the operations change the state. A free page comes into use,
abbrev pub acquired : Physmem → ℕ → Physmem
acquired s p = record s {
  free_ppage = erase p s.free_ppage;
  used_ppage = s.used_ppage ++ p ∷ [];
  ref_cnt = update s.ref_cnt p 1;
  physmem_used_pages = s.physmem_used_pages + 1;
}

-- a used page becomes free,
abbrev pub released : Physmem → ℕ → Physmem
released s p = record s {
  free_ppage = p ∷ s.free_ppage;
  used_ppage = erase p s.used_ppage;
  ref_cnt = update s.ref_cnt p 0;
  physmem_used_pages = s.physmem_used_pages - 1;
}

-- or the count of a used page changes.
abbrev pub recounted : Physmem → ℕ → ℕ → Physmem
recounted s p c = record s { ref_cnt = update s.ref_cnt p c }

pub recounted-Inv :
    {s : Physmem} (p c : ℕ) → Inv s → p ∈ s.used_ppage → 0 < c → c < 2 ^ 32 → Inv (recounted s p c)
recounted-Inv {s} p c v m pos small = record {
  above_zero = v.above_zero;
  below_4g = v.below_4g;
  few_pages = v.few_pages;
  counted = v.counted;
  free_distinct = v.free_distinct;
  used_distinct = v.used_distinct;
  apart = v.apart;
  free_managed = v.free_managed;
  used_managed = v.used_managed;
  listed = v.listed;
  free_count = λ q n. ground (arith, v.free_count q n, v.apart q n);
  used_count = λ q n. ground (arith, v.used_count q n);
  word_count = λ q. ground (arith, v.word_count q);
  address = v.address;
}

pub acquired-Inv : {s : Physmem} (p : ℕ) → Inv s → p ∈ s.free_ppage → Inv (acquired s p)
acquired-Inv {s} p v m =
    let fresh : p ∉ s.used_ppage = v.apart p m in
    let gone : p ∉ erase p s.free_ppage = not_mem-erase p s.free_ppage v.free_distinct in
    record {
      above_zero = v.above_zero;
      below_4g = v.below_4g;
      few_pages =
          ground (
            arith,
            v.few_pages,
            length-erase p s.free_ppage m,
            length-append s.used_ppage (p ∷ []),
          );
      counted = ground (arith, v.counted, length-append s.used_ppage (p ∷ []));
      free_distinct = Distinct-erase p s.free_ppage v.free_distinct;
      used_distinct =
          Distinct-append s.used_ppage (p ∷ []) v.used_distinct (refl, tt) λ q n. ground arith;
      apart = λ q n.
          ground
            (arith, v.apart q, has-erase q p s.free_ppage n, has-append q s.used_ppage (p ∷ []));
      free_managed = λ q n. v.free_managed q (has-erase q p s.free_ppage n);
      used_managed = λ q n.
          ground (arith, v.used_managed q, v.free_managed q, has-append q s.used_ppage (p ∷ []));
      listed = λ q n.
          ground (
            arith,
            v.listed q n,
            has-erase_ne q p s.free_ppage,
            has-append q s.used_ppage (p ∷ []),
          );
      free_count = λ q n. ground (arith, v.free_count q, has-erase q p s.free_ppage n);
      used_count = λ q n. ground (arith, v.used_count q, has-append q s.used_ppage (p ∷ []));
      word_count = λ q. ground (arith, v.word_count q);
      address = v.address;
    }

pub released-Inv : {s : Physmem} (p : ℕ) → Inv s → p ∈ s.used_ppage → Inv (released s p)
released-Inv {s} p v m =
    let fresh : p ∉ s.free_ppage = ground (arith, v.apart p) in
    let gone : p ∉ erase p s.used_ppage = not_mem-erase p s.used_ppage v.used_distinct in
    record {
      above_zero = v.above_zero;
      below_4g = v.below_4g;
      few_pages = ground (arith, v.few_pages, length-erase p s.used_ppage m);
      counted = ground (arith, v.counted, length-erase p s.used_ppage m);
      free_distinct = (fresh, v.free_distinct);
      used_distinct = Distinct-erase p s.used_ppage v.used_distinct;
      apart = λ q n. ground (arith, v.apart q, has-erase q p s.used_ppage);
      free_managed = λ q n. ground (arith, v.free_managed q, v.used_managed q);
      used_managed = λ q n. v.used_managed q (has-erase q p s.used_ppage n);
      listed = λ q n. ground (arith, v.listed q n, has-erase_ne q p s.used_ppage);
      free_count = λ q n. ground (arith, v.free_count q);
      used_count = λ q n. ground (arith, v.used_count q, has-erase q p s.used_ppage n);
      word_count = λ q. ground (arith, v.word_count q);
      address = v.address;
    }
