-- ===== src/Kvmm/Lookup.antt =====
-- The search for ranges: the one that owns an address, and the first free one that is large enough.
use desiros.Base.{
  ℕ, ◌+◌, ◌*◌, ◌%◌, ◌^◌, ◌<◌, ◌≤◌, ◌≡◌, refl, sym, ap, ◌∙◌, true, false, Bool-cases, inl, inr, List,
  [], ◌∷◌, ◌++◌, Option, none, some, ltb, leb, arith, ◌∈◌, eq→==, ℕ_discrete, dec_lt,
}
use desiros.Base.Words.{add32, page_size, page_align_inf}
use desiros.Paging.{paging_virtual_to_physical}
use desiros.Kvmm.{
  Kvmm, KvmmRange, closest_loop, get_closest_preceding_kvmm_range, find_suitable_free_range,
  lookup_range,
}
use desiros.Kvmm.Sorted.{Ascending}

-- The last range of the list that does not begin behind an address.
pub data Preceding (h : ℕ → KvmmRange) (xs : List ℕ) (v : ℕ) (r : Option ℕ) : Type 0 where
  nothing : r ≡ none → ((y : ℕ) → y ∈ xs → v < (h y).base_vaddr) → Preceding h xs v r
  last :
      (p : ℕ)
      → r ≡ some p
      → p ∈ xs
      → (h p).base_vaddr ≤ v
      → ((y : ℕ) → y ∈ xs → (h p).base_vaddr < (h y).base_vaddr → v < (h y).base_vaddr)
      → Preceding h xs v r

from_last :
    (h : ℕ → KvmmRange) (x : ℕ) (xs : List ℕ) (v : ℕ)
    → Ascending h (x ∷ xs)
    → (h x).base_vaddr ≤ v
    → Preceding h (x ∷ xs) v (closest_loop h (some x) xs v)
unfolding closest_loop
from_last h x [] v s l = last x refl (ground arith) l (λ y m q. ground arith)
from_last h x (z ∷ zs) v s l = elim (Bool-cases (ltb v (h z).base_vaddr)) [
  | inl e ↦ last x (rw e refl) (ground arith) l (λ y m q. elim (ℕ_discrete y z) [
    | yes t ↦ rw t (ground arith)
    | no t ↦ ground (arith, s.1.0 y)
  ])
  | inr e ↦ elim (from_last h z zs v s.1 (ground arith)) [
    | nothing r f ↦ ground (arith, f z)
    | last p r m b f ↦ last p (rw e r) (ground (arith, m)) b (λ y n q. elim (ℕ_discrete y x) [
      | yes t ↦ ground (arith, t, s.0 p m)
      | no t ↦ f y (ground (arith, n)) q
    ])
  ]
]

closest-Preceding :
    (h : ℕ → KvmmRange) (xs : List ℕ) (v : ℕ)
    → Ascending h xs
    → Preceding h xs v (get_closest_preceding_kvmm_range h xs v)
unfolding get_closest_preceding_kvmm_range closest_loop
closest-Preceding h [] v s = nothing refl (λ y m. ground arith)
closest-Preceding h (x ∷ xs) v s = elim (Bool-cases (ltb v (h x).base_vaddr)) [
  | inl e ↦
      nothing (rw e refl) (λ y m. elim (ℕ_discrete y x) [
        | yes t ↦ rw t (ground arith)
        | no t ↦ ground (arith, s.0 y)
      ])
  | inr e ↦ rw e (from_last h x xs v s (ground arith))
]

-- The address is one of the range's.
abbrev pub Covers : KvmmRange → ℕ → Type 0
Covers r v = (r.base_vaddr ≤ v) × (v < r.base_vaddr + r.nb_pages * page_size)

-- The used ranges, in order, do not overlap and do not reach the end of the address space.
pub record Used (s : Kvmm) : Type 0 where
  pub ascending : Ascending s.range_at s.kvmm_used_range_list
  pub apart :
      (p q : ℕ)
      → p ∈ s.kvmm_used_range_list
      → q ∈ s.kvmm_used_range_list
      → (s.range_at p).base_vaddr < (s.range_at q).base_vaddr
      → (s.range_at p).base_vaddr + (s.range_at p).nb_pages * page_size ≤ (s.range_at q).base_vaddr
  pub below :
      (p : ℕ)
      → p ∈ s.kvmm_used_range_list
      → (s.range_at p).base_vaddr + (s.range_at p).nb_pages * page_size < 2 ^ 32

-- What `lookup_range` returns for an address to which no page is mapped.
pub data Owner (s : Kvmm) (v : ℕ) (r : Option ℕ) : Type 0 where
  owned : (p : ℕ) → r ≡ some p → p ∈ s.kvmm_used_range_list → Covers (s.range_at p) v → Owner s v r
  free :
      r ≡ none
      → ((p : ℕ) → p ∈ s.kvmm_used_range_list → Covers (s.range_at p) v → ◌≡◌ {A = ℕ} 0 1)
      → Owner s v r

one_base :
    (h : ℕ → KvmmRange) (xs : List ℕ) (p q : ℕ)
    → Ascending h xs
    → p ∈ xs
    → q ∈ xs
    → (h p).base_vaddr ≡ (h q).base_vaddr
    → p ≡ q
one_base h [] p q s m n e = ground arith
one_base h (x ∷ xs) p q s m n e = elim (ℕ_discrete p x) [
  | yes a ↦ elim (ℕ_discrete q x) [
    | yes b ↦ a ∙ sym b
    | no b ↦ ground (arith, s.0 q (ground arith), ap (λ z. (h z).base_vaddr) a)
  ]
  | no a ↦ elim (ℕ_discrete q x) [
    | yes b ↦ ground (arith, s.0 p (ground arith), ap (λ z. (h z).base_vaddr) b)
    | no b ↦ one_base h xs p q s.1 (ground arith) (ground arith) e
  ]
]

-- When the used ranges are in order and do not overlap, lookup_range of an address to which no page
-- is mapped finds the used range that covers it, and NULL exactly when there is none.
pub lookup_range-Owner :
    (s : Kvmm) (v : ℕ)
    → Used s
    → page_align_inf (paging_virtual_to_physical s.paging v) ≡ 0
    → Owner s v (lookup_range s v)
unfolding lookup_range
lookup_range-Owner s v u unmapped =
    elim (closest-Preceding s.range_at s.kvmm_used_range_list v u.ascending) [
      | nothing r f ↦
          free
            (rw
              (
                lookup_range,
                eq→== (page_align_inf (paging_virtual_to_physical s.paging v)) 0 unmapped,
                r,
              )
              refl)
            (λ p m c. ground (arith, f p m, c.0))
      | last p r m b f ↦
          let size : add32 (s.range_at p).base_vaddr ((s.range_at p).nb_pages * page_size % 2 ^ 32)
              ≡ (s.range_at p).base_vaddr + (s.range_at p).nb_pages * page_size =
            omega (arith, u.below p m) in
          let first : ltb v (s.range_at p).base_vaddr ≡ false = ground arith in
          elim (dec_lt v ((s.range_at p).base_vaddr + (s.range_at p).nb_pages * page_size)) [
            | yes l ↦
                let second : leb ((s.range_at p).base_vaddr + (s.range_at p).nb_pages * page_size) v
                    ≡ false =
                  ground arith in
                owned p
                  (rw
                    (
                      lookup_range,
                      eq→== (page_align_inf (paging_virtual_to_physical s.paging v)) 0 unmapped,
                      r,
                      size,
                      first,
                      second,
                    )
                    refl)
                  m (b, l)
            | no g ↦
                let second : leb ((s.range_at p).base_vaddr + (s.range_at p).nb_pages * page_size) v
                    ≡ true =
                  ground arith in
                free
                  (rw
                    (
                      lookup_range,
                      eq→== (page_align_inf (paging_virtual_to_physical s.paging v)) 0 unmapped,
                      r,
                      size,
                      first,
                      second,
                    )
                    refl)
                  (λ q n c. elim (dec_lt (s.range_at p).base_vaddr (s.range_at q).base_vaddr) [
                    | yes t ↦ ground (arith, f q n t, c.0)
                    | no t ↦ elim (dec_lt (s.range_at q).base_vaddr (s.range_at p).base_vaddr) [
                      | yes t1 ↦ ground (arith, u.apart q p n m t1, c.1)
                      | no t1 ↦
                          (let z : q ≡ p =
                              one_base s.range_at s.kvmm_used_range_list q p u.ascending n m
                                (omega arith) in
                            let c1 : v
                                < (s.range_at p).base_vaddr + (s.range_at p).nb_pages * page_size =
                              rw (← z) c.1 in
                            ground (arith, c1, g))
                    ]
                  ])
          ]
    ]

-- What a first fit finds.
pub data FirstFit (h : ℕ → KvmmRange) (xs : List ℕ) (n : ℕ) (r : Option ℕ) : Type 0 where
  fits :
      (before rest : List ℕ) (p : ℕ)
      → xs ≡ before ++ p ∷ rest
      → r ≡ some p
      → n ≤ (h p).nb_pages
      → ((q : ℕ) → q ∈ before → (h q).nb_pages < n)
      → FirstFit h xs n r
  too_large : r ≡ none → ((q : ℕ) → q ∈ xs → (h q).nb_pages < n) → FirstFit h xs n r

-- find_suitable_free_range finds the first range of the list that has the pages asked for, and NULL
-- exactly when every range is too small.
pub find_suitable_free_range-FirstFit :
    (h : ℕ → KvmmRange) (xs : List ℕ) (n : ℕ) → FirstFit h xs n (find_suitable_free_range h xs n)
unfolding find_suitable_free_range
find_suitable_free_range-FirstFit h [] n = too_large refl (λ q m. ground arith)
find_suitable_free_range-FirstFit h (x ∷ xs) n = elim (Bool-cases (leb n (h x).nb_pages)) [
  | inl e ↦ fits [] xs x refl (rw e refl) (ground arith) (λ q m. ground arith)
  | inr e ↦ elim (find_suitable_free_range-FirstFit h xs n) [
    | fits before rest p q r l f ↦
        fits (x ∷ before) rest p (ap (λ ys. x ∷ ys) q) (rw (e, r) refl) l
          (λ y m. elim (ℕ_discrete y x) [ yes t ↦ rw t (ground arith) | no t ↦ f y (ground arith) ])
    | too_large r f ↦
        too_large (rw (e, r) refl)
          (λ y m. elim (ℕ_discrete y x) [ yes t ↦ rw t (ground arith) | no t ↦ f y (ground arith) ])
  ]
]
