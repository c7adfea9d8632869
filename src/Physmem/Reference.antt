-- ===== src/Physmem/Reference.antt =====
-- Taking pages: `physmem_ref_physpage_new` and `physmem_ref_physpage_at`.
use desiros.Base.{
  ℕ, ◌+◌, ◌*◌, ◌^◌, ◌<◌, ◌≡◌, refl, ◌≢◌, ◌⊎◌, inl, inr, true, false, List, [], ◌∷◌, ◌++◌, none,
  some, arith, has, Bool, Option, ◌∈◌, erase, length-erase, ◌==◌, List-cases, Bool-cases,
  Option-cases,
}
use desiros.Base.Words.{page_size, add32}
use desiros.Physmem.{
  Physmem, update, ref_physpage_new, get_page_descr_at_paddr, ref_physpage_at, take_first,
  take_page, ref_page,
}
use desiros.Physmem.Invariant.{
  Inv, Managed, descr-Managed, Managed-descr, acquired, recounted, acquired-Inv, recounted-Inv,
}

-- With well-formed lists no counter wraps.
pub used_fits : {s : Physmem} (p : ℕ) → Inv s → p ∈ s.free_ppage → s.physmem_used_pages + 1 < 2 ^ 32
used_fits {s} p v m = ground (arith, v.few_pages, v.counted, length-erase p s.free_ppage m)

take_page-free :
    (s : Physmem) (p : ℕ)
    → s.ref_cnt p ≡ 0
    → s.paddr p ≡ p * page_size
    → s.physmem_used_pages + 1 < 2 ^ 32
    → take_page s p ≡ (
      p * page_size,
      record s {
        ref_cnt = update s.ref_cnt p 1;
        used_ppage = s.used_ppage ++ p ∷ [];
        physmem_used_pages = s.physmem_used_pages + 1;
      },
    )
unfolding take_page
take_page-free s p zero_count addr small =
    let wrap : add32 s.physmem_used_pages 1 ≡ s.physmem_used_pages + 1 = omega arith in
    rw (zero_count, addr, wrap) refl

take_first-cons :
    (s : Physmem) (p : ℕ) (rest xs : List ℕ)
    → xs ≡ p ∷ rest
    → s.ref_cnt p ≡ 0
    → s.paddr p ≡ p * page_size
    → s.physmem_used_pages + 1 < 2 ^ 32
    → take_first s xs ≡ (p * page_size, record (acquired s p) { free_ppage = erase p xs })
unfolding take_first erase
take_first-cons s p rest xs e zero_count addr small =
    let same : (p == p) ≡ true = ground arith in
    rw (e, same) (take_page-free (record s { free_ppage = rest }) p zero_count addr small)

-- What a call that finds the page `p` at the head of the free list does.
pub new-acquired :
    {s : Physmem} (p : ℕ) (rest : List ℕ)
    → Inv s
    → s.free_ppage ≡ p ∷ rest
    → ref_physpage_new s ≡ (p * page_size, acquired s p)
unfolding ref_physpage_new
new-acquired {s} p rest v e =
    let m : p ∈ s.free_ppage = rw e (ground arith) in
    take_first-cons s p rest s.free_ppage e (v.free_count p m) (v.address p (v.free_managed p m))
      (used_fits p v m)

-- `physmem_ref_physpage_new` fails, with 0 and the state as it was, exactly on the empty free list;
-- else it hands out the head of the free list, a page that nobody held, with a count of 1, and the
-- state stays well formed.
pub ref_physpage_new_lem :
    (s : Physmem)
    → Inv s
    → ((s.free_ppage ≡ []) × (ref_physpage_new s ≡ (0, s)))
      ⊎ ((p : ℕ) × (rest : List ℕ) × (s.free_ppage ≡ p ∷ rest)
          × (s.ref_cnt p ≡ 0)
          × (ref_physpage_new s ≡ (p * page_size, acquired s p))
          × (p * page_size ≢ 0)
          × Inv (ref_physpage_new s).1)
unfolding ref_physpage_new
ref_physpage_new_lem s v = elim (List-cases s.free_ppage) [
  | inl e ↦ inl (e, rw e refl)
  | inr (p, rest, e) ↦
      let m : p ∈ s.free_ppage = rw e (ground arith) in
      let step = new-acquired p rest v e in
      inr (
        p,
        rest,
        e,
        v.free_count p m,
        step,
        ground (arith, v.free_managed p m, v.above_zero),
        rw step (acquired-Inv p v m),
      )
]

module _ {s : Physmem} (p : ℕ) (v : Inv s) where
  ref_page-free : p ∈ s.free_ppage → ref_page s p ≡ (some false, acquired s p)
  unfolding ref_page
  ref_page-free m =
      let same : (p == p) ≡ true = ground arith in
      let wrap : add32 s.physmem_used_pages 1 ≡ s.physmem_used_pages + 1 =
        omega (arith, used_fits p v m) in
      rw (v.free_count p m, same, wrap) refl

  ref_page-used :
      0 < s.ref_cnt p
      → s.ref_cnt p + 1 < 2 ^ 32
      → ref_page s p ≡ (some true, recounted s p (s.ref_cnt p + 1))
  unfolding ref_page
  ref_page-used pos small =
      let same : (p == p) ≡ true = ground arith in
      let wrap : add32 (s.ref_cnt p) 1 ≡ s.ref_cnt p + 1 = omega arith in
      let test : (s.ref_cnt p + 1 == 1) ≡ false = ground arith in rw (wrap, same, test) refl

  -- A managed page with a count of 0 is on the free list, another is on the used list.
  pub listed_by_count :
      Managed s p
      → ((p ∈ s.free_ppage) × (s.ref_cnt p ≡ 0)) ⊎ ((p ∈ s.used_ppage) × (0 < s.ref_cnt p))
  listed_by_count m = elim (Bool-cases (has p s.free_ppage)) [
    | inl f ↦ inl (f, v.free_count p f)
    | inr u ↦
        let used : p ∈ s.used_ppage = ground (arith, v.listed p m) in
        inr (used, v.used_count p used)
  ]

-- What `physmem_ref_physpage_at` may do at the address of the page `p`.
pub data Referenced (s : Physmem) (addr : ℕ) (r : Option Bool × Physmem) : Type 0 where
  -- not the address of a managed page: -1, and nothing changes
  refused : ((p : ℕ) → Managed s p → addr ≢ p * page_size) → r ≡ (none, s) → Referenced s addr r
  -- a free page: `false`, and the page comes into use
  first :
      (p : ℕ)
      → addr ≡ p * page_size
      → p ∈ s.free_ppage
      → r ≡ (some false, acquired s p)
      → Referenced s addr r
  -- a page in use: `true`, and its count grows
  again :
      (p : ℕ)
      → addr ≡ p * page_size
      → p ∈ s.used_ppage
      → r ≡ (some true, recounted s p (s.ref_cnt p + 1))
      → Referenced s addr r

abbrev pub Unsaturated : Physmem → Type 0
Unsaturated s = (p : ℕ) → s.ref_cnt p + 1 < 2 ^ 32

ref_at-found :
    {s : Physmem} (addr p : ℕ)
    → Inv s
    → s.ref_cnt p + 1 < 2 ^ 32
    → get_page_descr_at_paddr s addr ≡ some p
    → Referenced s addr (ref_physpage_at s addr)
unfolding ref_physpage_at
ref_at-found {s} addr p v small e =
    let (managed, place) = descr-Managed s addr e in
    elim (listed_by_count p v managed) [
      | inl (m, z) ↦ first p place m (rw (e, ref_physpage_at) (ref_page-free p v m))
      | inr (m, pos) ↦ again p place m (rw (e, ref_physpage_at) (ref_page-used p v pos small))
    ]

-- Every call of `physmem_ref_physpage_at` does one of the three, as the address tells.
pub ref_physpage_at-Referenced :
    (s : Physmem) (addr : ℕ) → Inv s → Unsaturated s → Referenced s addr (ref_physpage_at s addr)
unfolding ref_physpage_at
ref_physpage_at-Referenced s addr v small = elim (Option-cases (get_page_descr_at_paddr s addr)) [
  | inl e ↦ refused (λ p m h. ground (arith, Managed-descr s p m)) (rw (e, ref_physpage_at) refl)
  | inr (p, e) ↦ ref_at-found addr p v (small p) e
]

-- And the state stays well formed.
pub Referenced-Inv :
    {s : Physmem} {addr : ℕ} {r : Option Bool × Physmem}
    → Inv s
    → Unsaturated s
    → Referenced s addr r
    → Inv r.1
Referenced-Inv v small (refused h e) = rw e v
Referenced-Inv v small (first p place m e) = rw e (acquired-Inv p v m)
Referenced-Inv {s} v small (again p place m e) =
    rw e (recounted-Inv p (s.ref_cnt p + 1) v m (omega arith) (small p))
