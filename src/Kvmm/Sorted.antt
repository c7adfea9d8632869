-- ===== src/Kvmm/Sorted.antt =====
-- `insert_range` keeps a list of ranges in ascending order.
use desiros.Base.{
  ℕ, ◌<◌, ◌≡◌, refl, ap, ◌∙◌, ◌≢◌, false, ◌||◌, Bool-cases, inl, inr, List, [], ◌∷◌, some, ltb,
  ◌==◌, if◌then◌else◌, arith, ◌∈◌, ◌∉◌, has, Distinct, eq→==, ne→==, ℕ_discrete,
}
use desiros.Kvmm.{
  KvmmRange, closest_loop, get_closest_preceding_kvmm_range, insert_after, insert_range,
}

-- The bases ascend strictly.
abbrev pub Ascending : (ℕ → KvmmRange) → List ℕ → Type 0
Ascending h [] = Unit {0}
Ascending h (x ∷ xs) = ((y : ℕ) → y ∈ xs → (h x).base_vaddr < (h y).base_vaddr) × Ascending h xs

-- Insertion by comparison, the reference.
unfoldable pub place : (ℕ → KvmmRange) → ℕ → List ℕ → List ℕ
place h a [] = a ∷ []
place h a (x ∷ xs) = if ltb (h a).base_vaddr (h x).base_vaddr then a ∷ x ∷ xs else x ∷ place h a xs

-- The closest preceding range behind `r`, and the insertion after it.
record After (h : ℕ → KvmmRange) (a r : ℕ) (rs : List ℕ) : Type 0 where
  closest : ℕ
  listed : closest ∈ r ∷ rs
  result : closest_loop h (some r) rs (h a).base_vaddr ≡ some closest
  inserted : insert_after (r ∷ rs) closest a ≡ r ∷ place h a rs

after : (h : ℕ → KvmmRange) (a r : ℕ) (rs : List ℕ) → Distinct (r ∷ rs) → After h a r rs
unfolding closest_loop insert_after place
after h a r [] d = record {
  closest = r;
  listed = ground arith;
  result = refl;
  inserted = rw (eq→== r r refl) refl;
}
after h a r (x ∷ xs) d = elim (Bool-cases (ltb (h a).base_vaddr (h x).base_vaddr)) [
  | inl e ↦ record {
    closest = r;
    listed = ground arith;
    result = rw e refl;
    inserted = rw (eq→== r r refl, e) refl;
  }
  | inr e ↦
      let n = after h a x xs d.1 in
      let ne : (r == n.closest) ≡ false = ne→== r n.closest (λ z.
        let t : r ∈ x ∷ xs = ap (λ u. has u (x ∷ xs)) z ∙ n.listed in ground (arith, t, d.0)) in
      record {
        closest = n.closest;
        listed = ground (arith, n.listed);
        result = rw e n.result;
        inserted = rw (ne, e) (ap (λ ys. r ∷ ys) n.inserted);
      }
]

insert_range-place :
    (h : ℕ → KvmmRange) (xs : List ℕ) (a : ℕ) → Distinct xs → insert_range h xs a ≡ place h a xs
unfolding insert_range get_closest_preceding_kvmm_range closest_loop place
insert_range-place h [] a d = refl
insert_range-place h (x ∷ xs) a d = elim (Bool-cases (ltb (h a).base_vaddr (h x).base_vaddr)) [
  | inl e ↦ rw (insert_range, e) refl
  | inr e ↦ let n = after h a x xs d in rw (insert_range, e, n.result) n.inserted
]

has-place :
    (h : ℕ → KvmmRange) (a q : ℕ) (xs : List ℕ) → has q (place h a xs) ≡ (q == a || has q xs)
unfolding place
has-place h a q [] = refl
has-place h a q (x ∷ xs) = ground (arith, has-place h a q xs)

place-Ascending :
    (h : ℕ → KvmmRange) (a : ℕ) (xs : List ℕ)
    → Ascending h xs
    → ((y : ℕ) → y ∈ xs → (h y).base_vaddr ≢ (h a).base_vaddr)
    → Ascending h (place h a xs)
unfolding place
place-Ascending h a [] s n = (λ y m. ground arith, tt)
place-Ascending h a (x ∷ xs) s n = elim (Bool-cases (ltb (h a).base_vaddr (h x).base_vaddr)) [
  | inl e ↦ rw e (
    λ y m. elim (ℕ_discrete y x) [
      | yes z ↦ rw z (ground arith)
      | no z ↦ ground (arith, s.0 y (ground arith))
    ],
    s,
  )
  | inr e ↦ rw e (
    λ y m. elim (ℕ_discrete y a) [
      | yes z ↦ rw z (ground (arith, n x (ground arith)))
      | no z ↦ s.0 y (ground (arith, has-place h a y xs))
    ],
    place-Ascending h a xs s.1 (λ y m. n y (ground arith)),
  )
]

Ascending-Distinct : (h : ℕ → KvmmRange) (xs : List ℕ) → Ascending h xs → Distinct xs
Ascending-Distinct h [] s = tt
Ascending-Distinct h (x ∷ xs) s = (absent, Ascending-Distinct h xs s.1)
  where
    absent : x ∉ xs
    absent = elim (Bool-cases (has x xs)) [ inl e ↦ ground (arith, s.0 x e) | inr e ↦ e ]

-- insert_range keeps a list of ranges in strictly ascending order of their bases, and adds the new
-- range to it and nothing else, if no range of the list has the new one's base.
pub insert_range-Ascending :
    (h : ℕ → KvmmRange) (xs : List ℕ) (a : ℕ)
    → Ascending h xs
    → ((y : ℕ) → y ∈ xs → (h y).base_vaddr ≢ (h a).base_vaddr)
    → Ascending h (insert_range h xs a)
      × ((q : ℕ) → has q (insert_range h xs a) ≡ (q == a || has q xs))
insert_range-Ascending h xs a s n =
    let e : insert_range h xs a ≡ place h a xs =
      insert_range-place h xs a (Ascending-Distinct h xs s) in
    (rw e (place-Ascending h a xs s n), λ q. rw e (has-place h a q xs))
