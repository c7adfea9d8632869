-- ===== src/Uvmm/Placed.antt =====
-- `uvmm_map` at a free interval: merging with the neighbours, or a new arena.
use mathlib.Core.Path.{subst}
use desiros.Base.{
  ℕ, suc, ◌+◌, ◌≡◌, refl, sym, ap, ◌∙◌, false, Bool-cases, inl, inr, List, [], ◌∷◌, ◌++◌, arith,
  append-snoc,
}
use desiros.Uvmm.{Arena, no_ops, Uvmm, success}
use desiros.Uvmm.Mapping.{
  Request, new_arena, absent, in_front, link_new, find_prev, MappedResource, merges_with_preceding,
  merges_with_next, place_mapping,
}
use desiros.Uvmm.View.{Chain-weaken}
use desiros.Uvmm.Neighbours.{Last-cases, find_prev-absent, find_prev-in_front, Chain-snoc}
use desiros.Uvmm.Merging.{
  Placed, Fits, NotOnlyNext, Continues, map_new_lem, absent-merges, in_front-merges, widened,
  merged_both,
}

place_at_head :
    (low mid high : ℕ) (s : Uvmm) (after : List Arena) (r : Request) (resource : MappedResource)
    (allocated : ℕ)
    → Fits low mid high [] after r
    → (resource.mmap (new_arena allocated r no_ops)).0 ≡ success
    → NotOnlyNext [] after r
    → Placed low high r after (place_mapping s ([], after) r resource allocated)
unfolding place_mapping
place_at_head low mid high s after r resource allocated f e n =
    let no_prev : find_prev [] after r.start ≡ absent = find_prev-absent r.start high after (
      Chain-weaken (r.start + r.size) (suc r.start) high after (omega (arith, f.not_empty))
        f.free_above) in
    let lone : merges_with_preceding (find_prev [] after r.start) r ≡ false =
      ap (λ q. merges_with_preceding q r) no_prev ∙ absent-merges r in
    let only : merges_with_next after r ≡ false = elim n [
      | inl y ↦ ground (arith, y, lone)
      | inr y ↦ y
    ] in
    rw (place_mapping, lone, only, no_prev)
      (map_new_lem low mid high s absent [] after r resource allocated (λ b. refl) f.in_order
        f.free_below f.not_empty f.free_above e)

place_behind :
    (low mid high : ℕ) (s : Uvmm) (xs : List Arena) (p : Arena) (after : List Arena) (r : Request)
    (resource : MappedResource) (allocated : ℕ)
    → Fits low mid high (xs ++ p ∷ []) after r
    → (resource.mmap (new_arena allocated r no_ops)).0 ≡ success
    → NotOnlyNext (xs ++ p ∷ []) after r
    → Placed low high r
        ((xs ++ p ∷ []) ++ after)
        (place_mapping s (xs ++ p ∷ [], after) r resource allocated)
unfolding place_mapping
place_behind low mid high s xs p after r resource allocated f e n =
    let c = Chain-snoc low mid xs p f.in_order in
    let here : find_prev (xs ++ p ∷ []) after r.start ≡ in_front p =
      find_prev-in_front r.start xs after p (omega (arith, c.2, f.free_below)) in
    elim (Bool-cases (merges_with_preceding (find_prev (xs ++ p ∷ []) after r.start) r)) [
      | inl y ↦
          let k : Continues p r =
            in_front-merges p r (sym (ap (λ q. merges_with_preceding q r) here) ∙ y) in
          elim (Bool-cases (merges_with_next after r)) [
            | inl z ↦
                rw (place_mapping, y, z, here, append-snoc xs p after)
                  (merged_both low mid high s xs p after r f k z)
            | inr z ↦
                rw (place_mapping, y, z, here, append-snoc xs p after)
                  (widened low mid high s xs p after r f k)
          ]
      | inr y ↦
          let only : merges_with_next after r ≡ false = elim n [
            | inl w ↦ ground (arith, y, w)
            | inr w ↦ w
          ] in
          rw (place_mapping, y, only)
            (map_new_lem low mid high s (find_prev (xs ++ p ∷ []) after r.start) (xs ++ p ∷ [])
              after r resource allocated (λ b. ap (λ q. link_new q (xs ++ p ∷ []) after b) here)
              f.in_order f.free_below f.not_empty f.free_above e)
    ]

-- A free place: what place_mapping does there.
pub place_mapping_lem :
    (low mid high : ℕ) (s : Uvmm) (before after : List Arena) (r : Request)
    (resource : MappedResource) (allocated : ℕ)
    → Fits low mid high before after r
    → (resource.mmap (new_arena allocated r no_ops)).0 ≡ success
    → NotOnlyNext before after r
    → Placed low high r (before ++ after) (place_mapping s (before, after) r resource allocated)
place_mapping_lem low mid high s before after r resource allocated = elim (Last-cases before) [
  | inl e ↦ subst Goal (sym e) (place_at_head low mid high s after r resource allocated)
  | inr l ↦
      subst Goal (sym l.whole)
        (place_behind low mid high s l.init l.last after r resource allocated)
]
  where
    Goal : List Arena → Type 0
    Goal b =
        Fits low mid high b after r
        → (resource.mmap (new_arena allocated r no_ops)).0 ≡ success
        → NotOnlyNext b after r
        → Placed low high r (b ++ after) (place_mapping s (b, after) r resource allocated)
