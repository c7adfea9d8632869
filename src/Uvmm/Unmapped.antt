-- ===== src/Uvmm/Unmapped.antt =====
-- `uvmm_unmap` takes an interval out of the view of an address space.
use desiros.Base.{
  ℕ, zero, suc, ◌+◌, ◌-◌, ◌^◌, ◌≤◌, ◌<◌, ◌≡◌, refl, sym, ◌∙◌, Bool, true, false, Bool-cases, inl,
  inr, List, [], ◌∷◌, ◌++◌, Option, some, length, ◌==◌, arith, append-snoc, append_nil,
}
use desiros.Uvmm.{Arena, Uvmm, Call, note, account_change_of_arena_prot}
use desiros.Uvmm.Unmapping.{
  discard, note_split, note_head, note_tail, lower_part, upper_part, shifted, unmap_arenas,
}
use desiros.Uvmm.View.{
  place_in, Chain, Carved, Agree, Live, Chain-le, Chain-weaken, Chain-raise, Chain-append,
  Carved-append, Agree-append, Carved-above, Carved-below,
}
use desiros.Uvmm.Cutting.{
  lies_apart, lies_whole, lies_inside, lies_head, lies_tail, add32-fits, sub32-fits, overlap_lem,
  overlap-below, lower_part-place, upper_part-place, shifted-place, Live-above, Agree-whole,
  Carved-inside, Carved-head, Agree-tail,
}

-- What the loop does to the arenas and to the page tables.
pub record Unmaps (low high u e : ℕ) (xs : List Arena) (s : Uvmm) (out : Option (Bool × Uvmm))
    : Type 0 where
  pub used : Bool
  pub after : Uvmm
  pub result : out ≡ some (used, after)
  pub chain : Chain low after.list_arena high
  pub carved : Carved u e xs after.list_arena
  pub same_paging : after.paging ≡ s.paging

-- At the head of the list again: every arena ends below the interval.
wrapped :
    (low mid high u z p n : ℕ) (s : Uvmm) (before : List Arena)
    → Chain low before mid
    → mid ≤ u
    → u ≤ high
    → high < 2 ^ 32
    → Unmaps low high u (u + z) before s (unmap_arenas (suc (suc n)) u z p s before [])
unfolding unmap_arenas
wrapped low mid high u z p n s [] c m l h = record {
  used = false;
  after = record s { list_arena = [] };
  result = refl;
  chain = omega (arith, c, m, l);
  carved = Carved-below u (u + z) low mid [] c m;
  same_paging = refl;
}
wrapped low mid high u z p n s (b ∷ bs) c m l h =
    let below : b.start + b.size ≤ u = omega (arith, Chain-le (b.start + b.size) mid bs c.2, m) in
    rw (unmap_arenas, overlap-below b u z below (omega (arith, below, l, h)))
      (record {
        used = false;
        after = record s { list_arena = b ∷ bs };
        result = refl;
        chain = (c.0, c.1, Chain-raise (b.start + b.size) mid high bs (omega (arith, m, l)) c.2);
        carved = Carved-below u (u + z) low mid (b ∷ bs) c m;
        same_paging = refl;
      })

pub note-paging : (s : Uvmm) (test : Bool) (c : Call) → (note s test c).paging ≡ s.paging
unfolding note
note-paging s true c = refl
note-paging s false c = refl

account-paging :
    (s : Uvmm) (shared : Bool) (size prev new : ℕ)
    → (account_change_of_arena_prot s shared size prev new).paging ≡ s.paging
unfolding account_change_of_arena_prot
account-paging s shared size prev new = elim (Bool-cases (prev == new)) [
  | inl e ↦ rw e refl
  | inr e ↦ rw e refl
]

ruleset paging_kept = (note-paging, account-paging)

discard-paging : (s : Uvmm) (a : Arena) → (discard s a).paging ≡ s.paging
unfolding discard
discard-paging s a = simp paging_kept

note_split-paging : (s : Uvmm) (a : Arena) (u z p : ℕ) → (note_split s a u z p).paging ≡ s.paging
unfolding note_split
note_split-paging s a u z p = simp paging_kept

note_head-paging : (s : Uvmm) (a : Arena) (u z : ℕ) → (note_head s a u z).paging ≡ s.paging
unfolding note_head
note_head-paging s a u z = simp paging_kept

note_tail-paging : (s : Uvmm) (a : Arena) (u : ℕ) → (note_tail s a u).paging ≡ s.paging
unfolding note_tail
note_tail-paging s a u = simp paging_kept

-- The loop on one arena more, from what it does on the rest.
Unmaps-from :
    (low high u e : ℕ) (xs ys : List Arena) (s t : Uvmm) (out : Option (Bool × Uvmm))
    → t.paging ≡ s.paging
    → Agree u e xs ys
    → Unmaps low high u e ys t out
    → Unmaps low high u e xs s out
Unmaps-from low high u e xs ys s t out q c h = record {
  used = h.used;
  after = h.after;
  result = h.result;
  chain = h.chain;
  carved = λ x. h.carved x ∙ sym (c x);
  same_paging = h.same_paging ∙ q;
}

pub unmap_arenas_lem :
    (low mid high u z p n : ℕ) (s : Uvmm) (before after : List Arena)
    → Chain low before mid
    → Chain mid after high
    → Live u after
    → mid ≤ u
    → u ≤ high
    → high < 2 ^ 32
    → u + z < 2 ^ 32
    → length after + 2 ≤ n
    → Unmaps low high u (u + z) (before ++ after) s (unmap_arenas n u z p s before after)
unfolding unmap_arenas
unmap_arenas_lem low mid high u z p zero s before after c d l m k h e f = ground (arith, f)
unmap_arenas_lem low mid high u z p (suc zero) s before after c d l m k h e f = ground (arith, f)
unmap_arenas_lem low mid high u z p (suc (suc n)) s before [] c d l m k h e f =
    rw (append_nil before) (wrapped low mid high u z p n s before c m k h)
unmap_arenas_lem low mid high u z p (suc (suc n)) s before (a ∷ after) c d l m k h e f =
    let p_le : a.start + a.size ≤ high = Chain-le (a.start + a.size) high after d.2 in
    let p_fits : a.start + a.size < 2 ^ 32 = omega (arith, p_le, h) in
    elim (overlap_lem a u z l p_fits e) [
      | lies_apart o g ↦
          rw (unmap_arenas, o)
            (record {
              used = false;
              after = record s { list_arena = before ++ a ∷ after };
              result = refl;
              chain = Chain-append low mid high before (a ∷ after) c d;
              carved =
                  Carved-append low mid u (u + z) before (a ∷ after) (a ∷ after) c m
                    (Carved-above u (u + z) a.start high (a ∷ after) (omega arith, d.1, d.2) g);
              same_paging = refl;
            })
      | lies_whole o g i ↦
          rw (unmap_arenas, o)
            (Unmaps-from low high u (u + z) (before ++ a ∷ after) (before ++ after) s (discard s a)
              (unmap_arenas (suc n) u z p (discard s a) before after) (discard-paging s a)
              (Agree-append u (u + z) before (a ∷ after) after
                (Agree-whole a u z high after d.2 g i))
              (unmap_arenas_lem low mid high u z p (suc n) (discard s a) before after c
                (Chain-weaken (a.start + a.size) mid high after (omega (arith, d.0, d.1)) d.2)
                (Live-above (a.start + a.size) high u after d.2 (omega (arith, l))) m k h e
                (omega (arith, f))))
      | lies_inside o g i ↦
          let b = lower_part a u in
          let t = upper_part a u z p in
          let bs : b.size ≡ u - a.start =
            sub32-fits u a.start (omega (arith, g)) (omega (arith, k, h)) in
          let ts : t.start ≡ u + z = add32-fits u z e in
          let tz : t.size ≡ a.start + a.size - (u + z) = omega (arith, e, p_fits, i) in
          let pt : (x : ℕ) → u + z ≤ x → place_in t x ≡ place_in a x =
            upper_part-place a u z p g e p_fits i in
          rw (unmap_arenas, o)
            (record {
              used = true;
              after = record (note_split s a u z p) { list_arena = before ++ b ∷ t ∷ after };
              result = refl;
              chain = Chain-append low mid high before (b ∷ t ∷ after) c (
                d.0,
                omega (arith, bs, g),
                (
                  omega (arith, bs, ts, g),
                  omega (arith, tz, i),
                  Chain-weaken (a.start + a.size) (t.start + t.size) high after
                      (omega (arith, ts, tz, i)) d.2,
                ),
              );
              carved = Carved-append low mid u (u + z) before (a ∷ after) (b ∷ t ∷ after) c m (
                  Carved-inside a u z high after d.2 b t refl (omega (arith, bs, g)) ts
                    (omega (arith, ts, tz, i)) g (lower_part-place a u) pt);
              same_paging = note_split-paging s a u z p;
            })
      | lies_head o g i j ↦
          let t = shifted a u z in
          let ts : t.start ≡ u + z = omega (arith, g, i, j, p_fits, e) in
          let tz : t.size ≡ a.start + a.size - (u + z) = omega (arith, g, i, j, p_fits, e) in
          rw (unmap_arenas, o)
            (record {
              used = false;
              after = record (note_head s a u z) { list_arena = before ++ t ∷ after };
              result = refl;
              chain = Chain-append low mid high before (t ∷ after) c (
                omega (arith, ts, m, g),
                omega (arith, tz, j),
                Chain-weaken (a.start + a.size) (t.start + t.size) high after
                    (omega (arith, ts, tz, j)) d.2,
              );
              carved = Carved-append low mid u (u + z) before (a ∷ after) (t ∷ after) c m (
                  Carved-head a u z high after d.2 t ts (omega (arith, ts, tz, j)) g
                    (omega (arith, i)) (shifted-place a u z g i e));
              same_paging = note_head-paging s a u z;
            })
      | lies_tail o g i j ↦
          let b = lower_part a u in
          let bs : b.size ≡ u - a.start =
            sub32-fits u a.start (omega (arith, g)) (omega (arith, k, h)) in
          rw (unmap_arenas, o)
            (Unmaps-from low high u (u + z) (before ++ a ∷ after) ((before ++ b ∷ []) ++ after) s
              (note_tail s a u)
              (unmap_arenas (suc n) u z p (note_tail s a u) (before ++ b ∷ []) after)
              (note_tail-paging s a u)
              (rw (append-snoc before b after) (
                Agree-append u (u + z) before (a ∷ after) (b ∷ after) (
                  Agree-tail a u z high after d.2 b g (omega (arith, i)) refl (omega (arith, bs, g))
                    j (lower_part-place a u))))
              (unmap_arenas_lem low u high u z p (suc n) (note_tail s a u) (before ++ b ∷ []) after
                (Chain-append low mid u before (b ∷ []) c
                  (d.0, omega (arith, bs, g), omega (arith, bs, g)))
                (Chain-weaken (a.start + a.size) u high after (omega (arith, i)) d.2)
                (Live-above (a.start + a.size) high u after d.2 (omega (arith, l))) (omega arith) k
                h e (omega (arith, f))))
    ]
