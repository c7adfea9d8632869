-- ===== src/Uvmm/Interval.antt =====
-- `uvmm_unmap` as a whole, on the arenas and on the page tables.
use desiros.Base.{
  ℕ, ◌+◌, ◌/◌, ◌%◌, ◌^◌, ◌≤◌, ◌<◌, ◌≡◌, refl, ap, ◌∙◌, ◌≢◌, Bool, true, false, not, List, [], ◌∷◌,
  ◌++◌, Option, some, length, length-append, ltb, arith, eq→==, ne→==, le→ltb, append_nil,
}
use desiros.Base.Words.{sub32, page_size, page_align_sup}
use desiros.Paging.{paging_unmap_interval}
use desiros.Paging.Intervals.{Range, Gone, paging_unmap_interval_lem}
use desiros.Uvmm.{
  Arena, Uvmm, Status, success, freed, alloc_from, alloc_arena, seek, note, user_offset,
  paging_top_user_address, find_enclosing_or_next_arena,
}
use desiros.Uvmm.Unmapping.{finish_unmap, unmap_from, uvmm_unmap}
use desiros.Uvmm.View.{Chain, Chain-append, Carved, Carved-from, Sought, seek-Sought, Carved-below}
use desiros.Uvmm.Unmapped.{unmap_arenas_lem, note-paging}

-- The interval is unmapped: success, the arenas are in order and map what they did but nothing in
-- the interval, and no page of the interval translates.
pub record Unmapped (s : Uvmm) (u z : ℕ) (out : Option (Status × Uvmm)) : Type 0 where
  pub after : Uvmm
  pub result : out ≡ some (success, after)
  pub chain : Chain user_offset after.list_arena paging_top_user_address
  pub carved : Carved u (u + z) s.list_arena after.list_arena
  pub gone : Gone s.paging after.paging u (z / page_size)

pub note-list_arena : (s : Uvmm) (test : Bool) (c : _) → (note s test c).list_arena ≡ s.list_arena
unfolding note
note-list_arena s true c = refl
note-list_arena s false c = refl

finish_unmap_lem :
    (s t : Uvmm) (u z p : ℕ) (used : Bool)
    → t.paging ≡ s.paging
    → z % page_size ≡ 0
    → Range s.paging u (z / page_size)
    → Chain user_offset t.list_arena paging_top_user_address
    → Carved u (u + z) s.list_arena t.list_arena
    → Unmapped s u z (finish_unmap u z p (used, t))
unfolding finish_unmap
finish_unmap_lem s t u z p used e al r c v =
    let (q, f, g) = paging_unmap_interval_lem s.paging u z al r in
    let w : Uvmm = record t { paging = q; phys_total = sub32 t.phys_total z } in
    let kept : (note w (not used) (freed p)).list_arena ≡ t.list_arena =
      note-list_arena w (not used) (freed p) in
    rw (finish_unmap, ap (λ y. paging_unmap_interval y u z) e ∙ f)
      (record {
        after = note w (not used) (freed p);
        result = refl;
        chain = rw kept c;
        carved = rw kept v;
        gone = rw (note-paging w (not used) (freed p)) g;
      })

unmap_from_lem :
    (s : Uvmm) (u z p : ℕ) (place : List Arena × List Arena)
    → Sought user_offset paging_top_user_address u s.list_arena place
    → u + z < 2 ^ 32
    → z % page_size ≡ 0
    → Range s.paging u (z / page_size)
    → Unmapped s u z (unmap_from s u z p place)
unfolding unmap_from
unmap_from_lem s u z p (before, []) h e al r =
    let listed : s.list_arena ≡ before = h.whole ∙ append_nil before in
    finish_unmap_lem s s u z p false refl al r
      (rw (listed, ← append_nil before)
        (Chain-append user_offset h.middle paging_top_user_address before [] h.in_front h.behind))
      (rw listed (Carved-below u (u + z) user_offset h.middle before h.in_front h.below))
unmap_from_lem s u z p (before, a ∷ after) h e al r =
    let n : ℕ = length (before ++ a ∷ after) + 2 in
    let run =
      unmap_arenas_lem user_offset h.middle paging_top_user_address u z p n s before (a ∷ after)
        h.in_front h.behind h.live h.below (omega (arith, r.below)) (omega arith) e
        (omega (arith, length-append before (a ∷ after))) in
    rw (unmap_from, run.result)
      (finish_unmap_lem s run.after u z p run.used run.same_paging al r run.chain (
        Carved-from u (u + z) s.list_arena (before ++ a ∷ after) run.after.list_arena h.whole
          run.carved))

pub alloc_arena-cons :
    (s : Uvmm) (p : ℕ) (answers : List ℕ)
    → s.answers ≡ p ∷ answers
    → alloc_arena s ≡ (p, record s { answers = answers })
unfolding alloc_arena
alloc_arena-cons s p answers e = ap (alloc_from s) e

-- uvmm_unmap of a page-aligned interval of user space below the page tables' window, whose page
-- tables are there, succeeds when a structure for an arena can be had: the arenas stay in order and
-- apart, the address space maps exactly what it did but nothing in the interval, and no page of the
-- interval translates any more.
pub uvmm_unmap_lem :
    (s : Uvmm) (u size p : ℕ) (answers : List ℕ)
    → Chain user_offset s.list_arena paging_top_user_address
    → user_offset ≤ u
    → size ≢ 0
    → s.answers ≡ p ∷ answers
    → p ≢ 0
    → Range s.paging u (page_align_sup size / page_size)
    → Unmapped s u (page_align_sup size) (uvmm_unmap s u size)
unfolding uvmm_unmap find_enclosing_or_next_arena
uvmm_unmap_lem s u size p answers c o nz e np r =
    let z : ℕ = page_align_sup size in
    let al : z % page_size ≡ 0 = omega arith in
    let got : Uvmm = record s { answers = answers } in
    let place =
      seek-Sought user_offset user_offset paging_top_user_address u s.list_arena [] s.list_arena
        refl (omega arith) c o (omega arith) in
    let run : Unmapped got u z _ =
      unmap_from_lem got u z p (seek [] s.list_arena u) place (omega (arith, r.below)) al r in
    let room : ltb (sub32 paging_top_user_address z) u ≡ false =
      le→ltb (sub32 paging_top_user_address z) u (omega (arith, r.below, al)) in
    let fits : ltb paging_top_user_address u ≡ false =
      le→ltb paging_top_user_address u (omega (arith, r.below)) in
    rw
      (
        uvmm_unmap,
        find_enclosing_or_next_arena,
        eq→== (u % page_size) 0 r.aligned,
        ne→== size 0 nz,
        le→ltb u user_offset o,
        room,
        alloc_arena-cons s p answers e,
        ne→== p 0 np,
        fits,
      )
      (record {
        after = run.after;
        result = run.result;
        chain = run.chain;
        carved = run.carved;
        gone = run.gone;
      })
