-- ===== src/Uvmm/Mapped.antt =====
-- `uvmm_map` at an imposed address: what is there is unmapped, and the request takes its place.
use mathlib.Core.Path.{subst}
use desiros.Base.{
  ℕ, ◌+◌, ◌/◌, ◌%◌, ◌^◌, ◌≤◌, ◌<◌, ◌≡◌, refl, sym, ap, ◌∙◌, ◌≢◌, true, false, ◌&&◌, not, Bool-cases,
  inl, inr, List, [], ◌∷◌, ◌++◌, none, some, ltb, leb, le→ltb, ne→==, arith, dec_lt,
}
use desiros.Base.Words.{sub32, page_size, page_align_sup}
use desiros.Paging.Intervals.{Range}
use desiros.Uvmm.{
  Arena, no_ops, Uvmm, success, freed, user_offset, paging_top_user_address, has_bit,
  arena_map_fixed, seek, find_enclosing_or_next_arena,
}
use desiros.Uvmm.Unmapping.{uvmm_unmap}
use desiros.Uvmm.Mapping.{
  Request, request, new_arena, MappedResource, check_map, choose_address, merges_with_next, map_at,
  map_checked, uvmm_map, return_mmap,
}
use desiros.Uvmm.View.{place_in, view, Chain, Chain-le, Carved, seek-Sought, Live}
use desiros.Uvmm.Interval.{Unmapped, uvmm_unmap_lem, alloc_arena-cons, note-list_arena}
use desiros.Uvmm.Overlaid.{requested, Overlaid-from, Overlaid-Carved, next-place}
use desiros.Uvmm.Placed.{place_mapping_lem}
use desiros.Uvmm.Merging.{Placed, Fits, Continued, next-merges}

-- What stands behind arenas that end below an address.
view-behind :
    (low mid x : ℕ) (xs ys : List Arena)
    → Chain low xs mid
    → mid ≤ x
    → view (xs ++ ys) x ≡ view ys x
unfolding view
view-behind low mid x [] ys c l = refl
view-behind low mid x (a ∷ xs) ys c l = ground (
  arith,
  Chain-le (a.start + a.size) mid xs c.2,
  view-behind (a.start + a.size) mid x xs ys c.2 l,
)

-- The first arena maps its own addresses.
view-head :
    (a : Arena) (xs : List Arena) (x : ℕ)
    → a.start ≤ x
    → x < a.start + a.size
    → view (a ∷ xs) x ≡ some (place_in a x)
unfolding view
view-head a xs x l h = ground arith

-- If nothing is mapped in an interval, the first arena that ends behind its start begins behind it.
free-above :
    (low mid high u z : ℕ) (before after : List Arena)
    → Chain low before mid
    → mid ≤ u
    → 0 < z
    → Chain mid after high
    → u + z ≤ high
    → Live u after
    → ((x : ℕ) → u ≤ x → x < u + z → view (before ++ after) x ≡ none)
    → Chain (u + z) after high
free-above low mid high u z before [] c m p d t l v = t
free-above low mid high u z before (a ∷ after) c m p d t l v = (start, d.1, d.2)
  where
    hit : (x : ℕ) → u ≤ x → x < u + z → a.start ≤ x → x < a.start + a.size → u + z ≤ a.start
    hit x g h i j =
        let e : some (place_in a x) ≡ none =
          sym (view-head a after x i j)
          ∙ sym (view-behind low mid x before (a ∷ after) c (omega (arith, m, g)))
          ∙ v x g h in
        ground (arith, e)

    start : u + z ≤ a.start
    start = elim (dec_lt a.start u) [
      | yes y ↦ hit u (omega arith) (omega (arith, p)) (omega (arith, y)) l
      | no y ↦ elim (dec_lt a.start (u + z)) [
        | yes w ↦ hit a.start (omega (arith, y)) w (omega arith) (omega (arith, d.1))
        | no w ↦ omega (arith, w)
      ]
    ]

-- Does what is mapped just behind the interval continue the request?
abbrev pub NotContinued : Request → List Arena → Type 0
NotContinued r xs = view xs (r.start + r.size) ≢ some (requested r (r.start + r.size))

not_next :
    (low mid high : ℕ) (r : Request) (before after : List Arena)
    → Chain low before mid
    → mid ≤ r.start
    → Chain (r.start + r.size) after high
    → high < 2 ^ 32
    → NotContinued r (before ++ after)
    → merges_with_next after r ≡ false
unfolding merges_with_next
not_next low mid high r before [] c m d h n = refl
not_next low mid high r before (a ∷ after) c m d h n =
    elim (Bool-cases (merges_with_next (a ∷ after) r)) [
      | inr e ↦ e
      | inl e ↦
          let k : Continued a r = next-merges a after r e in
          let le : a.start + a.size ≤ high = Chain-le (a.start + a.size) high after d.2 in
          let next : r.start + r.size ≡ a.start = omega (arith, k.start, d.0, le, h) in
          absurd (
            n (
              view-behind low mid (r.start + r.size) before (a ∷ after) c (omega (arith, m))
              ∙ view-head a after (r.start + r.size) (omega (arith, next))
                  (omega (arith, next, d.1))
              ∙ ap some
                  (next-place a r (r.start + r.size) k.kind k.offset next (omega (arith, next)))))
    ]

map_at_lem :
    (t : Uvmm) (u z rights flags : ℕ) (resource : MappedResource) (offset allocated : ℕ)
    → Chain user_offset t.list_arena paging_top_user_address
    → user_offset ≤ u
    → 0 < z
    → u + z ≤ paging_top_user_address
    → ((x : ℕ) → u ≤ x → x < u + z → view t.list_arena x ≡ none)
    → NotContinued (request u z rights flags resource offset) t.list_arena
    → ((a : Arena) → (resource.mmap a).0 ≡ success)
    → Placed user_offset paging_top_user_address
        (request u z rights flags resource offset)
        t.list_arena
        (map_at (success, u, t) z rights flags resource offset allocated)
unfolding map_at find_enclosing_or_next_arena
map_at_lem t u z rights flags resource offset allocated c o p l v n agrees =
    let r = request u z rights flags resource offset in
    let f = seek [] t.list_arena u in
    let h =
      seek-Sought user_offset user_offset paging_top_user_address u t.list_arena [] t.list_arena
        refl (omega arith) c o (omega arith) in
    let above : Chain (u + z) f.1 paging_top_user_address =
      free-above user_offset h.middle paging_top_user_address u z f.0 f.1 h.in_front h.below p
        h.behind l h.live (λ x g i. ap (λ ys. view ys x) (sym h.whole) ∙ v x g i) in
    let fits : Fits user_offset h.middle paging_top_user_address f.0 f.1 r = record {
      in_order = h.in_front;
      free_below = h.below;
      not_empty = p;
      free_above = above;
      bounded = omega arith;
    } in
    let only : merges_with_next f.1 r ≡ false =
      not_next user_offset h.middle paging_top_user_address r f.0 f.1 h.in_front h.below above
        (omega arith) (λ e. n (ap (λ ys. view ys (u + z)) h.whole ∙ e)) in
    let placed =
      place_mapping_lem user_offset h.middle paging_top_user_address t f.0 f.1 r resource allocated
        fits (agrees (new_arena allocated r no_ops)) (inr only) in
    rw (map_at, find_enclosing_or_next_arena, le→ltb paging_top_user_address u (omega (arith, l)))
      (record {
        mapped = placed.mapped;
        result = placed.result;
        succeeds = placed.succeeds;
        address = placed.address;
        chain = placed.chain;
        overlaid =
            Overlaid-from r t.list_arena (f.0 ++ f.1) placed.mapped.state.list_arena h.whole
              placed.overlaid;
      })

Carved-nothing :
    (u e x : ℕ) (xs ys : List Arena) → Carved u e xs ys → u ≤ x → x < e → view ys x ≡ none
Carved-nothing u e x xs ys c l h =
    let inside : (leb u x && ltb x e) ≡ true = ground arith in c x ∙ rw inside refl

Carved-behind :
    (u z : ℕ) (xs ys : List Arena) → Carved u (u + z) xs ys → view ys (u + z) ≡ view xs (u + z)
Carved-behind u z xs ys c =
    let outside : (leb u (u + z) && ltb (u + z) (u + z)) ≡ false = ground arith in
    c (u + z) ∙ rw outside refl

page_align_sup_aligned : (z : ℕ) → z % page_size ≡ 0 → z ≢ 0 → z < 2 ^ 32 → page_align_sup z ≡ z
page_align_sup_aligned z a n l = omega arith

-- From the tests and the allocation on.
map_checked_lem :
    (s : Uvmm) (u z rights flags : ℕ) (resource : MappedResource) (offset p q : ℕ)
    (answers : List ℕ)
    → has_bit flags arena_map_fixed ≡ true
    → Chain user_offset s.list_arena paging_top_user_address
    → user_offset ≤ u
    → z % page_size ≡ 0
    → z ≢ 0
    → Range s.paging u (z / page_size)
    → s.answers ≡ q ∷ answers
    → q ≢ 0
    → ((a : Arena) → (resource.mmap a).0 ≡ success)
    → NotContinued (request u z rights flags resource offset) s.list_arena
    → Placed user_offset paging_top_user_address
        (request u z rights flags resource offset)
        s.list_arena
        (map_checked s u z rights flags resource offset p)
unfolding map_checked choose_address
map_checked_lem s u z rights flags resource offset p q answers fixed c o whole nz range e nq agrees
      n =
    let r = request u z rights flags resource offset in
    let al : page_align_sup z ≡ z =
      page_align_sup_aligned z whole (omega (arith, nz)) (omega (arith, range.below)) in
    let un : Unmapped s u z (uvmm_unmap s u z) =
      subst (λ y. Unmapped s u y (uvmm_unmap s u z)) al
        (uvmm_unmap_lem s u z q answers c o nz e nq (rw al range)) in
    let top : u + z ≤ paging_top_user_address = omega (arith, range.below) in
    let m =
      map_at_lem un.after u z rights flags resource offset p un.chain o (omega (arith, nz)) top
        (λ x l h. Carved-nothing u (u + z) x s.list_arena un.after.list_arena un.carved l h)
        (λ w. n (sym (Carved-behind u z s.list_arena un.after.list_arena un.carved) ∙ w)) agrees in
    let out = return_mmap p m.mapped in
    let kept : out.state.list_arena ≡ m.mapped.state.list_arena =
      note-list_arena m.mapped.state (not m.mapped.used_preallocated_arena) (freed p) in
    let room : ltb (sub32 paging_top_user_address z) u ≡ false =
      le→ltb (sub32 paging_top_user_address z) u (omega (arith, range.below)) in
    rw (map_checked, fixed, choose_address, le→ltb u user_offset o, room, un.result, m.result)
      (record {
        mapped = out;
        result = refl;
        succeeds = m.succeeds;
        address = m.address;
        chain = rw kept m.chain;
        overlaid = λ x.
            ap (λ ys. view ys x) kept
            ∙ Overlaid-Carved r s.list_arena un.after.list_arena m.mapped.state.list_arena un.carved
                m.overlaid x;
      })

-- uvmm_map with ARENA_MAP_FIXED, which passes the tests of its arguments, at an interval of user
-- space below the page tables' window whose page tables are there, succeeds at that address when two
-- structures for arenas can be had and the resource's mmap agrees: the arenas stay in order and
-- apart, and the address space maps the interval as requested and everything else exactly as before,
-- if what is mapped just behind the interval does not continue the request in the same resource.
pub uvmm_map-fixed_lem :
    (s : Uvmm) (u size rights flags : ℕ) (resource : MappedResource) (offset p q : ℕ)
    (answers : List ℕ)
    → check_map u size rights flags resource offset ≡ success
    → has_bit flags arena_map_fixed ≡ true
    → Chain user_offset s.list_arena paging_top_user_address
    → user_offset ≤ u
    → page_align_sup size ≢ 0
    → Range s.paging u (page_align_sup size / page_size)
    → s.answers ≡ p ∷ q ∷ answers
    → p ≢ 0
    → q ≢ 0
    → ((a : Arena) → (resource.mmap a).0 ≡ success)
    → NotContinued (request u (page_align_sup size) rights flags resource offset) s.list_arena
    → Placed user_offset paging_top_user_address
        (request u (page_align_sup size) rights flags resource offset)
        s.list_arena
        (uvmm_map s u size rights flags resource offset)
unfolding uvmm_map
uvmm_map-fixed_lem s u size rights flags resource offset p q answers check fixed c o nz range e np
      nq agrees n =
    let z : ℕ = page_align_sup size in
    let got : Uvmm = record s { answers = q ∷ answers } in
    let m =
      map_checked_lem got u z rights flags resource offset p q answers fixed c o (omega arith) nz
        range refl nq agrees n in
    rw (uvmm_map, check, alloc_arena-cons s p (q ∷ answers) e, ne→== p 0 np) m
