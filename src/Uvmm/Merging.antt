-- ===== src/Uvmm/Merging.antt =====
-- A new mapping that is merged with its neighbours, or linked in between them.
use desiros.Base.{
  ℕ, ◌+◌, ◌^◌, ◌≤◌, ◌<◌, ◌≡◌, refl, ap, ◌∙◌, ◌⊎◌, Bool, true, false, Bool-cases, inl, inr, List, [],
  ◌∷◌, ◌++◌, Option, some, ◌==◌, arith, append-snoc,
}
use desiros.Base.Words.{add32}
use desiros.Uvmm.{
  Arena, ArenaOps, no_ops, Uvmm, success, called_ref, note, add64, account_change_of_arena_prot,
  has_bit, arena_map_shared, join_resource,
}
use desiros.Uvmm.Unmapping.{with_arenas}
use desiros.Uvmm.Mapping.{
  Request, new_arena, same_kind, Prev, absent, in_front, link_new, find_prev, widen_last, Mapped,
  MappedResource, merges_with_preceding, merges_with_next, drop_next, map_new, merge_both,
  account_new, mapped_at,
}
use desiros.Uvmm.View.{place_in, Chain, Chain-le, Chain-weaken, Chain-append}
use desiros.Uvmm.Interval.{note-list_arena}
use desiros.Uvmm.Neighbours.{widen_last-snoc, Chain-snoc}
use desiros.Uvmm.Overlaid.{
  requested, Overlaid, Overlaid-append, preceding-place, next-place, Overlaid-new, Overlaid-prev,
  Overlaid-both,
}

pub account-list_arena :
    (s : Uvmm) (shared : Bool) (size prev new : ℕ)
    → (account_change_of_arena_prot s shared size prev new).list_arena ≡ s.list_arena
unfolding account_change_of_arena_prot
account-list_arena s shared size prev new = elim (Bool-cases (prev == new)) [
  | inl e ↦ rw e refl
  | inr e ↦ rw e refl
]

-- The mapping succeeds at the address asked for: the arenas are in order, and the address space maps
-- the interval as requested and all else as before.
pub record Placed (low high : ℕ) (r : Request) (xs : List Arena) (out : Option Mapped)
    : Type 0 where
  pub mapped : Mapped
  pub result : out ≡ some mapped
  pub succeeds : mapped.status ≡ success
  pub address : mapped.uaddr ≡ r.start
  pub chain : Chain low mapped.state.list_arena high
  pub overlaid : Overlaid r xs mapped.state.list_arena

pub accounted :
    (low high : ℕ) (r : Request) (xs ys : List Arena) (s : Uvmm) (used : Bool)
    → s.list_arena ≡ ys
    → Chain low ys high
    → Overlaid r xs ys
    → Placed low high r xs (
        some (record {
          status = success;
          uaddr = r.start;
          used_preallocated_arena = used;
          state = account_new s r;
        }))
accounted low high r xs ys s used e c o =
    let kept : (account_new s r).list_arena ≡ ys =
      account-list_arena s (has_bit r.flags arena_map_shared) r.size 0 r.access_rights ∙ e in
    record {
      mapped = record {
        status = success;
        uaddr = r.start;
        used_preallocated_arena = used;
        state = account_new s r;
      };
      result = refl;
      succeeds = refl;
      address = refl;
      chain = rw kept c;
      overlaid = λ x. rw kept (o x);
    }

pub place_in-ops :
    (allocated : ℕ) (r : Request) (ops : ArenaOps) (x : ℕ)
    → place_in (new_arena allocated r ops) x ≡ requested r x
unfolding place_in
place_in-ops allocated r ops x = refl

-- A new arena, linked in between.
pub map_new_lem :
    (low mid high : ℕ) (s : Uvmm) (prev : Prev) (before after : List Arena) (r : Request)
    (resource : MappedResource) (allocated : ℕ)
    → ((b : Arena) → link_new prev before after b ≡ before ++ b ∷ after)
    → Chain low before mid
    → mid ≤ r.start
    → 0 < r.size
    → Chain (r.start + r.size) after high
    → (resource.mmap (new_arena allocated r no_ops)).0 ≡ success
    → Placed low high r (before ++ after) (map_new s prev before after r resource allocated)
unfolding map_new
map_new_lem low mid high s prev before after r resource allocated k c m z d e =
    let b = new_arena allocated r (resource.mmap (new_arena allocated r no_ops)).1 in
    let t = join_resource (with_arenas s (link_new prev before after b)) r.resource allocated in
    rw (map_new, e)
      (accounted low high r (before ++ after) (before ++ b ∷ after)
        (note t b.ops.ref (called_ref allocated)) true
        (note-list_arena t b.ops.ref (called_ref allocated) ∙ k b)
        (Chain-append low mid high before (b ∷ after) c (m, z, d))
        (Overlaid-append low mid r before after (b ∷ after) c m
          (Overlaid-new r after high d b refl refl (place_in-ops allocated r b.ops))))

-- The place where a new mapping goes, which is free, and the callback that agrees to it.
pub record Fits (low mid high : ℕ) (before after : List Arena) (r : Request) : Type 0 where
  pub in_order : Chain low before mid
  pub free_below : mid ≤ r.start
  pub not_empty : 0 < r.size
  pub free_above : Chain (r.start + r.size) after high
  pub bounded : high < 2 ^ 32

-- Nothing but the next arena is widened only together with the previous one.
abbrev pub NotOnlyNext : List Arena → List Arena → Request → Type 0
NotOnlyNext before after r =
    (merges_with_preceding (find_prev before after r.start) r ≡ true)
    ⊎ (merges_with_next after r ≡ false)

pub absent-merges : (r : Request) → merges_with_preceding absent r ≡ false
unfolding merges_with_preceding
absent-merges r = refl

-- What the tests for merging say.
pub record Continues (p : Arena) (r : Request) : Type 0 where
  kind : same_kind p r ≡ true
  offset : add64 p.offset_in_resource p.size ≡ r.offset
  start : add32 p.start p.size ≡ r.start

pub in_front-merges :
    (p : Arena) (r : Request) → merges_with_preceding (in_front p) r ≡ true → Continues p r
unfolding merges_with_preceding
in_front-merges p r h = record { kind = ground arith; offset = ground arith; start = ground arith }

pub record Continued (n : Arena) (r : Request) : Type 0 where
  pub kind : same_kind n r ≡ true
  pub offset : add64 r.offset r.size ≡ n.offset_in_resource
  pub start : add32 r.start r.size ≡ n.start

pub next-merges :
    (n : Arena) (after : List Arena) (r : Request)
    → merges_with_next (n ∷ after) r ≡ true
    → Continued n r
unfolding merges_with_next
next-merges n after r h = record {
  kind = ground arith;
  offset = ground arith;
  start = ground arith;
}

-- The last arena before the mapping, wider than before.
abbrev pub wider : Arena → ℕ → Arena
wider p more = record p { size = add32 p.size more }

pub wider-place : (p : Arena) (more x : ℕ) → place_in (wider p more) x ≡ place_in p x
unfolding place_in
wider-place p more x = refl

pub drop_next-list_arena : (s : Uvmm) (n : Arena) → (drop_next s n).list_arena ≡ s.list_arena
unfolding drop_next
drop_next-list_arena s n = simp note-list_arena

-- The last arena in front, and where it ends.
pub widened :
    (low mid high : ℕ) (s : Uvmm) (xs : List Arena) (p : Arena) (after : List Arena) (r : Request)
    → Fits low mid high (xs ++ p ∷ []) after r
    → Continues p r
    → Placed low high r
        (xs ++ p ∷ after)
        (mapped_at r (with_arenas s (widen_last (xs ++ p ∷ []) r.size ++ after)))
widened low mid high s xs p after r f k =
    let c = Chain-snoc low mid xs p f.in_order in
    let le : r.start + r.size ≤ high = Chain-le (r.start + r.size) high after f.free_above in
    let end : p.start + p.size ≡ r.start =
      omega (arith, k.start, c.2, f.free_below, le, f.bounded) in
    let size : add32 p.size r.size ≡ p.size + r.size = omega (arith, end, le, f.bounded) in
    accounted low high r (xs ++ p ∷ after) (xs ++ wider p r.size ∷ after)
      (with_arenas s (widen_last (xs ++ p ∷ []) r.size ++ after)) false
      (ap (λ l. l ++ after) (widen_last-snoc xs p r.size) ∙ append-snoc xs (wider p r.size) after)
      (Chain-append low p.start high xs (wider p r.size ∷ after) c.0 (
        omega arith,
        omega (arith, size, c.1),
        Chain-weaken (r.start + r.size) (p.start + add32 p.size r.size) high after
            (omega (arith, size, end)) f.free_above,
      ))
      (Overlaid-append low p.start r xs (p ∷ after) (wider p r.size ∷ after) c.0
        (omega (arith, end))
        (Overlaid-prev r after high f.free_above p (wider p r.size) end refl size
          (wider-place p r.size) (λ x l. preceding-place p r x k.kind k.offset end l)))

pub merged_both :
    (low mid high : ℕ) (s : Uvmm) (xs : List Arena) (p : Arena) (after : List Arena) (r : Request)
    → Fits low mid high (xs ++ p ∷ []) after r
    → Continues p r
    → merges_with_next after r ≡ true
    → Placed low high r (xs ++ p ∷ after) (merge_both s (in_front p) (xs ++ p ∷ []) after r)
unfolding merge_both merges_with_next
merged_both low mid high s xs p [] r f k h = ground arith
merged_both low mid high s xs p (n ∷ after) r f k h =
    let c = Chain-snoc low mid xs p f.in_order in
    let d = f.free_above in
    let m = next-merges n after r h in
    let le : n.start + n.size ≤ high = Chain-le (n.start + n.size) high after d.2 in
    let end : p.start + p.size ≡ r.start =
      omega (arith, k.start, c.2, f.free_below, d.0, le, f.bounded) in
    let next : r.start + r.size ≡ n.start = omega (arith, m.start, d.0, le, f.bounded) in
    let more : ℕ = add32 r.size n.size in
    let size : add32 p.size more ≡ p.size + (r.size + n.size) =
      omega (arith, end, next, le, f.bounded) in
    let q = wider p more in
    accounted low high r (xs ++ p ∷ n ∷ after) (xs ++ q ∷ after)
      (with_arenas (drop_next s n) (widen_last (xs ++ p ∷ []) more ++ after)) false
      (ap (λ l. l ++ after) (widen_last-snoc xs p more) ∙ append-snoc xs q after)
      (Chain-append low p.start high xs (q ∷ after) c.0 (
        omega arith,
        omega (arith, size, c.1),
        Chain-weaken (n.start + n.size) (p.start + add32 p.size more) high after
            (omega (arith, size, end, next)) d.2,
      ))
      (Overlaid-append low p.start r xs (p ∷ n ∷ after) (q ∷ after) c.0 (omega (arith, end)) (
        Overlaid-both r p q n after end next refl size (wider-place p more)
          (λ x l. preceding-place p r x k.kind k.offset end l)
          (λ x l. next-place n r x m.kind m.offset next l)))
