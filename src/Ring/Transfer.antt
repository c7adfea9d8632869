-- ===== src/Ring/Transfer.antt =====
-- Two lists in one store: an element goes from one to the other, as the page lists of mem/physmem.c
-- do it.
use desiros.Base.{
  ℕ, ◌≢◌, List, [], ◌∷◌, ◌++◌, arith, ◌∈◌, ◌∉◌, Disjoint, erase, not_mem-erase, has-erase,
}
use desiros.Ring.{Links, list_delete, list_add_head, list_add_tail}
use desiros.Ring.Segment.{IsRing, IsRing-frame}
use desiros.Ring.Insert.{Inserted, list_add_head_lem, list_add_tail_lem}
use desiros.Ring.Delete.{Deleted, list_delete_lem}

module _ {s : Links} {a b : ℕ} {xs ys : List ℕ} (item : ℕ) (ra : IsRing s a xs) (rb : IsRing s b ys)
    (apart : Disjoint xs ys) (m : item ∈ xs) where
  abbrev taken : Links × ℕ
  taken = list_delete s a item

  deleted : Deleted s item xs (erase item xs) taken
  deleted = list_delete_lem item ra m

  other : IsRing taken.0 b ys
  other = IsRing-frame ys xs rb deleted.same (λ c i. ground (arith, apart c))

  item_ne : item ≢ 0
  item_ne = ground (arith, ra.not_null)

  gone : item ∉ erase item xs
  gone = not_mem-erase item xs ra.distinct

  kept :
      {zs : List ℕ} {r : Links × ℕ}
      → Inserted taken.0 item ys zs r
      → IsRing r.0 taken.1 (erase item xs)
  kept i =
      IsRing-frame (erase item xs) (item ∷ ys) deleted.ring i.same
        (λ c n. ground (arith, gone, apart c, has-erase c item xs))

  -- The element goes to the end of the other list: both lists are rings again.
  pub transfer_tail :
      let r = list_add_tail taken.0 b item in
      IsRing r.0 taken.1 (erase item xs) × IsRing r.0 r.1 (ys ++ item ∷ [])
  transfer_tail = let i = list_add_tail_lem item other item_ne (apart item m) in (kept i, i.ring)

  -- The element goes to the front of the other list: both lists are rings again.
  pub transfer_head :
      let r = list_add_head taken.0 b item in
      IsRing r.0 taken.1 (erase item xs) × IsRing r.0 r.1 (item ∷ ys)
  transfer_head = let i = list_add_head_lem item other item_ne (apart item m) in (kept i, i.ring)
