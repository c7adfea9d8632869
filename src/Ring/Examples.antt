-- ===== src/Ring/Examples.antt =====
-- The list of include/list.h at small inputs, and the theorems at a list of three elements.
use desiros.Base.{◌≡◌, refl, [], ◌∷◌, some, arith, erase}
use desiros.Ring.{
  Links, write, list_add_tail, list_add_head, list_delete, list_foreach, list_collapse,
  list_insert_before, list_insert_after, list_pop_head,
}
use desiros.Ring.Segment.{IsRing, SameOutside}
use desiros.Ring.Insert.{Inserted, list_add_head_lem, list_add_tail_lem}
use desiros.Ring.Middle.{list_insert_before_lem, list_insert_after_lem}
use desiros.Ring.Delete.{Deleted, list_delete_lem, list_pop_head_lem}
use desiros.Ring.Walk.{list_foreach_lem, list_collapse_lem}
use desiros.Ring.Transfer.{transfer_tail, transfer_head}

-- The rings 10, 20, 30 and 50, 60, in memory that holds nothing else.
abbrev links : Links
links = record {
  prev = write (write (write (write (write (λ _. 0) 10 30) 20 10) 30 20) 50 60) 60 50;
  next = write (write (write (write (write (λ _. 0) 10 20) 20 30) 30 10) 50 60) 60 50;
}

links-IsRing : IsRing links 10 (10 ∷ 20 ∷ 30 ∷ [])
links-IsRing = record {
  head = refl;
  not_null = refl;
  distinct = (refl, (refl, (refl, tt)));
  cycle = (refl, refl, (refl, refl, (refl, refl)));
}

others-IsRing : IsRing links 50 (50 ∷ 60 ∷ [])
others-IsRing = record {
  head = refl;
  not_null = refl;
  distinct = (refl, (refl, tt));
  cycle = (refl, refl, (refl, refl));
}

-- The macros build the same ring.
built :
    list_foreach 5 (list_add_tail (list_add_tail (list_add_tail links 0 7).0 7 8).0 7 9).0 7 7 0
    ≡ some (7 ∷ 8 ∷ 9 ∷ [])
unfolding list_foreach list_add_tail
built = refl

list_add_tail_lem_example :
    Inserted links 40 (10 ∷ 20 ∷ 30 ∷ []) (10 ∷ 20 ∷ 30 ∷ 40 ∷ []) (list_add_tail links 10 40)
list_add_tail_lem_example = list_add_tail_lem 40 links-IsRing (omega arith) refl

list_add_head_lem_example :
    Inserted links 40 (10 ∷ 20 ∷ 30 ∷ []) (40 ∷ 10 ∷ 20 ∷ 30 ∷ []) (list_add_head links 10 40)
list_add_head_lem_example = list_add_head_lem 40 links-IsRing (omega arith) refl

list_insert_before_lem_example :
    Inserted links 40
      (10 ∷ 20 ∷ 30 ∷ [])
      (10 ∷ 40 ∷ 20 ∷ 30 ∷ [])
      (list_insert_before links 10 20 40)
list_insert_before_lem_example =
    list_insert_before_lem (10 ∷ []) 20 (30 ∷ []) 40 links-IsRing (omega arith) refl

list_insert_after_lem_example :
    Inserted links 40
      (10 ∷ 20 ∷ 30 ∷ [])
      (10 ∷ 20 ∷ 40 ∷ 30 ∷ [])
      (list_insert_after links 20 40, 10)
list_insert_after_lem_example =
    list_insert_after_lem (10 ∷ []) 20 (30 ∷ []) 40 links-IsRing (omega arith) refl

list_delete_lem_example :
    Deleted links 20 (10 ∷ 20 ∷ 30 ∷ []) (10 ∷ 30 ∷ []) (list_delete links 10 20)
unfolding erase
list_delete_lem_example = list_delete_lem 20 links-IsRing refl

list_pop_head_lem_example :
    ((list_pop_head links 10).0 ≡ 10)
    × Deleted links 10 (10 ∷ 20 ∷ 30 ∷ []) (20 ∷ 30 ∷ []) (list_pop_head links 10).1
list_pop_head_lem_example = list_pop_head_lem links-IsRing

list_foreach_lem_example : list_foreach 4 links 10 10 0 ≡ some (10 ∷ 20 ∷ 30 ∷ [])
list_foreach_lem_example =
    list_foreach_lem links 10 (10 ∷ 20 ∷ 30 ∷ []) 4 links-IsRing (omega arith)

list_collapse_lem_example :
    (t : Links) × (list_collapse 4 links 10 ≡ some (10 ∷ 20 ∷ 30 ∷ [], t, 0))
    × SameOutside (10 ∷ 20 ∷ 30 ∷ []) links t
list_collapse_lem_example =
    list_collapse_lem 4 links 10 (10 ∷ 20 ∷ 30 ∷ []) links-IsRing (omega arith)

transfer_tail_example :
    let r = list_add_tail (list_delete links 10 10).0 50 10 in
    IsRing r.0 (list_delete links 10 10).1 (20 ∷ 30 ∷ []) × IsRing r.0 r.1 (50 ∷ 60 ∷ 10 ∷ [])
unfolding erase
transfer_tail_example = transfer_tail 10 links-IsRing others-IsRing (λ c m. ground arith) refl

transfer_head_example :
    let r = list_add_head (list_delete links 10 10).0 50 10 in
    IsRing r.0 (list_delete links 10 10).1 (20 ∷ 30 ∷ []) × IsRing r.0 r.1 (10 ∷ 50 ∷ 60 ∷ [])
unfolding erase
transfer_head_example = transfer_head 10 links-IsRing others-IsRing (λ c m. ground arith) refl
