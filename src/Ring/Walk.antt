-- ===== src/Ring/Walk.antt =====
-- The loops of include/list.h: `list_foreach` visits every element once, in order, and ends;
-- `list_collapse` empties the list in order.
use desiros.Base.{
  ℕ, zero, suc, ◌<◌, ◌≡◌, refl, ap, List, [], ◌∷◌, Option, some, arith, ◌∉◌, ◌==◌, false, length,
}
use desiros.Ring.{Links, list_foreach, list_collapse, list_delete}
use desiros.Ring.Segment.{Linked, IsRing, SameOutside}
use desiros.Ring.Delete.{Deleted, list_delete_first}

foreach-Linked :
    (fuel : ℕ) (s : Links) (list a nb : ℕ) (xs : List ℕ)
    → length xs < fuel
    → 0 < nb
    → list ∉ xs
    → 0 ∉ xs
    → Linked s a xs list
    → list_foreach fuel s list (s.next a) nb ≡ some xs
unfolding list_foreach
foreach-Linked zero s list a nb xs f p out nz l = absurd (omega arith)
foreach-Linked (suc fuel) s list a nb [] f p out nz l = ground arith
foreach-Linked (suc fuel) s list a nb (x ∷ xs) f p out nz l =
    ground (arith, foreach-Linked fuel s list x (suc nb) xs)

-- `list_foreach` visits the elements of the list, in order and each once, and ends after as many
-- rounds.
pub list_foreach_lem :
    (s : Links) (list : ℕ) (xs : List ℕ) (fuel : ℕ)
    → IsRing s list xs
    → length xs < fuel
    → list_foreach fuel s list list 0 ≡ some xs
unfolding list_foreach
list_foreach_lem s list xs zero r f = absurd (omega arith)
list_foreach_lem s list [] (suc fuel) r f = ground arith
list_foreach_lem s list (x ∷ xs) (suc fuel) r f =
    let l : Linked s x xs x = r.cycle in
    rw r.head (ground (arith, r.not_null, r.distinct.0, foreach-Linked fuel s x x 1 xs))

-- `list_collapse` takes out every element, in order, ends with the empty list, and writes only
-- links of the members.
pub list_collapse_lem :
    (fuel : ℕ) (s : Links) (list : ℕ) (xs : List ℕ)
    → IsRing s list xs
    → length xs < fuel
    → (t : Links) × (list_collapse fuel s list ≡ some (xs, t, 0)) × SameOutside xs s t
unfolding list_collapse
list_collapse_lem zero s list xs r f = absurd (omega arith)
list_collapse_lem (suc fuel) s list [] r f = (s, rw r.head refl, λ c out. (refl, refl))
list_collapse_lem (suc fuel) s list (x ∷ xs) r f =
    let d : Deleted s x (x ∷ xs) xs (list_delete s list list) = list_delete_first r in
    let (t, e, same) =
      list_collapse_lem fuel (list_delete s list list).0 (list_delete s list list).1 xs d.ring
        (omega arith) in
    let test : (list == 0) ≡ false = ground (arith, r.head, r.not_null) in
    (
      t,
      rw (test, e) (ap (λ (y : ℕ). Option.some (y ∷ xs, t, 0)) (r.head)),
      λ c out. ground (arith, same c, d.same c),
    )
