-- ===== src/Ring.antt =====
-- The circular doubly linked lists of include/list.h, on an explicit store of links. An address is
-- a number and 0 is `NULL`. Each macro is a function from the links and the list variable to the
-- new links and the new list variable, assignment by assignment. The names of the link fields, a
-- parameter of the `_named` macros, are those of the record.
pub mod Segment
pub mod Insert
pub mod Middle
pub mod Delete
pub mod Walk
pub mod Transfer
mod Examples
use desiros.Base.{
  ℕ, zero, suc, Bool, true, false, ◌&&◌, ◌||◌, not, List, [], ◌∷◌, Option, none, some, ◌==◌,
  if◌then◌else◌,
}

-- The `prev` and `next` fields of every element.
pub record Links : Type 0 where
  pub prev : ℕ → ℕ
  pub next : ℕ → ℕ

abbrev pub write : (ℕ → ℕ) → ℕ → ℕ → ℕ → ℕ
write f p v q = if q == p then v else f q

-- `p->next = q` and `p->prev = q`
abbrev pub set_next : Links → ℕ → ℕ → Links
set_next s p q = record s { next = write s.next p q }

abbrev pub set_prev : Links → ℕ → ℕ → Links
set_prev s p q = record s { prev = write s.prev p q }

-- `list_init`, `list_is_empty`, `list_get_head` and `list_get_tail`
abbrev pub list_init : ℕ
list_init = 0

abbrev pub list_is_empty : ℕ → Bool
list_is_empty list = list == 0

abbrev pub list_get_head : ℕ → ℕ
list_get_head list = list

unfoldable pub list_get_tail : Links → ℕ → ℕ
list_get_tail s list = if list == 0 then 0 else s.prev list

unfoldable pub list_singleton : Links → ℕ → Links × ℕ
list_singleton s item = (set_next (set_prev s item item) item item, item)

-- `__list_insert_atleft`
unfoldable pub insert_atleft : Links → ℕ → ℕ → Links
insert_atleft s before_this item =
    let s1 = set_next s (s.prev before_this) item in
    let s2 = set_prev s1 item (s1.prev before_this) in
    let s3 = set_prev s2 before_this item in set_next s3 item before_this

unfoldable pub list_insert_before : Links → ℕ → ℕ → ℕ → Links × ℕ
unfolding insert_atleft
list_insert_before s list before_this item =
    (insert_atleft s before_this item, if list == before_this then item else list)

unfoldable pub list_insert_after : Links → ℕ → ℕ → Links
list_insert_after s after_this item =
    let s1 = set_prev s (s.next after_this) item in
    let s2 = set_next s1 item (s1.next after_this) in
    let s3 = set_next s2 after_this item in set_prev s3 item after_this

unfoldable pub list_add_head : Links → ℕ → ℕ → Links × ℕ
unfolding list_insert_before list_singleton
list_add_head s list item =
    let (s', _) =
      if list == 0 then list_singleton s item else list_insert_before s list list item in
    (s', item)

unfoldable pub list_add_tail : Links → ℕ → ℕ → Links × ℕ
unfolding insert_atleft list_singleton
list_add_tail s list item =
    if list == 0 then list_singleton s item else (insert_atleft s list item, list)

-- The body of the `else` of `list_delete`, without the update of the list variable.
unfoldable pub unlink : Links → ℕ → Links
unlink s item =
    let s1 = set_next s (s.prev item) (s.next item) in set_prev s1 (s1.next item) (s1.prev item)

unfoldable pub list_delete : Links → ℕ → ℕ → Links × ℕ
unfolding unlink
list_delete s list item =
    if (s.next item == item) && (s.prev item == item)
    then (set_next (set_prev s item 0) item 0, 0)
    else (let s' = unlink s item in
        let list' = if item == list then s'.next item else list in
        (set_prev (set_next s' item 0) item 0, list'))

-- The popped element, then the links and the list variable.
unfoldable pub list_pop_head : Links → ℕ → ℕ × (Links × ℕ)
unfolding list_delete
list_pop_head s list = let (s', list') = list_delete s list list in (list, (s', list'))

-- The iterators of `list_foreach`, in the order of the rounds; `none` is a loop that outlives its
-- fuel. The body of the loop leaves the links alone.
unfoldable pub list_foreach : ℕ → Links → (list iterator nb_elements : ℕ) → Option (List ℕ)
list_foreach zero s list iterator nb_elements = none
list_foreach (suc fuel) s list iterator nb_elements =
    if not (iterator == 0) && ((nb_elements == 0) || not (iterator == list))
    then elim (list_foreach fuel s list (s.next iterator) (suc nb_elements)) [
      | none ↦ none
      | some rest ↦ some (iterator ∷ rest)
    ]
    else some []

-- The elements that `list_collapse` takes out, with the links and the list variable at the end.
unfoldable pub list_collapse : ℕ → Links → ℕ → Option (List ℕ × Links × ℕ)
unfolding list_delete
list_collapse zero s list = none
list_collapse (suc fuel) s list =
    if list == 0
    then some ([], s, list)
    else (let (s', list') = list_delete s list list in
        elim (list_collapse fuel s' list') [
          | none ↦ none
          | some (rest, t, l) ↦ some (list ∷ rest, t, l)
        ])
