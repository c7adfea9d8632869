-- ===== src/Ring/Insert.antt =====
-- The insertions of include/list.h.
use desiros.Base.{
  ℕ, ◌≡◌, refl, ◌≢◌, List, [], ◌∷◌, ◌++◌, arith, ◌∉◌, Distinct, ne→==, if◌then◌else◌,
}
use desiros.Ring.{
  Links, list_singleton, insert_atleft, list_insert_after, list_add_head, list_add_tail,
}
use desiros.Ring.Segment.{
  Linked, IsRing, IsCycle, SameOutside, prev-mem, Linked-frame, Linked-append_left,
  Linked-append_right, IsCycle-rotate, head_of,
}

-- The segment up to `b` grows by `item` at its end.
atleft-Linked :
    (s : Links) (a b item : ℕ) (xs : List ℕ)
    → Distinct (a ∷ xs)
    → item ∉ a ∷ xs
    → b ∉ xs
    → item ≢ b
    → Linked s a xs b
    → Linked (insert_atleft s b item) a (xs ++ item ∷ []) b
unfolding insert_atleft
atleft-Linked s a b item [] d new out ne l = ground arith
atleft-Linked s a b item (x ∷ xs) d new out ne l = (
  ground (arith, prev-mem s x xs b l.2),
  ground arith,
  atleft-Linked s x b item xs d.1 (ground arith) (ground arith) ne l.2,
)

module _ {s : Links} {x : ℕ} {xs : List ℕ} (item : ℕ) (c : IsCycle s (x ∷ xs)) (some_ptr : item ≢ 0)
    (new : item ∉ x ∷ xs) where
  pub atleft-IsCycle : IsCycle (insert_atleft s x item) (item ∷ x ∷ xs)
  unfolding insert_atleft
  atleft-IsCycle =
      let t = insert_atleft s x item in
      let l : Linked t x (xs ++ item ∷ []) x =
        atleft-Linked s x x item xs c.distinct new c.distinct.0 (ground arith) c.cycle in
      let back : Linked t item [] x = Linked-append_right t x xs item [] x l in
      record {
        not_null = ground (arith, c.not_null);
        distinct = (new, c.distinct);
        cycle = (back.0, back.1, Linked-append_left t x xs item [] x l);
      }

  pub atleft-SameOutside : SameOutside (item ∷ x ∷ xs) s (insert_atleft s x item)
  unfolding insert_atleft
  atleft-SameOutside a out =
      (ground (arith, prev-mem s x xs x c.cycle), ground (arith, prev-mem s x xs x c.cycle))

after-Cycle :
    {s : Links} (x : ℕ) (xs : List ℕ) (item : ℕ)
    → IsCycle s (x ∷ xs)
    → item ∉ x ∷ xs
    → Linked (list_insert_after s x item) x (item ∷ xs) x
unfolding list_insert_after
after-Cycle {s} x [] item c new =
    let l : Linked s x [] x = c.cycle in (ground arith, ground arith, (ground arith, ground arith))
after-Cycle {s} x (y ∷ xs) item c new =
    let l : Linked s x (y ∷ xs) x = c.cycle in
    (
      ground arith,
      ground arith,
      (
        ground arith,
        ground arith,
        Linked-frame s (list_insert_after s x item) y xs x (λ a m. ground (arith, c.distinct.0))
            (λ a m. ground (arith, c.distinct.1.0)) l.2,
      ),
    )

pub after-IsCycle :
    {s : Links} (x : ℕ) (xs : List ℕ) (item : ℕ)
    → IsCycle s (x ∷ xs)
    → item ≢ 0
    → item ∉ x ∷ xs
    → IsCycle (list_insert_after s x item) (x ∷ item ∷ xs)
after-IsCycle x xs item c some_ptr new = record {
  not_null = ground (arith, c.not_null);
  distinct = (ground (arith, c.distinct.0), (ground arith, c.distinct.1));
  cycle = after-Cycle x xs item c new;
}

pub after-SameOutside :
    {s : Links} (x : ℕ) (xs : List ℕ) (item : ℕ)
    → IsCycle s (x ∷ xs)
    → SameOutside (item ∷ x ∷ xs) s (list_insert_after s x item)
unfolding list_insert_after
after-SameOutside {s} x [] item c a out =
    let l : Linked s x [] x = c.cycle in (ground arith, ground arith)
after-SameOutside {s} x (y ∷ xs) item c a out =
    let l : Linked s x (y ∷ xs) x = c.cycle in (ground arith, ground arith)

singleton-IsRing :
    (s : Links) (item : ℕ) → item ≢ 0 → IsRing (list_singleton s item).0 item (item ∷ [])
unfolding list_singleton
singleton-IsRing s item h = record {
  head = refl;
  not_null = ground arith;
  distinct = (refl, tt);
  cycle = (ground arith, ground arith);
}

-- `list_singleton` and its frame.
singleton-SameOutside : (s : Links) (item : ℕ) → SameOutside (item ∷ []) s (list_singleton s item).0
unfolding list_singleton
singleton-SameOutside s item a out = (ground arith, ground arith)

-- What an insertion has to do: the ring holds `ys` afterwards, and only links of `item` and of old
-- members are written.
pub record Inserted (s : Links) (item : ℕ) (xs ys : List ℕ) (r : Links × ℕ) : Type 0 where
  pub ring : IsRing r.0 r.1 ys
  pub same : SameOutside (item ∷ xs) s r.0

pub ring-IsCycle : {s : Links} {list : ℕ} {xs : List ℕ} → IsRing s list xs → IsCycle s xs
ring-IsCycle r = record { not_null = r.not_null; distinct = r.distinct; cycle = r.cycle }

pub cycle-IsRing : {s : Links} (xs : List ℕ) → IsCycle s xs → IsRing s (head_of xs) xs
cycle-IsRing xs c = record {
  head = refl;
  not_null = c.not_null;
  distinct = c.distinct;
  cycle = c.cycle;
}

-- The list variable of a list that is not empty is not `NULL`, so the macros take the other branch.
add_head-cons :
    (s : Links) (x item : ℕ) → x ≢ 0 → list_add_head s x item ≡ (insert_atleft s x item, item)
unfolding list_add_head
add_head-cons s x item h = rw (ne→== x 0 h, if◌then◌else◌) refl

add_tail-cons :
    (s : Links) (x item : ℕ) → x ≢ 0 → list_add_tail s x item ≡ (insert_atleft s x item, x)
unfolding list_add_tail
add_tail-cons s x item h = rw (ne→== x 0 h) refl

add_head-cases :
    {s : Links} {list : ℕ} (xs : List ℕ) (item : ℕ)
    → IsRing s list xs
    → item ≢ 0
    → item ∉ xs
    → Inserted s item xs (item ∷ xs) (list_add_head s list item)
unfolding list_add_head
add_head-cases {s} [] item r p new =
    rw (r.head) (record { ring = singleton-IsRing s item p; same = singleton-SameOutside s item })
add_head-cases {s} {list} (x ∷ xs) item r p new =
    rw (r.head, add_head-cons s x item (ground (arith, r.not_null)))
      (record {
        ring = cycle-IsRing (item ∷ x ∷ xs) (atleft-IsCycle item (ring-IsCycle r) p new);
        same = atleft-SameOutside item (ring-IsCycle r) p new;
      })

-- `list_add_head` puts a new element in front, whether the list is empty or not.
pub list_add_head_lem :
    {s : Links} {list : ℕ} {xs : List ℕ} (item : ℕ)
    → IsRing s list xs
    → item ≢ 0
    → item ∉ xs
    → Inserted s item xs (item ∷ xs) (list_add_head s list item)
list_add_head_lem {xs} item = add_head-cases xs item

add_tail-cases :
    {s : Links} {list : ℕ} (xs : List ℕ) (item : ℕ)
    → IsRing s list xs
    → item ≢ 0
    → item ∉ xs
    → Inserted s item xs (xs ++ item ∷ []) (list_add_tail s list item)
unfolding list_add_tail
add_tail-cases {s} [] item r p new =
    rw (r.head) (record { ring = singleton-IsRing s item p; same = singleton-SameOutside s item })
add_tail-cases {s} {list} (x ∷ xs) item r p new =
    rw (r.head, add_tail-cons s x item (ground (arith, r.not_null)))
      (record {
        ring =
            cycle-IsRing (x ∷ xs ++ item ∷ [])
              (IsCycle-rotate (item ∷ []) (x ∷ xs) (atleft-IsCycle item (ring-IsCycle r) p new));
        same = atleft-SameOutside item (ring-IsCycle r) p new;
      })

-- `list_add_tail` puts a new element at the end, and the list variable stays.
pub list_add_tail_lem :
    {s : Links} {list : ℕ} {xs : List ℕ} (item : ℕ)
    → IsRing s list xs
    → item ≢ 0
    → item ∉ xs
    → Inserted s item xs (xs ++ item ∷ []) (list_add_tail s list item)
list_add_tail_lem {xs} item = add_tail-cases xs item
